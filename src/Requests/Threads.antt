-- ===== src/Requests/Threads.antt =====
-- `_scope_thread_id` and `_thread_namespace`: the threads of a platform user.
use langchain_azure.Base.{
  ℕ, Bool, true, Option, none, some, [], ◌∷◌, ◌++◌, String, if◌then◌else◌, ◌==◌, ◌&&◌, nat_eq,
  string_eq, length, drop, contains,
}
use langchain_azure.Base.Words.{Text, codes, starts_with}
use langchain_azure.Checkpoints.Config.{Setting}
use langchain_azure.Savers.Saver.{nonempty}

-- `_USER_NAMESPACE_PREFIX`, `_USER_NAMESPACE_SEPARATOR`, `digest_size * 2`
abbrev pub user_prefix : Text
user_prefix = codes "user-"

abbrev pub separator : ℕ
separator = 58

abbrev pub digest_length : ℕ
digest_length = 64

abbrev pub scoped : (String → Text) → Option String → Text → Text
scoped digest none thread_id = thread_id
scoped digest (some user) thread_id = user_prefix ++ (digest user ++ separator ∷ thread_id)

-- `_scope_thread_id`. The digest is hashlib.sha256(user.encode()).hexdigest(); the setting is the
-- `user_id_key` of the context.
unfoldable pub scope_thread_id : (String → Text) → Setting → Text → Text
unfolding string_eq
scope_thread_id digest user thread_id = scoped digest (nonempty user) thread_id

abbrev pub cut_step : ℕ → Text → Option (Text × Text) → Option (Text × Text)
cut_step c cs none = if c == separator then some ([], cs) else none
cut_step c cs (some (a, b)) = if c == separator then some ([], cs) else some (c ∷ a, b)

-- text.partition(":"), where the separator is there
unfoldable pub cut_first : Text → Option (Text × Text)
cut_first [] = none
cut_first (c ∷ cs) = cut_step c cs (cut_first cs)

unfoldable pub all_hex : Text → Bool
all_hex [] = true
all_hex (c ∷ cs) = contains (codes "0123456789abcdef") c && all_hex cs

-- text.removeprefix(prefix)
abbrev pub remove_prefix : Text → Text → Text
remove_prefix prefix t = if starts_with t prefix then drop (length prefix) t else t

abbrev pub is_namespace : Text → Bool
is_namespace prefix =
    starts_with prefix user_prefix
    && (length (remove_prefix user_prefix prefix) == digest_length
        && all_hex (remove_prefix user_prefix prefix))

abbrev pub namespace_of : Option (Text × Text) → Text
namespace_of none = []
namespace_of (some (prefix, rest)) = if is_namespace prefix then prefix ++ separator ∷ [] else []

-- `_thread_namespace`
unfoldable pub thread_namespace : Text → Text
unfolding cut_first all_hex starts_with
thread_namespace thread_id = namespace_of (cut_first thread_id)
