-- ===== src/Checkpoints/Reuse.antt =====
-- `_CheckpointReadContext` and `_RequestCheckpointSaver`. A read has two parts, before and after it
-- awaits the wrapped saver, since a write may come between. A value of `none` stands for an
-- exception. A context that is not bound behaves as one that is not pinned.
use langchain_azure.Base.{
  ℕ, Bool, true, false, Option, none, some, List, [], ◌∷◌, ◌++◌, String, if◌then◌else◌, ◌==◌, not,
  ◌&&◌, contains, string_eq, option_eq, nat_eq,
}
use langchain_azure.Checkpoints.Config.{Setting, null, text, object, Dict, Config, get_or}
use langchain_azure.Checkpoints.Serialized.{Serde, SerializedCheckpoint}

-- What the wrapper uses of the objects around it.
pub record Runtime (S : Serde) : Type 1 where
  pub same_allowlist : S.Allowlist → S.Allowlist → Bool
  pub union : S.Allowlist → S.Allowlist → S.Allowlist
  -- `get_checkpoint_id`
  pub get_checkpoint_id : Config → Option String
  -- `==` of two dictionaries, which calls the `==` of their values
  pub equal : Dict Setting → Dict Setting → Option Bool

abbrev pub standard_keys : List String
standard_keys = "thread_id" ∷ "checkpoint_ns" ∷ "checkpoint_id" ∷ []

abbrev pub without : List String → List String → List String
without [] ks = []
without (j ∷ js) ks = let rest = without js ks in if contains ks j then rest else j ∷ rest

-- `get_request_context().user_id`
abbrev pub User : Type 0
User = Option String

pub record Key : Type 0 where
  pub owner : ℕ
  pub user_id : User
  pub thread_id : String
  pub namespace : String

-- The arguments of the calls that write, the ones that are passed on alone as a number.
pub data Write : Type 0 where
  put : Config → ℕ → Write
  put_writes : Config → ℕ → Option String → Write
  delete_thread : String → Write
  delete_for_runs : List String → Write
  copy_thread : String → String → Write
  prune : List String → String → Write

-- A storage read that is awaited: whether it takes part in the reuse, and `cacheable`.
pub record Ticket : Type 0 where
  pub takes_part : Bool
  pub cacheable : Bool

abbrev pub bypass : Ticket
bypass = record { takes_part = false; cacheable = false }

abbrev pub is_text : Setting → Bool
is_text (text s) = true
is_text v = false

abbrev pub truthy : Option String → Bool
truthy none = false
truthy (some s) = not (s == "")

-- `thread_id is None or request_thread_id == thread_id`
unfoldable pub matches : Setting → String → Bool
unfolding string_eq
matches null request = true
matches (text s) request = request == s
matches (object n) request = false

unfoldable pub thread_of : Config → Setting
unfolding get_or
thread_of config = get_or null config.configurable "thread_id"

unfoldable pub namespace_of : Config → Setting
unfolding get_or
namespace_of config = get_or (text "") config.configurable "checkpoint_ns"

module _ (S : Serde) where
  pub record CachedCheckpoint : Type 0 where
    pub value : Option (SerializedCheckpoint S)
    pub allowlist : S.Allowlist
    pub config_values : Dict Setting

  pub record ReadContext : Type 0 where
    pub key : Option Key
    pub input_checkpoint_id : Option String
    pub active : Bool
    pub cache_enabled : Bool
    pub cache : Option CachedCheckpoint

  -- The wrapper; the saver that it wraps is a clone of `cache_owner` with the allowlist.
  pub record RequestSaver : Type 0 where
    pub cache_owner : ℕ
    pub allowlist : S.Allowlist
    pub config_specs : List String
    pub task_path : Bool

  -- What `pin` may be given.
  pub data Candidate : Type 0 where
    no_saver : Candidate
    bare : ℕ → Candidate
    wrapper : RequestSaver → Candidate

  abbrev pub extra_config_keys : RequestSaver → List String
  extra_config_keys self = without self.config_specs standard_keys

  abbrev pub reference_keys : RequestSaver → List String
  reference_keys self = extra_config_keys self ++ standard_keys

  unfoldable pub invalidate : ReadContext → ReadContext
  invalidate reads = record reads { cache_enabled = false; cache = none }

  unfoldable pub close : ReadContext → ReadContext
  unfolding invalidate
  close reads = invalidate (record reads { active = false })

  abbrev pub owner_of : Candidate → Option ℕ
  owner_of no_saver = none
  owner_of (bare n) = some n
  owner_of (wrapper self) = some self.cache_owner

  abbrev pub key_at : Option ℕ → User → Setting → Setting → Option Key
  key_at (some n) user (text thread) (text ns) =
      some record { owner = n; user_id = user; thread_id = thread; namespace = ns }
  key_at owner user thread ns = none

  abbrev pub pin_key : ReadContext → Option String → Option Key → ReadContext
  pin_key reads id none = reads
  pin_key reads id (some k) = record reads { key = some k; input_checkpoint_id = id }

  abbrev pub key_matches : Option Key → User → RequestSaver → Setting → Setting → Bool
  key_matches none user self thread ns = false
  key_matches (some k) user self thread ns =
      k.owner == self.cache_owner
      && (k.user_id == user && (matches thread k.thread_id && matches ns k.namespace))

  -- `_read_context`: whether the context of the request is the one for these arguments
  unfoldable pub read_context : ReadContext → User → RequestSaver → Setting → Setting → Bool
  unfolding matches string_eq
  read_context reads user self thread ns = reads.active && key_matches reads.key user self thread ns

  unfoldable pub invalidate_if : Bool → ReadContext → ReadContext
  unfolding invalidate
  invalidate_if b reads = if b then invalidate reads else reads

  -- `_invalidate_config`
  unfoldable pub invalidate_config : ReadContext → User → RequestSaver → Config → ReadContext
  unfolding invalidate_if read_context thread_of namespace_of
  invalidate_config reads user self config =
      invalidate_if (read_context reads user self (thread_of config) (namespace_of config)) reads

  abbrev pub thread_in : Option Key → Option (List String) → Bool
  thread_in none threads = false
  thread_in (some k) none = true
  thread_in (some k) (some ts) = contains ts k.thread_id

  -- `_invalidate_threads`
  unfoldable pub invalidate_threads :
      ReadContext → User → RequestSaver → Option (List String) → ReadContext
  unfolding invalidate_if read_context string_eq
  invalidate_threads reads user self threads =
      invalidate_if (read_context reads user self null null && thread_in reads.key threads) reads

  -- What each call that writes does to the context before it awaits the wrapped saver.
  unfoldable pub before : ReadContext → User → RequestSaver → Write → ReadContext
  unfolding invalidate_config invalidate_threads
  before reads user self (put config payload) = invalidate_config reads user self config
  before reads user self (put_writes config payload path) = invalidate_config reads user self config
  before reads user self (delete_thread t) = invalidate_threads reads user self (some (t ∷ []))
  before reads user self (delete_for_runs runs) = invalidate_threads reads user self none
  before reads user self (copy_thread source target) =
      invalidate_threads reads user self (some (target ∷ []))
  before reads user self (prune threads strategy) =
      invalidate_threads reads user self (some threads)

  -- The call that the wrapped saver is given.
  unfoldable pub forwarded : RequestSaver → Write → Write
  forwarded self (put_writes config payload path) =
      put_writes config payload (if self.task_path then path else none)
  forwarded self w = w
