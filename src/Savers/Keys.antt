-- ===== src/Savers/Keys.antt =====
-- The names of stores and the keys of items.
use langchain_azure.Base.{
  ℕ, ◌+◌, ◌-◌, ◌≤◌, false, Option, none, some, [], ◌∷◌, ◌++◌, String, ◌≡◌, refl, ap, arith,
  if◌then◌else◌, ◌==◌, nat_eq, length, take, length-append, length-take, leb, leb→le, contains,
  Bool-cases, inl, inr,
}
use langchain_azure.Base.Words.{Text, codes, slash}
use langchain_azure.Base.Integer.{ℤ, pos, negsuc}
use langchain_azure.Base.Format.{show_number}

abbrev pub split_step : ℕ → Text → Option (Text × Text) → Option (Text × Text)
split_step c cs (some (a, b)) = some (c ∷ a, b)
split_step c cs none = if c == slash then some ([], cs) else none

-- text.rpartition("/"), where the separator is there
unfoldable pub split_last : Text → Option (Text × Text)
split_last [] = none
split_last (c ∷ cs) = split_step c cs (split_last cs)

abbrev pub parsed : Text → Option (Text × Text) → Text × Text
parsed key none = ([], key)
parsed key (some (ns, id)) = (ns, id)

-- `_parse_checkpoint_key`
unfoldable pub parse_checkpoint_key : Text → Text × Text
unfolding split_last
parse_checkpoint_key key = parsed key (split_last key)

-- `_checkpoint_key`
unfoldable pub checkpoint_key : String → String → Text
checkpoint_key ns id = codes ns ++ slash ∷ codes id

-- str(index)
abbrev pub show_int : ℤ → Text
show_int (pos n) = show_number n
show_int (negsuc n) = codes "-" ++ show_number (n + 1)

-- `_write_key`
unfoldable pub write_key : String → String → String → ℤ → Text
write_key ns id task index =
    codes ns
    ++ codes "/writes/"
    ++ codes id
    ++ codes "/"
    ++ codes task
    ++ codes "/"
    ++ show_int index

abbrev pub trimmed : ℕ → Text → Text
trimmed c [] = if c == slash then [] else c ∷ []
trimmed c (d ∷ ds) = c ∷ d ∷ ds

-- prefix.rstrip("/")
unfoldable pub strip_end : Text → Text
strip_end [] = []
strip_end (c ∷ cs) = trimmed c (strip_end cs)

abbrev pub max_store_name_length : ℕ
max_store_name_length = 128

-- `_store_name`. The digest is hashlib.sha256(name).hexdigest().
unfoldable pub store_name : (Text → Text) → Text → String → Text
store_name digest prefix thread_id =
    let name = prefix ++ slash ∷ codes thread_id in
    if leb (length name) max_store_name_length
    then name
    else take (max_store_name_length - length (digest name) - 1) prefix ++ slash ∷ digest name

-- A store's name has at most 128 characters, whatever the prefix and the thread, where a digest has
-- 64 characters.
pub store_name_bounded :
    (digest : Text → Text) (prefix : Text) (thread_id : String)
    → ((name : Text) → length (digest name) ≡ 64)
    → length (store_name digest prefix thread_id) ≤ max_store_name_length
unfolding store_name
store_name_bounded digest prefix thread_id h =
    let name = prefix ++ slash ∷ codes thread_id in
    let cut = max_store_name_length - length (digest name) - 1 in
    elim (Bool-cases (leb (length name) max_store_name_length)) [
      | inl e ↦ rw e (leb→le (length name) max_store_name_length e)
      | inr e ↦ rw e (
          omega (
            arith,
            h name,
            length-append (take cut prefix) (slash ∷ digest name),
            length-take cut prefix,
          ))
    ]

split_last-none : (t : Text) → contains t slash ≡ false → split_last t ≡ none
unfolding split_last
split_last-none [] h = refl
split_last-none (c ∷ cs) h = ground (arith, split_last-none cs)

split_last-append :
    (a b : Text) → contains b slash ≡ false → split_last (a ++ slash ∷ b) ≡ some (a, b)
unfolding split_last nat_eq
split_last-append [] b h = rw (split_last-none b h)
split_last-append (c ∷ a) b h = rw (split_last-append a b h)

-- The key of a checkpoint is parsed into its namespace and its id, if the id has no slash; the
-- namespace may have some.
pub parse_checkpoint_key-checkpoint_key :
    (ns id : String)
    → contains (codes id) slash ≡ false
    → parse_checkpoint_key (checkpoint_key ns id) ≡ (codes ns, codes id)
unfolding parse_checkpoint_key checkpoint_key
parse_checkpoint_key-checkpoint_key ns id h =
    ap (λ o. parsed (codes ns ++ slash ∷ codes id) o) (split_last-append (codes ns) (codes id) h)
