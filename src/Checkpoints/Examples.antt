-- ===== src/Checkpoints/Examples.antt =====
-- The theorems about the reuse of checkpoints, at one request over a storage that counts its puts.
use langchain_azure.Base.{
  ℕ, ◌+◌, Bool, true, false, Option, none, some, [], ◌∷◌, ◌++◌, String, ◌≡◌, ◌≢◌, refl, sym, ap,
  inl, inr, arith, if◌then◌else◌, ◌==◌, ◌&&◌, nat_eq, string_eq, option_eq, eq_sound, Bool-cases,
}
use langchain_azure.Checkpoints.Config.{
  Setting, null, text, object, Dict, Config, get_or, lookup, values_at, restrict, merge,
  reference_config, reference_of,
}
use langchain_azure.Checkpoints.Restored.{IsAround, IsReferenceOf, restore-IsAround}
use langchain_azure.Checkpoints.Serialized.{
  Serde, IsSerde, CheckpointTuple, SerializedCheckpoint, create, restore, reused, each, each_write,
  writes_with,
}
use langchain_azure.Checkpoints.Reuse.{
  Runtime, User, Key, Write, put, put_writes, delete_thread, delete_for_runs, copy_thread, prune,
  thread_of, namespace_of, ReadContext, RequestSaver, wrapper, before, read_context, matches,
  forwarded,
}
use langchain_azure.Checkpoints.Reads.{
  answered, pin, start, start_if, finish, takes_part, is_cacheable, reads_input, from_cache,
  from_compared, from_value, restored_or_awaits, remember, serialized_result,
}
use langchain_azure.Checkpoints.Reach.{Touches}
use langchain_azure.Checkpoints.Steps.{
  Storage, IsIsolated, Reading, State, started, loaded_with, read_starts, read_loads, read_finishes,
  Steps, done, after,
}
use langchain_azure.Checkpoints.Hits.{IsSound, IsExplained}
use langchain_azure.Checkpoints.Runs.{cached_read_is_current}
use langchain_azure.Checkpoints.Ended.{write_ends_reuse}

-- Values that are written as they are.
abbrev plain : Serde
plain = record {
  Value = ℕ;
  Raw = ℕ;
  Allowlist = ℕ;
  dumps_typed = λ a v. some v;
  loads_typed = λ a r. some r;
}

plain-IsSerde : IsSerde plain
plain-IsSerde = record { loads-dumps = λ a v r h. sym h }

abbrev text_of : Option Setting → Option String
text_of (some (text s)) = some s
text_of v = none

abbrev same_values : Dict Setting → Dict Setting → Option Bool
same_values [] [] = some true
same_values [] d = some false
same_values ((j, v) ∷ c) [] = some false
same_values ((j, text s) ∷ c) ((k, text t) ∷ d) =
    let rest = same_values c d in if j == k && s == t then rest else some false
same_values ((j, v) ∷ c) ((k, w) ∷ d) = none

abbrev runtime : Runtime plain
runtime = record {
  same_allowlist = λ a b. a == b;
  union = λ a b. a + b;
  get_checkpoint_id = λ c. text_of (lookup c.configurable "checkpoint_id");
  equal = same_values;
}

runtime-IsSound : IsSound plain runtime
runtime-IsSound a b h = eq_sound a b h

abbrev same_text : Setting → String → Bool
same_text (text s) t = s == t
same_text v t = false

abbrev counts : Key → ℕ → User → Setting → Setting → Bool
counts k owner user t n =
    k.owner == owner && (k.user_id == user && (same_text t k.thread_id && same_text n k.namespace))

abbrev puts : Key → ℕ → User → Write → Bool
puts k owner user (put c p) = counts k owner user (thread_of c) (namespace_of c)
puts k owner user w = false

abbrev tuple : ℕ → Config → CheckpointTuple plain
tuple n config = record {
  config = config;
  parent_config = none;
  header = n;
  channel_values = ("messages", n + 10) ∷ [];
  metadata = 7;
  pending_writes = some (("task", "messages", n + 20) ∷ []);
}

abbrev counted :
    (Key → ℕ) → ℕ → User → Config → Setting → Setting → Option (Option (CheckpointTuple plain))
counted store owner user config (text t) (text n) = some (
    some
      (tuple (store record { owner = owner; user_id = user; thread_id = t; namespace = n }) config))
counted store owner user config t n = none

abbrev storage : Storage plain
storage = record {
  Store = Key → ℕ;
  aget_tuple = λ store owner a user config.
      counted store owner user config (thread_of config) (namespace_of config);
  apply = λ store owner a user w k. if puts k owner user w then store k + 1 else store k;
}

counts_sound :
    (k : Key) (owner : ℕ) (user : User) (t n : Setting)
    → counts k owner user t n ≡ true
    → (k.owner ≡ owner) × (k.user_id ≡ user) × (t ≡ text k.thread_id) × (n ≡ text k.namespace)
counts_sound k owner user null n h = absurd (ground arith)
counts_sound k owner user (object i) n h = absurd (ground arith)
counts_sound k owner user (text s) null h = absurd (ground arith)
counts_sound k owner user (text s) (object i) h = absurd (ground arith)
counts_sound k owner user (text s) (text u) h =
    (ground arith, ground arith, ground arith, ground arith)

puts-Touches :
    (k : Key) (owner : ℕ) (user : User) (w : Write)
    → puts k owner user w ≡ true
    → Touches k owner user w
puts-Touches k owner user (put c p) h =
    let (o, u, t, n) = counts_sound k owner user (thread_of c) (namespace_of c) h in (o, u, (t, n))
puts-Touches k owner user (put_writes c p path) h = absurd (ground arith)
puts-Touches k owner user (delete_thread t) h = absurd (ground arith)
puts-Touches k owner user (delete_for_runs runs) h = absurd (ground arith)
puts-Touches k owner user (copy_thread source target) h = absurd (ground arith)
puts-Touches k owner user (prune threads strategy) h = absurd (ground arith)

puts_elsewhere :
    (store : Key → ℕ) (owner : ℕ) (user : User) (w : Write) (k : Key)
    → ¬ Touches k owner user w
    → (if puts k owner user w then store k + 1 else store k) ≡ store k
puts_elsewhere store owner user w k miss = elim (Bool-cases (puts k owner user w)) [
  | inl hit ↦ absurd (miss (puts-Touches k owner user w hit))
  | inr other ↦ rw other refl
]

storage-IsIsolated : IsIsolated plain storage
storage-IsIsolated = record {
  elsewhere = λ store owner a other user w k config miss n.
      rw (n.thread, n.namespace)
        (ap (λ c. some (some (tuple c config))) (puts_elsewhere store owner user w k miss));
}

abbrev saver : RequestSaver plain
saver = record { cache_owner = 1; allowlist = 0; config_specs = []; task_path = true }

abbrev input : Config
input = record {
  configurable = ("thread_id", text "t") ∷ ("checkpoint_id", text "c1") ∷ [];
  rest = [];
}

abbrev key : Key
key = record { owner = 1; user_id = some "ann"; thread_id = "t"; namespace = "" }

abbrev unpinned : ReadContext plain
unpinned = record {
  key = none;
  input_checkpoint_id = none;
  active = true;
  cache_enabled = true;
  cache = none;
}

abbrev store : Key → ℕ
store k = 4

pinned_key : (pin plain runtime unpinned (wrapper saver) (some "ann") input).key ≡ some key
unfolding pin thread_of namespace_of get_or lookup string_eq
pinned_key = refl

abbrev at_first : State plain runtime storage
at_first = record {
  reads = pin plain runtime unpinned (wrapper saver) (some "ann") input;
  store = store;
  reading = [];
  writing = [];
}

abbrev begun : State plain runtime storage
begun =
    started plain runtime storage at_first (some "ann") saver input
      (start plain runtime at_first.reads (some "ann") saver input)

abbrev one_read : Reading plain
one_read = record {
  user = some "ann";
  saver = saver;
  config = input;
  ticket = record { takes_part = true; cacheable = true };
  loaded = none;
}

begun_reading : begun.reading ≡ one_read ∷ []
unfolding pin start start_if takes_part is_cacheable reads_input from_cache read_context matches
    thread_of namespace_of get_or lookup string_eq nat_eq option_eq
begun_reading = refl

abbrev loaded : State plain runtime storage
loaded = record begun {
  reading = [] ++ loaded_with plain runtime storage one_read (some (some (tuple 4 input))) ∷ [];
}

abbrev finished : State plain runtime storage
finished = record loaded {
  reads =
      finish plain runtime loaded.reads saver input one_read.ticket (some (some (tuple 4 input)));
  reading = [] ++ [];
}

stored_input : some (some (tuple 4 input)) ≡ storage.aget_tuple store 1 0 (some "ann") input
unfolding thread_of namespace_of get_or lookup string_eq
stored_input = refl

read_once : Steps plain runtime storage at_first finished
unfolding start pin nat_eq option_eq
read_once = after at_first begun finished (read_starts at_first (some "ann") saver input) (
    after begun loaded finished
      (read_loads begun [] [] one_read (some (some (tuple 4 input))) begun_reading
        (inr stored_input))
      (after loaded finished finished
        (read_finishes loaded [] []
          (loaded_with plain runtime storage one_read (some (some (tuple 4 input))))
          (some (some (tuple 4 input))) refl refl)
        (done finished)))

read_again :
    (start plain runtime finished.reads (some "ann") saver input).1
    ≡ answered (some (tuple 4 input))
unfolding pin start start_if takes_part is_cacheable reads_input from_cache read_context matches
    thread_of namespace_of get_or lookup string_eq nat_eq option_eq finish remember
    serialized_result create each writes_with each_write reference_config reference_of restrict
    values_at from_compared from_value restored_or_awaits restore reused merge
read_again = refl

cached_read_is_current_example :
    IsExplained plain runtime storage key
      (pin plain runtime unpinned (wrapper saver) (some "ann") input).input_checkpoint_id
      store
      (some "ann")
      saver
      input
      (some (tuple 4 input))
unfolding start pin nat_eq option_eq
cached_read_is_current_example =
    cached_read_is_current plain runtime storage plain-IsSerde runtime-IsSound storage-IsIsolated
      unpinned (wrapper saver) (some "ann") input key store finished refl refl pinned_key read_once
      (some "ann") saver input (some (tuple 4 input)) read_again

addressed : Touches key 1 (some "ann") (put input 9)
unfolding thread_of namespace_of get_or lookup string_eq
addressed = (refl, refl, (refl, refl))

abbrev overwritten : State plain runtime storage
overwritten = record finished {
  reads = before plain finished.reads (some "ann") saver (put input 9);
  writing =
      record { user = some "ann"; saver = saver; call = forwarded plain saver (put input 9) } ∷ [];
}

finished_pinned : (finished.reads.key ≡ some key) × (finished.reads.active ≡ true)
unfolding pin start start_if takes_part is_cacheable reads_input from_cache read_context matches
    thread_of namespace_of get_or lookup string_eq nat_eq option_eq finish remember
    serialized_result create each writes_with each_write reference_config reference_of restrict
    values_at from_compared from_value restored_or_awaits restore reused merge
finished_pinned = (refl, refl)

write_ends_reuse_example :
    (start plain runtime overwritten.reads (some "ann") saver input).1
    ≢ answered (some (tuple 4 input))
unfolding start pin nat_eq option_eq
write_ends_reuse_example =
    write_ends_reuse plain runtime storage finished overwritten key (some "ann") saver (put input 9)
      finished_pinned.0 finished_pinned.1 addressed (done overwritten) (some "ann") saver input
      (some (tuple 4 input))

abbrev written : SerializedCheckpoint plain
written = record {
  config = record { configurable = ("thread_id", text "t") ∷ []; rest = [] };
  parent_config = none;
  header = 4;
  channels = ("messages", 14) ∷ [];
  metadata = 7;
  writes = some (("task", "messages", 24) ∷ []);
}

serialized_tuple : create plain 0 (tuple 4 input) ("thread_id" ∷ []) ≡ some written
unfolding create each writes_with each_write reference_config reference_of restrict string_eq
serialized_tuple = refl

restore-IsAround_example :
    (t : CheckpointTuple plain) × (restore plain 0 written input ≡ some t)
    × (t.header ≡ 4)
    × (t.channel_values ≡ (("messages", 14) ∷ []))
    × (t.metadata ≡ 7)
    × (t.pending_writes ≡ some (("task", "messages", 24) ∷ []))
    × IsAround ("thread_id" ∷ []) input input t.config
    × IsReferenceOf ("thread_id" ∷ []) none t.parent_config
restore-IsAround_example =
    restore-IsAround plain 0 plain-IsSerde (tuple 4 input) ("thread_id" ∷ []) input written
      serialized_tuple
