-- ===== src/Savers/RoundTrip.antt =====
-- A checkpoint that is put and then read.
use langchain_azure.Base.{
  ◌⊎◌, ℕ, ◌<◌, false, Option, none, some, List, [], String, ◌≡◌, ◌≢◌, refl, ap, ◌∙◌, arith, length,
  Bool-cases, inl, inr, ◌==◌, string_eq, codes_eq, eq_refl, eq_false, map, ◌∷◌, sym,
}
use langchain_azure.Base.Words.{Text}
use langchain_azure.Checkpoints.Config.{Setting, null, text, object, Config, get_or, lookup}
use langchain_azure.Savers.Keys.{checkpoint_key}
use langchain_azure.Savers.Store.{Codec, IsCodec, Service, IsService, write_item, ItemValue}
use langchain_azure.Savers.Saver.{
  done, nonempty, text_in, pair, thread_id_of, thread_and_namespace, config_of, Checkpoint,
  WriteRecord, serialize, deserialize, sort_writes, records_of, and_then,
}
use langchain_azure.Savers.Reads.{
  write_tags, write_of, pending_writes, parent_of, checkpoint_tuple, aget_tuple,
}
use langchain_azure.Savers.Writes.{or_empty, item_of, item_tags, put_in, aput}
use mathlib.Core.List.{Perm}
use langchain_azure.Savers.Sorted.{IsOrdered, sort_writes-IsOrdered, sort_writes-perm}
use langchain_azure.Savers.Paging.{collect_keys_all}

deserialize-serialize :
    (C : Codec) (law : IsCodec C) (o : C.Object) → deserialize C (serialize C o) ≡ o
unfolding serialize deserialize
deserialize-serialize C law o =
    ap (λ b. C.loads_typed ((C.dumps_typed o).0, b)) (law.decode-encode (C.dumps_typed o).1)
    ∙ law.loads-dumps o

nonempty-named : (v : Setting) (s : String) → nonempty v ≡ some s → s ≢ ""
nonempty-named null s h p = absurd (cc)
nonempty-named (object n) s h p = absurd (cc)
nonempty-named (text t) s h p = elim (Bool-cases (t == "")) [
  | inl e ↦ ground arith
  | inr e ↦ ground arith
]

pair-first : (a b : Option String) (x y : String) → pair a b ≡ some (x, y) → a ≡ some x
pair-first none b x y h = absurd (cc)
pair-first (some a) none x y h = absurd (cc)
pair-first (some a) (some b) x y h = cc

-- A thread and a namespace are read back from the config that is made of them.
thread_and_namespace-config_of :
    (config : Config) (thread_id ns id : String)
    → thread_and_namespace config ≡ some (thread_id, ns)
    → thread_and_namespace (config_of thread_id ns id) ≡ some (thread_id, ns)
unfolding thread_and_namespace thread_id_of get_or lookup
thread_and_namespace-config_of config thread_id ns id h =
    let named = nonempty-named (get_or null config.configurable "thread_id") thread_id (
      pair-first (thread_id_of config)
        (text_in (get_or (text "") config.configurable "checkpoint_ns")) thread_id ns h) in
    rw (eq_false thread_id "" named) refl

lookup_id :
    (thread_id ns id : String)
    → lookup (config_of thread_id ns id).configurable "checkpoint_id" ≡ some (text id)
unfolding lookup string_eq
lookup_id thread_id ns id = refl

module _ (C : Codec) (F : Service) where
  -- The store after `aput`.
  abbrev pub put_state :
      F.State → Config → Checkpoint C.Object → C.Object → String × String → F.State
  put_state s config checkpoint metadata place = (put_in C F s config checkpoint metadata place).0

  pending_writes_sorted :
      (law : IsService F) (fuel : ℕ) (s : F.State) (ns id : String) (records : List WriteRecord)
      → length (law.rest s (write_tags ns id) false none) < fuel
      → records_of F s (law.rest s (write_tags ns id) false none) ≡ done records
      → pending_writes C F fuel s ns id ≡ done (map (write_of C F) (sort_writes records))
  unfolding pending_writes
  pending_writes_sorted law fuel s ns id records enough h =
      rw (collect_keys_all F law fuel s (write_tags ns id) false none enough) (rw h refl)

  aget_tuple_exact :
      (codec : IsCodec C) (fuel : ℕ) (s : F.State) (thread_id ns id : String) (item : ItemValue)
      → thread_and_namespace (config_of thread_id ns id) ≡ some (thread_id, ns)
      → id ≢ ""
      → F.get_item s (checkpoint_key ns id) ≡ some item
      → aget_tuple C F fuel s (config_of thread_id ns id)
        ≡ and_then (checkpoint_tuple C F fuel s thread_id item none) (λ t. done (some t))
  unfolding aget_tuple
  aget_tuple_exact codec fuel s thread_id ns id item place named h =
      let found =
        codec.get_id [] (config_of thread_id ns id).configurable id (lookup_id thread_id ns id) in
      rw place (rw found (rw (eq_false id "" named) (rw h refl)))

-- The writes that the store has at some keys, in the order of the keys.
abbrev pub HasWrites : (F : Service) → F.State → List Text → List WriteRecord → Type 0
HasWrites F s [] records = records ≡ []
HasWrites F s (k ∷ ks) records =
    ((F.get_item s k ≡ none) × HasWrites F s ks records)
    ⊎ ((w : WriteRecord) × (id : String) × (ns : String) × (path : String) × (rest : List
          WriteRecord)
        × (F.get_item s k ≡ some (write_item id ns w.task_id path w.index w.channel w.value))
        × (records ≡ w ∷ rest)
        × HasWrites F s ks rest)

-- The parent's config: that of the id that the call names, if it names one that is not empty.
abbrev pub IsParent : String → String → Option String → Option Config → Type 0
IsParent thread_id ns named parent =
    ((id : String) × (named ≡ some id) × (id ≢ "") × (parent ≡ some (config_of thread_id ns id)))
    ⊎ (((named ≡ none) ⊎ (named ≡ some "")) × (parent ≡ none))

records_of-HasWrites :
    (F : Service) (s : F.State) (keys : List Text) (records : List WriteRecord)
    → HasWrites F s keys records
    → records_of F s keys ≡ done records
unfolding records_of
records_of-HasWrites F s [] records h = ap done (sym h)
records_of-HasWrites F s (k ∷ ks) records (inl (gone, h)) =
    rw gone (records_of-HasWrites F s ks records h)
records_of-HasWrites F s (k ∷ ks) records (inr (w, id, ns, path, rest, here, made, h)) =
    rw here (rw (records_of-HasWrites F s ks rest h) (ap done (sym made)))

parent_of-IsParent :
    (C : Codec) (F : Service) (thread_id ns : String) (named : Option String)
    → IsParent thread_id ns named (parent_of C F thread_id ns (or_empty named))
unfolding string_eq
parent_of-IsParent C F thread_id ns none = inr (inl refl, refl)
parent_of-IsParent C F thread_id ns (some id) = elim (string_eq.dec id "") [
  | yes e ↦ inr (inr (ap some e), rw (ap (λ x. x == "") e ∙ eq_refl {A = String} "") refl)
  | no n ↦ inl (id, refl, n, rw (eq_false id "" n) refl)
]

-- aput of a checkpoint with an id returns a config with which aget_tuple reads the checkpoint back:
-- the tuple has that config, the checkpoint and its metadata as they were put, the config of the
-- checkpoint that the call named as the parent, if it named one, and the checkpoint's writes, none
-- lost or doubled, in the order of their tasks and, within a task, of their indices. The fuel is more
-- than the number of listed writes, and each of their keys has the item of a write, or none.
pub aget_tuple-aput :
    (C : Codec) (codec : IsCodec C) (F : Service) (law : IsService F) (fuel : ℕ) (s : F.State)
    (config : Config) (checkpoint : Checkpoint C.Object) (metadata : C.Object)
    (thread_id ns : String) (records : List WriteRecord)
    → thread_and_namespace config ≡ some (thread_id, ns)
    → checkpoint.id ≢ ""
    → length (
        law.rest
          (put_state C F s config checkpoint metadata (thread_id, ns))
          (write_tags ns checkpoint.id)
          false
          none)
      < fuel
    → HasWrites F
        (put_state C F s config checkpoint metadata (thread_id, ns))
        (law.rest
          (put_state C F s config checkpoint metadata (thread_id, ns))
          (write_tags ns checkpoint.id)
          false
          none)
        records
    → (aput C F s config checkpoint metadata
        ≡ done (
          put_state C F s config checkpoint metadata (thread_id, ns),
          config_of thread_id ns checkpoint.id,
        ))
      × ((sorted : List WriteRecord) × (parent : Option Config) × IsOrdered sorted
          × Perm sorted records
          × IsParent thread_id ns (C.get_checkpoint_id config) parent
          × (aget_tuple C F fuel
                (put_state C F s config checkpoint metadata (thread_id, ns))
                (config_of thread_id ns checkpoint.id)
              ≡ done (
                  some record {
                    config = config_of thread_id ns checkpoint.id;
                    checkpoint = checkpoint.whole;
                    metadata = C.get_checkpoint_metadata config metadata;
                    parent_config = parent;
                    pending_writes =
                        map
                          (λ w. (
                            w.task_id,
                            w.channel,
                            C.loads_typed (w.value.type_name, C.b64decode w.value.encoded),
                          ))
                          sorted;
                  })))
unfolding aput checkpoint_tuple deserialize
aget_tuple-aput C codec F law fuel s config checkpoint metadata thread_id ns records at named enough
      stored_writes =
    let id = checkpoint.id in
    let whole = C.get_checkpoint_metadata config metadata in
    let after = put_state C F s config checkpoint metadata (thread_id, ns) in
    let item = item_of C F config ns checkpoint whole in
    let key = checkpoint_key ns id in
    let stored = law.get-set s key key item (item_tags C F ns whole) ∙ rw (eq_refl key) refl in
    let place = thread_and_namespace-config_of config thread_id ns id at in
    let read =
      records_of-HasWrites F after (law.rest after (write_tags ns id) false none) records
        stored_writes in
    (
      rw at refl,
      (
        sort_writes records,
        parent_of C F thread_id ns (or_empty (C.get_checkpoint_id config)),
        sort_writes-IsOrdered records,
        sort_writes-perm records,
        parent_of-IsParent C F thread_id ns (C.get_checkpoint_id config),
        aget_tuple_exact C F codec fuel after thread_id ns id item place named stored
            ∙ rw (pending_writes_sorted C F law fuel after ns id records enough read) (
                rw (deserialize-serialize C codec checkpoint.whole)
                  (rw (deserialize-serialize C codec whole) refl)),
      ),
    )
