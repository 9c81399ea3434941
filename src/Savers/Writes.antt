-- ===== src/Savers/Writes.antt =====
-- The calls of `FoundryCheckpointSaver` that write: `aput`, `aput_writes`, `adelete_thread`.
use langchain_azure.Base.{
  ℕ, ◌+◌, false, Option, none, some, List, [], ◌∷◌, ◌++◌, String, if◌then◌else◌, ◌==◌, string_eq,
}
use langchain_azure.Base.Words.{Text}
use langchain_azure.Base.Integer.{ℤ, pos}
use langchain_azure.Checkpoints.Config.{Config, or_default}
use langchain_azure.Savers.Keys.{checkpoint_key, write_key}
use langchain_azure.Savers.Store.{Codec, ItemValue, checkpoint_item, write_item, Tags, Service}
use langchain_azure.Savers.Saver.{
  Outcome, done, value_error, or_value_error, and_then, thread_and_namespace, config_of, Special,
  Checkpoint, serialize, collect_keys,
}
use langchain_azure.Savers.Reads.{truthy, str_tag, write_tags, checkpoint_tags}

abbrev pub or_empty : Option String → String
or_empty none = ""
or_empty (some s) = s

-- What the writes of one call share.
pub record Run : Type 0 where
  pub namespace : String
  pub checkpoint_id : String
  pub task_id : String
  pub task_path : String

module _ (C : Codec) (F : Service) where
  abbrev pub item_of : Config → String → Checkpoint C.Object → C.Object → ItemValue
  item_of config ns checkpoint metadata =
      checkpoint_item checkpoint.id ns (serialize C checkpoint.whole) (serialize C metadata)
        (or_empty (C.get_checkpoint_id config))

  abbrev pub item_tags : String → C.Object → Tags
  item_tags ns metadata =
      checkpoint_tags ns
      ++ str_tag C "source" (C.field metadata "source")
      ++ str_tag C "step" (C.field metadata "step")

  abbrev pub put_in :
      F.State → Config → Checkpoint C.Object → C.Object → String × String → F.State × Config
  put_in s config checkpoint metadata (thread_id, ns) =
      let whole = C.get_checkpoint_metadata config metadata in
      (
        F.set_item s (checkpoint_key ns checkpoint.id) (item_of config ns checkpoint whole)
            (item_tags ns whole),
        config_of thread_id ns checkpoint.id,
      )

  -- `aput`
  unfoldable pub aput :
      F.State → Config → Checkpoint C.Object → C.Object → Outcome (F.State × Config)
  unfolding thread_and_namespace serialize
  aput s config checkpoint metadata =
      or_value_error (thread_and_namespace config)
        (λ place. done (put_in s config checkpoint metadata place))

  -- FoundryStorageConflictError: pass
  abbrev pub or_same : F.State → Option F.State → F.State
  or_same s none = s
  or_same s (some changed) = changed

  -- WRITES_IDX_MAP.get(channel, ordinal)
  abbrev pub index_of : Special → ℕ → String → ℤ
  index_of special ordinal channel = or_default (pos ordinal) (special channel)

  abbrev pub store_write : F.State → Option ℤ → Text → ItemValue → Tags → F.State
  store_write s (some index) key value tags = F.set_item s key value tags
  store_write s none key value tags = or_same s (F.create_item s key value tags)

  abbrev pub key_of : Special → Run → ℕ → String → Text
  key_of special run ordinal channel =
      write_key run.namespace run.checkpoint_id run.task_id (index_of special ordinal channel)

  abbrev pub value_of : Special → Run → ℕ → String → C.Object → ItemValue
  value_of special run ordinal channel value =
      write_item run.checkpoint_id run.namespace run.task_id run.task_path
        (index_of special ordinal channel) channel (serialize C value)

  abbrev pub put_write : Special → Run → F.State → ℕ → String → C.Object → F.State
  put_write special run s ordinal channel value =
      store_write s (special channel) (key_of special run ordinal channel)
        (value_of special run ordinal channel value) (write_tags run.namespace run.checkpoint_id)

  -- The loop over `enumerate(writes)`.
  unfoldable pub put_writes : Special → Run → F.State → ℕ → List (String × C.Object) → F.State
  unfolding write_key serialize
  put_writes special run s ordinal [] = s
  put_writes special run s ordinal ((channel, value) ∷ writes) =
      put_writes special run (put_write special run s ordinal channel value) (ordinal + 1) writes

  abbrev pub run_from :
      Option (String × String) → Option String → Option String → String → Option Run
  run_from (some (thread_id, ns)) (some id) (some task_id) path =
      some record { namespace = ns; checkpoint_id = id; task_id = task_id; task_path = path }
  run_from place id task_id path = none

  -- The checks, each of which raises a ValueError.
  unfoldable pub run_of : Config → String → String → Option Run
  unfolding thread_and_namespace string_eq
  run_of config task_id path =
      run_from (thread_and_namespace config) (truthy (C.get_checkpoint_id config))
        (truthy (some task_id)) path

  -- `aput_writes`
  unfoldable pub aput_writes :
      Special → F.State → Config → List (String × C.Object) → String → String → Outcome F.State
  unfolding put_writes run_of
  aput_writes special s config writes task_id task_path =
      or_value_error (run_of config task_id task_path)
        (λ run. done (put_writes special run s 0 writes))

module _ (F : Service) where
  unfoldable pub delete_all : F.State → List Text → F.State
  delete_all s [] = s
  delete_all s (key ∷ keys) = delete_all (F.delete_item s key) keys

  abbrev pub delete_store : ℕ → F.State → Outcome (Option F.State)
  delete_store fuel s =
      let listed = collect_keys F fuel s [] false none in
      if F.user_isolation s
      then and_then listed (λ keys. done (some (delete_all s keys)))
      else done none

  abbrev pub delete_known : ℕ → Option F.State → Outcome (Option F.State)
  delete_known fuel none = done none
  delete_known fuel (some s) = delete_store fuel s

  -- `adelete_thread`; a store that is not there is `none`.
  unfoldable pub adelete_thread : ℕ → Option F.State → String → Outcome (Option F.State)
  unfolding collect_keys delete_all
  adelete_thread fuel store thread_id =
      if thread_id == "" then value_error else delete_known fuel store
