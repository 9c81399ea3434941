-- ===== src/Savers/Reads.antt =====
-- The reads of `FoundryCheckpointSaver`: `_pending_writes`, `_checkpoint_tuple`, `aget_tuple`. The
-- store does not change while one call reads it.
use langchain_azure.Base.{
  ℕ, Bool, true, false, Option, none, some, List, [], ◌∷◌, String, if◌then◌else◌, ◌==◌, ◌&&◌, not,
  string_eq, codes_eq, map,
}
use langchain_azure.Base.Words.{Text, codes}
use langchain_azure.Checkpoints.Config.{Config}
use langchain_azure.Savers.Keys.{checkpoint_key, parse_checkpoint_key}
use langchain_azure.Savers.Store.{Codec, ItemValue, checkpoint_item, write_item, Tags, Service}
use langchain_azure.Savers.Saver.{
  Outcome, done, or_value_error, key_error, and_then, thread_and_namespace, config_of, text_ltb,
  CheckpointTuple, WriteRecord, deserialize, sort_writes, collect_keys, records_of,
}

abbrev pub write_tags : String → String → Tags
write_tags ns id = ("kind", "write") ∷ ("ns", ns) ∷ ("ckpt", id) ∷ []

abbrev pub checkpoint_tags : String → Tags
checkpoint_tags ns = ("kind", "checkpoint") ∷ ("ns", ns) ∷ []

-- What is truthy.
abbrev pub truthy : Option String → Option String
truthy none = none
truthy (some s) = if s == "" then none else some s

abbrev pub newer : Option (Text × Text) → Text → Text → Option (Text × Text)
newer none id key = some (id, key)
newer (some (best_id, best_key)) id key =
    if text_ltb best_id id then some (id, key) else some (best_id, best_key)

abbrev pub in_namespace : String → Text × Text → Bool
in_namespace ns (item_ns, item_id) = (item_ns == codes ns) && not (item_id == [])

abbrev pub consider : String → Option (Text × Text) → Text → Option (Text × Text)
consider ns best key =
    let parts = parse_checkpoint_key key in
    if in_namespace ns parts then newer best parts.1 key else best

-- The loop that keeps `latest_id` and `latest_key`.
unfoldable pub latest : String → Option (Text × Text) → List Text → Option (Text × Text)
latest ns best [] = best
latest ns best (key ∷ keys) = latest ns (consider ns best key) keys

module _ (C : Codec) where
  abbrev pub str_tag : String → Option C.Object → Tags
  str_tag name none = []
  str_tag name (some value) = (name, C.str_of value) ∷ []

module _ (C : Codec) (F : Service) where
  abbrev pub write_of : WriteRecord → String × String × C.Object
  write_of w = (w.task_id, w.channel, deserialize C w.value)

  abbrev pub sorted_writes : List WriteRecord → Outcome (List (String × String × C.Object))
  sorted_writes records = done (map write_of (sort_writes records))

  -- `_pending_writes`
  unfoldable pub pending_writes :
      ℕ → F.State → String → String → Outcome (List (String × String × C.Object))
  unfolding records_of
  pending_writes fuel s ns id =
      and_then (collect_keys F fuel s (write_tags ns id) false none)
        (λ keys. and_then (records_of F s keys) sorted_writes)

  abbrev pub parent_of : String → String → String → Option Config
  parent_of thread_id ns parent =
      if parent == "" then none else some (config_of thread_id ns parent)

  abbrev pub or_read : Option C.Object → C.Object → C.Object
  or_read none metadata = metadata
  or_read (some metadata) stored = metadata

  -- `_checkpoint_tuple`
  unfoldable pub checkpoint_tuple :
      ℕ → F.State → String → ItemValue → Option C.Object → Outcome (CheckpointTuple C.Object)
  unfolding pending_writes deserialize string_eq
  checkpoint_tuple fuel s thread_id (checkpoint_item id ns checkpoint metadata parent) known =
      and_then (pending_writes fuel s ns id) (λ writes. done record {
        config = config_of thread_id ns id;
        checkpoint = deserialize C checkpoint;
        metadata = or_read known (deserialize C metadata);
        parent_config = parent_of thread_id ns parent;
        pending_writes = writes;
      })
  checkpoint_tuple fuel s thread_id (write_item id ns task path index channel value) known =
      key_error

  abbrev pub tuple_at :
      ℕ → F.State → String → Option ItemValue → Outcome (Option (CheckpointTuple C.Object))
  tuple_at fuel s thread_id none = done none
  tuple_at fuel s thread_id (some item) =
      and_then (checkpoint_tuple fuel s thread_id item none) (λ t. done (some t))

  abbrev pub tuple_of_latest :
      ℕ → F.State → String → Option (Text × Text) → Outcome (Option (CheckpointTuple C.Object))
  tuple_of_latest fuel s thread_id none = done none
  tuple_of_latest fuel s thread_id (some (id, key)) = tuple_at fuel s thread_id (F.get_item s key)

  abbrev pub get_in :
      ℕ → F.State → Option String → String × String → Outcome (Option (CheckpointTuple C.Object))
  get_in fuel s (some id) (thread_id, ns) =
      tuple_at fuel s thread_id (F.get_item s (checkpoint_key ns id))
  get_in fuel s none (thread_id, ns) =
      and_then (collect_keys F fuel s (checkpoint_tags ns) true none)
        (λ keys. tuple_of_latest fuel s thread_id (latest ns none keys))

  -- `aget_tuple`
  unfoldable pub aget_tuple : ℕ → F.State → Config → Outcome (Option (CheckpointTuple C.Object))
  unfolding checkpoint_tuple thread_and_namespace latest
  aget_tuple fuel s config =
      or_value_error (thread_and_namespace config)
        (λ place. get_in fuel s (truthy (C.get_checkpoint_id config)) place)
