-- ===== src/Checkpoints/Reads.antt =====
-- `_CheckpointReadContext.pin`, `with_allowlist` and `aget_tuple`.
use langchain_azure.Base.{
  Bool, true, false, Option, none, some, if◌then◌else◌, ◌==◌, ◌&&◌, string_eq, option_eq,
}
use langchain_azure.Checkpoints.Config.{Config, values_at}
use langchain_azure.Checkpoints.Serialized.{
  Serde, CheckpointTuple, SerializedCheckpoint, create, restore, map_some,
}
use langchain_azure.Checkpoints.Reuse.{
  Runtime, User, Ticket, bypass, is_text, truthy, thread_of, namespace_of, CachedCheckpoint,
  ReadContext, RequestSaver, Candidate, owner_of, key_at, pin_key, extra_config_keys,
  reference_keys, invalidate, read_context,
}

module _ (S : Serde) (R : Runtime S) where
  -- `ReadContext.pin`
  unfoldable pub pin : ReadContext S → Candidate S → User → Config → ReadContext S
  unfolding thread_of namespace_of
  pin reads saver user config =
      pin_key S reads (R.get_checkpoint_id config)
        (key_at S (owner_of S saver) user (thread_of config) (namespace_of config))

  -- `with_allowlist`, where `clones` tells whether the wrapped saver gives a clone or itself.
  unfoldable pub with_allowlist : Bool → S.Allowlist → RequestSaver S → RequestSaver S
  with_allowlist clones extra self =
      if clones then record self { allowlist = R.union self.allowlist extra } else self

  -- How a read goes on: with the cache's answer, or with a call of the wrapped saver.
  pub data Started : Type 0 where
    answered : Option (CheckpointTuple S) → Started
    awaits : Ticket → Started

  unfoldable pub restored_or_awaits :
      ReadContext S → Option (CheckpointTuple S) → ReadContext S × Started
  unfolding invalidate
  restored_or_awaits reads none =
      (invalidate S reads, awaits record { takes_part = true; cacheable = true })
  restored_or_awaits reads (some t) = (reads, answered (some t))

  unfoldable pub from_value :
      ReadContext S
      → RequestSaver S
      → Config
      → Option (SerializedCheckpoint S)
      → ReadContext S × Started
  unfolding restored_or_awaits restore
  from_value reads self config none = (reads, answered none)
  from_value reads self config (some c) =
      restored_or_awaits reads (restore S self.allowlist c config)

  unfoldable pub from_compared :
      ReadContext S
      → RequestSaver S
      → Config
      → CachedCheckpoint S
      → Option Bool
      → ReadContext S × Started
  unfolding from_value invalidate
  from_compared reads self config c none =
      (invalidate S reads, awaits record { takes_part = true; cacheable = true })
  from_compared reads self config c (some false) =
      (reads, awaits record { takes_part = true; cacheable = true })
  from_compared reads self config c (some true) = from_value reads self config c.value

  unfoldable pub from_cache :
      ReadContext S
      → RequestSaver S
      → Config
      → Option (CachedCheckpoint S)
      → ReadContext S × Started
  unfolding from_compared values_at
  from_cache reads self config none = (reads, awaits record { takes_part = true; cacheable = true })
  from_cache reads self config (some c) =
      if R.same_allowlist c.allowlist self.allowlist
      then from_compared reads self config c
          (R.equal c.config_values (values_at config.configurable (extra_config_keys S self)))
      else (reads, awaits record { takes_part = true; cacheable = true })

  -- `cacheable`
  unfoldable pub is_cacheable : ReadContext S → Config → Bool
  unfolding string_eq
  is_cacheable reads config =
      truthy (R.get_checkpoint_id config)
      && (reads.cache_enabled && R.get_checkpoint_id config == reads.input_checkpoint_id)

  unfoldable pub reads_input :
      ReadContext S → RequestSaver S → Config → Bool → ReadContext S × Started
  unfolding from_cache
  reads_input reads self config true = from_cache reads self config reads.cache
  reads_input reads self config false =
      (reads, awaits record { takes_part = true; cacheable = false })

  -- whether both are a `str` and `_read_context` finds the context
  unfoldable pub takes_part : ReadContext S → User → RequestSaver S → Config → Bool
  unfolding read_context thread_of namespace_of
  takes_part reads user self config =
      is_text (thread_of config)
      && (is_text (namespace_of config)
          && read_context S reads user self (thread_of config) (namespace_of config))

  unfoldable pub start_if :
      ReadContext S → RequestSaver S → Config → Bool → Bool → ReadContext S × Started
  unfolding reads_input
  start_if reads self config true cacheable = reads_input reads self config cacheable
  start_if reads self config false cacheable = (reads, awaits bypass)

  -- `aget_tuple` before it awaits
  unfoldable pub start : ReadContext S → User → RequestSaver S → Config → ReadContext S × Started
  unfolding start_if takes_part is_cacheable
  start reads user self config =
      start_if reads self config (takes_part reads user self config) (is_cacheable reads config)

  unfoldable pub serialized_result :
      RequestSaver S → Option (CheckpointTuple S) → Option (Option (SerializedCheckpoint S))
  unfolding create
  serialized_result self none = some none
  serialized_result self (some t) = map_some (create S self.allowlist t (reference_keys S self))

  unfoldable pub remember :
      ReadContext S
      → RequestSaver S
      → Config
      → Option (Option (SerializedCheckpoint S))
      → ReadContext S
  unfolding invalidate values_at
  remember reads self config none = invalidate S reads
  remember reads self config (some v) = record reads {
    cache = some record {
      value = v;
      allowlist = self.allowlist;
      config_values = values_at config.configurable (extra_config_keys S self);
    };
  }

  -- `aget_tuple` after it awaited; its result is the wrapped saver's.
  unfoldable pub finish :
      ReadContext S
      → RequestSaver S
      → Config
      → Ticket
      → Option (Option (CheckpointTuple S))
      → ReadContext S
  unfolding remember serialized_result invalidate
  finish reads self config ticket none = if ticket.takes_part then invalidate S reads else reads
  finish reads self config ticket (some result) =
      if ticket.cacheable && (reads.active && reads.cache_enabled)
      then remember reads self config (serialized_result self result)
      else reads
