-- ===== src/Checkpoints/Fresh.antt =====
-- What the cache of a request holds, over any interleaving of its reads and writes.
use langchain_azure.Base.{
  true, false, Option, none, some, List, ◌≡◌, refl, arith, All, string_eq, option_eq, String,
}
use langchain_azure.Checkpoints.Config.{Config, values_at}
use langchain_azure.Checkpoints.Serialized.{Serde, CheckpointTuple}
use langchain_azure.Checkpoints.Reuse.{
  Runtime, Key, CachedCheckpoint, ReadContext, RequestSaver, extra_config_keys, invalidate,
}
use langchain_azure.Checkpoints.Reads.{serialized_result}
use langchain_azure.Checkpoints.Reach.{Touches, Names}
use langchain_azure.Checkpoints.Steps.{Storage, Reading, Writing, State, stored_for}

module _ (S : Serde) (R : Runtime S) (D : Storage S) (k : Key) (id : Option String) where
  -- The storage still gives what was cached, to the config of the read that cached it.
  pub record IsStored (store : D.Store) (c : CachedCheckpoint S) : Type 0 where
    pub saver : RequestSaver S
    pub config : Config
    pub result : Option (CheckpointTuple S)
    pub names : Names k k.owner k.user_id config
    pub input : R.get_checkpoint_id config ≡ id
    pub allowlist : c.allowlist ≡ saver.allowlist
    pub values : c.config_values ≡ values_at config.configurable (extra_config_keys S saver)
    pub stored : D.aget_tuple store k.owner saver.allowlist k.user_id config ≡ some result
    pub kept : serialized_result S R saver result ≡ some c.value

  -- A read that may still be cached holds what the storage gives.
  abbrev pub IsCurrent : D.Store → Reading S → Type 0
  IsCurrent store r =
      r.ticket.cacheable ≡ true
      → Names k r.saver.cache_owner r.user r.config
        × (R.get_checkpoint_id r.config ≡ id)
        × ((o : Option (CheckpointTuple S))
            → r.loaded ≡ some (some o)
            → stored_for S R D store r ≡ some o)

  abbrev pub Misses : Writing S → Type 0
  Misses w = ¬ Touches k w.saver.cache_owner w.user w.call

  pub record IsFresh (st : State S R D) : Type 0 where
    pub key : st.reads.key ≡ some k
    pub input : st.reads.input_checkpoint_id ≡ id
    pub disabled : st.reads.cache_enabled ≡ false → st.reads.cache ≡ none
    pub live : st.reads.cache_enabled ≡ true → st.reads.active ≡ true
    pub cached : (c : CachedCheckpoint S) → st.reads.cache ≡ some c → IsStored st.store c
    pub readings : st.reads.cache_enabled ≡ true → All (IsCurrent st.store) st.reading
    pub writings : st.reads.cache_enabled ≡ true → All Misses st.writing

  abbrev pub Shut : ReadContext S → Type 0
  Shut reads =
      (reads.key ≡ some k)
      × (reads.input_checkpoint_id ≡ id)
      × (reads.cache_enabled ≡ false)
      × (reads.cache ≡ none)

  -- Once the reuse has ended, nothing of the calls on their way can harm it.
  pub Shut-IsFresh :
      (reads : ReadContext S) (store : D.Store) (rs : List (Reading S)) (ws : List (Writing S))
      → Shut reads
      → IsFresh record { reads = reads; store = store; reading = rs; writing = ws }
  Shut-IsFresh reads store rs ws (key, input, off, empty) = record {
    key = key;
    input = input;
    disabled = λ h. empty;
    live = λ h. absurd (ground arith);
    cached = λ c h. absurd (ground arith);
    readings = λ h. absurd (ground arith);
    writings = λ h. absurd (ground arith);
  }

  pub invalidate-Shut :
      (st : State S R D) (reads : ReadContext S)
      → IsFresh st
      → reads ≡ invalidate S st.reads
      → Shut reads
  unfolding invalidate
  invalidate-Shut st reads h p = (rw p h.key, rw p h.input, rw p refl, rw p refl)

  pub Shut-set :
      (st : State S R D) (store : D.Store) (rs : List (Reading S)) (ws : List (Writing S))
      → IsFresh st
      → st.reads.cache_enabled ≡ false
      → IsFresh record { reads = st.reads; store = store; reading = rs; writing = ws }
  Shut-set st store rs ws h off =
      Shut-IsFresh st.reads store rs ws (h.key, h.input, off, h.disabled off)

  pub reading_set :
      (st : State S R D) (rs : List (Reading S))
      → IsFresh st
      → (st.reads.cache_enabled ≡ true → All (IsCurrent st.store) rs)
      → IsFresh (record st { reading = rs })
  reading_set st rs h f = record {
    key = h.key;
    input = h.input;
    disabled = h.disabled;
    live = h.live;
    cached = h.cached;
    readings = f;
    writings = h.writings;
  }

  pub writing_set :
      (st : State S R D) (ws : List (Writing S))
      → IsFresh st
      → (st.reads.cache_enabled ≡ true → All Misses ws)
      → IsFresh (record st { writing = ws })
  writing_set st ws h f = record {
    key = h.key;
    input = h.input;
    disabled = h.disabled;
    live = h.live;
    cached = h.cached;
    readings = h.readings;
    writings = f;
  }
