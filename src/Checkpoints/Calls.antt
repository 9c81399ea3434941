-- ===== src/Checkpoints/Calls.antt =====
-- The parts of a read: what each leaves of the context, and which reads may be cached.
use langchain_azure.Base.{
  Bool, true, false, Option, none, some, ◌≡◌, refl, ◌⊎◌, inl, inr, arith, Bool-cases, ◌&&◌,
  string_eq, option_eq, subst,
}
use langchain_azure.Checkpoints.Config.{Config, values_at}
use langchain_azure.Checkpoints.Serialized.{Serde, CheckpointTuple, SerializedCheckpoint}
use langchain_azure.Checkpoints.Reuse.{
  Runtime, User, Key, Ticket, thread_of, namespace_of, CachedCheckpoint, ReadContext, RequestSaver,
  extra_config_keys, invalidate, read_context, is_text, key_matches,
}
use langchain_azure.Checkpoints.Reads.{
  Started, answered, awaits, restored_or_awaits, from_value, from_compared, from_cache,
  is_cacheable, reads_input, takes_part, start, start_if, serialized_result, remember, finish,
}
use langchain_azure.Checkpoints.Reach.{Names, matches-Names}

module _ (S : Serde) (R : Runtime S) where
  abbrev pub Kept : ReadContext S → ReadContext S → Type 0
  Kept reads reads' = (reads' ≡ reads) ⊎ (reads' ≡ invalidate S reads)

  from_value-Kept :
      (reads : ReadContext S) (self : RequestSaver S) (config : Config)
      (v : Option (SerializedCheckpoint S))
      → Kept reads (from_value S R reads self config v).0
  unfolding from_value restored_or_awaits
  from_value-Kept reads self config none = inl refl
  from_value-Kept reads self config (some c) = ground arith

  from_compared-Kept :
      (reads : ReadContext S) (self : RequestSaver S) (config : Config) (c : CachedCheckpoint S)
      (same : Option Bool)
      → Kept reads (from_compared S R reads self config c same).0
  unfolding from_compared
  from_compared-Kept reads self config c none = inr refl
  from_compared-Kept reads self config c (some true) = from_value-Kept reads self config c.value
  from_compared-Kept reads self config c (some false) = inl refl

  from_cache-Kept :
      (reads : ReadContext S) (self : RequestSaver S) (config : Config)
      (c : Option (CachedCheckpoint S))
      → Kept reads (from_cache S R reads self config c).0
  unfolding from_cache
  from_cache-Kept reads self config none = inl refl
  from_cache-Kept reads self config (some c) = ground (
    arith,
    from_compared-Kept reads self config c
        (R.equal c.config_values (values_at config.configurable (extra_config_keys S self))),
  )

  start_if-Kept :
      (reads : ReadContext S) (self : RequestSaver S) (config : Config) (part cacheable : Bool)
      → Kept reads (start_if S R reads self config part cacheable).0
  unfolding start_if reads_input
  start_if-Kept reads self config false cacheable = inl refl
  start_if-Kept reads self config true true = from_cache-Kept reads self config reads.cache
  start_if-Kept reads self config true false = inl refl

  -- Starting a read leaves the context as it is, or ends the reuse.
  pub start-Kept :
      (reads : ReadContext S) (user : User) (self : RequestSaver S) (config : Config)
      → Kept reads (start S R reads user self config).0
  unfolding start
  start-Kept reads user self config = start_if-Kept reads self config _ _

  -- A read whose result may be cached is a cacheable one that takes part.
  abbrev pub Allows : Bool → Bool → Started S R → Type 0
  Allows part cacheable (answered a) = Unit
  Allows part cacheable (awaits t) = t.cacheable ≡ true → (part ≡ true) × (cacheable ≡ true)

  Allows-true : (s : Started S R) → Allows true true s
  Allows-true (answered a) = tt
  Allows-true (awaits t) = λ _. (refl, refl)

  start_if-Allows :
      (reads : ReadContext S) (self : RequestSaver S) (config : Config) (part cacheable : Bool)
      → Allows part cacheable (start_if S R reads self config part cacheable).1
  unfolding start_if reads_input
  start_if-Allows reads self config false cacheable = λ h. absurd (ground arith)
  start_if-Allows reads self config true true =
      Allows-true (from_cache S R reads self config reads.cache).1
  start_if-Allows reads self config true false = λ h. absurd (ground arith)

  pub start-Allows :
      (reads : ReadContext S) (user : User) (self : RequestSaver S) (config : Config)
      → Allows
          (takes_part S R reads user self config)
          (is_cacheable S R reads config)
          (start S R reads user self config).1
  unfolding start
  start-Allows reads user self config = start_if-Allows reads self config _ _

  pub takes_part-Names :
      (reads : ReadContext S) (k : Key) (user : User) (self : RequestSaver S) (config : Config)
      → reads.key ≡ some k
      → takes_part S R reads user self config ≡ true
      → Names k self.cache_owner user config
  unfolding takes_part read_context
  takes_part-Names reads k user self config key h =
      let (o, u, t, n) =
        matches-Names S reads.active k user self (thread_of config) (namespace_of config) (
          subst
            (λ q.
              (is_text (thread_of config)
                && (is_text (namespace_of config)
                    && (reads.active
                        && key_matches S q user self (thread_of config) (namespace_of config))))
              ≡ true)
            key h) in
      record { same_owner = o; same_user = u; thread = t; namespace = n }

  pub is_cacheable_input :
      (reads : ReadContext S) (config : Config)
      → is_cacheable S R reads config ≡ true
      → R.get_checkpoint_id config ≡ reads.input_checkpoint_id
  unfolding is_cacheable
  is_cacheable_input reads config h = ground arith

  -- The context with a cached result.
  abbrev pub remembered :
      ReadContext S → RequestSaver S → Config → Option (SerializedCheckpoint S) → ReadContext S
  remembered reads self config v = record reads {
    cache = some record {
      value = v;
      allowlist = self.allowlist;
      config_values = values_at config.configurable (extra_config_keys S self);
    };
  }

  -- The result was cached, as a cacheable read of an enabled cache.
  pub record Remembers (reads : ReadContext S) (self : RequestSaver S) (config : Config)
      (ticket : Ticket) (o : Option (Option (CheckpointTuple S))) (reads' : ReadContext S)
      : Type 0 where
    pub result : Option (CheckpointTuple S)
    pub value : Option (SerializedCheckpoint S)
    pub here : o ≡ some result
    pub cacheable : ticket.cacheable ≡ true
    pub enabled : reads.cache_enabled ≡ true
    pub serialized : serialized_result S R self result ≡ some value
    pub after : reads' ≡ remembered reads self config value

  remember-cases :
      (reads : ReadContext S) (self : RequestSaver S) (config : Config) (ticket : Ticket)
      (result : Option (CheckpointTuple S)) (v : Option (Option (SerializedCheckpoint S)))
      → serialized_result S R self result ≡ v
      → ticket.cacheable ≡ true
      → reads.cache_enabled ≡ true
      → Kept reads (remember S R reads self config v)
        ⊎ Remembers reads self config ticket (some result) (remember S R reads self config v)
  unfolding remember
  remember-cases reads self config ticket result none h c on = inl (inr refl)
  remember-cases reads self config ticket result (some v) h c on = inr record {
    result = result;
    value = v;
    here = refl;
    cacheable = c;
    enabled = on;
    serialized = h;
    after = refl;
  }

  pub finish-cases :
      (reads : ReadContext S) (self : RequestSaver S) (config : Config) (ticket : Ticket)
      (o : Option (Option (CheckpointTuple S)))
      → Kept reads (finish S R reads self config ticket o)
        ⊎ Remembers reads self config ticket o (finish S R reads self config ticket o)
  unfolding finish
  finish-cases reads self config ticket none = inl (ground arith)
  finish-cases reads self config ticket (some result) =
      elim (Bool-cases (ticket.cacheable && (reads.active && reads.cache_enabled))) [
        | inr off ↦ rw off (inl (inl refl))
        | inl on ↦ rw on (
            remember-cases reads self config ticket result (serialized_result S R self result) refl
              (ground arith) (ground arith))
      ]
