-- ===== src/Checkpoints/Hits.antt =====
-- A read that the cache answers.
use langchain_azure.Base.{
  Bool, true, false, Option, none, some, List, ◌≡◌, refl, sym, ap, ◌∙◌, inl, inr, arith, Bool-cases,
  string_eq, option_eq, String, if◌then◌else◌, subst,
}
use langchain_azure.Checkpoints.Config.{Config, values_at}
use langchain_azure.Checkpoints.Serialized.{Serde, CheckpointTuple, SerializedCheckpoint}
use langchain_azure.Checkpoints.Reuse.{
  Runtime, User, Key, CachedCheckpoint, ReadContext, RequestSaver, extra_config_keys,
}
use langchain_azure.Checkpoints.Reads.{
  Started, answered, awaits, restored_or_awaits, from_value, from_compared, from_cache, reads_input,
  start, start_if, serialized_result,
}
use langchain_azure.Checkpoints.Reach.{Names}
use langchain_azure.Checkpoints.Steps.{Storage, State, started}
use langchain_azure.Checkpoints.Calls.{takes_part-Names, is_cacheable_input}
use langchain_azure.Checkpoints.Fresh.{IsFresh}
use langchain_azure.Checkpoints.Serialized.{
  IsSerde, create, restore, reused, restore-create, map_some_sound, map_some-none,
}
use langchain_azure.Checkpoints.Reuse.{reference_keys}
use langchain_azure.Checkpoints.Reads.{start_if}

module _ (S : Serde) (R : Runtime S) where
  answered_injective :
      (a b : Option (CheckpointTuple S)) → ◌≡◌ {A = Started S R} (answered a) (answered b) → a ≡ b
  answered_injective a b h = ground arith

  abbrev pub Restores :
      RequestSaver S
      → Config
      → Option (SerializedCheckpoint S)
      → Option (CheckpointTuple S)
      → Type 0
  Restores self config none a = a ≡ none
  Restores self config (some c) a =
      (t : CheckpointTuple S) × (restore S self.allowlist c config ≡ some t) × (a ≡ some t)

  restored_or_awaits-answered :
      (reads : ReadContext S) (o a : Option (CheckpointTuple S))
      → (restored_or_awaits S R reads o).1 ≡ answered a
      → (t : CheckpointTuple S) × (o ≡ some t) × (a ≡ some t)
  unfolding restored_or_awaits
  restored_or_awaits-answered reads none a h = absurd (ground arith)
  restored_or_awaits-answered reads (some t) a h = (t, refl, sym (answered_injective (some t) a h))

  from_value-answered :
      (reads : ReadContext S) (self : RequestSaver S) (config : Config)
      (v : Option (SerializedCheckpoint S)) (a : Option (CheckpointTuple S))
      → (from_value S R reads self config v).1 ≡ answered a
      → Restores self config v a
  unfolding from_value
  from_value-answered reads self config none a h = sym (answered_injective none a h)
  from_value-answered reads self config (some c) a h =
      restored_or_awaits-answered reads (restore S self.allowlist c config) a h

  from_compared-answered :
      (reads : ReadContext S) (self : RequestSaver S) (config : Config) (c : CachedCheckpoint S)
      (same : Option Bool) (a : Option (CheckpointTuple S))
      → (from_compared S R reads self config c same).1 ≡ answered a
      → (same ≡ some true) × Restores self config c.value a
  unfolding from_compared
  from_compared-answered reads self config c none a h = absurd (ground arith)
  from_compared-answered reads self config c (some false) a h = absurd (ground arith)
  from_compared-answered reads self config c (some true) a h =
      (refl, from_value-answered reads self config c.value a h)

  -- What made a cached answer.
  pub record Hits (self : RequestSaver S) (config : Config) (o : Option (CachedCheckpoint S))
      (a : Option (CheckpointTuple S)) : Type 0 where
    pub cached : CachedCheckpoint S
    pub here : o ≡ some cached
    pub allowed : R.same_allowlist cached.allowlist self.allowlist ≡ true
    pub values :
        R.equal cached.config_values (values_at config.configurable (extra_config_keys S self))
        ≡ some true
    pub restores : Restores self config cached.value a

  from_cache-answered :
      (reads : ReadContext S) (self : RequestSaver S) (config : Config)
      (o : Option (CachedCheckpoint S)) (a : Option (CheckpointTuple S))
      → (from_cache S R reads self config o).1 ≡ answered a
      → Hits self config o a
  unfolding from_cache
  from_cache-answered reads self config none a h = absurd (ground arith)
  from_cache-answered reads self config (some c) a h =
      elim (Bool-cases (R.same_allowlist c.allowlist self.allowlist)) [
        | inr off ↦ absurd (ground (arith, off, h))
        | inl on ↦
            let (same, restores) =
              from_compared-answered reads self config c
                (R.equal c.config_values (values_at config.configurable (extra_config_keys S self)))
                a
                (subst
                  (λ b.
                    (if b
                      then from_compared S R reads self config c (
                          R.equal c.config_values
                            (values_at config.configurable (extra_config_keys S self)))
                      else (reads, awaits record { takes_part = true; cacheable = true })).1
                    ≡ answered a)
                  on h) in
            record { cached = c; here = refl; allowed = on; values = same; restores = restores }
      ]

  pub start_if-answered :
      (reads : ReadContext S) (self : RequestSaver S) (config : Config) (part cacheable : Bool)
      (a : Option (CheckpointTuple S))
      → (start_if S R reads self config part cacheable).1 ≡ answered a
      → (part ≡ true) × (cacheable ≡ true) × Hits self config reads.cache a
  unfolding start_if reads_input
  start_if-answered reads self config false cacheable a h = absurd (ground arith)
  start_if-answered reads self config true false a h = absurd (ground arith)
  start_if-answered reads self config true true a h =
      (refl, refl, from_cache-answered reads self config reads.cache a h)

  -- What a reader gets of a result of the storage, which may be None.
  abbrev pub answer_of :
      Option (CheckpointTuple S) → List String → Config → Option (CheckpointTuple S)
  answer_of none keys config = none
  answer_of (some v) keys config = some (reused S v keys config)

  abbrev pub IsSound : Type 0
  IsSound = (a b : S.Allowlist) → R.same_allowlist a b ≡ true → a ≡ b

  Restores-answer_of :
      (lawful : IsSerde S) (self saver : RequestSaver S) (config : Config)
      (result : Option (CheckpointTuple S)) (v : Option (SerializedCheckpoint S))
      (a : Option (CheckpointTuple S))
      → serialized_result S R saver result ≡ some v
      → saver.allowlist ≡ self.allowlist
      → Restores self config v a
      → a ≡ answer_of result (reference_keys S saver) config
  unfolding serialized_result
  Restores-answer_of lawful self saver config none none a made same r = r
  Restores-answer_of lawful self saver config none (some c) a made same r = absurd (ground arith)
  Restores-answer_of lawful self saver config (some t) none a made same r =
      absurd (map_some-none (create S saver.allowlist t (reference_keys S saver)) made)
  Restores-answer_of lawful self saver config (some t) (some c) a made same (u, back, p) =
      p
      ∙ sym back
      ∙ ap (λ l. restore S l c config) (sym same)
      ∙ restore-create S saver.allowlist lawful t (reference_keys S saver) config c
          (map_some_sound (create S saver.allowlist t (reference_keys S saver)) c made)

module _ (S : Serde) (R : Runtime S) (D : Storage S) (k : Key) (id : Option String) where
  -- The answer is what the storage has for a config of the same reference.
  pub record IsExplained (store : D.Store) (user : User) (self : RequestSaver S) (config : Config)
      (a : Option (CheckpointTuple S)) : Type 0 where
    pub reader : RequestSaver S
    pub first : Config
    pub result : Option (CheckpointTuple S)
    pub names : Names k self.cache_owner user config
    pub names_first : Names k k.owner k.user_id first
    pub input : R.get_checkpoint_id config ≡ id
    pub input_first : R.get_checkpoint_id first ≡ id
    pub values :
        R.equal
          (values_at first.configurable (extra_config_keys S reader))
          (values_at config.configurable (extra_config_keys S self))
        ≡ some true
    pub stored : D.aget_tuple store k.owner self.allowlist k.user_id first ≡ some result
    pub answer : a ≡ answer_of S R result (reference_keys S reader) config

  pub start-IsExplained :
      (serde : IsSerde S) (sound : IsSound S R) (st : State S R D) (user : User)
      (self : RequestSaver S) (config : Config) (a : Option (CheckpointTuple S))
      → IsFresh S R D k id st
      → (start S R st.reads user self config).1 ≡ answered a
      → IsExplained st.store user self config a
  unfolding start
  start-IsExplained serde sound st user self config a h started =
      let (part, cacheable, hit) = start_if-answered S R st.reads self config _ _ a started in
      let s = h.cached hit.cached hit.here in
      let same = sym s.allowlist ∙ sound hit.cached.allowlist self.allowlist hit.allowed in
      record {
        reader = s.saver;
        first = s.config;
        result = s.result;
        names = takes_part-Names S R st.reads k user self config h.key part;
        names_first = s.names;
        input = is_cacheable_input S R st.reads config cacheable ∙ h.input;
        input_first = s.input;
        values = rw (sym s.values) hit.values;
        stored = rw (sym same) s.stored;
        answer =
            Restores-answer_of S R serde self s.saver config s.result hit.cached.value a s.kept same
              hit.restores;
      }
