-- ===== src/Checkpoints/Serialized.antt =====
-- `_SerializedCheckpoint`: a checkpoint kept as what the serializer wrote. A value of `none` stands
-- for an exception of the serializer.
use mathlib.Core.Option.{some-injective}
use langchain_azure.Base.{sym, arith, Option, none, some, List, [], ◌∷◌, String, ◌≡◌, refl, ap}
use langchain_azure.Checkpoints.Config.{Dict, Config, merge, reference_config, reference_of}

-- What the wrapped saver's `serde` does.
pub record Serde : Type 1 where
  pub Value : Type 0
  pub Raw : Type 0
  -- A frozen set of module paths, which the serializer may construct.
  pub Allowlist : Type 0
  pub dumps_typed : Allowlist → Value → Option Raw
  pub loads_typed : Allowlist → Raw → Option Value

-- What is written is read back.
pub record IsSerde (S : Serde) : Type 0 where
  pub loads-dumps :
      (a : S.Allowlist) (v : S.Value) (r : S.Raw)
      → S.dumps_typed a v ≡ some r
      → S.loads_typed a r ≡ some v

-- Two results, or the first exception.
abbrev pub both : {A B : Type 0} → Option A → Option B → Option (A × B)
both none b = none
both (some a) none = none
both (some a) (some b) = some (a, b)

abbrev pub map_some : {A : Type 0} → Option A → Option (Option A)
map_some none = none
map_some (some a) = some (some a)

-- {key: f(value) for key, value in d.items()}
abbrev pub entry : {B : Type 0} → String → Option (B × Dict B) → Option (Dict B)
entry k none = none
entry k (some (w, e)) = some ((k, w) ∷ e)

unfoldable pub each : {A B : Type 0} → (A → Option B) → Dict A → Option (Dict B)
each f [] = some []
each f ((k, v) ∷ d) = entry k (both (f v) (each f d))

abbrev pub Writes : Type 0 → Type 0
Writes A = List (String × String × A)

abbrev pub write_entry : {B : Type 0} → String → String → Option (B × Writes B) → Option (Writes B)
write_entry task channel none = none
write_entry task channel (some (w, e)) = some ((task, channel, w) ∷ e)

unfoldable pub each_write : {A B : Type 0} → (A → Option B) → Writes A → Option (Writes B)
each_write f [] = some []
each_write f ((task, channel, v) ∷ ws) = write_entry task channel (both (f v) (each_write f ws))

-- the comprehension over the pending writes, where None stays None
unfoldable pub writes_with :
    {A B : Type 0} → (A → Option B) → Option (Writes A) → Option (Option (Writes B))
unfolding each_write
writes_with f none = some none
writes_with f (some ws) = map_some (each_write f ws)

pub map_some_sound : {A : Type 0} (o : Option A) (a : A) → map_some o ≡ some (some a) → o ≡ some a
map_some_sound none a h = absurd (ground arith)
map_some_sound (some b) a h = some-injective _ _ h

pub map_some-none : {A : Type 0} (o : Option A) → ¬ (map_some o ≡ some none)
map_some-none none h = ground arith
map_some-none (some b) h = ground arith

-- What an entry that was made was made of.
entry-both :
    {B : Type 0} (k : String) (a : Option B) (b : Option (Dict B)) (e : Dict B)
    → entry k (both a b) ≡ some e
    → (w : B) × (es : Dict B) × (a ≡ some w) × (b ≡ some es) × (e ≡ (k, w) ∷ es)
entry-both k none b e h = absurd (ground arith)
entry-both k (some w) none e h = absurd (ground arith)
entry-both k (some w) (some es) e h = (w, es, refl, refl, sym (some-injective _ _ h))

write_entry-both :
    {B : Type 0} (task channel : String) (a : Option B) (b : Option (Writes B)) (e : Writes B)
    → write_entry task channel (both a b) ≡ some e
    → (w : B) × (es : Writes B) × (a ≡ some w) × (b ≡ some es) × (e ≡ (task, channel, w) ∷ es)
write_entry-both task channel none b e h = absurd (ground arith)
write_entry-both task channel (some w) none e h = absurd (ground arith)
write_entry-both task channel (some w) (some es) e h =
    (w, es, refl, refl, sym (some-injective _ _ h))

module _ (S : Serde) where
  pub record CheckpointTuple : Type 0 where
    pub config : Config
    pub parent_config : Option Config
    -- the checkpoint without its "channel_values"
    pub header : S.Value
    pub channel_values : Dict S.Value
    pub metadata : S.Value
    pub pending_writes : Option (Writes S.Value)

  pub record SerializedCheckpoint : Type 0 where
    pub config : Config
    pub parent_config : Option Config
    pub header : S.Raw
    pub channels : Dict S.Raw
    pub metadata : S.Raw
    pub writes : Option (Writes S.Raw)

  unfoldable pub serialized :
      Config
      → Option Config
      → Option (((S.Raw × Dict S.Raw) × S.Raw) × Option (Writes S.Raw))
      → Option SerializedCheckpoint
  serialized config parent none = none
  serialized config parent (some (((h, cs), m), ws)) = some record {
    config = config;
    parent_config = parent;
    header = h;
    channels = cs;
    metadata = m;
    writes = ws;
  }

  unfoldable pub restored :
      Config
      → Option Config
      → Option (((S.Value × Dict S.Value) × S.Value) × Option (Writes S.Value))
      → Option CheckpointTuple
  restored config parent none = none
  restored config parent (some (((h, cs), m), ws)) = some record {
    config = config;
    parent_config = parent;
    header = h;
    channel_values = cs;
    metadata = m;
    pending_writes = ws;
  }

  -- {**config, "configurable": {**config["configurable"], **stored["configurable"]}}
  unfoldable pub with_reference : Config → Config → Config
  unfolding merge
  with_reference config stored = record {
    configurable = merge config.configurable stored.configurable;
    rest = config.rest;
  }

  -- The pieces of a checkpoint that was serialized.
  serialized_parts :
      (config : Config) (parent : Option Config) (h : Option S.Raw) (cs : Option (Dict S.Raw))
      (m : Option S.Raw) (ws : Option (Option (Writes S.Raw))) (c : SerializedCheckpoint)
      → serialized config parent (both (both (both h cs) m) ws) ≡ some c
      → (c.config ≡ config)
        × (c.parent_config ≡ parent)
        × (h ≡ some c.header)
        × (cs ≡ some c.channels)
        × (m ≡ some c.metadata)
        × (ws ≡ some c.writes)
  unfolding serialized
  serialized_parts config parent none cs m ws c p = absurd (ground arith)
  serialized_parts config parent (some h) none m ws c p = absurd (ground arith)
  serialized_parts config parent (some h) (some cs) none ws c p = absurd (ground arith)
  serialized_parts config parent (some h) (some cs) (some m) none c p = absurd (ground arith)
  serialized_parts config parent (some h) (some cs) (some m) (some ws) c p =
      let q = sym (some-injective _ _ p) in
      (
        ap (λ c. c.config) q,
        ap (λ c. c.parent_config) q,
        ap (λ c. some (SerializedCheckpoint.header c)) (sym q),
        ap (λ c. some (SerializedCheckpoint.channels c)) (sym q),
        ap (λ c. some (SerializedCheckpoint.metadata c)) (sym q),
        ap (λ c. some (SerializedCheckpoint.writes c)) (sym q),
      )

  -- what a reader with the config `config` gets of a checkpoint
  unfoldable pub reused : CheckpointTuple → List String → Config → CheckpointTuple
  unfolding with_reference reference_config reference_of
  reused value keys config = record {
    config = with_reference config (reference_config keys value.config);
    parent_config = reference_of keys value.parent_config;
    header = value.header;
    channel_values = value.channel_values;
    metadata = value.metadata;
    pending_writes = value.pending_writes;
  }

  -- The functions of one saver, whose serializer has its allowlist.
  module _ (allowlist : S.Allowlist) where
    -- `_SerializedCheckpoint.create`
    unfoldable pub create : CheckpointTuple → List String → Option SerializedCheckpoint
    unfolding serialized each writes_with reference_config reference_of
    create value keys =
        serialized (reference_config keys value.config) (reference_of keys value.parent_config) (
          both
            (both
              (both (S.dumps_typed allowlist value.header)
                (each (S.dumps_typed allowlist) value.channel_values))
              (S.dumps_typed allowlist value.metadata))
            (writes_with (S.dumps_typed allowlist) value.pending_writes))

    -- `_SerializedCheckpoint.restore`
    unfoldable pub restore : SerializedCheckpoint → Config → Option CheckpointTuple
    unfolding restored each writes_with with_reference
    restore cached config = restored (with_reference config cached.config) cached.parent_config (
        both
          (both
            (both (S.loads_typed allowlist cached.header)
              (each (S.loads_typed allowlist) cached.channels))
            (S.loads_typed allowlist cached.metadata))
          (writes_with (S.loads_typed allowlist) cached.writes))

    module _ (lawful : IsSerde S) where
      each-loads :
          (d : Dict S.Value) (e : Dict S.Raw)
          → each (S.dumps_typed allowlist) d ≡ some e
          → each (S.loads_typed allowlist) e ≡ some d
      unfolding each
      each-loads [] [] h = refl
      each-loads [] (x ∷ e) h = absurd (ground arith)
      each-loads ((k, v) ∷ d) e h =
          let (r, es, p, q, made) =
            entry-both k (S.dumps_typed allowlist v) (each (S.dumps_typed allowlist) d) e h in
          rw (made, lawful.loads-dumps allowlist v r p, each-loads d es q)

      each_write-loads :
          (d : Writes S.Value) (e : Writes S.Raw)
          → each_write (S.dumps_typed allowlist) d ≡ some e
          → each_write (S.loads_typed allowlist) e ≡ some d
      unfolding each_write
      each_write-loads [] [] h = refl
      each_write-loads [] (x ∷ e) h = absurd (ground arith)
      each_write-loads ((task, channel, v) ∷ d) e h =
          let (r, es, p, q, made) =
            write_entry-both task channel (S.dumps_typed allowlist v)
              (each_write (S.dumps_typed allowlist) d) e h in
          rw (made, lawful.loads-dumps allowlist v r p, each_write-loads d es q)

      writes_with-loads :
          (d : Option (Writes S.Value)) (e : Option (Writes S.Raw))
          → writes_with (S.dumps_typed allowlist) d ≡ some e
          → writes_with (S.loads_typed allowlist) e ≡ some d
      unfolding writes_with
      writes_with-loads none none h = refl
      writes_with-loads none (some e) h = absurd (ground arith)
      writes_with-loads (some d) none h =
          absurd (map_some-none (each_write (S.dumps_typed allowlist) d) h)
      writes_with-loads (some d) (some e) h =
          rw (each_write-loads d e (map_some_sound (each_write (S.dumps_typed allowlist) d) e h))

      -- Restoring a checkpoint that was serialized gives it back, its parent's reference included,
      -- with the reader's config around its own reference. It needs that the serializer reads back
      -- what it wrote.
      pub restore-create :
          (value : CheckpointTuple) (keys : List String) (config : Config)
          (c : SerializedCheckpoint)
          → create value keys ≡ some c
          → restore c config ≡ some (reused value keys config)
      unfolding create serialized restore restored reused
      restore-create value keys config c h =
          let (p, q, header, channels, metadata, writes) =
            serialized_parts (reference_config keys value.config)
              (reference_of keys value.parent_config) (S.dumps_typed allowlist value.header)
              (each (S.dumps_typed allowlist) value.channel_values)
              (S.dumps_typed allowlist value.metadata)
              (writes_with (S.dumps_typed allowlist) value.pending_writes) c h in
          rw (
            lawful.loads-dumps allowlist value.header c.header header,
            each-loads value.channel_values c.channels channels,
            lawful.loads-dumps allowlist value.metadata c.metadata metadata,
            writes_with-loads value.pending_writes c.writes writes,
            p,
            q,
          )
