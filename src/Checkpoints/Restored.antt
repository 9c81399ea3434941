-- ===== src/Checkpoints/Restored.antt =====
-- What a checkpoint that was serialized is restored to, by the entries of its configs.
use langchain_azure.Base.{
  Option, none, some, List, [], String, ◌≡◌, refl, ap, ◌∙◌, if◌then◌else◌, contains, string_eq,
  Bool-cases, inl, inr,
}
use langchain_azure.Checkpoints.Config.{
  Config, lookup, or_else, restrict, reference_config, reference_of, lookup-merge, lookup-restrict,
}
use langchain_azure.Checkpoints.Serialized.{
  Serde, IsSerde, CheckpointTuple, SerializedCheckpoint, with_reference, reused, create, restore,
  restore-create,
}

-- The entries of a config's "configurable" under the reference keys, and no others.
abbrev pub IsReference : List String → Config → Config → Type 0
IsReference keys config reference =
    ((k : String)
      → lookup reference.configurable k
        ≡ (if contains keys k then lookup config.configurable k else none))
    × (reference.rest ≡ [])

abbrev pub IsReferenceOf : List String → Option Config → Option Config → Type 0
IsReferenceOf keys none result = result ≡ none
IsReferenceOf keys (some config) result =
    (reference : Config) × (result ≡ some reference) × IsReference keys config reference

-- The reader's config with the entries of the checkpoint's config that are under the reference keys,
-- which win.
abbrev pub IsAround : List String → Config → Config → Config → Type 0
IsAround keys reader own result =
    ((k : String)
      → lookup result.configurable k ≡ (
          if contains keys k
          then or_else (lookup own.configurable k) (lookup reader.configurable k)
          else lookup reader.configurable k))
    × (result.rest ≡ reader.rest)

reference_of-IsReferenceOf :
    (keys : List String) (config : Option Config)
    → IsReferenceOf keys config (reference_of keys config)
unfolding reference_of reference_config
reference_of-IsReferenceOf keys none = refl
reference_of-IsReferenceOf keys (some config) =
    (reference_config keys config, refl, ((λ k. lookup-restrict keys config.configurable k), refl))

module _ (S : Serde) where
  with_reference-IsAround :
      (keys : List String) (reader own : Config)
      → IsAround keys reader own (with_reference S reader (reference_config keys own))
  unfolding with_reference reference_config
  with_reference-IsAround keys reader own = (
    λ k.
        lookup-merge reader.configurable (restrict keys own.configurable) k
        ∙ ap (λ o. or_else o (lookup reader.configurable k))
            (lookup-restrict keys own.configurable k)
        ∙ elim (Bool-cases (contains keys k)) [ inl e ↦ rw e refl | inr e ↦ rw e refl ],
    refl,
  )

  -- Restoring a checkpoint that was serialized succeeds and gives back its header, channel values,
  -- metadata and pending writes. Its config is the reader's with the checkpoint's own entries under
  -- the reference keys, which win; the parent's config is cut to these keys. It needs that the
  -- serializer reads back what it wrote.
  pub restore-IsAround :
      (allowlist : S.Allowlist) (lawful : IsSerde S) (value : CheckpointTuple S)
      (keys : List String) (reader : Config) (c : SerializedCheckpoint S)
      → create S allowlist value keys ≡ some c
      → (t : CheckpointTuple S) × (restore S allowlist c reader ≡ some t)
        × (t.header ≡ value.header)
        × (t.channel_values ≡ value.channel_values)
        × (t.metadata ≡ value.metadata)
        × (t.pending_writes ≡ value.pending_writes)
        × IsAround keys reader value.config t.config
        × IsReferenceOf keys value.parent_config t.parent_config
  unfolding reused
  restore-IsAround allowlist lawful value keys reader c h = (
    reused S value keys reader,
    restore-create S allowlist lawful value keys reader c h,
    refl,
    refl,
    refl,
    refl,
    with_reference-IsAround keys reader value.config,
    reference_of-IsReferenceOf keys value.parent_config,
  )
