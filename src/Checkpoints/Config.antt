-- ===== src/Checkpoints/Config.antt =====
-- The configuration of a run, as the checkpoint savers read it: dictionaries by their keys.
use langchain_azure.Base.{
  ℕ, Option, none, some, List, [], ◌∷◌, String, ◌≡◌, refl, arith, if◌then◌else◌, ◌==◌, contains,
  string_eq,
}

-- None, a `str`, or any other object, which only its owner reads.
pub data Setting : Type 0 where
  null : Setting
  text : String → Setting
  object : ℕ → Setting

abbrev pub Dict : Type 0 → Type 0
Dict A = List (String × A)

-- The first entry of a key; a dictionary has one at most.
unfoldable pub lookup : {A : Type 0} → Dict A → String → Option A
lookup [] k = none
lookup ((j, v) ∷ d) k = if k == j then some v else lookup d k

abbrev pub or_default : {A : Type 0} → A → Option A → A
or_default a none = a
or_default a (some b) = b

-- d.get(key, default)
unfoldable pub get_or : Setting → Dict Setting → String → Setting
unfolding lookup
get_or default d k = or_default default (lookup d k)

-- {key: value for key, value in d.items() if key in keys}
unfoldable pub restrict : {A : Type 0} → List String → Dict A → Dict A
restrict keys [] = []
restrict keys ((j, v) ∷ d) =
    let rest = restrict keys d in if contains keys j then (j, v) ∷ rest else rest

unfoldable pub put : {A : Type 0} → Dict A → String → A → Dict A
put [] k v = (k, v) ∷ []
put ((j, w) ∷ d) k v = let rest = put d k v in if k == j then (j, v) ∷ d else (j, w) ∷ rest

-- {**base, **top}
unfoldable pub merge : {A : Type 0} → Dict A → Dict A → Dict A
unfolding put
merge base [] = base
merge base ((k, v) ∷ top) = put (merge base top) k v

-- A missing "configurable" is read as an empty one.
pub record Config : Type 0 where
  pub configurable : Dict Setting
  pub rest : Dict Setting

-- `_reference_config` of a config that is there
unfoldable pub reference_config : List String → Config → Config
unfolding restrict
reference_config keys config = record {
  configurable = restrict keys config.configurable;
  rest = [];
}

unfoldable pub reference_of : List String → Option Config → Option Config
unfolding reference_config
reference_of keys none = none
reference_of keys (some config) = some (reference_config keys config)

-- {key: configurable.get(key) for key in keys}
unfoldable pub values_at : Dict Setting → List String → Dict Setting
unfolding get_or
values_at d [] = []
values_at d (k ∷ keys) = (k, get_or null d k) ∷ values_at d keys

pub lookup-put :
    {A : Type 0} (d : Dict A) (k j : String) (v : A)
    → lookup (put d k v) j ≡ (if j == k then some v else lookup d j)
unfolding lookup put
lookup-put [] k j v = refl
lookup-put ((i, w) ∷ d) k j v = ground (arith, lookup-put d k j v)

abbrev pub or_else : {A : Type 0} → Option A → Option A → Option A
or_else none b = b
or_else (some a) b = some a

pub lookup-merge :
    {A : Type 0} (base top : Dict A) (k : String)
    → lookup (merge base top) k ≡ or_else (lookup top k) (lookup base k)
unfolding lookup merge
lookup-merge base [] k = refl
lookup-merge base ((j, v) ∷ top) k =
    ground (arith, lookup-put (merge base top) j k v, lookup-merge base top k)

pub lookup-restrict :
    {A : Type 0} (keys : List String) (d : Dict A) (k : String)
    → lookup (restrict keys d) k ≡ (if contains keys k then lookup d k else none)
unfolding lookup restrict
lookup-restrict keys [] k = ground arith
lookup-restrict keys ((j, v) ∷ d) k = ground (arith, lookup-restrict keys d k)
