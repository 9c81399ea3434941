-- ===== src/Savers/Listings.antt =====
-- `FoundryCheckpointSaver.alist`: what its iterator yields, up to its end or an exception.
use langchain_azure.Base.{
  ℕ, ◌+◌, Bool, true, false, Option, none, some, List, [], ◌∷◌, ◌++◌, String, if◌then◌else◌, ◌==◌,
  ◌&&◌, not, string_eq, codes_eq, leb,
}
use langchain_azure.Base.Words.{Text, codes, text_leb}
use langchain_azure.Base.Integer.{ℤ, pos, lt_ℤ, at_least_zero}
use langchain_azure.Checkpoints.Config.{Setting, text, Config, lookup}
use langchain_azure.Savers.Keys.{checkpoint_key, parse_checkpoint_key}
use langchain_azure.Savers.Store.{Codec, ItemValue, checkpoint_item, write_item, Tags, Service}
use langchain_azure.Savers.Saver.{
  Outcome, done, value_error, key_error, out_of_fuel, and_then, thread_id_of, text_ltb,
  CheckpointTuple, deserialize, collect_keys,
}
use langchain_azure.Savers.Reads.{truthy, str_tag, checkpoint_tuple}

-- A candidate: the id of a checkpoint and its key.
abbrev pub Candidate : Type 0
Candidate = Text × Text

abbrev pub is_id : Option String → Text → Bool
is_id none item_id = true
is_id (some id) item_id = item_id == codes id

abbrev pub is_before : Option String → Text → Bool
is_before none item_id = true
is_before (some before) item_id = text_ltb item_id (codes before)

abbrev pub in_scope : Option String → Text → Bool
in_scope none item_ns = true
in_scope (some ns) item_ns = item_ns == codes ns

-- The tests of the loop over the keys. The namespace is `none` where the config sets none.
abbrev pub is_candidate : Option String → Option String → Option String → Text × Text → Bool
is_candidate ns id before (item_ns, item_id) =
    not (item_id == []) && in_scope ns item_ns && is_id id item_id && is_before before item_id

abbrev pub with_candidate :
    Option String → Option String → Option String → Text → List Candidate → List Candidate
with_candidate ns id before key rest =
    let parts = parse_checkpoint_key key in
    if is_candidate ns id before parts then (parts.1, key) ∷ rest else rest

unfoldable pub candidates_of :
    Option String → Option String → Option String → List Text → List Candidate
candidates_of ns id before [] = []
candidates_of ns id before (key ∷ keys) =
    with_candidate ns id before key (candidates_of ns id before keys)

unfoldable pub insert_candidate : Candidate → List Candidate → List Candidate
insert_candidate x [] = x ∷ []
insert_candidate x (y ∷ ys) = if text_leb y.0 x.0 then x ∷ y ∷ ys else y ∷ insert_candidate x ys

-- candidates.sort(key=..., reverse=True), which is stable
unfoldable pub sort_candidates : List Candidate → List Candidate
unfolding insert_candidate
sort_candidates [] = []
sort_candidates (x ∷ xs) = insert_candidate x (sort_candidates xs)

-- What the iterator yields. `ends (done tt)` is its normal end.
pub data Listing (A : Type 0) : Type 0 where
  ends : Outcome {0} Unit → Listing A
  yields : A → Listing A → Listing A

abbrev pub is_limit : Option ℕ → ℕ → Bool
is_limit none yielded = false
is_limit (some limit) yielded = leb limit yielded

abbrev pub yield_one : {A : Type 0} → Option ℕ → ℕ → (ℕ → Listing A) → Outcome A → Listing A
yield_one limit yielded next (done t) =
    yields t (if is_limit limit (yielded + 1) then ends (done tt) else next (yielded + 1))
yield_one limit yielded next value_error = ends value_error
yield_one limit yielded next key_error = ends key_error
yield_one limit yielded next out_of_fuel = ends out_of_fuel

abbrev pub or_ends : {A B : Type 0} → Outcome A → (A → Listing B) → Listing B
or_ends (done a) f = f a
or_ends value_error f = ends value_error
or_ends key_error f = ends key_error
or_ends out_of_fuel f = ends out_of_fuel

abbrev pub or_stop : {A B : Type 0} → Option A → (A → Listing B) → Listing B
or_stop none f = ends value_error
or_stop (some a) f = f a

module _ (C : Codec) (F : Service) where
  abbrev pub same_field : Option C.Object → C.Object → Bool
  same_field none expected = C.is_none expected
  same_field (some value) expected = C.same value expected

  -- all(metadata.get(name) == expected for name, expected in filter.items()). No filter is [].
  unfoldable pub fits : List (String × C.Object) → C.Object → Bool
  fits [] metadata = true
  fits ((name, expected) ∷ filter) metadata =
      same_field (C.field metadata name) expected && fits filter metadata

  abbrev pub visit :
      ℕ
      → F.State
      → String
      → List (String × C.Object)
      → Option ℕ
      → ℕ
      → (ℕ → Listing (CheckpointTuple C.Object))
      → Option ItemValue
      → Listing (CheckpointTuple C.Object)
  visit fuel s thread_id filter limit yielded next none = next yielded
  visit fuel s thread_id filter limit yielded next
        (some (write_item id ns task path index channel value)) =
      ends key_error
  visit fuel s thread_id filter limit yielded next
        (some (checkpoint_item id ns checkpoint metadata parent)) =
      let known = deserialize C metadata in
      if fits filter known
      then yield_one limit yielded next (
          checkpoint_tuple C F fuel s thread_id (checkpoint_item id ns checkpoint metadata parent)
            (some known))
      else next yielded

  -- The loop over the candidates.
  unfoldable pub walk :
      ℕ
      → F.State
      → String
      → List (String × C.Object)
      → Option ℕ
      → ℕ
      → List Candidate
      → Listing (CheckpointTuple C.Object)
  unfolding fits checkpoint_tuple deserialize
  walk fuel s thread_id filter limit yielded [] = ends (done tt)
  walk fuel s thread_id filter limit yielded ((id, key) ∷ candidates) =
      visit fuel s thread_id filter limit yielded
        (λ n. walk fuel s thread_id filter limit n candidates) (F.get_item s key)

  abbrev pub scope_tag : Option String → Tags
  scope_tag none = []
  scope_tag (some ns) = ("ns", ns) ∷ []

  abbrev pub query_tags : Option String → List (String × C.Object) → Tags
  query_tags ns filter =
      ("kind", "checkpoint") ∷ scope_tag ns
      ++ str_tag C "source" (lookup filter "source")
      ++ str_tag C "step" (lookup filter "step")

  -- The candidates, unsorted.
  abbrev pub candidates :
      ℕ
      → F.State
      → Option String
      → Option String
      → Option String
      → List (String × C.Object)
      → Outcome (List Candidate)
  candidates fuel s (some ns) (some id) before filter = done ((codes id, checkpoint_key ns id) ∷ [])
  candidates fuel s ns id before filter =
      and_then (collect_keys F fuel s (query_tags ns filter) true none)
        (λ keys. done (candidates_of ns id before keys))

  abbrev pub is_past : Option String → Option String → Bool
  is_past (some id) (some before) = text_leb (codes before) (codes id)
  is_past id before = false

  abbrev pub list_in :
      ℕ
      → F.State
      → String
      → Option String
      → Option String
      → Option String
      → List (String × C.Object)
      → Option ℕ
      → Listing (CheckpointTuple C.Object)
  list_in fuel s thread_id ns id before filter limit =
      if is_past id before
      then ends (done tt)
      else or_ends (candidates fuel s ns id before filter)
          (λ found. walk fuel s thread_id filter limit 0 (sort_candidates found))

  abbrev pub id_of : Option Config → Option String
  id_of none = none
  id_of (some config) = truthy (C.get_checkpoint_id config)

  abbrev pub scope_of : Option Setting → Option (Option String)
  scope_of none = some none
  scope_of (some (text ns)) = some (some ns)
  scope_of (some v) = none

  abbrev pub limit_of : Option ℤ → Option (Option ℕ)
  limit_of none = some none
  limit_of (some n) = if lt_ℤ n (pos 1) then none else some (some (at_least_zero n))

  -- `alist`
  unfoldable pub alist :
      ℕ
      → F.State
      → Option Config
      → List (String × C.Object)
      → Option Config
      → Option ℤ
      → Listing (CheckpointTuple C.Object)
  unfolding walk thread_id_of lookup candidates_of sort_candidates
  alist fuel s none filter before limit = ends value_error
  alist fuel s (some config) filter before limit = or_stop (limit_of limit) (λ most.
      or_stop (thread_id_of config) (λ thread_id.
        or_stop (scope_of (lookup config.configurable "checkpoint_ns"))
          (λ ns. list_in fuel s thread_id ns (id_of (some config)) (id_of before) filter most)))
