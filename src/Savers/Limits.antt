-- ===== src/Savers/Limits.antt =====
-- A limited listing of checkpoints against the unlimited one.
use langchain_azure.Base.{
  ℕ, zero, suc, ◌+◌, ◌-◌, ◌≤◌, ◌<◌, false, Option, none, some, List, [], ◌∷◌, String, ◌≡◌, refl,
  sym, ap, ◌∙◌, arith, Bool-cases, inl, inr, leb, leb→le,
}
use langchain_azure.Base.Integer.{pos}
use langchain_azure.Checkpoints.Config.{Config, lookup}
use langchain_azure.Savers.Store.{Codec, ItemValue, checkpoint_item, write_item, Service}
use langchain_azure.Savers.Saver.{
  Outcome, done, value_error, key_error, out_of_fuel, thread_id_of, CheckpointTuple, deserialize,
}
use langchain_azure.Savers.Reads.{checkpoint_tuple}
use langchain_azure.Savers.Listings.{
  Candidate, Listing, ends, yields, yield_one, or_ends, or_stop, fits, visit, walk, candidates,
  is_past, list_in, sort_candidates, id_of, scope_of, limit_of, alist,
}

-- The first `n` of what an iterator yields, and nothing after them.
unfoldable pub cut : {A : Type 0} → ℕ → Listing A → Listing A
cut zero l = ends (done tt)
cut (suc n) (ends o) = ends o
cut (suc n) (yields a l) = yields a (cut n l)

lt_of_not_leb : (a b : ℕ) → leb a b ≡ false → b < a
lt_of_not_leb a b h = ground arith

module _ {A : Type 0} where
  cut-ends : (n : ℕ) (o : Outcome {0} Unit) → 1 ≤ n → cut {A = A} n (ends o) ≡ ends o
  unfolding cut
  cut-ends zero o h = absurd (omega arith)
  cut-ends (suc n) o h = refl

  cut-yields :
      (n : ℕ) (a : A) (l : Listing A) → 1 ≤ n → cut n (yields a l) ≡ yields a (cut (n - 1) l)
  unfolding cut
  cut-yields zero a l h = absurd (omega arith)
  cut-yields (suc n) a l h = ap (λ m. yields a (cut m l)) (omega arith)

  cut-or_stop :
      {B : Type 0} (n : ℕ) (o : Option B) (f g : B → Listing A)
      → 1 ≤ n
      → ((b : B) → f b ≡ cut n (g b))
      → or_stop o f ≡ cut n (or_stop o g)
  cut-or_stop n none f g h e = sym (cut-ends n value_error h)
  cut-or_stop n (some b) f g h e = e b

  cut-or_ends :
      {B : Type 0} (n : ℕ) (o : Outcome B) (f g : B → Listing A)
      → 1 ≤ n
      → ((b : B) → f b ≡ cut n (g b))
      → or_ends o f ≡ cut n (or_ends o g)
  cut-or_ends n (done b) f g h e = e b
  cut-or_ends n value_error f g h e = sym (cut-ends n value_error h)
  cut-or_ends n key_error f g h e = sym (cut-ends n key_error h)
  cut-or_ends n out_of_fuel f g h e = sym (cut-ends n out_of_fuel h)

  -- The loop's counter against what is left to yield.
  abbrev Follows : ℕ → (ℕ → Listing A) → (ℕ → Listing A) → Type 0
  Follows limit f g = (y z : ℕ) → y < limit → f y ≡ cut (limit - y) (g z)

  cut-yield_one :
      (limit y z : ℕ) (f g : ℕ → Listing A) (o : Outcome A)
      → y < limit
      → Follows limit f g
      → yield_one (some limit) y f o ≡ cut (limit - y) (yield_one none z g o)
  unfolding cut
  cut-yield_one limit y z f g (done a) h e =
      ap (λ l. yields a l)
        (elim (Bool-cases (leb limit (y + 1))) [
          | inl last ↦
              (let none_left : 0 ≡ limit - y - 1 = omega (arith, leb→le limit (y + 1) last) in
                rw last (ap (λ n. cut n (g (z + 1))) none_left))
          | inr more ↦ rw more (
              e (y + 1) (z + 1) (lt_of_not_leb limit (y + 1) more)
              ∙ ap (λ n. cut n (g (z + 1))) (omega arith))
        ])
      ∙ sym (cut-yields (limit - y) a (g (z + 1)) (omega arith))
  cut-yield_one limit y z f g value_error h e = sym (cut-ends (limit - y) value_error (omega arith))
  cut-yield_one limit y z f g key_error h e = sym (cut-ends (limit - y) key_error (omega arith))
  cut-yield_one limit y z f g out_of_fuel h e = sym (cut-ends (limit - y) out_of_fuel (omega arith))

module _ (C : Codec) (F : Service) where
  cut-visit :
      (fuel : ℕ) (s : F.State) (thread_id : String) (filter : List (String × C.Object))
      (limit y z : ℕ) (f g : ℕ → Listing (CheckpointTuple C.Object)) (o : Option ItemValue)
      → y < limit
      → Follows limit f g
      → visit C F fuel s thread_id filter (some limit) y f o
        ≡ cut (limit - y) (visit C F fuel s thread_id filter none z g o)
  cut-visit fuel s thread_id filter limit y z f g none h e = e y z h
  cut-visit fuel s thread_id filter limit y z f g
        (some (write_item id ns task path index channel value)) h e =
      sym (cut-ends (limit - y) key_error (omega arith))
  cut-visit fuel s thread_id filter limit y z f g
        (some (checkpoint_item id ns checkpoint metadata parent)) h e =
      elim (Bool-cases (fits C F filter (deserialize C metadata))) [
        | inl fit ↦ rw fit (
            cut-yield_one limit y z f g
              (checkpoint_tuple C F fuel s thread_id
                (checkpoint_item id ns checkpoint metadata parent) (some (deserialize C metadata)))
              h e)
        | inr unfit ↦ rw unfit (e y z h)
      ]

  walk-cut :
      (fuel : ℕ) (s : F.State) (thread_id : String) (filter : List (String × C.Object))
      (limit y z : ℕ) (found : List Candidate)
      → y < limit
      → walk C F fuel s thread_id filter (some limit) y found
        ≡ cut (limit - y) (walk C F fuel s thread_id filter none z found)
  unfolding walk
  walk-cut fuel s thread_id filter limit y z [] h =
      sym (cut-ends (limit - y) (done tt) (omega arith))
  walk-cut fuel s thread_id filter limit y z ((id, key) ∷ found) h =
      cut-visit fuel s thread_id filter limit y z
        (λ n. walk C F fuel s thread_id filter (some limit) n found)
        (λ n. walk C F fuel s thread_id filter none n found) (F.get_item s key) h
        (λ a b less. walk-cut fuel s thread_id filter limit a b found less)

  list_in-cut :
      (fuel : ℕ) (s : F.State) (thread_id : String) (ns id before : Option String)
      (filter : List (String × C.Object)) (limit : ℕ)
      → 1 ≤ limit
      → list_in C F fuel s thread_id ns id before filter (some limit)
        ≡ cut limit (list_in C F fuel s thread_id ns id before filter none)
  list_in-cut fuel s thread_id ns id before filter limit h =
      elim (Bool-cases (is_past C F id before)) [
        | inl past ↦ rw past (sym (cut-ends limit (done tt) h))
        | inr future ↦ rw future (
            cut-or_ends limit (candidates C F fuel s ns id before filter)
              (λ found. walk C F fuel s thread_id filter (some limit) 0 (sort_candidates found))
              (λ found. walk C F fuel s thread_id filter none 0 (sort_candidates found)) h
              (λ found.
                walk-cut fuel s thread_id filter limit 0 0 (sort_candidates found) h
                ∙ ap (λ n. cut n (walk C F fuel s thread_id filter none 0 (sort_candidates found)))
                    (omega arith)))
      ]

positive_limit :
    (C : Codec) (F : Service) (limit : ℕ)
    → 1 ≤ limit
    → limit_of C F (some (pos limit)) ≡ some (some limit)
positive_limit C F limit h = ground arith

-- A listing with a positive limit yields what the unlimited listing yields, up to that many
-- checkpoints, with the same end if there are fewer, errors included.
pub alist_limited :
    (C : Codec) (F : Service) (fuel : ℕ) (s : F.State) (config before : Option Config)
    (filter : List (String × C.Object)) (limit : ℕ)
    → 1 ≤ limit
    → alist C F fuel s config filter before (some (pos limit))
      ≡ cut limit (alist C F fuel s config filter before none)
unfolding alist
alist_limited C F fuel s none before filter limit h = sym (cut-ends limit value_error h)
alist_limited C F fuel s (some config) before filter limit h =
    let id = id_of C F (some config) in
    let last = id_of C F before in
    let ns = scope_of C F (lookup config.configurable "checkpoint_ns") in
    rw (positive_limit C F limit h) (
      cut-or_stop limit (thread_id_of config)
        (λ t. or_stop ns (λ n. list_in C F fuel s t n id last filter (some limit)))
        (λ t. or_stop ns (λ n. list_in C F fuel s t n id last filter none)) h
        (λ t.
          cut-or_stop limit ns (λ n. list_in C F fuel s t n id last filter (some limit))
            (λ n. list_in C F fuel s t n id last filter none) h
            (λ n. list_in-cut C F fuel s t n id last filter limit h)))
