-- ===== src/Savers/FirstWrites.antt =====
-- The first write of a task and an ordinal wins.
use langchain_azure.Base.{
  ℕ, ◌+◌, ◌<◌, true, false, Option, none, some, List, [], ◌∷◌, ◌++◌, String, ◌≡◌, ◌≢◌, refl, sym,
  ap, ◌∙◌, arith, length, ◌==◌, codes_eq, eq_refl, eq_false, Option-cases, inl, inr,
}
use langchain_azure.Base.Words.{Text}
use langchain_azure.Base.Integer.{ℤ, pos, negsuc}
use langchain_azure.Checkpoints.Config.{Config, or_default}
use langchain_azure.Savers.Keys.{write_key}
use langchain_azure.Savers.Store.{Codec, ItemValue, Service, IsService}
use langchain_azure.Savers.Saver.{done, Special}
use langchain_azure.Savers.Writes.{Run, index_of, key_of, value_of, put_writes, run_of, aput_writes}
use langchain_azure.Savers.Retries.{written, after_writes, put_writes-item}
use langchain_azure.Savers.Indices.{write_key_injective}

-- The index of a special channel is negative, as in `WRITES_IDX_MAP`.
abbrev pub IsNegative : Special → Type 0
IsNegative special =
    (channel : String) (i : ℤ) → special channel ≡ some i → (k : ℕ) × (i ≡ negsuc k)

pos-negsuc : (m k : ℕ) → pos m ≡ negsuc k → ⊥
pos-negsuc m k h = absurd (cc)

pos-pos : (m n : ℕ) → pos m ≡ pos n → m ≡ n
pos-pos m n h = cc

index_differs :
    (C : Codec) (F : Service) (special : Special) (m n : ℕ) (channel : String)
    → IsNegative special
    → m ≢ n
    → pos n ≢ index_of C F special m channel
index_differs C F special m n channel negative differ p = elim (Option-cases (special channel)) [
  | inl e ↦ differ (sym (pos-pos n m (p ∙ ap (λ o. or_default (pos m) o) e)))
  | inr (i, e) ↦
      (let (k, below) = negative channel i e in
        pos-negsuc n k (p ∙ ap (λ o. or_default (pos m) o) e ∙ below))
]

written_lem : (v : ItemValue) (o : Option ItemValue) → written none v o ≡ some (or_default v o)
written_lem v none = refl
written_lem v (some w) = refl

module _ (C : Codec) (F : Service) (law : IsService F) (special : Special) (run : Run) where
  -- The key of an ordinary write.
  abbrev pub ordinary_key : ℕ → Text
  ordinary_key n = write_key run.namespace run.checkpoint_id run.task_id (pos n)

  key_differs :
      (m n : ℕ) (channel : String)
      → IsNegative special
      → m ≢ n
      → (ordinary_key n == key_of C F special run m channel) ≡ false
  key_differs m n channel negative differ =
      eq_false (ordinary_key n) (key_of C F special run m channel) (λ p.
        index_differs C F special m n channel negative differ (
          write_key_injective run.namespace run.checkpoint_id run.task_id (pos n)
            (index_of C F special m channel) p))

  after_writes-later :
      (n m : ℕ) (writes : List (String × C.Object)) (o : Option ItemValue)
      → IsNegative special
      → n < m
      → after_writes C F law special run (ordinary_key n) m writes o ≡ o
  unfolding after_writes
  after_writes-later n m [] o negative h = refl
  after_writes-later n m ((channel, value) ∷ writes) o negative h =
      rw (key_differs m n channel negative (λ p. absurd (omega (arith, p))))
        (after_writes-later n (m + 1) writes o negative (omega arith))

  own_key :
      (n m : ℕ) (channel : String)
      → special channel ≡ none
      → m ≡ n
      → (ordinary_key n == key_of C F special run m channel) ≡ true
  own_key n m channel ordinary same =
      ap (λ k. ordinary_key n == k)
        (ap (λ o. write_key run.namespace run.checkpoint_id run.task_id (or_default (pos m) o))
            ordinary
          ∙ ap (λ k. ordinary_key k) same)
      ∙ eq_refl (ordinary_key n)

  after_writes-first :
      (n m : ℕ) (before later : List (String × C.Object)) (channel : String) (value : C.Object)
      (o : Option ItemValue)
      → IsNegative special
      → special channel ≡ none
      → m + length before ≡ n
      → after_writes C F law special run (ordinary_key n) m (before ++ (channel, value) ∷ later) o
        ≡ written none (value_of C F special run n channel value) o
  unfolding after_writes
  after_writes-first n m [] later channel value o negative ordinary at =
      let same : m ≡ n = omega (arith, at) in
      rw (own_key n m channel ordinary same, after_writes)
        (after_writes-later n (m + 1) later
            (written (special channel) (value_of C F special run m channel value) o) negative
            (omega (arith, same))
          ∙ ap (λ i. written i (value_of C F special run m channel value) o) ordinary
          ∙ ap (λ k. written none (value_of C F special run k channel value) o) same)
  after_writes-first n m ((c, v) ∷ before) later channel value o negative ordinary at =
      rw (key_differs m n c negative (λ p. absurd (omega (arith, p, at))), after_writes)
        (after_writes-first n (m + 1) before later channel value o negative ordinary
          (omega (arith, at)))

-- A call of aput_writes whose checks pass succeeds, and each write to an ordinary channel is then in
-- the store under the index of its place in the call, unless an item was there before, which stays.
-- The indices of special channels are negative.
pub aput_writes-first_wins :
    (C : Codec) (F : Service) (law : IsService F) (special : Special) (s : F.State)
    (config : Config) (task_id task_path : String) (run : Run)
    (before later : List (String × C.Object)) (channel : String) (value : C.Object)
    → IsNegative special
    → special channel ≡ none
    → run_of C F config task_id task_path ≡ some run
    → (t : F.State) × (aput_writes C F special s config
          (before ++ (channel, value) ∷ later)
          task_id
          task_path
        ≡ done t)
      × (F.get_item t (ordinary_key C F law special run (length before))
          ≡ some (
              or_default
                (value_of C F special run (length before) channel value)
                (F.get_item s (ordinary_key C F law special run (length before)))))
unfolding aput_writes
aput_writes-first_wins C F law special s config task_id task_path run before later channel value
      negative ordinary checks =
    let n = length before in
    let writes = before ++ (channel, value) ∷ later in
    let key = ordinary_key C F law special run n in
    (
      put_writes C F special run s 0 writes,
      rw checks refl,
      put_writes-item C F law special run s 0 writes key
          ∙ after_writes-first C F law special run n 0 before later channel value (F.get_item s key)
              negative ordinary (omega arith)
          ∙ written_lem (value_of C F special run n channel value) (F.get_item s key),
    )
