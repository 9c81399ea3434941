-- ===== src/Savers/Retries.antt =====
-- Pending writes that are put again, as after a failure of the call.
use langchain_azure.Base.{
  ℕ, ◌+◌, Option, none, some, List, [], ◌∷◌, String, ◌≡◌, refl, sym, ap, ◌∙◌, subst, Bool-cases,
  Option-cases, inl, inr, ◌⊎◌, if◌then◌else◌, ◌==◌, codes_eq, string_eq, eq_sound,
}
use langchain_azure.Base.Words.{Text}
use langchain_azure.Base.Integer.{ℤ}
use langchain_azure.Checkpoints.Config.{Config}
use langchain_azure.Savers.Store.{Codec, ItemValue, Tags, Service, IsService}
use langchain_azure.Savers.Saver.{done, value_error, or_value_error, Special}
use langchain_azure.Savers.Reads.{write_tags}
use langchain_azure.Savers.Writes.{
  store_write, Run, key_of, value_of, put_write, put_writes, run_of, aput_writes,
}

-- A key's item after a write to it: a special channel's replaces what is there.
abbrev pub written : Option ℤ → ItemValue → Option ItemValue → Option ItemValue
written (some index) v o = some v
written none v none = some v
written none v (some w) = some w

-- What writes do to the item of one key: they replace it, or fill it if there is none.
abbrev IsSettled : (Option ItemValue → Option ItemValue) → Type 0
IsSettled f =
    ((v : ItemValue) × ((o : Option ItemValue) → f o ≡ some v))
    ⊎ ((p : Option ItemValue) × (f none ≡ p) × ((w : ItemValue) → f (some w) ≡ some w))

IsSettled-twice :
    (f : Option ItemValue → Option ItemValue) → IsSettled f → (o : Option ItemValue) → f (f o) ≡ f o
IsSettled-twice f (inl (v, h)) o = h (f o) ∙ sym (h o)
IsSettled-twice f (inr (p, h, k)) (some w) = ap f (k w)
IsSettled-twice f (inr (none, h, k)) none = ap f h
IsSettled-twice f (inr (some v, h, k)) none = ap f h ∙ k v ∙ sym h

IsSettled-written :
    (index : Option ℤ) (v : ItemValue) (f : Option ItemValue → Option ItemValue)
    → IsSettled f
    → IsSettled (λ o. f (written index v o))
IsSettled-written index v f (inl (w, h)) = inl (w, λ o. h (written index v o))
IsSettled-written (some index) v f (inr (p, h, k)) = inl (v, λ o. k v)
IsSettled-written none v f (inr (p, h, k)) = inr (some v, k v, k)

module _ (C : Codec) (F : Service) (law : IsService F) (special : Special) (run : Run) where
  store_write-item :
      (s : F.State) (index : Option ℤ) (key j : Text) (v : ItemValue) (tags : Tags)
      → F.get_item (store_write C F s index key v tags) j
        ≡ (if j == key then written index v (F.get_item s j) else F.get_item s j)
  store_write-item s (some index) key j v tags = law.get-set s key j v tags
  store_write-item s none key j v tags = elim (Option-cases (F.get_item s key)) [
    | inl e ↦ rw (law.create_new s key v tags e) (
        law.get-set s key j v tags ∙ elim (Bool-cases (j == key)) [
          | inl here ↦ rw here (rw (ap (λ k. F.get_item s k) (eq_sound j key here) ∙ e) refl)
          | inr other ↦ rw other refl
        ])
    | inr (w, e) ↦ rw (law.create_known s key v w tags e) (elim (Bool-cases (j == key)) [
      | inl here ↦ rw here (rw (ap (λ k. F.get_item s k) (eq_sound j key here) ∙ e) refl)
      | inr other ↦ rw other refl
    ])
  ]

  -- What the writes do to a key's item.
  unfoldable pub after_writes :
      Text → ℕ → List (String × C.Object) → Option ItemValue → Option ItemValue
  after_writes j ordinal [] o = o
  after_writes j ordinal ((channel, value) ∷ writes) o = after_writes j (ordinal + 1) writes (
      if j == key_of C F special run ordinal channel
      then written (special channel) (value_of C F special run ordinal channel value) o
      else o)

  pub put_writes-item :
      (s : F.State) (ordinal : ℕ) (writes : List (String × C.Object)) (j : Text)
      → F.get_item (put_writes C F special run s ordinal writes) j
        ≡ after_writes j ordinal writes (F.get_item s j)
  unfolding put_writes after_writes
  put_writes-item s ordinal [] j = refl
  put_writes-item s ordinal ((channel, value) ∷ writes) j =
      put_writes-item (put_write C F special run s ordinal channel value) (ordinal + 1) writes j
      ∙ ap (λ o. after_writes j (ordinal + 1) writes o)
          (store_write-item s (special channel) (key_of C F special run ordinal channel) j
            (value_of C F special run ordinal channel value)
            (write_tags run.namespace run.checkpoint_id))

  after_writes-IsSettled :
      (j : Text) (ordinal : ℕ) (writes : List (String × C.Object))
      → IsSettled (after_writes j ordinal writes)
  unfolding after_writes
  after_writes-IsSettled j ordinal [] = inr (none, refl, λ w. refl)
  after_writes-IsSettled j ordinal ((channel, value) ∷ writes) =
      let later = after_writes-IsSettled j (ordinal + 1) writes in
      let value_here = value_of C F special run ordinal channel value in
      elim (Bool-cases (j == key_of C F special run ordinal channel)) [
        | inl e ↦
            subst
              (λ b. IsSettled (λ o.
                after_writes j (ordinal + 1) writes
                  (if b then written (special channel) value_here o else o)))
              (sym e)
              (IsSettled-written (special channel) value_here (after_writes j (ordinal + 1) writes)
                later)
        | inr e ↦
            subst
              (λ b. IsSettled (λ o.
                after_writes j (ordinal + 1) writes
                  (if b then written (special channel) value_here o else o)))
              (sym e) later
      ]

  put_writes-twice :
      (s : F.State) (writes : List (String × C.Object)) (j : Text)
      → F.get_item (put_writes C F special run (put_writes C F special run s 0 writes) 0 writes) j
        ≡ F.get_item (put_writes C F special run s 0 writes) j
  put_writes-twice s writes j =
      put_writes-item (put_writes C F special run s 0 writes) 0 writes j
      ∙ ap (λ o. after_writes j 0 writes o) (put_writes-item s 0 writes j)
      ∙ IsSettled-twice (after_writes j 0 writes) (after_writes-IsSettled j 0 writes)
          (F.get_item s j)
      ∙ sym (put_writes-item s 0 writes j)

value_error-done : {A : Type 0} (a : A) → value_error ≡ done a → ⊥
value_error-done a h = absurd (cc)

done-injective : {A : Type 0} (a b : A) → done a ≡ done b → a ≡ b
done-injective a b h = cc

-- A call of aput_writes that is made again succeeds again and changes no item, whatever the
-- channels; the first call has succeeded.
pub aput_writes-retry :
    (C : Codec) (F : Service) (law : IsService F) (special : Special) (s t : F.State)
    (config : Config) (writes : List (String × C.Object)) (task_id task_path : String)
    → aput_writes C F special s config writes task_id task_path ≡ done t
    → (u : F.State) × (aput_writes C F special t config writes task_id task_path ≡ done u)
      × ((k : Text) → F.get_item u k ≡ F.get_item t k)
unfolding aput_writes
aput_writes-retry C F law special s t config writes task_id task_path h =
    elim (Option-cases (run_of C F config task_id task_path)) [
      | inl e ↦ absurd (
          value_error-done t (
            subst
              (λ o. or_value_error o (λ run. done (put_writes C F special run s 0 writes)) ≡ done t)
              e h))
      | inr (run, e) ↦
          (let stored = done-injective (put_writes C F special run s 0 writes) t (
              subst
                (λ o.
                  or_value_error o (λ run. done (put_writes C F special run s 0 writes)) ≡ done t)
                e h) in
            (
              put_writes C F special run t 0 writes,
              rw e refl,
              λ k.
                  subst (λ x. F.get_item (put_writes C F special run x 0 writes) k ≡ F.get_item x k)
                    stored (put_writes-twice C F law special run s writes k),
            ))
    ]
