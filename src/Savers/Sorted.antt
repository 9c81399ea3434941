-- ===== src/Savers/Sorted.antt =====
-- The order in which `pending_writes` sorts a checkpoint's writes.
use mathlib.Core.List.{Perm}
use mathlib.Core.List.Perm
use langchain_azure.Base.{
  Bool, true, false, not, List, [], ◌∷◌, ◌≡◌, ◌≢◌, refl, sym, ap, ◌∙◌, ◌⊎◌, inl, inr, arith,
  if◌then◌else◌, ◌==◌, string_eq, eq_sound, subst, String, eq_refl, Bool-cases,
}
use langchain_azure.Base.Words.{codes, text_leb, text_leb_total}
use langchain_azure.Base.Integer.{ℤ, pos, negsuc, lt_ℤ}
use langchain_azure.Savers.Saver.{WriteRecord, write_leb, insert_write, sort_writes}

-- A write of the same task has no greater index, one of another task has no greater task id.
abbrev pub Precedes : WriteRecord → WriteRecord → Type 0
Precedes a b =
    ((a.task_id ≡ b.task_id) × (lt_ℤ b.index a.index ≡ false))
    ⊎ ((a.task_id ≢ b.task_id) × (text_leb (codes a.task_id) (codes b.task_id) ≡ true))

abbrev pub PrecedesFirst : WriteRecord → List WriteRecord → Type 0
PrecedesFirst a [] = Unit {0}
PrecedesFirst a (b ∷ bs) = Precedes a b

-- Each write precedes the next one.
abbrev pub IsOrdered : List WriteRecord → Type 0
IsOrdered [] = Unit {0}
IsOrdered (a ∷ rest) = PrecedesFirst a rest × IsOrdered rest

lt_ℤ_asym : (a b : ℤ) → lt_ℤ a b ≡ true → lt_ℤ b a ≡ false
lt_ℤ_asym (pos a) (pos b) h = ground arith
lt_ℤ_asym (pos a) (negsuc b) h = absurd (cc)
lt_ℤ_asym (negsuc a) (pos b) h = refl
lt_ℤ_asym (negsuc a) (negsuc b) h = ground arith

of_negation : (b : Bool) → not b ≡ true → b ≡ false
of_negation true h = absurd (cc)
of_negation false h = refl

of_refusal : (b : Bool) → not b ≡ false → b ≡ true
of_refusal true h = refl
of_refusal false h = absurd (cc)

no_confusion : true ≡ false → ⊥
no_confusion h = absurd (cc)

apart : (s t : String) → (s == t) ≡ false → s ≢ t
apart s t h p = absurd (no_confusion (sym (ap (λ x. s == x) (sym p) ∙ eq_refl s) ∙ h))

-- The comparison, once the tasks have been compared.
abbrev by_task : WriteRecord → WriteRecord → Bool → Bool
by_task a b same =
    if same then not (lt_ℤ b.index a.index) else text_leb (codes a.task_id) (codes b.task_id)

write_leb-Precedes : (a b : WriteRecord) → write_leb a b ≡ true → Precedes a b
write_leb-Precedes a b h = elim (Bool-cases (a.task_id == b.task_id)) [
  | inl e ↦ inl (
    eq_sound a.task_id b.task_id e,
    of_negation (lt_ℤ b.index a.index) (subst (λ t. by_task a b t ≡ true) e h),
  )
  | inr e ↦ inr (apart a.task_id b.task_id e, subst (λ t. by_task a b t ≡ true) e h)
]

write_leb-total : (a b : WriteRecord) → write_leb a b ≡ false → Precedes b a
write_leb-total a b h = elim (Bool-cases (a.task_id == b.task_id)) [
  | inl e ↦ inl (
    sym (eq_sound a.task_id b.task_id e),
    lt_ℤ_asym b.index a.index
        (of_refusal (lt_ℤ b.index a.index) (subst (λ t. by_task a b t ≡ false) e h)),
  )
  | inr e ↦ inr (
    λ p. apart a.task_id b.task_id e (sym p),
    text_leb_total (codes a.task_id) (codes b.task_id) (subst (λ t. by_task a b t ≡ false) e h),
  )
]

insert_write-first :
    (p x : WriteRecord) (xs : List WriteRecord)
    → Precedes p x
    → PrecedesFirst p xs
    → PrecedesFirst p (insert_write x xs)
unfolding insert_write
insert_write-first p x [] h b = h
insert_write-first p x (y ∷ ys) h b = elim (Bool-cases (write_leb x y)) [
  | inl e ↦ rw e h
  | inr e ↦ rw e b
]

insert_write-IsOrdered :
    (x : WriteRecord) (xs : List WriteRecord) → IsOrdered xs → IsOrdered (insert_write x xs)
unfolding insert_write
insert_write-IsOrdered x [] s = (tt, tt)
insert_write-IsOrdered x (y ∷ ys) s = elim (Bool-cases (write_leb x y)) [
  | inl e ↦ rw e (write_leb-Precedes x y e, s)
  | inr e ↦
      rw e (insert_write-first y x ys (write_leb-total x y e) s.0, insert_write-IsOrdered x ys s.1)
]

insert_write-perm : (x : WriteRecord) (xs : List WriteRecord) → Perm (insert_write x xs) (x ∷ xs)
unfolding insert_write
insert_write-perm x [] = Perm.refl (x ∷ [])
insert_write-perm x (y ∷ ys) = elim (Bool-cases (write_leb x y)) [
  | inl e ↦ rw e (Perm.refl (x ∷ y ∷ ys))
  | inr e ↦ rw e (Perm.trans (Perm.cons y (insert_write-perm x ys)) (Perm.swap x y ys))
]

pub sort_writes-IsOrdered : (xs : List WriteRecord) → IsOrdered (sort_writes xs)
unfolding sort_writes
sort_writes-IsOrdered [] = tt
sort_writes-IsOrdered (x ∷ xs) =
    insert_write-IsOrdered x (sort_writes xs) (sort_writes-IsOrdered xs)

pub sort_writes-perm : (xs : List WriteRecord) → Perm (sort_writes xs) xs
unfolding sort_writes
sort_writes-perm [] = Perm.refl []
sort_writes-perm (x ∷ xs) =
    Perm.trans (insert_write-perm x (sort_writes xs)) (Perm.cons x (sort_writes-perm xs))
