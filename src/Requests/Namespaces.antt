-- ===== src/Requests/Namespaces.antt =====
-- A branch continues responses of the caller's own namespace only.
use langchain_azure.Base.{
  ℕ, Bool, true, false, Option, none, some, [], ◌∷◌, ◌++◌, String, ◌≡◌, refl, sym, ap, ◌∙◌, subst,
  arith, if◌then◌else◌, ◌==◌, ◌&&◌, ◌||◌, nat_eq, string_eq, codes_eq, option_eq, eq_sound, length,
  contains, Bool-cases, inl, inr,
}
use langchain_azure.Base.Words.{Text, codes, starts_with, starts_with-append}
use langchain_azure.Checkpoints.Config.{Setting}
use langchain_azure.Savers.Saver.{nonempty}
use langchain_azure.Requests.Threads.{
  user_prefix, separator, scoped, scope_thread_id, cut_first, cut_step, all_hex, is_namespace,
  namespace_of, thread_namespace,
}
use langchain_azure.Requests.References.{
  CheckpointRef, both_ids, text_at, metadata_thread_id, metadata_checkpoint_id, checkpoint_ref,
}
use langchain_azure.Requests.Parents.{
  ParentResponse, RequestError, Answer, ok, refused, invalid, not_found, is_own, with_reference,
  validate_branch_parent,
}

-- A hexadecimal SHA-256 digest.
pub record IsDigest (digest : String → Text) : Type 0 where
  pub has_length : (s : String) → length (digest s) ≡ 64
  pub is_hex : (s : String) → all_hex (digest s) ≡ true

no_hex : contains (codes "0123456789abcdef") separator ≡ true → ⊥
unfolding nat_eq
no_hex h = absurd (cc)

hex-differs : (c : ℕ) → contains (codes "0123456789abcdef") c ≡ true → (separator == c) ≡ false
unfolding nat_eq
hex-differs c h = elim (Bool-cases (separator == c)) [
  | inl e ↦ absurd (
      no_hex (
        subst (λ x. contains (codes "0123456789abcdef") x ≡ true) (sym (eq_sound separator c e)) h))
  | inr e ↦ e
]

and_split : (a b : Bool) → (a && b) ≡ true → (a ≡ true) × (b ≡ true)
and_split true b h = (refl, h)
and_split false b h = absurd (cc)

or_split : (a b : Bool) → (a || b) ≡ false → (a ≡ false) × (b ≡ false)
or_split true b h = absurd (cc)
or_split false b h = (refl, h)

swapped : (a b : ℕ) → (a == b) ≡ false → (b == a) ≡ false
swapped a b h = ground arith

cut_step-separator : (t : Text) (o : Option (Text × Text)) → cut_step separator t o ≡ some ([], t)
unfolding nat_eq
cut_step-separator t none = refl
cut_step-separator t (some p) = refl

contains-hex : (t : Text) → all_hex t ≡ true → contains t separator ≡ false
unfolding all_hex
contains-hex [] h = refl
contains-hex (c ∷ t) h =
    let (hex, rest) = and_split (contains (codes "0123456789abcdef") c) (all_hex t) h in
    rw (hex-differs c hex) (contains-hex t rest)

cut_first-append :
    (a t : Text) → contains a separator ≡ false → cut_first (a ++ separator ∷ t) ≡ some (a, t)
unfolding cut_first
cut_first-append [] t h = cut_step-separator t (cut_first t)
cut_first-append (c ∷ a) t h =
    let (other, rest) = or_split (separator == c) (contains a separator) h in
    rw (cut_first-append a t rest) (rw (swapped separator c other) refl)

module _ (digest : String → Text) (law : IsDigest digest) where
  is_namespace-digest : (owner : String) → is_namespace (user_prefix ++ digest owner) ≡ true
  unfolding starts_with nat_eq
  is_namespace-digest owner =
      rw (starts_with-append user_prefix (digest owner))
        (rw (law.has_length owner) (rw (law.is_hex owner) refl))

  no_separator : (owner : String) → contains (user_prefix ++ digest owner) separator ≡ false
  unfolding nat_eq
  no_separator owner = contains-hex (digest owner) (law.is_hex owner)

  thread_namespace-scoped :
      (owner : String) (rest : Text)
      → thread_namespace (scoped digest (some owner) rest) ≡ scoped digest (some owner) []
  unfolding thread_namespace nat_eq
  thread_namespace-scoped owner rest =
      ap namespace_of (cut_first-append (user_prefix ++ digest owner) rest (no_separator owner))
      ∙ rw (is_namespace-digest owner) refl

or_refused :
    {A : Type 0} (b : Bool) (x : Answer A) (e : RequestError) (a : A)
    → (if b then x else refused e) ≡ ok a
    → (b ≡ true) × (x ≡ ok a)
or_refused true x e a h = (refl, h)
or_refused false x e a h = absurd (cc)

ok-injective : {A : Type 0} (a b : A) → ok a ≡ ok b → a ≡ b
ok-injective a b h = cc

with_reference-ok :
    (status : Option String) (o : Option CheckpointRef) (r : CheckpointRef)
    → with_reference status o ≡ ok r
    → (status ≡ some "completed") × (o ≡ some r)
with_reference-ok status none r h = absurd (cc)
with_reference-ok status (some s) r h =
    let (done, same) = or_refused (status == some "completed") (ok s) invalid r h in
    (eq_sound status (some "completed") done, ap some (ok-injective s r same))

abbrev thread_in : Option CheckpointRef → Option String
thread_in none = none
thread_in (some r) = some r.thread_id

both_ids-thread :
    (a b : Option String) (r : CheckpointRef) → both_ids a b ≡ some r → a ≡ some r.thread_id
both_ids-thread none b r h = absurd (cc)
both_ids-thread (some a) none r h = absurd (cc)
both_ids-thread (some a) (some b) r h = ap (λ o. thread_in o) h

-- A parent is accepted for a branch only if it is completed and, where its thread is one that was
-- scoped to some user, if that user has the namespace of the caller. A digest is taken to be 64
-- hexadecimal digits.
pub validate_branch_parent-own :
    (digest : String → Text) (law : IsDigest digest) (user owner : Setting) (name : String)
    (rest : Text) (parent : ParentResponse) (r : CheckpointRef)
    → validate_branch_parent digest user parent ≡ ok r
    → nonempty owner ≡ some name
    → codes r.thread_id ≡ scope_thread_id digest owner rest
    → (parent.status ≡ some "completed")
      × (scope_thread_id digest owner [] ≡ scope_thread_id digest user [])
unfolding validate_branch_parent scope_thread_id checkpoint_ref
validate_branch_parent-own digest law user owner name rest parent r accepted named thread =
    let stored = text_at parent.internal_metadata metadata_thread_id in
    let reference = checkpoint_ref (some parent.internal_metadata) in
    let (own, answer) =
      or_refused (is_own digest user stored) (with_reference parent.status reference) not_found r
        accepted in
    let (status, found) = with_reference-ok parent.status reference r answer in
    let thread_stored =
      both_ids-thread stored (text_at parent.internal_metadata metadata_checkpoint_id) r found in
    let same =
      eq_sound (thread_namespace (codes r.thread_id)) (scope_thread_id digest user [])
        (subst (λ o. is_own digest user o ≡ true) thread_stored own) in
    (
      status,
      ap (λ o. scoped digest o []) named
          ∙ sym (thread_namespace-scoped digest law name rest)
          ∙ ap thread_namespace (sym (thread ∙ ap (λ o. scoped digest o rest) named))
          ∙ same,
    )
