-- ===== src/Invocations/Contract.antt =====
-- What a store's operation may do to the record of one invocation, said of the records' entries
-- alone. `slot` is the record before the operation and `next` the one after it.
use langchain_azure.Base.{
  ℕ, ◌+◌, true, false, Option, none, some, ◌≡◌, refl, sym, ap, ◌∙◌, subst, ◌⊎◌, inl, inr,
  if◌then◌else◌, Bool-cases, Option-cases, string_eq,
}
use langchain_azure.Base.Integer.{ℤ, pos, lt_ℤ}
use langchain_azure.Invocations.Values
use langchain_azure.Invocations.Values.{
  Value, null, bool, int, float, str, array, dict, Fields, end, get, number_of, as_dict,
}
use langchain_azure.Invocations.Records.{
  retention_seconds, is_terminal, expiry, record_of, is_expired, read_envelope, read_dict,
  read_record, recovery_in, read_recovery_state, sequence_number, should_replace, set_value,
  is_finished, set_recovery_value,
}
use langchain_azure.Invocations.Records.Laws.{
  envelope-record_of, expires_at-record_of, recovery-record_of, envelope-recovered,
  expires_at-recovered, recovery-recovered, read_record-dict,
}
use langchain_azure.Invocations.Errors.{value_of}
use langchain_azure.Invocations.Histories.{look, publish, recover, serve, dict_or_empty}

-- The record has this envelope, and the time that it expires at, if it has one, is still to come.
abbrev pub Shows : ℕ → Option Fields → Fields → Type 0
Shows now slot e =
    (d : Fields) × (slot ≡ some d)
    × (get d "envelope" ≡ dict e)
    × ((t : ℤ) → number_of (get d "expires_at") ≡ some t → lt_ℤ (pos now) t ≡ true)

-- The record has an envelope, and the time that it expires at has come.
abbrev pub IsOver : ℕ → Option Fields → Type 0
IsOver now slot =
    (d : Fields) × (e : Fields) × (t : ℤ) × (slot ≡ some d)
    × (get d "envelope" ≡ dict e)
    × (number_of (get d "expires_at") ≡ some t)
    × (lt_ℤ (pos now) t ≡ false)

abbrev pub IsBlank : Option Fields → Type 0
IsBlank slot = as_dict (get (dict_or_empty slot) "envelope") ≡ none

-- A read: the envelope if the record shows one; a record that is over is removed.
abbrev pub IsRead : ℕ → Option Fields → Option Fields → Option Fields → Type 0
IsRead now slot next answer =
    ((e : Fields) × Shows now slot e × (answer ≡ some e) × (next ≡ slot))
    ⊎ ((IsOver now slot × (answer ≡ none) × (next ≡ none))
        ⊎ (IsBlank slot × (answer ≡ none) × (next ≡ slot)))

-- A record of the envelope: a terminal one expires and keeps no recovery state, another does not
-- expire and keeps the one that was there.
abbrev pub IsRecordOf : ℕ → Option Fields → Fields → Fields → Type 0
IsRecordOf now slot incoming d =
    (get d "envelope" ≡ dict incoming)
    × (get d "expires_at"
        ≡ (if is_terminal incoming then float (now + retention_seconds) else null))
    × (as_dict (get d "recovery")
        ≡ (if is_terminal incoming then none else as_dict (get (dict_or_empty slot) "recovery")))

-- A published envelope gives way to one that is shown and is terminal or has no lower sequence
-- number; otherwise it is recorded.
abbrev pub IsPublished : ℕ → Option Fields → Fields → Option Fields → Type 0
IsPublished now slot incoming next =
    ((e : Fields) × Shows now slot e
      × ((is_terminal e ≡ true) ⊎ (lt_ℤ (sequence_number e) (sequence_number incoming) ≡ false))
      × (next ≡ slot))
    ⊎ (((e : Fields)
          → Shows now slot e
          → (is_terminal e ≡ false) × (lt_ℤ (sequence_number e) (sequence_number incoming) ≡ true))
        × ((d : Fields) × (next ≡ some d) × IsRecordOf now slot incoming d))

abbrev pub IsRecoveryOf : Option Fields → Fields → Fields → Type 0
IsRecoveryOf slot state d =
    (get d "recovery" ≡ dict state)
    × (get d "envelope" ≡ get (dict_or_empty slot) "envelope")
    × (get d "expires_at" ≡ get (dict_or_empty slot) "expires_at")

-- A recovery state is dropped where a terminal envelope is shown; otherwise it is put into the record,
-- whose envelope and time stay.
abbrev pub IsRecovered : ℕ → Option Fields → Fields → Option Fields → Type 0
IsRecovered now slot state next =
    ((e : Fields) × Shows now slot e × (is_terminal e ≡ true) × (next ≡ slot))
    ⊎ (((e : Fields) → Shows now slot e → is_terminal e ≡ false)
        × ((d : Fields) × (next ≡ some d) × IsRecoveryOf slot state d))

as_dict-some : (v : Value) (e : Fields) → as_dict v ≡ some e → v ≡ dict e
unfolding as_dict
as_dict-some null e h = absurd (cc)
as_dict-some (bool b) e h = absurd (cc)
as_dict-some (int n) e h = absurd (cc)
as_dict-some (float n) e h = absurd (cc)
as_dict-some (str s) e h = absurd (cc)
as_dict-some (array xs) e h = absurd (cc)
as_dict-some (dict d) e h = cc

some_injective : {A : Type 0} (a b : A) → some a ≡ some b → a ≡ b
some_injective a b h = cc

-- What `_read_record` finds, by the record's entries.
Shows-read :
    (now : ℕ) (slot : Option Fields) (e : Fields)
    → Shows now slot e
    → read_record now (value_of slot) ≡ (some e, false)
unfolding is_expired
Shows-read now slot e (d, here, envelope, live) =
    ap (λ o. read_record now (value_of o)) here
    ∙ read_record-dict now d e envelope
    ∙ elim (Option-cases (number_of (get d "expires_at"))) [
      | inl n ↦ rw n refl
      | inr (t, n) ↦ rw n (rw (live t n) refl)
    ]

IsOver-read :
    (now : ℕ) (slot : Option Fields)
    → IsOver now slot
    → read_record now (value_of slot) ≡ (none, true)
unfolding is_expired
IsOver-read now slot (d, e, t, here, envelope, timed, past) =
    ap (λ o. read_record now (value_of o)) here
    ∙ read_record-dict now d e envelope
    ∙ rw timed (rw past refl)

IsBlank-read :
    (now : ℕ) (slot : Option Fields)
    → IsBlank slot
    → read_record now (value_of slot) ≡ (none, false)
unfolding read_record read_dict read_envelope as_dict
IsBlank-read now none h = refl
IsBlank-read now (some d) h = rw h refl

-- A record shows an envelope, is over, or is blank.
Shows-cases :
    (now : ℕ) (slot : Option Fields)
    → ((e : Fields) × Shows now slot e) ⊎ (IsOver now slot ⊎ IsBlank slot)
unfolding as_dict get
Shows-cases now none = inr (inr refl)
Shows-cases now (some d) = elim (Option-cases (as_dict (get d "envelope"))) [
  | inl blank ↦ inr (inr blank)
  | inr (e, found) ↦
      (let envelope = as_dict-some (get d "envelope") e found in
        elim (Option-cases (number_of (get d "expires_at"))) [
          | inl n ↦ inl (e, (d, refl, envelope, λ t h. absurd (cc)))
          | inr (t, n) ↦ elim (Bool-cases (lt_ℤ (pos now) t)) [
            | inl live ↦ inl (
              e,
              (
                d,
                refl,
                envelope,
                λ u h. subst (λ x. lt_ℤ (pos now) x ≡ true) (some_injective t u (sym n ∙ h)) live,
              ),
            )
            | inr past ↦ inr (inl (d, e, t, refl, envelope, n, past))
          ]
        ])
]

-- `get` on one record.
pub serve-IsRead :
    (now : ℕ) (slot : Option Fields)
    → IsRead now slot (serve now slot look) (read_record now (value_of slot)).0
unfolding serve
serve-IsRead now slot = elim (Shows-cases now slot) [
  | inl (e, shown) ↦ rw (Shows-read now slot e shown) (inl (e, shown, refl, refl))
  | inr (inl over) ↦ rw (IsOver-read now slot over) (inr (inl (over, refl, refl)))
  | inr (inr blank) ↦ rw (IsBlank-read now slot blank) (inr (inr (blank, refl, refl)))
]

recovery_in-slot :
    (slot : Option Fields)
    → read_recovery_state (value_of slot) ≡ as_dict (get (dict_or_empty slot) "recovery")
unfolding read_recovery_state recovery_in as_dict get
recovery_in-slot none = refl
recovery_in-slot (some d) = refl

record_of-IsRecordOf :
    (now : ℕ) (slot : Option Fields) (incoming : Fields)
    → IsRecordOf now slot incoming (record_of now incoming (read_recovery_state (value_of slot)))
unfolding expiry read_recovery_state recovery_in as_dict
record_of-IsRecordOf now slot incoming =
    let kept = read_recovery_state (value_of slot) in
    (
      envelope-record_of now incoming kept,
      expires_at-record_of now incoming kept,
      recovery-record_of now incoming kept
          ∙ ap (λ r. if is_terminal incoming then none else r) (recovery_in-slot slot),
    )

-- The envelope that is found is the one that is shown.
read_record-found :
    (now : ℕ) (slot : Option Fields)
    → ((e : Fields) × Shows now slot e × ((read_record now (value_of slot)).0 ≡ some e))
      ⊎ ((read_record now (value_of slot)).0 ≡ none)
read_record-found now slot = elim (Shows-cases now slot) [
  | inl (e, shown) ↦ inl (e, shown, ap (λ p. p.0) (Shows-read now slot e shown))
  | inr (inl over) ↦ inr (ap (λ p. p.0) (IsOver-read now slot over))
  | inr (inr blank) ↦ inr (ap (λ p. p.0) (IsBlank-read now slot blank))
]

Shows-only :
    (now : ℕ) (slot : Option Fields) (e f : Fields)
    → (read_record now (value_of slot)).0 ≡ some e
    → Shows now slot f
    → e ≡ f
Shows-only now slot e f found shown =
    some_injective e f (sym found ∙ ap (λ p. p.0) (Shows-read now slot f shown))

absent_is_not : (e : Fields) → none ≡ some e → ⊥
absent_is_not e h = absurd (cc)

Shows-none :
    (now : ℕ) (slot : Option Fields) (f : Fields)
    → (read_record now (value_of slot)).0 ≡ none
    → Shows now slot f
    → ⊥
Shows-none now slot f found shown =
    absurd (absent_is_not f (sym found ∙ ap (λ p. p.0) (Shows-read now slot f shown)))

-- `set` on one record.
pub serve-IsPublished :
    (now : ℕ) (slot : Option Fields) (incoming : Fields)
    → IsPublished now slot incoming (serve now slot (publish incoming))
unfolding serve set_value should_replace
serve-IsPublished now slot incoming =
    let written = record_of now incoming (read_recovery_state (value_of slot)) in
    let is_record = record_of-IsRecordOf now slot incoming in
    elim (read_record-found now slot) [
      | inl (e, shown, found) ↦ rw found (elim (Bool-cases (is_terminal e)) [
        | inl t ↦ rw t (inl (e, shown, inl t, refl))
        | inr t ↦ elim (Bool-cases (lt_ℤ (sequence_number e) (sequence_number incoming))) [
          | inl newer ↦
              rw (t, newer)
                (inr (
                  λ f shown_f.
                      subst
                        (λ x.
                          (is_terminal x ≡ false)
                          × (lt_ℤ (sequence_number x) (sequence_number incoming) ≡ true))
                        (Shows-only now slot e f found shown_f) (t, newer),
                  (written, refl, is_record),
                ))
          | inr older ↦ rw (t, older) (inl (e, shown, inr older, refl))
        ]
      ])
      | inr found ↦ rw found (
          inr
            (λ f shown_f. absurd (Shows-none now slot f found shown_f), (written, refl, is_record)))
    ]

read_record-or_empty :
    (now : ℕ) (slot : Option Fields)
    → read_record now (dict (dict_or_empty slot)) ≡ read_record now (value_of slot)
unfolding read_record read_dict read_envelope as_dict get
read_record-or_empty now none = refl
read_record-or_empty now (some d) = refl

-- `set_recovery_state` on one record.
pub serve-IsRecovered :
    (now : ℕ) (slot : Option Fields) (state : Fields)
    → IsRecovered now slot state (serve now slot (recover state))
unfolding serve set_recovery_value is_finished as_dict read_recovery_state
serve-IsRecovered now slot state =
    let d = dict_or_empty slot in
    let written = Values.set_default (Values.put d "recovery" (dict state)) "expires_at" null in
    let entries : IsRecoveryOf slot state written = (
      as_dict-some (get written "recovery") state (recovery-recovered d state),
      envelope-recovered d state,
      expires_at-recovered d state,
    ) in
    elim (read_record-found now slot) [
      | inl (e, shown, found) ↦ rw (read_record-or_empty now slot) (
          rw found (elim (Bool-cases (is_terminal e)) [
            | inl t ↦ rw t (inl (e, shown, t, refl))
            | inr t ↦ rw t (
                inr (
                  λ f shown_f.
                      subst (λ x. is_terminal x ≡ false) (Shows-only now slot e f found shown_f) t,
                  (written, refl, entries),
                ))
          ]))
      | inr found ↦ rw (read_record-or_empty now slot) (
          rw found (
            inr (
              λ f shown_f. absurd (Shows-none now slot f found shown_f),
              (written, refl, entries),
            )))
    ]
