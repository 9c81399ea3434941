-- ===== src/Invocations/Histories.antt =====
-- One invocation's record over any sequence of the stores' operations.
use langchain_azure.Base.{
  ℕ, ◌+◌, ◌<◌, ◌≤◌, true, false, Option, none, some, List, [], ◌∷◌, ◌≡◌, refl, ap, ◌∙◌, ◌⊎◌, inl,
  inr, arith, if◌then◌else◌, Bool-cases, All,
}
use langchain_azure.Base.Integer.{ℤ, pos, negsuc, lt_ℤ}
use langchain_azure.Invocations.Values
use langchain_azure.Invocations.Values.{Value, null, float, dict, Fields, end, get}
use langchain_azure.Invocations.Records.{
  retention_seconds, is_terminal, expiry, record_of, read_record, read_recovery_state,
  sequence_number, should_replace, set_value, is_finished, set_recovery_value,
}
use langchain_azure.Invocations.Records.Laws.{
  envelope-record_of, expires_at-record_of, envelope-recovered, expires_at-recovered,
  read_record-live, read_record-timed,
}
use langchain_azure.Invocations.Errors.{value_of}

-- What a store may be asked for on one invocation, reads of the recovery state left out.
pub data Request : Type 0 where
  look : Request
  publish : Fields → Request
  recover : Fields → Request

abbrev pub or_kept : Option Fields → Option Fields → Option Fields
or_kept none slot = slot
or_kept (some d) slot = some d

abbrev pub dict_or_empty : Option Fields → Fields
dict_or_empty none = end
dict_or_empty (some d) = d

-- The record after a request: a read removes an expired one.
unfoldable pub serve : ℕ → Option Fields → Request → Option Fields
serve now slot look = if (read_record now (value_of slot)).1 then none else slot
serve now slot (publish e) = or_kept (set_value now (value_of slot) e) slot
serve now slot (recover s) = or_kept (set_recovery_value now (dict_or_empty slot) s) slot

-- Each request with the time at which it is served.
unfoldable pub serve_all : Option Fields → List (ℕ × Request) → Option Fields
serve_all slot [] = slot
serve_all slot ((now, r) ∷ rest) = serve_all (serve now slot r) rest

abbrev pub ◌≤ℤ◌ : ℤ → ℤ → Type 0
◌≤ℤ◌ a b = lt_ℤ b a ≡ false

≤ℤ_trans : (a b c : ℤ) → ◌≤ℤ◌ a b → ◌≤ℤ◌ b c → ◌≤ℤ◌ a c
≤ℤ_trans (pos a) (pos b) (pos c) p q = ground arith
≤ℤ_trans (pos a) (pos b) (negsuc c) p q = cc
≤ℤ_trans (pos a) (negsuc b) c p q = cc
≤ℤ_trans (negsuc a) (pos b) (pos c) p q = refl
≤ℤ_trans (negsuc a) (pos b) (negsuc c) p q = cc
≤ℤ_trans (negsuc a) (negsuc b) (pos c) p q = refl
≤ℤ_trans (negsuc a) (negsuc b) (negsuc c) p q = ground arith

≤ℤ_refl : (a : ℤ) → ◌≤ℤ◌ a a
≤ℤ_refl (pos a) = ground arith
≤ℤ_refl (negsuc a) = ground arith

≤ℤ_of_lt : (a b : ℤ) → lt_ℤ a b ≡ true → ◌≤ℤ◌ a b
≤ℤ_of_lt (pos a) (pos b) h = ground arith
≤ℤ_of_lt (pos a) (negsuc b) h = cc
≤ℤ_of_lt (negsuc a) (pos b) h = refl
≤ℤ_of_lt (negsuc a) (negsuc b) h = ground arith

-- The record holds the envelope, and does not expire before `until`.
pub record Holds (until : ℕ) (d e : Fields) : Type 0 where
  pub envelope : get d "envelope" ≡ dict e
  pub expires :
      (get d "expires_at" ≡ null) ⊎ ((t : ℕ) × (get d "expires_at" ≡ float t) × (until ≤ t))

read_record-Holds :
    (now until : ℕ) (d e : Fields)
    → Holds until d e
    → now < until
    → read_record now (dict d) ≡ (some e, false)
read_record-Holds now until d e h lt = elim h.expires [
  | inl x ↦ read_record-live now d e h.envelope x
  | inr (t, x, le) ↦ read_record-timed now t d e h.envelope x ∙ ground arith
]

-- The record has gone on from the envelope `e`: its sequence number has not fallen, and a terminal
-- envelope is still there.
pub record Advances (until : ℕ) (e : Fields) (slot : Option Fields) : Type 0 where
  pub stored : Fields
  pub latest : Fields
  pub here : slot ≡ some stored
  pub holds : Holds until stored latest
  pub sequence : ◌≤ℤ◌ (sequence_number e) (sequence_number latest)
  pub final : is_terminal e ≡ true → latest ≡ e

abbrev stays :
    (until : ℕ) (d e : Fields) (slot : Option Fields)
    → Holds until d e
    → slot ≡ some d
    → Advances until e slot
stays until d e slot h here = record {
  stored = d;
  latest = e;
  here = here;
  holds = h;
  sequence = ≤ℤ_refl (sequence_number e);
  final = λ t. refl;
}

record_of-Holds :
    (now until : ℕ) (e : Fields) (r : Option Fields)
    → until ≤ now + retention_seconds
    → Holds until (record_of now e r) e
unfolding expiry
record_of-Holds now until e r le = record {
  envelope = envelope-record_of now e r;
  expires = elim (Bool-cases (is_terminal e)) [
    | inl t ↦ inr (now + retention_seconds, expires_at-record_of now e r ∙ rw (t, expiry) refl, le)
    | inr t ↦ inl (expires_at-record_of now e r ∙ rw (t, expiry) refl)
  ];
}

recovered-Holds :
    (until : ℕ) (d e s : Fields)
    → Holds until d e
    → (d' : Fields) → d' ≡ Values.set_default (Values.put d "recovery" (dict s)) "expires_at" null
    → Holds until d' e
recovered-Holds until d e s h d' made = record {
  envelope = ap (λ x. get x "envelope") made ∙ envelope-recovered d s ∙ h.envelope;
  expires =
      let same : get d' "expires_at" ≡ get d "expires_at" =
        ap (λ x. get x "expires_at") made ∙ expires_at-recovered d s in
      elim h.expires [ inl x ↦ inl (same ∙ x) | inr (t, x, le) ↦ inr (t, same ∙ x, le) ];
}

set_value-Advances :
    (now until : ℕ) (d e incoming : Fields)
    → read_record now (dict d) ≡ (some e, false)
    → Holds until d e
    → until ≤ now + retention_seconds
    → Advances until e (or_kept (set_value now (dict d) incoming) (some d))
unfolding set_value should_replace
set_value-Advances now until d e incoming read h le = rw read (elim (Bool-cases (is_terminal e)) [
  | inl t ↦ rw t (stays until d e (some d) h refl)
  | inr t ↦ elim (Bool-cases (lt_ℤ (sequence_number e) (sequence_number incoming))) [
    | inl newer ↦
        rw (t, newer)
          (record {
            stored = record_of now incoming (read_recovery_state (dict d));
            latest = incoming;
            here = refl;
            holds = record_of-Holds now until incoming _ le;
            sequence = ≤ℤ_of_lt (sequence_number e) (sequence_number incoming) newer;
            final = λ f. cc;
          })
    | inr older ↦ rw (t, older) (stays until d e (some d) h refl)
  ]
])

set_recovery_value-Advances :
    (now until : ℕ) (d e s : Fields)
    → read_record now (dict d) ≡ (some e, false)
    → Holds until d e
    → Advances until e (or_kept (set_recovery_value now d s) (some d))
unfolding set_recovery_value is_finished
set_recovery_value-Advances now until d e s read h = rw read (elim (Bool-cases (is_terminal e)) [
  | inl t ↦ rw t (stays until d e (some d) h refl)
  | inr t ↦ rw t (record {
    stored = Values.set_default (Values.put d "recovery" (dict s)) "expires_at" null;
    latest = e;
    here = refl;
    holds = recovered-Holds until d e s h _ refl;
    sequence = ≤ℤ_refl (sequence_number e);
    final = λ f. refl;
  })
])

serve-Advances :
    (now until : ℕ) (d e : Fields) (r : Request)
    → now < until
    → until ≤ now + retention_seconds
    → Holds until d e
    → Advances until e (serve now (some d) r)
unfolding serve
serve-Advances now until d e look lt le h =
    rw (read_record-Holds now until d e h lt) (stays until d e (some d) h refl)
serve-Advances now until d e (publish incoming) lt le h =
    set_value-Advances now until d e incoming (read_record-Holds now until d e h lt) h le
serve-Advances now until d e (recover s) lt le h =
    set_recovery_value-Advances now until d e s (read_record-Holds now until d e h lt) h

-- The requests are served before `until`, and no more than the retention time before it.
abbrev pub InWindow : ℕ → List (ℕ × Request) → Type 0
InWindow until = All (λ q. (q.0 < until) × (until ≤ q.0 + retention_seconds))

-- Over any sequence of reads, envelopes and recovery states within one retention time, the stored
-- envelope's sequence number never falls, and once an envelope is terminal it stays the stored one,
-- whatever is published later.
pub serve_all-Advances :
    (until : ℕ) (d e : Fields) (requests : List (ℕ × Request))
    → InWindow until requests
    → Holds until d e
    → Advances until e (serve_all (some d) requests)
unfolding serve_all
serve_all-Advances until d e [] w h = stays until d e (some d) h refl
serve_all-Advances until d e ((now, r) ∷ rest) ((lt, le), w) h =
    let step = serve-Advances now until d e r lt le h in
    let later = serve_all-Advances until step.stored step.latest rest w step.holds in
    record {
      stored = later.stored;
      latest = later.latest;
      here = ap (λ s. serve_all s rest) step.here ∙ later.here;
      holds = later.holds;
      sequence =
          ≤ℤ_trans (sequence_number e) (sequence_number step.latest) (sequence_number later.latest)
            step.sequence later.sequence;
      final = λ f. later.final (ap is_terminal (step.final f) ∙ f) ∙ step.final f;
    }
