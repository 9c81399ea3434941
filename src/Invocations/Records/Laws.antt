-- ===== src/Invocations/Records/Laws.antt =====
-- What a written record reads back as, and when.
use langchain_azure.Base.{
  ℕ, ◌+◌, true, false, Option, none, some, string_eq, ◌≡◌, refl, ap, ◌∙◌, inl, inr, arith,
  if◌then◌else◌, ◌&&◌, leb, Bool-cases,
}
use langchain_azure.Invocations.Values.{
  null, float, dict, Fields, get, put, set_default, number_of, as_dict, get-put, get-set_default,
}
use langchain_azure.Invocations.Records.{
  retention_seconds, is_terminal, expiry, record_of, is_expired, read_envelope, read_dict,
  read_record, read_recovery_state,
}

pub envelope-record_of :
    (now : ℕ) (e : Fields) (r : Option Fields) → get (record_of now e r) "envelope" ≡ dict e
unfolding record_of get string_eq
envelope-record_of now e r = refl

pub expires_at-record_of :
    (now : ℕ) (e : Fields) (r : Option Fields) → get (record_of now e r) "expires_at" ≡ expiry now e
unfolding record_of get string_eq
expires_at-record_of now e r = refl

-- A terminal envelope keeps no recovery state, another keeps the one that it is given.
pub recovery-record_of :
    (now : ℕ) (e : Fields) (r : Option Fields)
    → read_recovery_state (dict (record_of now e r)) ≡ (if is_terminal e then none else r)
unfolding record_of get string_eq read_recovery_state as_dict
recovery-record_of now e none = ground arith
recovery-record_of now e (some s) = ground arith

pub envelope-recovered :
    (d s : Fields)
    → get (set_default (put d "recovery" (dict s)) "expires_at" null) "envelope" ≡ get d "envelope"
unfolding string_eq
envelope-recovered d s =
    get-set_default (put d "recovery" (dict s)) "expires_at" "envelope"
    ∙ get-put d "recovery" "envelope" (dict s)

pub expires_at-recovered :
    (d s : Fields)
    → get (set_default (put d "recovery" (dict s)) "expires_at" null) "expires_at"
      ≡ get d "expires_at"
unfolding string_eq
expires_at-recovered d s =
    get-set_default (put d "recovery" (dict s)) "expires_at" "expires_at"
    ∙ get-put d "recovery" "expires_at" (dict s)

pub recovery-recovered :
    (d s : Fields)
    → read_recovery_state (dict (set_default (put d "recovery" (dict s)) "expires_at" null))
      ≡ some s
unfolding read_recovery_state as_dict string_eq
recovery-recovered d s = ap as_dict (
    get-set_default (put d "recovery" (dict s)) "expires_at" "recovery"
    ∙ get-put d "recovery" "recovery" (dict s))

-- Reading a dictionary with an envelope.
pub read_record-dict :
    (now : ℕ) (d e : Fields)
    → get d "envelope" ≡ dict e
    → read_record now (dict d)
      ≡ (if is_expired now (number_of (get d "expires_at")) then (none, true) else (some e, false))
unfolding read_record read_dict as_dict read_envelope
read_record-dict now d e h = rw h refl

pub read_record-live :
    (now : ℕ) (d e : Fields)
    → get d "envelope" ≡ dict e
    → get d "expires_at" ≡ null
    → read_record now (dict d) ≡ (some e, false)
unfolding is_expired number_of
read_record-live now d e h x = read_record-dict now d e h ∙ rw x refl

pub read_record-timed :
    (now t : ℕ) (d e : Fields)
    → get d "envelope" ≡ dict e
    → get d "expires_at" ≡ float t
    → read_record now (dict d) ≡ (if leb t now then (none, true) else (some e, false))
unfolding is_expired number_of
read_record-timed now t d e h x = read_record-dict now d e h ∙ rw x (ground arith)

-- A record is read back as its envelope, until a terminal one has been kept for the retention time.
pub read_record-record_of :
    (later now : ℕ) (e : Fields) (r : Option Fields)
    → read_record later (dict (record_of now e r)) ≡ (
        if is_terminal e && leb (now + retention_seconds) later
        then (none, true)
        else (some e, false))
unfolding expiry
read_record-record_of later now e r = elim (Bool-cases (is_terminal e)) [
  | inl t ↦
      read_record-timed later (now + retention_seconds) (record_of now e r) e
        (envelope-record_of now e r) (expires_at-record_of now e r ∙ rw (t, expiry) refl)
      ∙ rw t refl
  | inr t ↦
      read_record-live later (record_of now e r) e (envelope-record_of now e r)
        (expires_at-record_of now e r ∙ rw (t, expiry) refl)
      ∙ rw t refl
]
