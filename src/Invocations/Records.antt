-- ===== src/Invocations/Records.antt =====
-- _invocation_store.py: the record of an invocation, and which envelope replaces which. Envelopes
-- and records are values here, so that `deepcopy` is the identity. A status is a text or another
-- hashable value.
pub mod Laws
use langchain_azure.Base.{
  ℕ, ◌+◌, ◌*◌, Bool, true, false, not, ◌&&◌, Option, none, some, List, [], ◌∷◌, String, contains,
  string_eq, if◌then◌else◌, ◌==◌,
}
use langchain_azure.Base.Integer.{ℤ, pos, negsuc, lt_ℤ}
use langchain_azure.Invocations.Values.{
  Value, null, bool, int, float, str, array, dict, Fields, end, field, get, put, set_default,
  number_of, int_or, as_dict,
}

abbrev pub retention_seconds : ℕ
retention_seconds = 30 * 24 * 60 * 60

-- value in _TERMINAL_STATUSES
unfoldable pub is_terminal_status : Value → Bool
is_terminal_status (str s) = contains ("completed" ∷ "failed" ∷ "cancelled" ∷ []) s
is_terminal_status v = false

unfoldable pub is_terminal : Fields → Bool
is_terminal envelope = is_terminal_status (get envelope "status")

-- `_record`; `now` is `time.time()`.
unfoldable pub expiry : ℕ → Fields → Value
expiry now envelope = if is_terminal envelope then float (now + retention_seconds) else null

abbrev pub with_recovery : Option Fields → Bool → Fields
with_recovery none terminal = end
with_recovery (some state) true = end
with_recovery (some state) false = field "recovery" (dict state) end

unfoldable pub record_of : ℕ → Fields → Option Fields → Fields
unfolding expiry
record_of now envelope recovery =
    field "envelope" (dict envelope)
      (field "expires_at" (expiry now envelope) (with_recovery recovery (is_terminal envelope)))

-- isinstance(expires_at, (int, float)) and time.time() >= expires_at
unfoldable pub is_expired : ℕ → Option ℤ → Bool
is_expired now none = false
is_expired now (some at) = not (lt_ℤ (pos now) at)

-- the envelope if there is one, and whether it has expired
unfoldable pub read_envelope : ℕ → Fields → Option Fields → Option Fields × Bool
read_envelope now d none = (none, false)
read_envelope now d (some envelope) =
    if is_expired now (number_of (get d "expires_at")) then (none, true) else (some envelope, false)

unfoldable pub read_dict : ℕ → Option Fields → Option Fields × Bool
unfolding read_envelope
read_dict now none = (none, false)
read_dict now (some d) = read_envelope now d (as_dict (get d "envelope"))

unfoldable pub read_record : ℕ → Value → Option Fields × Bool
unfolding read_dict
read_record now value = read_dict now (as_dict value)

unfoldable pub recovery_in : Option Fields → Option Fields
recovery_in none = none
recovery_in (some d) = as_dict (get d "recovery")

unfoldable pub read_recovery_state : Value → Option Fields
unfolding recovery_in
read_recovery_state value = recovery_in (as_dict value)

unfoldable pub sequence_number : Fields → ℤ
sequence_number envelope = int_or (get envelope "sequence_number") (negsuc 0)

unfoldable pub should_replace : Option Fields → Fields → Bool
should_replace none incoming = true
should_replace (some current) incoming =
    if is_terminal current then false else lt_ℤ (sequence_number current) (sequence_number incoming)

-- What both stores' `set` writes over the value that they found, or nothing.
unfoldable pub set_value : ℕ → Value → Fields → Option Fields
set_value now value envelope =
    if should_replace (read_record now value).0 envelope
    then some (record_of now envelope (read_recovery_state value))
    else none

-- current_envelope is not None and its status is terminal
unfoldable pub is_finished : Option Fields → Bool
is_finished none = false
is_finished (some envelope) = is_terminal envelope

-- What both stores' `set_recovery_state` writes over the dictionary that they found, or nothing.
unfoldable pub set_recovery_value : ℕ → Fields → Fields → Option Fields
set_recovery_value now current state =
    if is_finished (read_record now (dict current)).0
    then none
    else some (set_default (put current "recovery" (dict state)) "expires_at" null)

-- envelope.get("id"), if it is a text that is not empty
unfoldable pub nonempty_id : String → Option String
nonempty_id s = if s == "" then none else some s

unfoldable pub id_of : Value → Option String
unfolding nonempty_id
id_of (str s) = nonempty_id s
id_of v = none
