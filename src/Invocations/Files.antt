-- ===== src/Invocations/Files.antt =====
-- `FileInvocationStateStore`. Its lock makes each operation one step; a directory of files is a map
-- from paths, temporary files left out.
pub mod Refinement
use langchain_azure.Base.{
  ℕ, Bool, true, false, Option, none, some, String, ◌==◌, string_eq, if◌then◌else◌,
}
use langchain_azure.Invocations.Values.{Value, null, dict, Fields, end, get}
use langchain_azure.Invocations.Records.{
  read_record, read_recovery_state, set_value, set_recovery_value, id_of, nonempty_id,
}
use langchain_azure.Invocations.Errors.{
  Result, ok, err, missing_id, invalid_record, malformed, write_failed, value_of,
}

-- The json module, and the path of a record, which is a SHA-256 digest of the invocation's id.
pub record FileFormat : Type 1 where
  pub Raw : Type 0
  pub dumps : Fields → Option Raw
  pub loads : Raw → Option Value
  pub path : String → String

module _ (F : FileFormat) where
  abbrev pub Disk : Type 0
  Disk = String → Option F.Raw

  -- a file replaced, created or removed
  abbrev pub update : Disk → String → Option F.Raw → Disk
  update disk p raw q = if q == p then raw else disk q

  unfoldable pub record_in : Option Value → Result (Option Fields)
  record_in none = err malformed
  record_in (some (dict d)) = ok (some d)
  record_in (some v) = err invalid_record

  unfoldable pub read_raw : Option F.Raw → Result (Option Fields)
  unfolding record_in
  read_raw none = ok none
  read_raw (some raw) = record_in (F.loads raw)

  -- `_read`
  unfoldable pub read_file : Disk → String → Result (Option Fields)
  unfolding read_raw
  read_file disk p = read_raw (disk p)

  unfoldable pub write_raw : Bool → Disk → String → Option F.Raw → Disk × Result (Unit {0})
  write_raw fails disk p none = (disk, err write_failed)
  write_raw true disk p (some raw) = (disk, err write_failed)
  write_raw false disk p (some raw) = (update disk p (some raw), ok tt)

  -- `_write`. Whether the temporary file can be written and renamed is given by `fails`; the record
  -- appears under its path by the rename alone, and the temporary file is removed on failure.
  unfoldable pub write_file : Bool → Disk → String → Fields → Disk × Result (Unit {0})
  unfolding write_raw
  write_file fails disk p d = write_raw fails disk p (F.dumps d)

  unfoldable pub got : Disk → String → Option Fields × Bool → Disk × Result (Option Fields)
  got disk p (envelope, true) = (update disk p none, ok envelope)
  got disk p (envelope, false) = (disk, ok envelope)

  unfoldable pub get_read :
      ℕ → Disk → String → Result (Option Fields) → Disk × Result (Option Fields)
  unfolding got
  get_read now disk p (err e) = (disk, err e)
  get_read now disk p (ok d) = got disk p (read_record now (value_of d))

  unfoldable pub get_envelope : ℕ → Disk → String → Disk × Result (Option Fields)
  unfolding get_read
  get_envelope now disk id = get_read now disk (F.path id) (read_file disk (F.path id))

  unfoldable pub store : Bool → Disk → String → Option Fields → Disk × Result (Unit {0})
  unfolding write_file
  store fails disk p none = (disk, ok tt)
  store fails disk p (some d) = write_file fails disk p d

  unfoldable pub set_read :
      ℕ → Bool → Disk → String → Fields → Result (Option Fields) → Disk × Result (Unit {0})
  unfolding store
  set_read now fails disk p envelope (err e) = (disk, err e)
  set_read now fails disk p envelope (ok d) =
      store fails disk p (set_value now (value_of d) envelope)

  unfoldable pub set_at : ℕ → Bool → Disk → Fields → Option String → Disk × Result (Unit {0})
  unfolding set_read
  set_at now fails disk envelope none = (disk, err missing_id)
  set_at now fails disk envelope (some id) =
      set_read now fails disk (F.path id) envelope (read_file disk (F.path id))

  unfoldable pub set_envelope : ℕ → Bool → Disk → Fields → Disk × Result (Unit {0})
  unfolding set_at
  set_envelope now fails disk envelope = set_at now fails disk envelope (id_of (get envelope "id"))

  unfoldable pub recovery_of : Result (Option Fields) → Result (Option Fields)
  recovery_of (err e) = err e
  recovery_of (ok d) = ok (read_recovery_state (value_of d))

  unfoldable pub get_recovery_state : Disk → String → Result (Option Fields)
  unfolding recovery_of
  get_recovery_state disk id = recovery_of (read_file disk (F.path id))

  -- `… or {}`
  abbrev pub or_empty : Option Fields → Fields
  or_empty none = end
  or_empty (some d) = d

  unfoldable pub set_recovery_read :
      ℕ → Bool → Disk → String → Fields → Result (Option Fields) → Disk × Result (Unit {0})
  unfolding store
  set_recovery_read now fails disk p state (err e) = (disk, err e)
  set_recovery_read now fails disk p state (ok d) =
      store fails disk p (set_recovery_value now (or_empty d) state)

  unfoldable pub set_recovery_at :
      ℕ → Bool → Disk → Fields → Option String → Disk × Result (Unit {0})
  unfolding set_recovery_read
  set_recovery_at now fails disk state none = (disk, err missing_id)
  set_recovery_at now fails disk state (some id) =
      set_recovery_read now fails disk (F.path id) state (read_file disk (F.path id))

  unfoldable pub set_recovery_state : ℕ → Bool → Disk → String → Fields → Disk × Result (Unit {0})
  unfolding set_recovery_at
  set_recovery_state now fails disk id state = set_recovery_at now fails disk state (nonempty_id id)
