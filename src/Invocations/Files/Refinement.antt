-- ===== src/Invocations/Files/Refinement.antt =====
-- What `FileInvocationStateStore` does to the records, against `Histories.serve` and the contract of
-- the operations.
use langchain_azure.Base.{
  ℕ, Bool, true, false, Option, none, some, String, ◌≡◌, ◌≢◌, refl, ◌⊎◌, inl, inr, if◌then◌else◌,
  string_eq, eq_false, eq_refl,
}
use langchain_azure.Invocations.Values.{dict, Fields, get}
use langchain_azure.Invocations.Records.{
  read_record, set_value, set_recovery_value, id_of, nonempty_id,
}
use langchain_azure.Invocations.Errors.{Error, Result, ok, err, value_of}
use langchain_azure.Invocations.Files.{
  FileFormat, Disk, record_in, read_raw, read_file, write_raw, write_file, got, get_read,
  get_envelope, store, set_read, set_at, set_envelope, set_recovery_read, set_recovery_at,
  set_recovery_state, or_empty,
}
use langchain_azure.Invocations.Contract.{IsRead, serve-IsRead}
use langchain_azure.Invocations.Histories.{look, publish, recover, serve, or_kept, dict_or_empty}

-- What is taken of the json module and of SHA-256: a record reads back as it was written, and two
-- ids have two paths.
pub record IsFaithful (F : FileFormat) : Type 0 where
  pub loads-dumps : (d : Fields) (r : F.Raw) → F.dumps d ≡ some r → F.loads r ≡ some (dict d)
  pub path_injective : (i j : String) → F.path i ≡ F.path j → i ≡ j

module _ (F : FileFormat) (G : IsFaithful F) where
  -- The id's file holds this record, or there is none.
  abbrev pub HoldsRecord : Disk F → String → Option Fields → Type 0
  HoldsRecord disk id slot = read_file F disk (F.path id) ≡ ok slot

  -- The id's record has become `next`, or a failed write has changed nothing; other ids' files are
  -- as they were.
  pub record Does (before after : Disk F) (id : String) (next : Option Fields)
      (result : Result (Unit {0})) : Type 0 where
    pub done :
        (HoldsRecord after id next × (result ≡ ok tt))
        ⊎ ((after ≡ before) × (result ≡ err Error.write_failed))
    pub others : (j : String) → j ≢ id → after (F.path j) ≡ before (F.path j)

  write_raw-Does :
      (fails : Bool) (disk : Disk F) (id : String) (d : Fields) (o : Option F.Raw)
      → F.dumps d ≡ o
      → Does disk
          (write_raw F fails disk (F.path id) o).0
          id
          (some d)
          (write_raw F fails disk (F.path id) o).1
  unfolding write_raw read_file read_raw record_in
  write_raw-Does fails disk id d none e = record { done = inr (refl, refl); others = λ j n. refl }
  write_raw-Does true disk id d (some r) e = record {
    done = inr (refl, refl);
    others = λ j n. refl;
  }
  write_raw-Does false disk id d (some r) e = record {
    done = inl (rw (eq_refl (F.path id)) (rw (G.loads-dumps d r e) refl), refl);
    others = λ j n. rw (eq_false (F.path j) (F.path id) (λ p. n (G.path_injective j id p))) refl;
  }

  store-Does :
      (fails : Bool) (disk : Disk F) (id : String) (o slot : Option Fields)
      → HoldsRecord disk id slot
      → Does disk
          (store F fails disk (F.path id) o).0
          id
          (or_kept o slot)
          (store F fails disk (F.path id) o).1
  unfolding store write_file
  store-Does fails disk id none slot h = record { done = inl (h, refl); others = λ j n. refl }
  store-Does fails disk id (some d) slot h = write_raw-Does fails disk id d (F.dumps d) refl

  -- `set` with an id: the record becomes what the history of the id says, or the write fails and
  -- nothing has changed. The records of other ids stay.
  pub set_envelope-Does :
      (now : ℕ) (fails : Bool) (disk : Disk F) (envelope : Fields) (id : String)
      (slot : Option Fields)
      → id_of (get envelope "id") ≡ some id
      → HoldsRecord disk id slot
      → Does disk
          (set_envelope F now fails disk envelope).0
          id
          (serve now slot (publish envelope))
          (set_envelope F now fails disk envelope).1
  unfolding set_envelope set_at set_read serve
  set_envelope-Does now fails disk envelope id slot named h =
      rw named (rw h (store-Does fails disk id (set_value now (value_of slot) envelope) slot h))

  or_empty-eq : (slot : Option Fields) → or_empty F slot ≡ dict_or_empty slot
  or_empty-eq none = refl
  or_empty-eq (some d) = refl

  -- The same of `set_recovery_state`, for an id that is not empty.
  pub set_recovery_state-Does :
      (now : ℕ) (fails : Bool) (disk : Disk F) (id : String) (state : Fields) (slot : Option Fields)
      → nonempty_id id ≡ some id
      → HoldsRecord disk id slot
      → Does disk
          (set_recovery_state F now fails disk id state).0
          id
          (serve now slot (recover state))
          (set_recovery_state F now fails disk id state).1
  unfolding set_recovery_state set_recovery_at set_recovery_read serve
  set_recovery_state-Does now fails disk id state slot named h = rw named (
      rw h (
        rw (or_empty-eq slot)
          (store-Does fails disk id (set_recovery_value now (dict_or_empty slot) state) slot h)))

  got-serves :
      (disk : Disk F) (id : String) (slot e : Option Fields) (expired : Bool)
      → HoldsRecord disk id slot
      → HoldsRecord (got F disk (F.path id) (e, expired)).0 id (if expired then none else slot)
        × ((got F disk (F.path id) (e, expired)).1 ≡ ok e)
        × ((j : String)
            → j ≢ id
            → (got F disk (F.path id) (e, expired)).0 (F.path j) ≡ disk (F.path j))
  unfolding got read_file read_raw
  got-serves disk id slot e false h = (h, refl, λ j n. refl)
  got-serves disk id slot e true h = (
    rw (eq_refl (F.path id)) refl,
    refl,
    λ j n. rw (eq_false (F.path j) (F.path id) (λ p. n (G.path_injective j id p))) refl,
  )

  get_envelope-serves :
      (now : ℕ) (disk : Disk F) (id : String) (slot : Option Fields)
      → HoldsRecord disk id slot
      → HoldsRecord (get_envelope F now disk id).0 id (serve now slot look)
        × ((get_envelope F now disk id).1 ≡ ok (read_record now (value_of slot)).0)
        × ((j : String) → j ≢ id → (get_envelope F now disk id).0 (F.path j) ≡ disk (F.path j))
  unfolding get_envelope get_read serve
  get_envelope-serves now disk id slot h = rw h (
      got-serves disk id slot (read_record now (value_of slot)).0
        (read_record now (value_of slot)).1 h)

  -- `get` returns the envelope that the id's record shows, and nothing where there is none or where the
  -- record's time has come; in the last case it removes the record, otherwise the record stays. The
  -- files of other ids stay.
  pub file_get-IsRead :
      (now : ℕ) (disk : Disk F) (id : String) (slot : Option Fields)
      → HoldsRecord disk id slot
      → (next : Option Fields) × (answer : Option Fields) × HoldsRecord
          (get_envelope F now disk id).0
          id
          next
        × ((get_envelope F now disk id).1 ≡ ok answer)
        × IsRead now slot next answer
        × ((j : String) → j ≢ id → (get_envelope F now disk id).0 (F.path j) ≡ disk (F.path j))
  file_get-IsRead now disk id slot h =
      let (held, result, others) = get_envelope-serves now disk id slot h in
      (
        serve now slot look,
        (read_record now (value_of slot)).0,
        held,
        result,
        serve-IsRead now slot,
        others,
      )
