-- ===== src/Invocations/Examples.antt =====
-- The theorems about the invocation stores at concrete records.
use langchain_azure.Base.{
  ℕ, ◌+◌, true, false, Option, none, some, List, [], ◌∷◌, String, ◌≡◌, refl, inl, arith,
  if◌then◌else◌, ◌==◌, string_eq, ◌≢◌, ◌&&◌, leb,
}
use langchain_azure.Base.Integer.{pos}
use langchain_azure.Invocations.Values.{Value, null, int, str, dict, Fields, end, field, get}
use langchain_azure.Invocations.Records.{
  retention_seconds, is_terminal, record_of, read_record, id_of, nonempty_id,
}
use langchain_azure.Invocations.Records.Laws.{read_record-record_of}
use langchain_azure.Invocations.Errors.{ok}
use langchain_azure.Invocations.Files.{
  FileFormat, Disk, read_file, read_raw, record_in, set_envelope, set_recovery_state, get_envelope,
}
use langchain_azure.Invocations.Files.Refinement.{
  IsFaithful, HoldsRecord, Does, set_envelope-Does, set_recovery_state-Does, file_get-IsRead,
}
use langchain_azure.Invocations.Foundry
use langchain_azure.Invocations.Foundry.{ItemStore, IsItemStore}
use langchain_azure.Invocations.Foundry.Agreement.{
  HoldsItem, KeepsOthers, set_envelope-IsPublished, set_recovery_state-IsRecovered, item_get-IsRead,
}
use langchain_azure.Invocations.Contract.{IsRead, IsPublished, IsRecovered}
use langchain_azure.Invocations.Histories.{
  Request, look, publish, recover, serve, serve_all, Holds, Advances, serve_all-Advances,
}

abbrev envelope : String → ℕ → Fields
envelope status n =
    field "id" (str "inv") (field "status" (str status) (field "sequence_number" (int (pos n)) end))

abbrev running : Fields
running = envelope "in_progress" 3

abbrev completed : Fields
completed = envelope "completed" 5

abbrev checkpoint : Fields
checkpoint = field "checkpoint" (str "c1") end

abbrev stored : Fields
stored = field "envelope" (dict running) (field "expires_at" null end)

-- Files that hold the record itself, under the id.
abbrev plain_files : FileFormat
plain_files = record {
  Raw = Fields;
  dumps = λ d. some d;
  loads = λ r. some (dict r);
  path = λ id. id;
}

plain_files-IsFaithful : IsFaithful plain_files
plain_files-IsFaithful = record { loads-dumps = λ d r h. cc; path_injective = λ i j h. h }

abbrev disk : Disk plain_files
disk p = if p == "inv" then some stored else none

disk_holds : HoldsRecord plain_files plain_files-IsFaithful disk "inv" (some stored)
unfolding read_file read_raw record_in string_eq
disk_holds = refl

named : id_of (get completed "id") ≡ some "inv"
unfolding id_of get string_eq
named = refl

named_id : nonempty_id "inv" ≡ some "inv"
unfolding nonempty_id string_eq
named_id = refl

read_record-record_of_example :
    read_record (100 + retention_seconds) (dict (record_of 100 completed none)) ≡ (
      if is_terminal completed && leb (100 + retention_seconds) (100 + retention_seconds)
      then (none, true)
      else (some completed, false))
read_record-record_of_example = read_record-record_of (100 + retention_seconds) 100 completed none

set_envelope-Does_example :
    Does plain_files plain_files-IsFaithful disk
      (set_envelope plain_files 100 false disk completed).0
      "inv"
      (serve 100 (some stored) (publish completed))
      (set_envelope plain_files 100 false disk completed).1
set_envelope-Does_example =
    set_envelope-Does plain_files plain_files-IsFaithful 100 false disk completed "inv"
      (some stored) named disk_holds

set_recovery_state-Does_example :
    Does plain_files plain_files-IsFaithful disk
      (set_recovery_state plain_files 100 true disk "inv" checkpoint).0
      "inv"
      (serve 100 (some stored) (recover checkpoint))
      (set_recovery_state plain_files 100 true disk "inv" checkpoint).1
set_recovery_state-Does_example =
    set_recovery_state-Does plain_files plain_files-IsFaithful 100 true disk "inv" checkpoint
      (some stored) named_id disk_holds

file_get-IsRead_example :
    (next : Option Fields) × (answer : Option Fields) × HoldsRecord plain_files
      plain_files-IsFaithful
      (get_envelope plain_files 100 disk "inv").0
      "inv"
      next
    × ((get_envelope plain_files 100 disk "inv").1 ≡ ok answer)
    × IsRead 100 (some stored) next answer
    × ((j : String) → j ≢ "inv" → (get_envelope plain_files 100 disk "inv").0 j ≡ disk j)
file_get-IsRead_example =
    file_get-IsRead plain_files plain_files-IsFaithful 100 disk "inv" (some stored) disk_holds

-- Items as a function from keys.
abbrev item_function : ItemStore
item_function = record {
  State = String → Option Value;
  get_item = λ s k. s k;
  set_item = λ s k d j. if j == k then some (dict d) else s j;
  delete_item = λ s k j. if j == k then none else s j;
}

item_function-IsItemStore : IsItemStore item_function
item_function-IsItemStore = record { get-set = λ s k j d. refl; get-delete = λ s k j. refl }

abbrev items : String → Option Value
items k = if k == "inv" then some (dict stored) else none

items_hold : HoldsItem item_function item_function-IsItemStore items "inv" (some stored)
unfolding string_eq
items_hold = refl

set_envelope-IsPublished_example :
    (next : Option Fields) × HoldsItem item_function item_function-IsItemStore
      (Foundry.set_envelope item_function 100 items completed).0
      "inv"
      next
    × IsPublished 100 (some stored) completed next
    × ((Foundry.set_envelope item_function 100 items completed).1 ≡ ok tt)
    × KeepsOthers item_function item_function-IsItemStore items
        (Foundry.set_envelope item_function 100 items completed).0
        "inv"
set_envelope-IsPublished_example =
    set_envelope-IsPublished item_function item_function-IsItemStore 100 items completed "inv"
      (some stored) named items_hold

set_recovery_state-IsRecovered_example :
    (next : Option Fields) × HoldsItem item_function item_function-IsItemStore
      (Foundry.set_recovery_state item_function 100 items "inv" checkpoint).0
      "inv"
      next
    × IsRecovered 100 (some stored) checkpoint next
    × ((Foundry.set_recovery_state item_function 100 items "inv" checkpoint).1 ≡ ok tt)
    × KeepsOthers item_function item_function-IsItemStore items
        (Foundry.set_recovery_state item_function 100 items "inv" checkpoint).0
        "inv"
set_recovery_state-IsRecovered_example =
    set_recovery_state-IsRecovered item_function item_function-IsItemStore 100 items "inv"
      checkpoint (some stored) named_id items_hold

item_get-IsRead_example :
    (next : Option Fields) × HoldsItem item_function item_function-IsItemStore
      (Foundry.get_envelope item_function 100 items "inv").0
      "inv"
      next
    × IsRead 100 (some stored) next (Foundry.get_envelope item_function 100 items "inv").1
    × KeepsOthers item_function item_function-IsItemStore items
        (Foundry.get_envelope item_function 100 items "inv").0
        "inv"
item_get-IsRead_example =
    item_get-IsRead item_function item_function-IsItemStore 100 items "inv" (some stored) items_hold

stored-Holds : Holds 1000 stored running
unfolding get string_eq
stored-Holds = record { envelope = refl; expires = inl refl }

-- A late update of a completed invocation is dropped.
abbrev story : List (ℕ × Request)
story = (10, recover checkpoint) ∷ (20, publish completed) ∷ (30, publish running) ∷ (40, look) ∷ []

serve_all-Advances_example : Advances 1000 running (serve_all (some stored) story)
serve_all-Advances_example = serve_all-Advances 1000 stored running story (omega arith) stored-Holds
