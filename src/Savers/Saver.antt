-- ===== src/Savers/Saver.antt =====
-- `FoundryCheckpointSaver`, over the state store of the thread that a call names.
use langchain_azure.Base.{
  ℕ, zero, suc, Bool, Option, none, some, List, [], ◌∷◌, ◌++◌, String, if◌then◌else◌, ◌==◌, ◌&&◌,
  not, string_eq, nat_eq, codes_eq, is_some,
}
use langchain_azure.Base.Words.{Text, codes, text_leb}
use langchain_azure.Base.Integer.{ℤ, lt_ℤ}
use langchain_azure.Checkpoints.Config.{Setting, null, text, Config, get_or}
use langchain_azure.Savers.Store.{
  Codec, SerializedValue, ItemValue, checkpoint_item, write_item, Tags, Page, Service,
}

-- What a call comes to. The fuel counts the pages of one listing.
pub data Outcome {ℓ} (A : Type ℓ) : Type ℓ where
  done : A → Outcome A
  value_error : Outcome A
  key_error : Outcome A
  out_of_fuel : Outcome A

abbrev pub and_then {ℓ κ} : {A : Type ℓ} {B : Type κ} → Outcome A → (A → Outcome B) → Outcome B
and_then (done a) f = f a
and_then value_error f = value_error
and_then key_error f = key_error
and_then out_of_fuel f = out_of_fuel

abbrev pub or_value_error {ℓ κ} : {A : Type ℓ} {B : Type κ} → Option A → (A → Outcome B) → Outcome B
or_value_error none f = value_error
or_value_error (some a) f = f a

abbrev pub page_size : ℕ
page_size = 100

abbrev pub nonempty : Setting → Option String
nonempty (text s) = if s == "" then none else some s
nonempty v = none

-- `_thread_id`
unfoldable pub thread_id_of : Config → Option String
unfolding get_or string_eq
thread_id_of config = nonempty (get_or null config.configurable "thread_id")

abbrev pub text_in : Setting → Option String
text_in (text s) = some s
text_in v = none

abbrev pub pair : Option String → Option String → Option (String × String)
pair (some a) (some b) = some (a, b)
pair a b = none

-- `_thread_and_namespace`
unfoldable pub thread_and_namespace : Config → Option (String × String)
unfolding thread_id_of get_or
thread_and_namespace config =
    pair (thread_id_of config) (text_in (get_or (text "") config.configurable "checkpoint_ns"))

-- `_config`
abbrev pub config_of : String → String → String → Config
config_of thread_id ns id = record {
  configurable =
      ("thread_id", text thread_id) ∷ ("checkpoint_ns", text ns) ∷ ("checkpoint_id", text id) ∷ [];
  rest = [];
}

abbrev pub text_ltb : Text → Text → Bool
text_ltb a b = not (text_leb b a)

-- `WRITES_IDX_MAP` of langgraph, for the special channels
abbrev pub Special : Type 0
Special = String → Option ℤ

-- A checkpoint, as it is put.
pub record Checkpoint (O : Type 0) : Type 0 where
  pub id : String
  pub whole : O

-- `CheckpointTuple` of langgraph
pub record CheckpointTuple (O : Type 0) : Type 0 where
  pub config : Config
  pub checkpoint : O
  pub metadata : O
  pub parent_config : Option Config
  pub pending_writes : List (String × String × O)

pub record WriteRecord : Type 0 where
  pub task_id : String
  pub index : ℤ
  pub channel : String
  pub value : SerializedValue

module _ (C : Codec) where
  -- `_serialize`
  unfoldable pub serialize : C.Object → SerializedValue
  serialize o =
      let (name, bytes) = C.dumps_typed o in
      record { type_name = name; encoded = C.b64encode bytes }

  -- `_deserialize`
  unfoldable pub deserialize : SerializedValue → C.Object
  deserialize v = C.loads_typed (v.type_name, C.b64decode v.encoded)

-- (item["task_id"], item["index"]) <= (other["task_id"], other["index"])
abbrev pub write_leb : WriteRecord → WriteRecord → Bool
write_leb a b =
    if a.task_id == b.task_id
    then not (lt_ℤ b.index a.index)
    else text_leb (codes a.task_id) (codes b.task_id)

unfoldable pub insert_write : WriteRecord → List WriteRecord → List WriteRecord
unfolding string_eq
insert_write x [] = x ∷ []
insert_write x (y ∷ ys) = if write_leb x y then x ∷ y ∷ ys else y ∷ insert_write x ys

-- records.sort(key=...), which is stable
unfoldable pub sort_writes : List WriteRecord → List WriteRecord
unfolding insert_write
sort_writes [] = []
sort_writes (x ∷ xs) = insert_write x (sort_writes xs)

-- The values of pending writes; a key that is not there raises a KeyError.
abbrev pub write_records :
    Option ItemValue → Outcome (List WriteRecord) → Outcome (List WriteRecord)
write_records none rest = rest
write_records (some (checkpoint_item id ns checkpoint metadata parent)) rest = key_error
write_records (some (write_item id ns task path index channel value)) rest =
    and_then rest (λ records.
      done (record { task_id = task; index = index; channel = channel; value = value } ∷ records))

module _ (F : Service) where
  abbrev pub with_rest : List Text → Outcome (List Text) → Outcome (List Text)
  with_rest keys more = and_then more (λ others. done (keys ++ others))

  abbrev pub from_next :
      (Option F.Cursor → Outcome (List Text)) → Page F.Cursor → Outcome (List Text)
  from_next next page =
      if page.has_more && is_some page.last_id
      then with_rest page.keys (next page.last_id)
      else done page.keys

  -- The loop over the pages of a listing.
  unfoldable pub collect_keys : ℕ → F.State → Tags → Bool → Option F.Cursor → Outcome (List Text)
  collect_keys zero s tags desc after = out_of_fuel
  collect_keys (suc fuel) s tags desc after =
      from_next (λ c. collect_keys fuel s tags desc c) (F.list_keys s tags page_size desc after)

  -- `for key in page.keys: item = await store.get_item(key.key)`
  unfoldable pub records_of : F.State → List Text → Outcome (List WriteRecord)
  records_of s [] = done []
  records_of s (k ∷ ks) = write_records (F.get_item s k) (records_of s ks)
