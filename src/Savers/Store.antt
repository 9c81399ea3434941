-- ===== src/Savers/Store.antt =====
-- The state store of one thread, as the saver calls it, and the serializer. An exception of the
-- service, which every operation of the saver lets pass, is left out.
use langchain_azure.Base.{
  ℕ, Bool, true, false, Option, none, some, List, [], String, ◌≡◌, ◌≢◌, take, drop, if◌then◌else◌,
  ◌==◌, codes_eq, string_eq, In,
}
use langchain_azure.Base.Words.{Text}
use langchain_azure.Base.Integer.{ℤ}
use langchain_azure.Checkpoints.Config.{Setting, text, Dict, Config, lookup}

-- What `serde` and base64 do, and what the saver reads of the objects they write.
pub record Codec : Type 1 where
  pub Object : Type 0
  pub Bytes : Type 0
  pub dumps_typed : Object → String × Bytes
  pub loads_typed : String × Bytes → Object
  pub b64encode : Bytes → Text
  pub b64decode : Text → Bytes
  -- `value is None`
  pub is_none : Object → Bool
  -- metadata.get(name), where `none` is None
  pub field : Object → String → Option Object
  -- `==` and `str` of two values
  pub same : Object → Object → Bool
  pub str_of : Object → String
  -- `get_checkpoint_metadata` of langgraph
  pub get_checkpoint_metadata : Config → Object → Object
  -- `get_checkpoint_id` of langgraph
  pub get_checkpoint_id : Config → Option String

-- What is written is read back, and an id that a config names is found.
pub record IsCodec (C : Codec) : Type 0 where
  pub loads-dumps : (o : C.Object) → C.loads_typed (C.dumps_typed o) ≡ o
  pub get_id :
      (rest configurable : Dict Setting) (id : String)
      → lookup configurable "checkpoint_id" ≡ some (text id)
      → C.get_checkpoint_id (record { configurable = configurable; rest = rest }) ≡ some id
  pub decode-encode : (b : C.Bytes) → C.b64decode (C.b64encode b) ≡ b

-- `_SerializedValue`
pub record SerializedValue : Type 0 where
  pub type_name : String
  pub encoded : Text

-- `_CheckpointItemValue` and `_PendingWriteItemValue`
pub data ItemValue : Type 0 where
  checkpoint_item : String → String → SerializedValue → SerializedValue → String → ItemValue
  write_item : String → String → String → String → ℤ → String → SerializedValue → ItemValue

-- Tags by their names.
abbrev pub Tags : Type 0
Tags = List (String × String)

pub record Page (Cursor : Type 0) : Type 0 where
  pub keys : List Text
  pub has_more : Bool
  pub last_id : Option Cursor

pub record Service : Type 1 where
  pub State : Type 0
  pub Cursor : Type 0
  pub get_item : State → Text → Option ItemValue
  pub set_item : State → Text → ItemValue → Tags → State
  -- `none`: FoundryStorageConflictError
  pub create_item : State → Text → ItemValue → Tags → Option State
  pub delete_item : State → Text → State
  -- with tags, limit, whether the order is descending, and `after`
  pub list_keys : State → Tags → ℕ → Bool → Option Cursor → Page Cursor
  pub user_isolation : State → Bool

-- What the service documents. `rest` are the keys of a listing that follow a cursor.
pub record IsService (F : Service) : Type 0 where
  pub get-set :
      (s : F.State) (k j : Text) (v : ItemValue) (t : Tags)
      → F.get_item (F.set_item s k v t) j ≡ (if j == k then some v else F.get_item s j)
  pub create_new :
      (s : F.State) (k : Text) (v : ItemValue) (t : Tags)
      → F.get_item s k ≡ none
      → F.create_item s k v t ≡ some (F.set_item s k v t)
  pub create_known :
      (s : F.State) (k : Text) (v w : ItemValue) (t : Tags)
      → F.get_item s k ≡ some w
      → F.create_item s k v t ≡ none
  pub get-delete :
      (s : F.State) (k j : Text)
      → F.get_item (F.delete_item s k) j ≡ (if j == k then none else F.get_item s j)
  pub rest : F.State → Tags → Bool → Option F.Cursor → List Text
  pub page_keys :
      (s : F.State) (t : Tags) (limit : ℕ) (desc : Bool) (c : Option F.Cursor)
      → (F.list_keys s t limit desc c).keys ≡ take limit (rest s t desc c)
  pub page_more :
      (s : F.State) (t : Tags) (limit : ℕ) (desc : Bool) (c : Option F.Cursor)
      → (F.list_keys s t limit desc c).has_more ≡ true
      → (d : F.Cursor) × ((F.list_keys s t limit desc c).last_id ≡ some d)
        × (rest s t desc (some d) ≡ drop limit (rest s t desc c))
        × (drop limit (rest s t desc c) ≢ [])
  pub page_last :
      (s : F.State) (t : Tags) (limit : ℕ) (desc : Bool) (c : Option F.Cursor)
      → (F.list_keys s t limit desc c).has_more ≡ false
      → drop limit (rest s t desc c) ≡ []
  -- a listing without tags has the key of every item
  pub listed :
      (s : F.State) (desc : Bool) (k : Text) (v : ItemValue)
      → F.get_item s k ≡ some v
      → In k (rest s [] desc none)
