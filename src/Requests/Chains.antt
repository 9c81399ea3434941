-- ===== src/Requests/Chains.antt =====
-- The records of a conversation chain: `FoundryConversationChainStore`
-- (conversation_chain_store.py).
use langchain_azure.Base.{
  Option, none, some, List, [], ◌∷◌, ◌++◌, String, ◌≡◌, if◌then◌else◌, ◌==◌, ◌&&◌, string_eq,
  codes_eq,
}
use langchain_azure.Base.Words.{Text, codes}
use langchain_azure.Invocations.Values.{
  Value, null, bool, int, float, str, array, dict, Fields, end, field,
}

-- The state stores that the class opens by their names, with items of JSON values.
pub record Stores : Type 1 where
  pub State : Type 0
  pub get_item : State → Text → String → Option Value
  pub set_item : State → Text → String → Value → State

pub record IsStores (S : Stores) : Type 0 where
  pub get-set :
      (s : S.State) (store other : Text) (key k : String) (v : Value)
      → S.get_item (S.set_item s store key v) other k
        ≡ (if other == store && k == key then some v else S.get_item s other k)

-- What a read comes to.
pub data Record : Type 0 where
  absent : Record
  found : List (String × String) → Record
  type_error : Record

-- `_store_name`
abbrev pub chain_prefix : Text
chain_prefix = codes "langchain_azure_ai.agents.hosting/responses/"

abbrev pub chain_store_name : String → Text
chain_store_name chain = chain_prefix ++ codes chain

abbrev pub add_text : String → String → Record → Record
add_text k s (found d) = found ((k, s) ∷ d)
add_text k s r = r

-- A dictionary whose values are all texts.
unfoldable pub texts_of : Fields → Record
texts_of end = found []
texts_of (field k (str s) d) = add_text k s (texts_of d)
texts_of (field k null d) = type_error
texts_of (field k (bool b) d) = type_error
texts_of (field k (int n) d) = type_error
texts_of (field k (float n) d) = type_error
texts_of (field k (array xs) d) = type_error
texts_of (field k (dict e) d) = type_error

abbrev pub record_in : Option Value → Record
record_in none = absent
record_in (some (dict d)) = texts_of d
record_in (some v) = type_error

-- dict(data)
unfoldable pub fields_of : List (String × String) → Fields
fields_of [] = end
fields_of ((k, s) ∷ d) = field k (str s) (fields_of d)

module _ (S : Stores) where
  -- `get`
  unfoldable pub chain_get : S.State → String → String → Record
  unfolding texts_of
  chain_get s chain key = record_in (S.get_item s (chain_store_name chain) key)

  -- `set`
  unfoldable pub chain_set : S.State → String → String → List (String × String) → S.State
  unfolding fields_of
  chain_set s chain key entries =
      S.set_item s (chain_store_name chain) key (dict (fields_of entries))
