-- ===== src/Invocations/Errors.antt =====
-- The exceptions of the invocation stores.
use langchain_azure.Invocations.Values.{Value, null, dict, Fields}
use langchain_azure.Base.{Option, none, some}

pub data Error : Type 0 where
  -- an envelope or a state without a usable id
  missing_id : Error
  -- a record that is valid JSON and not an object
  invalid_record : Error
  -- a file that is not valid JSON
  malformed : Error
  -- a record that could not be serialised, written or put in place
  write_failed : Error
  -- an item that has no string keys
  not_a_dict : Error

pub data Result (A : Type 0) : Type 0 where
  ok : A → Result A
  err : Error → Result A

-- None, or the dictionary
abbrev pub value_of : Option Fields → Value
value_of none = null
value_of (some d) = dict d
