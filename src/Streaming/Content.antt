-- ===== src/Streaming/Content.antt =====
-- What the converter reads of a message's content: `text_deltas` of _text.py and
-- `extract_reasoning_summary_fragments` of _utils.py.
use langchain_azure.Base.{
  Bool, true, false, Option, none, some, List, [], ◌∷◌, ◌++◌, String, if◌then◌else◌, ◌==◌, ◌&&◌,
  ◌||◌, string_eq,
}
use langchain_azure.Base.Integer.{pos}
use langchain_azure.Invocations.Values.{
  Value, int, str, array, dict, Items, nil, cons, Fields, end, field, get, has, put,
}

-- The key of a text part. `object()` is equal to no other key.
pub data Index : Type 0 where
  given : Value → Index
  unnamed : Index

-- What the text converter takes from outside: the validation of an annotation against the schema of
-- the openai package, and `==` of two part keys.
pub record Schema : Type 1 where
  pub Annotation : Type 0
  pub validate_python : Value → Option Annotation
  pub same_key : Value → Value → Bool

-- value.pop(key)
unfoldable pub remove : Fields → String → Fields
unfolding string_eq
remove end k = end
remove (field j v d) k = let rest = remove d k in if k == j then d else field j v rest

abbrev pub is_str : Value → String → Bool
is_str (str s) t = s == t
is_str v t = false

module _ (C : Schema) where
  -- `_TextDelta`
  pub record TextDelta : Type 0 where
    pub index : Index
    pub content : String
    pub annotations : List C.Annotation

  unfoldable pub renamed : Fields → Fields
  unfolding remove
  renamed d =
      if is_str (get d "type") "file_citation" && has d "file_index"
      then put (remove d "file_index") "index" (get d "file_index")
      else d

  -- `_response_annotation`
  unfoldable pub response_annotation : Value → Option C.Annotation
  unfolding renamed
  response_annotation (dict d) = C.validate_python (dict (renamed d))
  response_annotation v = none

  abbrev pub keep : Option C.Annotation → List C.Annotation → List C.Annotation
  keep none rest = rest
  keep (some a) rest = a ∷ rest

  unfoldable pub annotations_in : Items → List C.Annotation
  unfolding response_annotation
  annotations_in nil = []
  annotations_in (cons v vs) = keep (response_annotation v) (annotations_in vs)

  unfoldable pub annotations_of : Value → List C.Annotation
  unfolding annotations_in
  annotations_of (array vs) = annotations_in vs
  annotations_of v = []

  abbrev pub index_of : Fields → Index
  index_of d = if has d "index" then given (get d "index") else unnamed

  abbrev pub some_delta : Index → String → List C.Annotation → List TextDelta
  some_delta i s [] =
      if s == "" then [] else record { index = i; content = s; annotations = [] } ∷ []
  some_delta i s (a ∷ more) = record { index = i; content = s; annotations = a ∷ more } ∷ []

  -- block.get("text", "")
  unfoldable pub delta_of : Fields → Value → List TextDelta
  unfolding annotations_of string_eq
  delta_of d (str s) = some_delta (index_of d) s (annotations_of (get d "annotations"))
  delta_of d v = []

  abbrev pub is_text_type : Fields → Bool
  is_text_type d =
      if has d "type"
      then is_str (get d "type") "text" || is_str (get d "type") "output_text"
      else true

  abbrev pub text_or_empty : Fields → Value
  text_or_empty d = if has d "text" then get d "text" else str ""

  unfoldable pub deltas_of_block : Value → List TextDelta
  unfolding delta_of string_eq
  deltas_of_block (str s) = some_delta unnamed s []
  deltas_of_block (dict d) = if is_text_type d then delta_of d (text_or_empty d) else []
  deltas_of_block v = []

  unfoldable pub deltas_of_blocks : Items → List TextDelta
  unfolding deltas_of_block
  deltas_of_blocks nil = []
  deltas_of_blocks (cons v vs) = deltas_of_block v ++ deltas_of_blocks vs

  -- `text_deltas`, for the content of a message: a text or a list of blocks
  unfoldable pub text_deltas : Value → List TextDelta
  unfolding deltas_of_blocks
  text_deltas (str s) = some_delta (given (int (pos 0))) s []
  text_deltas (array vs) = deltas_of_blocks vs
  text_deltas v = []

unfoldable pub summary_text : Value → List String
summary_text (str s) = s ∷ []
summary_text v = []

unfoldable pub summary_texts : Items → List String
unfolding summary_text
summary_texts nil = []
summary_texts (cons (dict d) vs) = summary_text (get d "text") ++ summary_texts vs
summary_texts (cons v vs) = summary_texts vs

unfoldable pub summary_of : Value → List String
unfolding summary_texts
summary_of (array vs) = summary_texts vs
summary_of v = []

unfoldable pub reasoning_fragments : Value → List String
unfolding summary_of string_eq
reasoning_fragments (dict d) =
    if is_str (get d "type") "reasoning" then summary_of (get d "summary") else []
reasoning_fragments v = []

unfoldable pub fragments_in : Items → List String
unfolding reasoning_fragments
fragments_in nil = []
fragments_in (cons v vs) = reasoning_fragments v ++ fragments_in vs

-- `extract_reasoning_summary_fragments`
unfoldable pub extract_reasoning_summary_fragments : Value → List String
unfolding fragments_in
extract_reasoning_summary_fragments (array vs) = fragments_in vs
extract_reasoning_summary_fragments v = []
