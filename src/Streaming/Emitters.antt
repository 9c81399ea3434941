-- ===== src/Streaming/Emitters.antt =====
-- The emitters of output items: `_ReasoningEmitter` of _stream.py, `_TextMessageEmitter` of _text.py,
-- and the generators of tool calls and their results. An event is the builder call that makes it. A
-- generator runs to its end before another one of its item starts, and it reserves its output
-- position before its first event, so that it is one function here.
use langchain_azure.Base.{
  ℕ, suc, ◌+◌, Bool, true, false, Option, none, some, List, [], ◌∷◌, ◌++◌, String, if◌then◌else◌,
  ◌==◌, ◌&&◌, string_eq, is_some,
}
use langchain_azure.Invocations.Values.{Value}
use langchain_azure.Streaming.Content.{Schema, Index, given, TextDelta}

-- The stream of the Responses SDK: a position is reserved for each output item.
pub record Stream : Type 1 where
  pub State : Type 0
  pub add_output_item : State → State × ℕ

pub data Item : Type 0 where
  message : Item
  reasoning_item : Item
  function_call : String → String → Item
  function_call_output : String → Value → Item

-- Calls of the builders of one item. A list of fragments stands for their concatenation.
pub data Detail (A : Type 0) : Type 0 where
  summary_part_added : Detail A
  summary_delta : String → Detail A
  summary_text_done : List String → Detail A
  summary_part_done : Detail A
  part_added : ℕ → Detail A
  part_delta : ℕ → String → Detail A
  part_text_done : ℕ → Detail A
  annotation_added : ℕ → A → Detail A
  part_done : ℕ → List A → Detail A
  arguments_delta : String → Detail A
  arguments_done : String → Detail A

-- The item's position comes first; a completed message lists its parts with their annotations.
pub data Event (A : Type 0) : Type 0 where
  item_added : ℕ → Item → Event A
  within : ℕ → Detail A → Event A
  item_done : ℕ → List (ℕ × List A) → Event A
  checkpoint : Event A

abbrev pub is_empty {ℓ} : {A : Type ℓ} → List A → Bool
is_empty [] = true
is_empty (x ∷ xs) = false

pub record Reasoning : Type 0 where
  pub builder : Option ℕ
  pub fragments : List String

module _ (C : Schema) (B : Stream) where
  -- `_TextPart`, under its key
  pub record TextPart : Type 0 where
    pub key : Index
    pub builder : Option ℕ
    pub fragments : List String
    pub annotations : List C.Annotation

  pub record TextMessage : Type 0 where
    pub item : Option ℕ
    pub parts : List TextPart

  abbrev pub Events : Type 0
  Events = List (Event C.Annotation)

  unfoldable pub reasoning_opened : B.State → Option ℕ → Events × B.State × ℕ
  reasoning_opened s (some i) = ([], s, i)
  reasoning_opened s none =
      let (s', i) = B.add_output_item s in
      (item_added i reasoning_item ∷ within i summary_part_added ∷ [], s', i)

  unfoldable pub reasoning_emit :
      Reasoning → String → Events × B.State × ℕ → Events × B.State × Reasoning
  reasoning_emit r delta (es, s, i) = (
    es ++ within i (summary_delta delta) ∷ [],
    s,
    record { builder = some i; fragments = r.fragments ++ delta ∷ [] },
  )

  -- one round of the loop of `_ReasoningEmitter.add`
  unfoldable pub reasoning_add_one : B.State → Reasoning → String → Events × B.State × Reasoning
  unfolding reasoning_opened reasoning_emit string_eq
  reasoning_add_one s r fragment =
      if fragment == "" && is_empty r.fragments
      then ([], s, r)
      else reasoning_emit r (if fragment == "" then "\n" else fragment)
          (reasoning_opened s r.builder)

  unfoldable pub reasoning_add : B.State → Reasoning → List String → Events × B.State × Reasoning
  unfolding reasoning_add_one
  reasoning_add s r [] = ([], s, r)
  reasoning_add s r (f ∷ fs) =
      let (es, s', r') = reasoning_add_one s r f in
      let (es', s'', r'') = reasoning_add s' r' fs in (es ++ es', s'', r'')

  -- `_ReasoningEmitter.close`
  unfoldable pub reasoning_close : Option ℕ → List String → Events
  reasoning_close none fragments = []
  reasoning_close (some i) fragments =
      within i (summary_text_done fragments) ∷ within i summary_part_done ∷ item_done i [] ∷ []

  abbrev pub same_index : Index → Index → Bool
  same_index (given a) (given b) = C.same_key a b
  same_index i j = false

  abbrev pub fragment_of : String → List String
  fragment_of s = if s == "" then [] else s ∷ []

  abbrev pub grown : TextPart → TextDelta C → TextPart
  grown p d = record p {
    fragments = p.fragments ++ fragment_of d.content;
    annotations = p.annotations ++ d.annotations;
  }

  -- self._parts.setdefault(delta.index, _TextPart()), with the delta taken in
  unfoldable pub absorb : List TextPart → TextDelta C → List TextPart
  unfolding string_eq
  absorb [] d =
      record {
        key = d.index;
        builder = none;
        fragments = fragment_of d.content;
        annotations = d.annotations;
      }
      ∷ []
  absorb (p ∷ ps) d =
      let rest = absorb ps d in if same_index p.key d.index then grown p d ∷ ps else p ∷ rest

  -- part is next(iter(self._parts.values()))
  abbrev pub goes_first : List TextPart → TextDelta C → Bool
  goes_first [] d = true
  goes_first (p ∷ ps) d = same_index p.key d.index

  abbrev pub built : Option ℕ → ℕ
  built none = 0
  built (some i) = 1

  abbrev pub count_built : List TextPart → ℕ
  count_built [] = 0
  count_built (p ∷ ps) = built p.builder + count_built ps

  unfoldable pub message_opened : B.State → Option ℕ → Events × B.State × ℕ
  message_opened s (some i) = ([], s, i)
  message_opened s none = let (s', i) = B.add_output_item s in (item_added i message ∷ [], s', i)

  abbrev pub deltas : ℕ → ℕ → List String → Events
  deltas i c [] = []
  deltas i c (f ∷ fs) = within i (part_delta c f) ∷ deltas i c fs

  -- What a part needs before its fragments: the events, the item's position and the part's number.
  unfoldable pub part_opened : B.State → Option ℕ → ℕ → Option ℕ → Events × B.State × Option ℕ × ℕ
  unfolding message_opened
  part_opened s item count (some c) = ([], s, item, c)
  part_opened s item count none =
      let (es, s', i) = message_opened s item in
      (es ++ within i (part_added count) ∷ [], s', some i, count)

  abbrev pub or_zero : Option ℕ → ℕ
  or_zero none = 0
  or_zero (some i) = i

  -- `_emit_part`
  unfoldable pub emit_part :
      B.State → Option ℕ → ℕ → TextPart → Events × B.State × Option ℕ × TextPart
  unfolding part_opened
  emit_part s item count p =
      let (es, s', item', c) = part_opened s item count p.builder in
      (
        es ++ deltas (or_zero item') c p.fragments,
        s',
        item',
        record p { builder = some c; fragments = [] },
      )

  unfoldable pub emit_first : B.State → Option ℕ → List TextPart → Events × B.State × TextMessage
  unfolding emit_part
  emit_first s item [] = ([], s, record { item = item; parts = [] })
  emit_first s item (p ∷ ps) =
      let (es, s', item', p') = emit_part s item (count_built (p ∷ ps)) p in
      (es, s', record { item = item'; parts = p' ∷ ps })

  unfoldable pub text_add_one : B.State → TextMessage → TextDelta C → Events × B.State × TextMessage
  unfolding absorb emit_first
  text_add_one s m d =
      if goes_first m.parts d
      then emit_first s m.item (absorb m.parts d)
      else ([], s, record m { parts = absorb m.parts d })

  -- `_TextMessageEmitter.add`
  unfoldable pub text_add :
      B.State → TextMessage → List (TextDelta C) → Events × B.State × TextMessage
  unfolding text_add_one
  text_add s m [] = ([], s, m)
  text_add s m (d ∷ ds) =
      let (es, s', m') = text_add_one s m d in
      let (es', s'', m'') = text_add s' m' ds in (es ++ es', s'', m'')

  abbrev pub annotated : ℕ → ℕ → List C.Annotation → Events
  annotated i c [] = []
  annotated i c (a ∷ more) = within i (annotation_added c a) ∷ annotated i c more

  unfoldable pub finish_part : ℕ → ℕ → List C.Annotation → Events
  finish_part i c marks =
      within i (part_text_done c) ∷ annotated i c marks ++ within i (part_done c marks) ∷ []

  -- The loop of `close`; `count` is the number of parts with a builder.
  unfoldable pub close_parts :
      B.State
      → Option ℕ
      → ℕ
      → List TextPart
      → Events × B.State × Option ℕ × List (ℕ × List C.Annotation)
  unfolding emit_part finish_part
  close_parts s item count [] = ([], s, item, [])
  close_parts s item count (p ∷ ps) =
      let (es, s', item', p') = emit_part s item count p in
      let (es', s'', item'', content) =
        close_parts s' item' (if is_some p.builder then count else suc count) ps in
      (
        es ++ finish_part (or_zero item') (or_zero p'.builder) p.annotations ++ es',
        s'',
        item'',
        (or_zero p'.builder, p.annotations) ∷ content,
      )

  abbrev pub message_done : Option ℕ → List (ℕ × List C.Annotation) → Events
  message_done none content = []
  message_done (some i) content = item_done i content ∷ []

  -- `_TextMessageEmitter.close`
  unfoldable pub text_close : B.State → TextMessage → Events × B.State
  unfolding close_parts
  text_close s m =
      let (es, s', item, content) = close_parts s m.item (count_built m.parts) m.parts in
      (es ++ message_done item content, s')

  -- `_tool_call_events`
  unfoldable pub tool_call_events : ℕ → String → String → String → Events
  unfolding string_eq
  tool_call_events i name call_id arguments =
      item_added i (function_call name call_id)
      ∷ ((if arguments == "" then [] else within i (arguments_delta arguments) ∷ [])
          ++ within i (arguments_done arguments) ∷ item_done i [] ∷ [])

  -- `_tool_output_events`
  unfoldable pub tool_output_events : ℕ → String → Value → Events
  tool_output_events i call_id output =
      item_added i (function_call_output call_id output) ∷ item_done i [] ∷ []
