-- ===== src/Streaming/Converter.antt =====
-- `StreamConverter` and `stream_graph_to_events` of _stream.py. A consumer that stops reads the
-- events of the chunk that it is at.
use langchain_azure.Base.{
  zero, Bool, true, false, Option, none, some, List, [], ◌∷◌, ◌++◌, String, if◌then◌else◌, ◌==◌,
  ◌&&◌, ◌||◌, not, contains, string_eq, option_eq,
}
use langchain_azure.Invocations.Values.{Value, null, bool, int, float, str, array, nil, dict, end}
use langchain_azure.Base.Integer.{pos}
use langchain_azure.Streaming.Content.{
  Schema, TextDelta, text_deltas, extract_reasoning_summary_fragments,
}
use langchain_azure.Streaming.Emitters.{Stream, checkpoint, Events, is_empty}
use langchain_azure.Streaming.Queue.{
  Key, reasoning, text, function_call, function_call_output, key_eq, Operation, reasoning_starts,
  reasoning_adds, reasoning_closes, text_starts, text_adds, text_closes, tool_call, tool_output,
  Queue, Slots, add, finish, drain,
}

-- The arguments are a text, or a value that is written as JSON.
pub record ToolCall : Type 0 where
  pub name : String
  pub call_id : String
  pub args : Value

-- An `AIMessage`, or an `AIMessageChunk`.
pub record Message : Type 0 where
  pub id : Option String
  pub content : Value
  pub is_chunk : Bool
  pub is_last : Bool
  pub tool_calls : List ToolCall

-- The messages of a node's update. The result of a tool is what `tool_output` made of it.
pub data Update : Type 0 where
  ai_message : Message → Update
  tool_message : String → Value → Update
  other_message : Update

abbrev pub or_none : Option String → Option String
or_none none = none
or_none (some s) = if s == "" then none else some s

abbrev pub any_text : List String → Bool
any_text [] = false
any_text (f ∷ fs) = not (f == "") || any_text fs

unfoldable pub discard : List Key → Key → List Key
unfolding key_eq
discard [] k = []
discard (j ∷ js) k = let rest = discard js k in if j == k then rest else j ∷ rest

-- args if isinstance(args, str) else json.dumps(args or {})
unfoldable pub arguments_of : (Value → String) → Value → String
arguments_of dumps (str s) = s
arguments_of dumps null = dumps (dict end)
arguments_of dumps (bool false) = dumps (dict end)
arguments_of dumps (int (pos zero)) = dumps (dict end)
arguments_of dumps (float zero) = dumps (dict end)
arguments_of dumps (array nil) = dumps (dict end)
arguments_of dumps v = dumps v

-- What the graph's stream yields, and whether a stop is requested before and after it is handled.
pub data Payload : Type 0 where
  messages : Option Message → Payload
  updates : List (List Update) → Payload
  checkpoints : Payload
  other_mode : Payload

pub record Chunk : Type 0 where
  pub payload : Payload
  pub stop_before : Bool
  pub stop_after : Bool

abbrev pub is_checkpoints : Payload → Bool
is_checkpoints checkpoints = true
is_checkpoints p = false

module _ (C : Schema) (B : Stream) (dumps : Value → String) where
  -- `live` are the keys of `_emitters`, in order.
  pub record Converter : Type 0 where
    pub stream : B.State
    pub outputs : Queue C B
    pub emitters : Slots C B
    pub live : List Key
    pub emitted_tool_call_ids : List String
    pub emitted_tool_output_call_ids : List String

  abbrev pub Emitted : Type 0
  Emitted = Events C B × Converter

  abbrev pub closing : Key → Operation C B
  closing (reasoning id) = reasoning_closes
  closing k = text_closes

  -- `_finish`
  unfoldable pub finish_key : Converter → Key → Converter
  unfolding discard key_eq
  finish_key c k =
      if contains c.live k
      then record c {
        live = discard c.live k;
        outputs = finish C B (add C B c.outputs k (closing k)) k;
      }
      else c

  -- `_finish_message`
  unfoldable pub finish_message : Converter → Option String → Converter
  unfolding finish_key
  finish_message c id = finish_key (finish_key c (reasoning id)) (text id)

  -- The emitter of a key, created if there is none.
  unfoldable pub ensure : Converter → Key → Operation C B → Converter
  unfolding key_eq
  ensure c k start =
      if contains c.live k
      then c
      else record c { live = c.live ++ k ∷ []; outputs = add C B c.outputs k start }

  unfoldable pub add_op : Converter → Key → Operation C B → Converter
  add_op c k op = record c { outputs = add C B c.outputs k op }

  unfoldable pub published : Converter → Events C B × B.State × Slots C B × Queue C B → Emitted
  published c (es, s, slots, q) = (es, record c { stream = s; emitters = slots; outputs = q })

  unfoldable pub publish : Converter → Emitted
  unfolding published
  publish c = published c (drain C B c.stream c.emitters c.outputs)

  unfoldable pub take_reasoning : Converter → Option String → List String → Converter
  unfolding ensure add_op key_eq string_eq
  take_reasoning c id fragments =
      if any_text fragments || (not (is_empty fragments) && contains c.live (reasoning id))
      then add_op (ensure c (reasoning id) reasoning_starts) (reasoning id)
          (reasoning_adds fragments)
      else c

  unfoldable pub take_text : Converter → Option String → List (TextDelta C) → Converter
  unfolding finish_key ensure add_op
  take_text c id [] = c
  take_text c id (d ∷ ds) =
      add_op (ensure (finish_key c (reasoning id)) (text id) text_starts) (text id)
        (text_adds (d ∷ ds))

  unfoldable pub take_message : Converter → Message → Converter
  unfolding take_reasoning take_text finish_message string_eq
  take_message c m =
      let c' =
        take_text (take_reasoning c (or_none m.id) (extract_reasoning_summary_fragments m.content))
          (or_none m.id) (text_deltas C m.content) in
      if not m.is_chunk || m.is_last then finish_message c' (or_none m.id) else c'

  -- `handle_message_chunk`, of a payload with a message
  unfoldable pub handle_message_chunk : Converter → Message → Emitted
  unfolding take_message publish
  handle_message_chunk c m = publish (take_message c m)

  unfoldable pub add_complete : Converter → Key → Operation C B → Converter
  add_complete c k op = record c { outputs = finish C B (add C B c.outputs k op) k }

  -- `_queue_tool_call`
  unfoldable pub queue_tool_call : Converter → ToolCall → Converter
  unfolding add_complete arguments_of string_eq
  queue_tool_call c t =
      if t.name == "" || (t.call_id == "" || contains c.emitted_tool_call_ids t.call_id)
      then c
      else add_complete (record c { emitted_tool_call_ids = t.call_id ∷ c.emitted_tool_call_ids })
          (function_call t.call_id) (tool_call t.name t.call_id (arguments_of dumps t.args))

  unfoldable pub queue_tool_calls : Converter → List ToolCall → Converter
  unfolding queue_tool_call
  queue_tool_calls c [] = c
  queue_tool_calls c (t ∷ ts) = queue_tool_calls (queue_tool_call c t) ts

  unfoldable pub queue_tool_output : Converter → String → Value → Converter
  unfolding add_complete string_eq
  queue_tool_output c call_id output =
      if call_id == "" || contains c.emitted_tool_output_call_ids call_id
      then c
      else add_complete
          (record c { emitted_tool_output_call_ids = call_id ∷ c.emitted_tool_output_call_ids })
          (function_call_output call_id) (tool_output call_id output)

  unfoldable pub take_update : Converter → Update → Converter
  unfolding finish_message queue_tool_calls queue_tool_output string_eq
  take_update c (ai_message m) = queue_tool_calls (finish_message c (or_none m.id)) m.tool_calls
  take_update c (tool_message call_id output) = queue_tool_output c call_id output
  take_update c other_message = c

  unfoldable pub take_updates : Converter → List Update → Converter
  unfolding take_update
  take_updates c [] = c
  take_updates c (u ∷ us) = take_updates (take_update c u) us

  -- `handle_update`, of the messages of each node
  unfoldable pub handle_update : Converter → List (List Update) → Emitted
  unfolding take_updates finish_message publish
  handle_update c [] = ([], c)
  handle_update c (us ∷ rest) =
      let (es, c') = publish (take_updates (finish_message c none) us) in
      let (es', c'') = handle_update c' rest in (es ++ es', c'')

  unfoldable pub finish_keys : Converter → List Key → Converter
  unfolding finish_key
  finish_keys c [] = c
  finish_keys c (k ∷ ks) = finish_keys (finish_key c k) ks

  -- `flush`
  unfoldable pub flush : Converter → Emitted
  unfolding finish_keys publish
  flush c = publish (finish_keys c c.live)

  unfoldable pub then_checkpoint : Emitted → Emitted
  then_checkpoint (es, c) = (es ++ checkpoint ∷ [], c)

  -- `StreamConverter.checkpoint`
  unfoldable pub take_checkpoint : Converter → Emitted
  unfolding flush then_checkpoint
  take_checkpoint c = then_checkpoint (flush c)

  unfoldable pub handle : Converter → Payload → Emitted
  unfolding handle_message_chunk handle_update take_checkpoint
  handle c (messages none) = ([], c)
  handle c (messages (some m)) = handle_message_chunk c m
  handle c (updates us) = handle_update c us
  handle c checkpoints = take_checkpoint c
  handle c other_mode = ([], c)

  -- The loop of `stream_graph_to_events`, and the flush after it.
  unfoldable pub stream_graph_to_events : Converter → List Chunk → Emitted
  unfolding handle flush
  stream_graph_to_events c [] = flush c
  stream_graph_to_events c (x ∷ xs) =
      let (es, c') = handle c x.payload in
      let (es', c'') = stream_graph_to_events c' xs in
      let (last, closed) = flush c' in
      if x.stop_before && not (is_checkpoints x.payload)
      then flush c
      else if x.stop_after
      then (es ++ last, closed)
      else (es ++ es', c'')
