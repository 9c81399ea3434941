-- ===== src/Streaming/Queue.antt =====
-- `_OutputQueue` of _stream.py, with the emitters that its operations run.
use langchain_azure.Base.{
  ℕ, Bool, true, false, Option, none, List, [], ◌∷◌, ◌++◌, String, if◌then◌else◌, ◌==◌, Eq,
  string_eq, option_eq,
}
use langchain_azure.Invocations.Values.{Value}
use langchain_azure.Streaming.Content.{Schema, TextDelta}
use langchain_azure.Streaming.Emitters.{
  Stream, Reasoning, TextMessage, Events, reasoning_add, reasoning_close, text_add, text_close,
  tool_call_events, tool_output_events,
}

-- The keys of the queue: ("reasoning", id), ("text", id), ("function_call", id) and
-- ("function_call_output", id).
pub data Key : Type 0 where
  reasoning : Option String → Key
  text : Option String → Key
  function_call : String → Key
  function_call_output : String → Key

Key-discrete : Discrete Key
Key-discrete = hlevel string_eq.dec

instance unfoldable pub key_eq : Eq Key
unfolding Key-discrete
key_eq = record { dec = Key-discrete }

module _ (C : Schema) (B : Stream) where
  -- A generator that waits in the queue. An emitter is created by the first operation that runs on
  -- it; nothing sees it before.
  pub data Operation : Type 0 where
    reasoning_starts : Operation
    reasoning_adds : List String → Operation
    reasoning_closes : Operation
    text_starts : Operation
    text_adds : List (TextDelta C) → Operation
    text_closes : Operation
    tool_call : String → String → String → Operation
    tool_output : String → Value → Operation

  pub data Emitter : Type 0 where
    idle : Emitter
    reasoner : Reasoning → Emitter
    texter : TextMessage C B → Emitter

  abbrev pub Ran : Type 0
  Ran = Events C B × B.State × Emitter

  abbrev pub positioned : (ℕ → Events C B) → B.State × ℕ → Ran
  positioned f (s, i) = (f i, s, idle)

  abbrev pub as_reasoner : Events C B × B.State × Reasoning → Ran
  as_reasoner (es, s, r) = (es, s, reasoner r)

  abbrev pub as_texter : Events C B × B.State × TextMessage C B → Ran
  as_texter (es, s, m) = (es, s, texter m)

  abbrev pub as_idle : Events C B × B.State → Ran
  as_idle (es, s) = (es, s, idle)

  -- What a generator yields. An emitter is used no more once it is closed; an operation of the
  -- wrong kind does not occur.
  unfoldable pub run : B.State → Emitter → Operation → Ran
  unfolding reasoning_add reasoning_close text_add text_close
  run s e reasoning_starts = ([], s, reasoner record { builder = none; fragments = [] })
  run s e text_starts = ([], s, texter record { item = none; parts = [] })
  run s (reasoner r) (reasoning_adds fs) = as_reasoner (reasoning_add C B s r fs)
  run s (reasoner r) reasoning_closes = (reasoning_close C B r.builder r.fragments, s, idle)
  run s (texter m) (text_adds ds) = as_texter (text_add C B s m ds)
  run s (texter m) text_closes = as_idle (text_close C B s m)
  run s e (tool_call name call_id arguments) =
      positioned (λ i. tool_call_events C B i name call_id arguments) (B.add_output_item s)
  run s e (tool_output call_id output) =
      positioned (λ i. tool_output_events C B i call_id output) (B.add_output_item s)
  run s e op = ([], s, e)

  unfoldable pub run_all : B.State → Emitter → List Operation → Ran
  unfolding run
  run_all s e [] = ([], s, e)
  run_all s e (op ∷ ops) =
      let (es, s', e') = run s e op in
      let (es', s'', e'') = run_all s' e' ops in (es ++ es', s'', e'')

  -- `_PendingOutput`, under its key
  pub record Pending : Type 0 where
    pub key : Key
    pub operations : List Operation
    pub finished : Bool

  abbrev pub Queue : Type 0
  Queue = List Pending

  -- `_OutputQueue.add`
  unfoldable pub add : Queue → Key → Operation → Queue
  unfolding key_eq
  add [] k op = record { key = k; operations = op ∷ []; finished = false } ∷ []
  add (p ∷ q) k op =
      let rest = add q k op in
      if p.key == k then record p { operations = p.operations ++ op ∷ [] } ∷ q else p ∷ rest

  -- `_OutputQueue.finish`
  unfoldable pub finish : Queue → Key → Queue
  unfolding key_eq
  finish [] k = []
  finish (p ∷ q) k =
      let rest = finish q k in if p.key == k then record p { finished = true } ∷ q else p ∷ rest

  abbrev pub Slots : Type 0
  Slots = Key → Emitter

  abbrev pub set : Slots → Key → Emitter → Slots
  set slots k e j = if j == k then e else slots j

  -- `_OutputQueue.drain`, read to its end
  unfoldable pub drain : B.State → Slots → Queue → Events C B × B.State × Slots × Queue
  unfolding run_all
  drain s slots [] = ([], s, slots, [])
  drain s slots (p ∷ q) =
      let (es, s', e) = run_all s (slots p.key) p.operations in
      let (es', s'', slots', q') = drain s' (set slots p.key e) q in
      if p.finished
      then (es ++ es', s'', slots', q')
      else (es, s', set slots p.key e, record p { operations = [] } ∷ q)
