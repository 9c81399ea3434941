-- ===== src/Streaming/Examples.antt =====
-- The theorems about streams at two messages that come interleaved, and the stream that they do not
-- cover.
use langchain_azure.Base.{
  ℕ, ◌+◌, Bool, true, false, none, some, List, [], ◌∷◌, ◌++◌, String, ◌≡◌, refl, nat_eq, string_eq,
  option_eq,
}
use langchain_azure.Invocations.Values.{
  Value, int, str, array, dict, nil, cons, end, field, get, has,
}
use langchain_azure.Streaming.Content.{Schema, text_deltas, extract_reasoning_summary_fragments}
use langchain_azure.Streaming.Emitters.{Stream, Reasoning, reasoning_add, reasoning_close}
use langchain_azure.Streaming.Queue.{key_eq, drain, add, finish}
use langchain_azure.Streaming.Converter.{
  Message, Payload, messages, checkpoints, Chunk, stream_graph_to_events, handle, take_reasoning,
  finish_key,
}
use langchain_azure.Streaming.Brackets.{walk}
use langchain_azure.Streaming.Whole.{Continues, new_converter, stream_is_sequential}
use langchain_azure.Streaming.Summaries.{
  summary_deltas, summary_ends, shown_after, reasoning_close-summary,
}

abbrev same_number : Value → Value → Bool
same_number (int a) (int b) = true
same_number a b = false

abbrev schema : Schema
schema = record { Annotation = Value; validate_python = λ v. some v; same_key = same_number }

abbrev counter : Stream
counter = record { State = ℕ; add_output_item = λ n. (n + 1, n) }

abbrev dumps : Value → String
dumps v = "{}"

-- {"type": "reasoning", "summary": [{"type": "summary_text", "text": ...}]}
abbrev thought : String → Value
thought s = array (
    cons
      (dict (
        field "type" (str "reasoning")
          (field "summary" (array (cons (dict (field "text" (str s) end)) nil)) end)))
      nil)

abbrev said : String → Value → Message
said id content = record {
  id = some id;
  content = content;
  is_chunk = true;
  is_last = false;
  tool_calls = [];
}

abbrev ended : String → Message
ended id = record {
  id = some id;
  content = str "";
  is_chunk = true;
  is_last = true;
  tool_calls = [];
}

abbrev chunk : Payload → Chunk
chunk p = record { payload = p; stop_before = false; stop_after = false }

abbrev interleaved : List Chunk
interleaved =
    chunk (messages (some (said "a" (str "one"))))
    ∷ chunk (messages (some (said "b" (thought "hm"))))
    ∷ chunk (messages (some (said "b" (str "two"))))
    ∷ chunk (messages (some (said "a" (str "more"))))
    ∷ chunk (messages (some (ended "a")))
    ∷ chunk checkpoints
    ∷ []

interleaved-Continues :
    Continues schema counter dumps (new_converter schema counter dumps 0) interleaved
unfolding extract_reasoning_summary_fragments text_deltas finish_key take_reasoning new_converter
    get handle drain add has finish
interleaved-Continues = (refl, (refl, (refl, (refl, (refl, (refl, tt))))))

stream_is_sequential_example :
    (walk
        (some none)
        (stream_graph_to_events schema counter dumps
          (new_converter schema counter dumps 0)
          interleaved).0
      ≡ some none)
    × ((stream_graph_to_events schema counter dumps
          (new_converter schema counter dumps 0)
          interleaved).1.outputs
        ≡ [])
stream_is_sequential_example =
    stream_is_sequential schema counter dumps 0 interleaved interleaved-Continues

-- A message that reasons again while its first reasoning still waits.
abbrev reopened : List Chunk
reopened =
    chunk (messages (some (said "a" (str "one"))))
    ∷ chunk (messages (some (said "b" (thought "hm"))))
    ∷ chunk (messages (some (said "b" (str "two"))))
    ∷ chunk (messages (some (said "b" (thought "hm"))))
    ∷ chunk (messages (some (ended "a")))
    ∷ chunk checkpoints
    ∷ []

reopened_interleaves :
    walk
      (some none)
      (stream_graph_to_events schema counter dumps
        (new_converter schema counter dumps 0)
        reopened).0
    ≡ none
unfolding walk stream_graph_to_events drain text_deltas add extract_reasoning_summary_fragments
    new_converter has get finish nat_eq
reopened_interleaves = refl

abbrev thinking : Reasoning
thinking = record { builder = none; fragments = [] }

reasoning_close-summary_example :
    (summary_deltas (reasoning_add schema counter 0 thinking ("" ∷ "a" ∷ "" ∷ [])).0
      ≡ shown_after [] ("" ∷ "a" ∷ "" ∷ []))
    × (summary_ends (
          reasoning_close schema counter
            (reasoning_add schema counter 0 thinking ("" ∷ "a" ∷ "" ∷ [])).2.builder
            (reasoning_add schema counter 0 thinking ("" ∷ "a" ∷ "" ∷ [])).2.fragments)
        ≡ ([] ++ summary_deltas (reasoning_add schema counter 0 thinking ("" ∷ "a" ∷ "" ∷ [])).0)
          ∷ [])
unfolding reasoning_add string_eq
reasoning_close-summary_example =
    reasoning_close-summary schema counter 0 thinking ("" ∷ "a" ∷ "" ∷ []) 0 refl
