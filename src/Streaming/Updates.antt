-- ===== src/Streaming/Updates.antt =====
-- Updates of tasks: their calls and results wait in the queue, and what is published completes items.
use langchain_azure.Base.{
  ℕ, string_eq, ◌||◌, true, false, Option, none, some, List, [], ◌∷◌, ◌++◌, String, ◌≡◌, refl, ap,
  ◌∙◌, arith, ◌==◌, contains, Bool-cases, inl, inr, eq_refl,
}
use langchain_azure.Streaming.Content.{Schema}
use langchain_azure.Streaming.Emitters.{Stream}
use langchain_azure.Streaming.Queue.{
  function_call, function_call_output, key_eq, tool_call, tool_output,
}
use langchain_azure.Streaming.Brackets.{walk, walk-append}
use langchain_azure.Streaming.Converter.{
  Converter, finish_message, publish, queue_tool_call, queue_tool_calls, queue_tool_output,
  take_update, take_updates, handle_update, Update, ai_message, tool_message, other_message,
  ToolCall, or_none,
}
use langchain_azure.Streaming.Drain.{keys}
use langchain_azure.Invocations.Values.{Value}
use langchain_azure.Streaming.Turns.{Tidy, completed-Tidy, Publishes, publish-Publishes}
use langchain_azure.Streaming.Converter.{Emitted, arguments_of}
use langchain_azure.Streaming.Sequential.{finish_message-Tidy}

contains_here : (xs : List String) (a b : String) → a ≡ b → contains (b ∷ xs) a ≡ true
contains_here xs a b h = rw h (ground (arith, eq_refl b))

same_call : (a b : String) → function_call a ≡ function_call b → a ≡ b
same_call a b h = ground arith

same_result : (a b : String) → function_call_output a ≡ function_call_output b → a ≡ b
same_result a b h = ground arith

module _ (C : Schema) (B : Stream) (dumps : Value → String) where
  queue_tool_call-Tidy :
      (c : Converter C B dumps) (o : Option ℕ) (t : ToolCall)
      → Tidy C B dumps c o
      → Tidy C B dumps (queue_tool_call C B dumps c t) o
  unfolding queue_tool_call
  queue_tool_call-Tidy c o t h =
      elim (Bool-cases
        (t.name == "" || (t.call_id == "" || contains c.emitted_tool_call_ids t.call_id))) [
          | inl e ↦ rw e h
          | inr e ↦
              let unknown : contains c.emitted_tool_call_ids t.call_id ≡ false =
                ground (arith, e) in
              let fresh : contains (keys C B c.outputs) (function_call t.call_id) ≡ false =
                ground (arith, unknown, h.calls t.call_id) in
              rw e (
                completed-Tidy C B dumps
                  (record c { emitted_tool_call_ids = t.call_id ∷ c.emitted_tool_call_ids }) o
                  record {
                    orderly = h.orderly;
                    live_kinds = h.live_kinds;
                    calls = λ id n. ground (arith, h.calls id n);
                    results = h.results;
                  }
                  (function_call t.call_id) fresh
                  (tool_call t.name t.call_id (arguments_of dumps t.args)) refl
                  (λ id same.
                    contains_here c.emitted_tool_call_ids id t.call_id
                      (same_call id t.call_id same))
                  (λ id same. absurd (ground arith)))
        ]

  queue_tool_calls-Tidy :
      (c : Converter C B dumps) (o : Option ℕ) (ts : List ToolCall)
      → Tidy C B dumps c o
      → Tidy C B dumps (queue_tool_calls C B dumps c ts) o
  unfolding queue_tool_calls
  queue_tool_calls-Tidy c o [] h = h
  queue_tool_calls-Tidy c o (t ∷ ts) h =
      queue_tool_calls-Tidy (queue_tool_call C B dumps c t) o ts (queue_tool_call-Tidy c o t h)

  queue_tool_output-Tidy :
      (c : Converter C B dumps) (o : Option ℕ) (call_id : String) (output : Value)
      → Tidy C B dumps c o
      → Tidy C B dumps (queue_tool_output C B dumps c call_id output) o
  unfolding queue_tool_output
  queue_tool_output-Tidy c o call_id output h =
      elim (Bool-cases (call_id == "" || contains c.emitted_tool_output_call_ids call_id)) [
        | inl e ↦ rw e h
        | inr e ↦
            let unknown : contains c.emitted_tool_output_call_ids call_id ≡ false =
              ground (arith, e) in
            let fresh : contains (keys C B c.outputs) (function_call_output call_id) ≡ false =
              ground (arith, unknown, h.results call_id) in
            rw e (
              completed-Tidy C B dumps
                (record c {
                  emitted_tool_output_call_ids = call_id ∷ c.emitted_tool_output_call_ids;
                })
                o
                record {
                  orderly = h.orderly;
                  live_kinds = h.live_kinds;
                  calls = h.calls;
                  results = λ id n. ground (arith, h.results id n);
                }
                (function_call_output call_id) fresh (tool_output call_id output) refl
                (λ id same. absurd (ground arith))
                (λ id same.
                  contains_here c.emitted_tool_output_call_ids id call_id
                    (same_result id call_id same)))
      ]

  take_updates-Tidy :
      (c : Converter C B dumps) (o : Option ℕ) (us : List Update)
      → Tidy C B dumps c o
      → Tidy C B dumps (take_updates C B dumps c us) o
  unfolding take_updates take_update
  take_updates-Tidy c o [] h = h
  take_updates-Tidy c o (ai_message m ∷ us) h =
      take_updates-Tidy (take_update C B dumps c (ai_message m)) o us (
        queue_tool_calls-Tidy (finish_message C B dumps c (or_none m.id)) o m.tool_calls
          (finish_message-Tidy C B dumps c o (or_none m.id) h))
  take_updates-Tidy c o (tool_message call_id output ∷ us) h =
      take_updates-Tidy (queue_tool_output C B dumps c call_id output) o us
        (queue_tool_output-Tidy c o call_id output h)
  take_updates-Tidy c o (other_message ∷ us) h = take_updates-Tidy c o us h

  Publishes-then :
      (o : Option ℕ) (e e' : Emitted C B dumps)
      → Publishes C B dumps o e
      → ((o' : Option ℕ) → Tidy C B dumps e.1 o' → Publishes C B dumps o' e')
      → Publishes C B dumps o (e.0 ++ e'.0, e'.1)
  unfolding walk
  Publishes-then o (es, c) (es', c') (o', w, h) f =
      let (o'', w', h') = f o' h in
      (o'', walk-append (some o) es es' ∙ ap (λ x. walk x es') w ∙ w', h')

  pub handle_update-Publishes :
      (c : Converter C B dumps) (o : Option ℕ) (rest : List (List Update))
      → Tidy C B dumps c o
      → Publishes C B dumps o (handle_update C B dumps c rest)
  unfolding handle_update walk
  handle_update-Publishes c o [] h = (o, refl, h)
  handle_update-Publishes c o (us ∷ rest) h =
      let one = publish C B dumps (take_updates C B dumps (finish_message C B dumps c none) us) in
      Publishes-then o one (handle_update C B dumps one.1 rest)
        (publish-Publishes C B dumps _ o (
          take_updates-Tidy (finish_message C B dumps c none) o us
            (finish_message-Tidy C B dumps c o none h))).0
        (λ o' h'. handle_update-Publishes one.1 o' rest h')
