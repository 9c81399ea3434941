-- ===== src/Streaming/Sequential.antt =====
-- Every chunk, and so the whole stream, is published item after item.
use langchain_azure.Base.{
  ℕ, string_eq, ◌||◌, ◌&&◌, Bool, true, false, Option, some, List, [], ◌∷◌, String, ◌≡◌, ◌≢◌, refl,
  ◌∙◌, arith, if◌then◌else◌, not, contains, Bool-cases, inl, inr, eq_refl,
}
use langchain_azure.Streaming.Content.{Schema, TextDelta}
use langchain_azure.Streaming.Emitters.{Stream}
use langchain_azure.Streaming.Queue.{
  Key, reasoning, text, key_eq, Operation, reasoning_starts, reasoning_adds, text_starts, text_adds,
}
use langchain_azure.Streaming.Lines.{nothing, kind_of, next}
use langchain_azure.Streaming.Converter.{
  Converter, finish_key, finish_message, ensure, take_reasoning, take_text, take_message, Message,
  or_none, any_text,
}
use langchain_azure.Streaming.Drain.{keys}
use langchain_azure.Streaming.Edits.{contains-snoc, add-new}
use langchain_azure.Streaming.Content.{text_deltas, extract_reasoning_summary_fragments}
use langchain_azure.Invocations.Values.{Value}
use langchain_azure.Streaming.Turns.{Tidy, add_op-Tidy, finish_key-Tidy, created-Tidy}
use langchain_azure.Streaming.Emitters.{is_empty}

module _ (C : Schema) (B : Stream) (dumps : Value → String) where
  ensure-Tidy :
      (c : Converter C B dumps) (o : Option ℕ) (k : Key) (start : Operation C B)
      → Tidy C B dumps c o
      → kind_of k ≢ nothing
      → next C B (some nothing) start ≡ some (kind_of k)
      → (contains c.live k || not (contains (keys C B c.outputs) k)) ≡ true
      → Tidy C B dumps (ensure C B dumps c k start) o
        × (contains (ensure C B dumps c k start).live k ≡ true)
  unfolding ensure
  ensure-Tidy c o k start h kind starts unseen = elim (Bool-cases (contains c.live k)) [
    | inl here ↦ rw here (h, here)
    | inr off ↦
        let fresh : contains (keys C B c.outputs) k ≡ false = ground (arith, off, unseen) in
        rw (off, add-new C B c.outputs k start fresh)
          (
            created-Tidy C B dumps c o h k fresh start kind starts,
            contains-snoc c.live k k ∙ ground (arith, eq_refl k),
          )
  ]

  -- No emitter is created for a key that is still in the queue.
  abbrev pub unseen : Converter C B dumps → Key → Bool
  unseen c k = contains c.live k || not (contains (keys C B c.outputs) k)

  abbrev pub reasoning_unseen : Converter C B dumps → Option String → List String → Bool
  reasoning_unseen c id fragments =
      if any_text fragments || (not (is_empty fragments) && contains c.live (reasoning id))
      then unseen c (reasoning id)
      else true

  abbrev pub text_unseen : Converter C B dumps → Option String → List (TextDelta C) → Bool
  text_unseen c id [] = true
  text_unseen c id (d ∷ ds) = unseen (finish_key C B dumps c (reasoning id)) (text id)

  take_reasoning-Tidy :
      (c : Converter C B dumps) (o : Option ℕ) (id : Option String) (fragments : List String)
      → Tidy C B dumps c o
      → reasoning_unseen c id fragments ≡ true
      → Tidy C B dumps (take_reasoning C B dumps c id fragments) o
  unfolding take_reasoning
  take_reasoning-Tidy c o id fragments h ok =
      elim (Bool-cases
        (any_text fragments || (not (is_empty fragments) && contains c.live (reasoning id)))) [
          | inl e ↦
              let (h', here) =
                ensure-Tidy c o (reasoning id) reasoning_starts h (λ p. absurd (ground arith)) refl
                  (ground (arith, e, ok)) in
              rw e (
                add_op-Tidy C B dumps (ensure C B dumps c (reasoning id) reasoning_starts) o h'
                  (reasoning id) (reasoning_adds fragments) here refl)
          | inr e ↦ rw e h
        ]

  take_text-Tidy :
      (c : Converter C B dumps) (o : Option ℕ) (id : Option String) (ds : List (TextDelta C))
      → Tidy C B dumps c o
      → text_unseen c id ds ≡ true
      → Tidy C B dumps (take_text C B dumps c id ds) o
  unfolding take_text
  take_text-Tidy c o id [] h ok = h
  take_text-Tidy c o id (d ∷ ds) h ok =
      let c' = finish_key C B dumps c (reasoning id) in
      let (h', here) =
        ensure-Tidy c' o (text id) text_starts (finish_key-Tidy C B dumps c o h (reasoning id))
          (λ p. absurd (ground arith)) refl ok in
      add_op-Tidy C B dumps (ensure C B dumps c' (text id) text_starts) o h' (text id)
        (text_adds (d ∷ ds)) here refl

  pub finish_message-Tidy :
      (c : Converter C B dumps) (o : Option ℕ) (id : Option String)
      → Tidy C B dumps c o
      → Tidy C B dumps (finish_message C B dumps c id) o
  unfolding finish_message
  finish_message-Tidy c o id h =
      finish_key-Tidy C B dumps (finish_key C B dumps c (reasoning id)) o
        (finish_key-Tidy C B dumps c o h (reasoning id)) (text id)

  -- The message goes on with its own items, or with ones that are not queued.
  abbrev pub continues : Converter C B dumps → Message → Bool
  continues c m =
      reasoning_unseen c (or_none m.id) (extract_reasoning_summary_fragments m.content)
      && text_unseen
          (take_reasoning C B dumps c (or_none m.id)
            (extract_reasoning_summary_fragments m.content))
          (or_none m.id) (text_deltas C m.content)

  pub take_message-Tidy :
      (c : Converter C B dumps) (o : Option ℕ) (m : Message)
      → Tidy C B dumps c o
      → continues c m ≡ true
      → Tidy C B dumps (take_message C B dumps c m) o
  unfolding take_message
  take_message-Tidy c o m h ok =
      let id = or_none m.id in
      let fragments = extract_reasoning_summary_fragments m.content in
      let c' = take_reasoning C B dumps c id fragments in
      let h' = take_reasoning-Tidy c o id fragments h (ground (arith, ok)) in
      let h'' = take_text-Tidy c' o id (text_deltas C m.content) h' (ground (arith, ok)) in
      elim (Bool-cases (not m.is_chunk || m.is_last)) [
        | inl e ↦
            rw e
              (finish_message-Tidy (take_text C B dumps c' id (text_deltas C m.content)) o id h'')
        | inr e ↦ rw e h''
      ]
