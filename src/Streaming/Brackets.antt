-- ===== src/Streaming/Brackets.antt =====
-- Each operation of an emitter is a step of one bracketed item.
use langchain_azure.Base.{
  ℕ, suc, Option, none, some, List, [], ◌∷◌, ◌++◌, String, ◌≡◌, refl, sym, ap, ◌∙◌, arith,
  if◌then◌else◌, ◌==◌, ◌&&◌, string_eq, nat_eq, is_some, eq_refl, All, Bool-cases, inl, inr,
}
use langchain_azure.Invocations.Values.{Value}
use langchain_azure.Streaming.Content.{Schema, TextDelta}
use langchain_azure.Streaming.Emitters.{
  Stream, Event, item_added, within, item_done, checkpoint, Item, Detail, Reasoning, TextPart,
  TextMessage, Events, reasoning_opened, reasoning_emit, reasoning_add_one, reasoning_add,
  reasoning_close, absorb, goes_first, count_built, message_opened, deltas, part_opened, or_zero,
  emit_part, emit_first, text_add_one, text_add, annotated, finish_part, close_parts, message_done,
  text_close, tool_call_events, tool_output_events, is_empty,
}

-- What an event does to the open item, where it is allowed: an item is added when none is open, the
-- events within an item and its completion name the open one, and a checkpoint finds none open.
unfoldable pub advance : {A : Type 0} → Option ℕ → Event A → Option (Option ℕ)
advance none (item_added i k) = some (some i)
advance none checkpoint = some none
advance (some i) (within j d) = if i == j then some (some i) else none
advance (some i) (item_done j c) = if i == j then some none else none
advance o e = none

abbrev pub advance_if : {A : Type 0} → Option (Option ℕ) → Event A → Option (Option ℕ)
advance_if none e = none
advance_if (some o) e = advance o e

-- The open item after some events, or `none` if one was not allowed.
unfoldable pub walk : {A : Type 0} → Option (Option ℕ) → List (Event A) → Option (Option ℕ)
unfolding advance
walk w [] = w
walk w (e ∷ es) = walk (advance_if w e) es

pub walk-append :
    {A : Type 0} (w : Option (Option ℕ)) (es es' : List (Event A))
    → walk w (es ++ es') ≡ walk (walk w es) es'
unfolding walk
walk-append w [] es' = refl
walk-append w (e ∷ es) es' = walk-append (advance_if w e) es es'

walk-nil : (A : Type 0) (w : Option (Option ℕ)) → walk {A = A} w [] ≡ w
unfolding walk
walk-nil A w = refl

walk-added :
    {A : Type 0} (i : ℕ) (k : Item) (es : List (Event A))
    → walk (some none) (item_added i k ∷ es) ≡ walk (some (some i)) es
unfolding walk
walk-added i k es = refl

walk-within :
    {A : Type 0} (i : ℕ) (d : Detail A) (es : List (Event A))
    → walk (some (some i)) (within i d ∷ es) ≡ walk (some (some i)) es
unfolding walk
walk-within i d es = rw (eq_refl i)

walk-done :
    {A : Type 0} (i : ℕ) (c : List (ℕ × List A)) (es : List (Event A))
    → walk (some (some i)) (item_done i c ∷ es) ≡ walk (some none) es
unfolding walk
walk-done i c es = rw (eq_refl i)

ruleset brackets = (walk-nil, walk-added, walk-within, walk-done, walk-append)

module _ (C : Schema) (B : Stream) where
  walk-deltas :
      (i c : ℕ) (fs : List String) → walk (some (some i)) (deltas C B i c fs) ≡ some (some i)
  walk-deltas i c [] = simp brackets
  walk-deltas i c (f ∷ fs) = simp (brackets, walk-deltas i c fs)

  walk-annotated :
      (i c : ℕ) (marks : List C.Annotation)
      → walk (some (some i)) (annotated C B i c marks) ≡ some (some i)
  walk-annotated i c [] = simp brackets
  walk-annotated i c (a ∷ marks) = simp (brackets, walk-annotated i c marks)

  walk-finish_part :
      (i c : ℕ) (marks : List C.Annotation)
      → walk (some (some i)) (finish_part C B i c marks) ≡ some (some i)
  unfolding finish_part
  walk-finish_part i c marks = simp (brackets, walk-annotated i c marks)

  walk-reasoning_opened :
      (s : B.State) (o : Option ℕ)
      → walk (some o) (reasoning_opened C B s o).0 ≡ some (some (reasoning_opened C B s o).2)
  unfolding reasoning_opened
  walk-reasoning_opened s none = simp brackets
  walk-reasoning_opened s (some i) = simp brackets

  walk-reasoning_emit :
      (r : Reasoning) (delta : String) (p : Events C B × B.State × ℕ) (o : Option ℕ)
      → walk (some o) p.0 ≡ some (some p.2)
      → walk (some o) (reasoning_emit C B r delta p).0
        ≡ some (reasoning_emit C B r delta p).2.builder
  unfolding reasoning_emit
  walk-reasoning_emit r delta (es, s, i) o h = simp (brackets, h)

  walk-reasoning_add_one :
      (s : B.State) (r : Reasoning) (f : String)
      → walk (some r.builder) (reasoning_add_one C B s r f).0
        ≡ some (reasoning_add_one C B s r f).2.builder
  unfolding reasoning_add_one
  walk-reasoning_add_one s r f = elim (Bool-cases (f == "" && is_empty r.fragments)) [
    | inl e ↦ rw e (walk-nil _ (some r.builder))
    | inr e ↦ rw e (
        walk-reasoning_emit r (if f == "" then "\n" else f) (reasoning_opened C B s r.builder)
          r.builder (walk-reasoning_opened s r.builder))
  ]

  pub walk-reasoning_add :
      (s : B.State) (r : Reasoning) (fs : List String)
      → walk (some r.builder) (reasoning_add C B s r fs).0
        ≡ some (reasoning_add C B s r fs).2.builder
  unfolding reasoning_add
  walk-reasoning_add s r [] = walk-nil _ (some r.builder)
  walk-reasoning_add s r (f ∷ fs) =
      let one = reasoning_add_one C B s r f in
      walk-append (some r.builder) one.0 (reasoning_add C B one.1 one.2 fs).0
      ∙ ap (λ w. walk w (reasoning_add C B one.1 one.2 fs).0) (walk-reasoning_add_one s r f)
      ∙ walk-reasoning_add one.1 one.2 fs

  pub walk-reasoning_close :
      (o : Option ℕ) (fs : List String) → walk (some o) (reasoning_close C B o fs) ≡ some none
  unfolding reasoning_close
  walk-reasoning_close none fs = simp brackets
  walk-reasoning_close (some i) fs = simp brackets

  pub walk-tool_call_events :
      (i : ℕ) (name call_id arguments : String)
      → walk (some none) (tool_call_events C B i name call_id arguments) ≡ some none
  unfolding tool_call_events
  walk-tool_call_events i name call_id arguments = elim (Bool-cases (arguments == "")) [
    | inl e ↦ rw e (simp brackets)
    | inr e ↦ rw e (simp brackets)
  ]

  pub walk-tool_output_events :
      (i : ℕ) (call_id : String) (output : Value)
      → walk (some none) (tool_output_events C B i call_id output) ≡ some none
  unfolding tool_output_events
  walk-tool_output_events i call_id output = simp brackets

  -- No part has a builder before the message has its position.
  abbrev pub IsGrounded : TextMessage C B → Type 0
  IsGrounded m = m.item ≡ none → All (λ (p : TextPart C B). p.builder ≡ none) m.parts

  walk-message_opened :
      (s : B.State) (o : Option ℕ)
      → walk (some o) (message_opened C B s o).0 ≡ some (some (message_opened C B s o).2)
  unfolding message_opened
  walk-message_opened s none = simp brackets
  walk-message_opened s (some i) = simp brackets

  walk-part_opened :
      (s : B.State) (item : Option ℕ) (n : ℕ) (b : Option ℕ)
      → (item ≡ none → b ≡ none)
      → (i : ℕ) × ((part_opened C B s item n b).2 ≡ some i)
        × (walk (some item) (part_opened C B s item n b).0 ≡ some (some i))
  unfolding part_opened
  walk-part_opened s none n (some c) h = absurd (ground (arith, h refl))
  walk-part_opened s (some i) n (some c) h = (i, refl, simp brackets)
  walk-part_opened s item n none h =
      ((message_opened C B s item).2, refl, simp (brackets, walk-message_opened s item))

  walk-emit_part :
      (s : B.State) (item : Option ℕ) (n : ℕ) (p : TextPart C B)
      → (item ≡ none → p.builder ≡ none)
      → (i : ℕ) × ((emit_part C B s item n p).2 ≡ some i)
        × (walk (some item) (emit_part C B s item n p).0 ≡ some (some i))
  unfolding emit_part
  walk-emit_part s item n p h =
      let (i, here, w) = walk-part_opened s item n p.builder h in
      (i, here, simp (brackets, here, w, walk-deltas))

  absorb-builders :
      (ps : List (TextPart C B)) (d : TextDelta C)
      → All (λ (p : TextPart C B). p.builder ≡ none) ps
      → All (λ (p : TextPart C B). p.builder ≡ none) (absorb C B ps d)
  unfolding absorb
  absorb-builders [] d h = (refl, tt)
  absorb-builders (p ∷ ps) d (q, h) = ground (arith, absorb-builders ps d h)

  emit_first_lem :
      (s : B.State) (item : Option ℕ) (ps : List (TextPart C B))
      → IsGrounded record { item = item; parts = ps }
      → (walk (some item) (emit_first C B s item ps).0 ≡ some (emit_first C B s item ps).2.item)
        × IsGrounded (emit_first C B s item ps).2
  unfolding emit_first
  emit_first_lem s item [] g = (walk-nil _ (some item), λ _. tt)
  emit_first_lem s item (p ∷ ps) g =
      let (i, here, w) = walk-emit_part s item (count_built C B (p ∷ ps)) p (λ e. (g e).0) in
      (w ∙ ap some (sym here), λ e. absurd (ground (arith, here, e)))

  text_add_one_lem :
      (s : B.State) (m : TextMessage C B) (d : TextDelta C)
      → IsGrounded m
      → (walk (some m.item) (text_add_one C B s m d).0 ≡ some (text_add_one C B s m d).2.item)
        × IsGrounded (text_add_one C B s m d).2
  unfolding text_add_one
  text_add_one_lem s m d g = elim (Bool-cases (goes_first C B m.parts d)) [
    | inl e ↦
        rw e (emit_first_lem s m.item (absorb C B m.parts d) (λ n. absorb-builders m.parts d (g n)))
    | inr e ↦ rw e (walk-nil _ (some m.item), λ n. absorb-builders m.parts d (g n))
  ]

  pub text_add_lem :
      (s : B.State) (m : TextMessage C B) (ds : List (TextDelta C))
      → IsGrounded m
      → (walk (some m.item) (text_add C B s m ds).0 ≡ some (text_add C B s m ds).2.item)
        × IsGrounded (text_add C B s m ds).2
  unfolding text_add
  text_add_lem s m [] g = (walk-nil _ (some m.item), g)
  text_add_lem s m (d ∷ ds) g =
      let one = text_add_one C B s m d in
      let (w, g') = text_add_one_lem s m d g in
      let (w', g'') = text_add_lem one.1 one.2 ds g' in
      (
        walk-append (some m.item) one.0 (text_add C B one.1 one.2 ds).0
            ∙ ap (λ w. walk w (text_add C B one.1 one.2 ds).0) w
            ∙ w',
        g'',
      )

  finish_part-opened :
      (item : Option ℕ) (i c : ℕ) (marks : List C.Annotation)
      → item ≡ some i
      → walk (some (some i)) (finish_part C B (or_zero C B item) c marks) ≡ some item
  finish_part-opened item i c marks h = rw h (walk-finish_part i c marks)

  close_parts_lem :
      (s : B.State) (item : Option ℕ) (n : ℕ) (ps : List (TextPart C B))
      → IsGrounded record { item = item; parts = ps }
      → walk (some item) (close_parts C B s item n ps).0 ≡ some (close_parts C B s item n ps).2
  unfolding close_parts
  close_parts_lem s item n [] g = walk-nil _ (some item)
  close_parts_lem s item n (p ∷ ps) g =
      let part = emit_part C B s item n p in
      let (i, here, w) = walk-emit_part s item n p (λ e. (g e).0) in
      let fin = finish_part C B (or_zero C B part.2) (or_zero C B part.3.builder) p.annotations in
      let rest = close_parts C B part.1 part.2 (if is_some p.builder then n else suc n) ps in
      walk-append (some item) (part.0 ++ fin) rest.0
      ∙ ap (λ w. walk w rest.0)
          (walk-append (some item) part.0 fin
            ∙ ap (λ w. walk w fin) w
            ∙ finish_part-opened part.2 i (or_zero C B part.3.builder) p.annotations here)
      ∙ close_parts_lem part.1 part.2 (if is_some p.builder then n else suc n) ps
          (λ e. absurd (ground (arith, here, e)))

  walk-message_done :
      (item : Option ℕ) (content : List (ℕ × List C.Annotation))
      → walk (some item) (message_done C B item content) ≡ some none
  walk-message_done none content = simp brackets
  walk-message_done (some i) content = simp brackets

  pub walk-text_close :
      (s : B.State) (m : TextMessage C B)
      → IsGrounded m
      → walk (some m.item) (text_close C B s m).0 ≡ some none
  unfolding text_close
  walk-text_close s m g =
      let closed = close_parts C B s m.item (count_built C B m.parts) m.parts in
      walk-append (some m.item) closed.0 (message_done C B closed.2 closed.3)
      ∙ ap (λ w. walk w (message_done C B closed.2 closed.3))
          (close_parts_lem s m.item (count_built C B m.parts) m.parts g)
      ∙ walk-message_done closed.2 closed.3
