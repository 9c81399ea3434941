-- ===== src/Streaming/Lines.antt =====
-- When the queue publishes item after item: what its operations must be, and what a drain leaves.
use langchain_azure.Base.{
  ℕ, Option, none, some, List, [], ◌∷◌, ◌++◌, ◌≡◌, refl, sym, ap, ◌∙◌, arith, inl, inr, ◌⊎◌,
}
use mathlib.Core.Option.{some-injective}
use langchain_azure.Streaming.Content.{Schema}
use langchain_azure.Streaming.Emitters.{Stream}
use langchain_azure.Streaming.Queue.{
  Key, reasoning, text, key_eq, Operation, reasoning_starts, reasoning_adds, reasoning_closes,
  text_starts, text_adds, text_closes, tool_call, tool_output, Emitter, idle, reasoner, texter, Ran,
  run, run_all,
}
use langchain_azure.Streaming.Brackets.{
  walk, walk-append, walk-reasoning_add, walk-reasoning_close, walk-tool_call_events,
  walk-tool_output_events, IsGrounded, text_add_lem, walk-text_close,
}

pub data Shape : Type 0 where
  nothing reasons texts : Shape

abbrev pub kind_of : Key → Shape
kind_of (reasoning id) = reasons
kind_of (text id) = texts
kind_of k = nothing

module _ (C : Schema) (B : Stream) where
  abbrev pub shape_of : Emitter C B → Shape
  shape_of idle = nothing
  shape_of (reasoner r) = reasons
  shape_of (texter m) = texts

  -- The position that an emitter has open.
  abbrev pub opens : Emitter C B → Option ℕ
  opens idle = none
  opens (reasoner r) = r.builder
  opens (texter m) = m.item

  abbrev pub Grounded : Emitter C B → Type 0
  Grounded idle = Unit
  Grounded (reasoner r) = Unit
  Grounded (texter m) = IsGrounded C B m

  abbrev pub next : Option Shape → Operation C B → Option Shape
  next (some nothing) reasoning_starts = some reasons
  next (some nothing) text_starts = some texts
  next (some nothing) (tool_call n i a) = some nothing
  next (some nothing) (tool_output i o) = some nothing
  next (some reasons) (reasoning_adds fs) = some reasons
  next (some reasons) reasoning_closes = some nothing
  next (some texts) (text_adds ds) = some texts
  next (some texts) text_closes = some nothing
  next sh op = none

  abbrev pub shapes : Option Shape → List (Operation C B) → Option Shape
  shapes sh [] = sh
  shapes sh (op ∷ ops) = shapes (next sh op) ops

  pub shapes-append :
      (sh : Option Shape) (ops ops' : List (Operation C B))
      → shapes sh (ops ++ ops') ≡ shapes (shapes sh ops) ops'
  shapes-append sh [] ops' = refl
  shapes-append sh (op ∷ ops) ops' = shapes-append (next sh op) ops ops'

  shapes-none : (ops : List (Operation C B)) → shapes none ops ≡ none
  shapes-none [] = refl
  shapes-none (op ∷ ops) = shapes-none ops

  -- An operation publishes a step of its one item, and leaves an emitter of the next shape.
  abbrev Advances : Emitter C B → Shape → Ran C B → Type 0
  Advances e sh (es, s, e') =
      (walk (some (opens e)) es ≡ some (opens e')) × (shape_of e' ≡ sh) × Grounded e'

  run_lem :
      (s : B.State) (e : Emitter C B) (op : Operation C B) (sh : Shape)
      → next (some (shape_of e)) op ≡ some sh
      → Grounded e
      → Advances e sh (run C B s e op)
  unfolding run walk
  run_lem s idle reasoning_starts sh h g = (refl, some-injective _ _ h, tt)
  run_lem s idle text_starts sh h g = (refl, some-injective _ _ h, λ e. tt)
  run_lem s idle (tool_call n i a) sh h g =
      (walk-tool_call_events C B (B.add_output_item s).1 n i a, some-injective _ _ h, tt)
  run_lem s idle (tool_output i o) sh h g =
      (walk-tool_output_events C B (B.add_output_item s).1 i o, some-injective _ _ h, tt)
  run_lem s (reasoner r) (reasoning_adds fs) sh h g =
      (walk-reasoning_add C B s r fs, some-injective _ _ h, tt)
  run_lem s (reasoner r) reasoning_closes sh h g =
      (walk-reasoning_close C B r.builder r.fragments, some-injective _ _ h, tt)
  run_lem s (texter m) (text_adds ds) sh h g =
      ((text_add_lem C B s m ds g).0, some-injective _ _ h, (text_add_lem C B s m ds g).1)
  run_lem s (texter m) text_closes sh h g = (walk-text_close C B s m g, some-injective _ _ h, tt)
  run_lem s idle (reasoning_adds fs) sh h g = absurd (ground arith)
  run_lem s idle reasoning_closes sh h g = absurd (ground arith)
  run_lem s idle (text_adds ds) sh h g = absurd (ground arith)
  run_lem s idle text_closes sh h g = absurd (ground arith)
  run_lem s (reasoner r) reasoning_starts sh h g = absurd (ground arith)
  run_lem s (reasoner r) text_starts sh h g = absurd (ground arith)
  run_lem s (reasoner r) (text_adds ds) sh h g = absurd (ground arith)
  run_lem s (reasoner r) text_closes sh h g = absurd (ground arith)
  run_lem s (reasoner r) (tool_call n i a) sh h g = absurd (ground arith)
  run_lem s (reasoner r) (tool_output i o) sh h g = absurd (ground arith)
  run_lem s (texter m) reasoning_starts sh h g = absurd (ground arith)
  run_lem s (texter m) text_starts sh h g = absurd (ground arith)
  run_lem s (texter m) (reasoning_adds fs) sh h g = absurd (ground arith)
  run_lem s (texter m) reasoning_closes sh h g = absurd (ground arith)
  run_lem s (texter m) (tool_call n i a) sh h g = absurd (ground arith)
  run_lem s (texter m) (tool_output i o) sh h g = absurd (ground arith)

  Option_split : (sh : Option Shape) → (sh ≡ none) ⊎ ((a : Shape) × (sh ≡ some a))
  Option_split none = inl refl
  Option_split (some a) = inr (a, refl)

  pub run_all_lem :
      (s : B.State) (e : Emitter C B) (ops : List (Operation C B)) (sh : Shape)
      → shapes (some (shape_of e)) ops ≡ some sh
      → Grounded e
      → Advances e sh (run_all C B s e ops)
  unfolding run_all walk
  run_all_lem s e [] sh h g = (refl, some-injective _ _ h, g)
  run_all_lem s e (op ∷ ops) sh h g = elim (Option_split (next (some (shape_of e)) op)) [
    | inl stuck ↦
        absurd (ground (arith, sym (shapes-none ops) ∙ ap (λ w. shapes w ops) (sym stuck) ∙ h))
    | inr (a, here) ↦
        let one = run C B s e op in
        let (w, sh', g') = run_lem s e op a here g in
        let (w', sh'', g'') =
          run_all_lem one.1 one.2 ops sh
            (ap (λ b. shapes (some b) ops) sh' ∙ ap (λ b. shapes b ops) (sym here) ∙ h) g' in
        (
          walk-append (some (opens e)) one.0 (run_all C B one.1 one.2 ops).0
              ∙ ap (λ w. walk w (run_all C B one.1 one.2 ops).0) w
              ∙ w',
          sh'',
          g'',
        )
  ]
