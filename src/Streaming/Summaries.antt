-- ===== src/Streaming/Summaries.antt =====
-- The text of a reasoning item: `_ReasoningEmitter` from its fragments to the end of its summary.
use langchain_azure.Base.{
  ℕ, Bool, true, false, if◌then◌else◌, map, Option, none, some, List, [], ◌∷◌, ◌++◌, String, ◌≡◌,
  refl, sym, ap, ◌∙◌, ◌==◌, ◌&&◌, string_eq, Bool-cases, inl, inr,
}
use mathlib.Core.List.{append-nil, append_assoc}
use langchain_azure.Streaming.Content.{Schema}
use langchain_azure.Streaming.Emitters.{
  Stream, Event, within, summary_delta, summary_text_done, Reasoning, reasoning_opened,
  reasoning_emit, reasoning_add_one, reasoning_add, reasoning_close, is_empty, Detail,
}

abbrev pub detail_delta : {A : Type 0} → Detail A → List String
detail_delta (summary_delta f) = f ∷ []
detail_delta d = []

abbrev pub event_delta : {A : Type 0} → Event A → List String
event_delta (within i d) = detail_delta d
event_delta e = []

-- The summary's fragments among some events.
abbrev pub summary_deltas : {A : Type 0} → List (Event A) → List String
summary_deltas [] = []
summary_deltas (e ∷ es) = event_delta e ++ summary_deltas es

abbrev pub detail_end : {A : Type 0} → Detail A → List (List String)
detail_end (summary_text_done fragments) = fragments ∷ []
detail_end d = []

abbrev pub event_end : {A : Type 0} → Event A → List (List String)
event_end (within i d) = detail_end d
event_end e = []

-- The fragments of each end of a summary among some events.
abbrev pub summary_ends : {A : Type 0} → List (Event A) → List (List String)
summary_ends [] = []
summary_ends (e ∷ es) = event_end e ++ summary_ends es

-- What a summary shows of further fragments: an empty one is a line break, but none comes first.
abbrev pub as_line : String → String
as_line f = if f == "" then "\n" else f

abbrev pub drop_empty : List String → List String
drop_empty [] = []
drop_empty (f ∷ fs) = let rest = drop_empty fs in if f == "" then rest else f ∷ fs

abbrev pub shown_after : List String → List String → List String
shown_after [] fs = map as_line (drop_empty fs)
shown_after (x ∷ xs) fs = map as_line fs

shown_after-none : (xs : List String) → [] ≡ shown_after xs []
shown_after-none [] = refl
shown_after-none (x ∷ xs) = refl

shown_after-add :
    (xs : List String) (x : String) (fs : List String)
    → shown_after (xs ++ x ∷ []) fs ≡ map as_line fs
shown_after-add [] x fs = refl
shown_after-add (y ∷ xs) x fs = refl

and_true : (a : Bool) {b : Bool} → (a && true) ≡ b → a ≡ b
and_true true h = h
and_true false h = h

and_false : (a : Bool) → ¬ ((a && false) ≡ true)
and_false true h = cc
and_false false h = cc

shown_after-line :
    (xs : List String) (f : String) (fs : List String)
    → (f == "" && is_empty xs) ≡ false
    → shown_after xs (f ∷ fs) ≡ as_line f ∷ map as_line fs
shown_after-line [] f fs h =
    ap (λ b. map as_line (if b then drop_empty fs else f ∷ fs)) (and_true (f == "") h)
shown_after-line (x ∷ xs) f fs h = refl

shown_after-skip :
    (xs : List String) (f : String) (fs : List String)
    → (f == "" && is_empty xs) ≡ true
    → shown_after xs (f ∷ fs) ≡ shown_after xs fs
shown_after-skip [] f fs h =
    ap (λ b. map as_line (if b then drop_empty fs else f ∷ fs)) (and_true (f == "") h)
shown_after-skip (x ∷ xs) f fs h = absurd (and_false (f == "") h)

summary_deltas-append :
    {A : Type 0} (es es' : List (Event A))
    → summary_deltas (es ++ es') ≡ summary_deltas es ++ summary_deltas es'
summary_deltas-append [] es' = refl
summary_deltas-append (e ∷ es) es' =
    ap (λ x. event_delta e ++ x) (summary_deltas-append es es')
    ∙ sym (append_assoc (event_delta e) (summary_deltas es) (summary_deltas es'))

module _ (C : Schema) (B : Stream) where
  opened_silently : (s : B.State) (o : Option ℕ) → summary_deltas (reasoning_opened C B s o).0 ≡ []
  unfolding reasoning_opened
  opened_silently s none = refl
  opened_silently s (some i) = refl

  add_one-fragments :
      (s : B.State) (r : Reasoning) (f : String)
      → (reasoning_add_one C B s r f).2.fragments
        ≡ r.fragments ++ summary_deltas (reasoning_add_one C B s r f).0
  unfolding reasoning_add_one reasoning_emit
  add_one-fragments s r f = elim (Bool-cases (f == "" && is_empty r.fragments)) [
    | inl e ↦ rw e (sym (append-nil r.fragments))
    | inr e ↦ rw (
      e,
      summary_deltas-append (reasoning_opened C B s r.builder).0 (within _ _ ∷ []),
      opened_silently s r.builder,
    )
  ]

  add_one-shown :
      (s : B.State) (r : Reasoning) (f : String) (fs : List String)
      → summary_deltas (reasoning_add_one C B s r f).0
          ++ shown_after (reasoning_add_one C B s r f).2.fragments fs
        ≡ shown_after r.fragments (f ∷ fs)
  unfolding reasoning_add_one reasoning_emit
  add_one-shown s r f fs = elim (Bool-cases (f == "" && is_empty r.fragments)) [
    | inl e ↦ rw e (sym (shown_after-skip r.fragments f fs e))
    | inr e ↦
        rw
          (
            e,
            summary_deltas-append (reasoning_opened C B s r.builder).0 (within _ _ ∷ []),
            opened_silently s r.builder,
            shown_after-add r.fragments (as_line f) fs,
            shown_after-line r.fragments f fs e,
          )
          refl
  ]

  reasoning_add-shown :
      (s : B.State) (r : Reasoning) (fs : List String)
      → summary_deltas (reasoning_add C B s r fs).0 ≡ shown_after r.fragments fs
  unfolding reasoning_add
  reasoning_add-shown s r [] = shown_after-none r.fragments
  reasoning_add-shown s r (f ∷ fs) =
      let one = reasoning_add_one C B s r f in
      let rest = reasoning_add C B one.1 one.2 fs in
      summary_deltas-append one.0 rest.0
      ∙ ap (λ x. summary_deltas one.0 ++ x) (reasoning_add-shown one.1 one.2 fs)
      ∙ add_one-shown s r f fs

  reasoning_add-fragments :
      (s : B.State) (r : Reasoning) (fs : List String)
      → (reasoning_add C B s r fs).2.fragments
        ≡ r.fragments ++ summary_deltas (reasoning_add C B s r fs).0
  unfolding reasoning_add
  reasoning_add-fragments s r [] = sym (append-nil r.fragments)
  reasoning_add-fragments s r (f ∷ fs) =
      let one = reasoning_add_one C B s r f in
      let rest = reasoning_add C B one.1 one.2 fs in
      reasoning_add-fragments one.1 one.2 fs
      ∙ ap (λ x. x ++ summary_deltas rest.0) (add_one-fragments s r f)
      ∙ append_assoc r.fragments (summary_deltas one.0) (summary_deltas rest.0)
      ∙ ap (λ x. r.fragments ++ x) (sym (summary_deltas-append one.0 rest.0))

  -- Further fragments are streamed as deltas in order, an empty one as a line break, but the empty
  -- ones before the first text of the emitter not at all. When the emitter, with an item, is closed
  -- after that, its summary ends once, with the fragments that it had before and these deltas, in
  -- order.
  pub reasoning_close-summary :
      (s : B.State) (r : Reasoning) (fs : List String) (i : ℕ)
      → (reasoning_add C B s r fs).2.builder ≡ some i
      → (summary_deltas (reasoning_add C B s r fs).0 ≡ shown_after r.fragments fs)
        × (summary_ends (
              reasoning_close C B
                (reasoning_add C B s r fs).2.builder
                (reasoning_add C B s r fs).2.fragments)
            ≡ (r.fragments ++ summary_deltas (reasoning_add C B s r fs).0) ∷ [])
  unfolding reasoning_close
  reasoning_close-summary s r fs i h =
      (reasoning_add-shown s r fs, rw h (ap (λ x. x ∷ []) (reasoning_add-fragments s r fs)))
