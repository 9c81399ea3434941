-- ===== src/Streaming/Drain.antt =====
-- A drain of an orderly queue publishes whole items, up to one that is still open.
use langchain_azure.Base.{
  ℕ, true, false, Option, none, some, List, [], ◌∷◌, ◌++◌, ◌≡◌, ◌≢◌, refl, sym, ap, ◌∙◌, arith,
  if◌then◌else◌, not, contains, Bool-cases, inl, inr, subst, eq_refl, eq_false,
}
use langchain_azure.Streaming.Content.{Schema}
use langchain_azure.Streaming.Emitters.{Stream, Events}
use langchain_azure.Streaming.Queue.{
  Key, key_eq, Emitter, idle, reasoner, texter, run_all, Pending, Queue, Slots, set, drain,
}
use langchain_azure.Streaming.Brackets.{walk, walk-append}
use langchain_azure.Streaming.Lines.{
  nothing, kind_of, shape_of, opens, Grounded, shapes, run_all_lem,
}

module _ (C : Schema) (B : Stream) where
  abbrev pub keys : Queue C B → List Key
  keys [] = []
  keys (p ∷ q) = p.key ∷ keys q

  -- An item that has the position `o` open: its operations leave it idle when it is finished, else
  -- with an emitter of its kind, which can still be found.
  pub record Ready (slots : Slots C B) (live : List Key) (o : Option ℕ) (p : Pending C B)
      : Type 0 where
    pub opened : opens C B (slots p.key) ≡ o
    pub shaped :
        shapes C B (some (shape_of C B (slots p.key))) p.operations
        ≡ some (if p.finished then nothing else kind_of p.key)
    pub alive : contains live p.key ≡ not p.finished

  -- Only the first item has published anything yet.
  abbrev pub Line : Slots C B → List Key → Option ℕ → Queue C B → Type 0
  Line slots live o [] = o ≡ none
  Line slots live o (p ∷ q) =
      Ready slots live o p × Line slots live none q × (contains (keys q) p.key ≡ false)

  pub record Orderly (slots : Slots C B) (live : List Key) (o : Option ℕ) (q : Queue C B)
      : Type 0 where
    pub line : Line slots live o q
    pub grounded : (k : Key) → Grounded C B (slots k)
    pub away :
        (k : Key)
        → contains (keys q) k ≡ false
        → (shape_of C B (slots k) ≡ nothing) × (contains live k ≡ false)

  abbrev pub IsWaiting : Queue C B → Type 0
  IsWaiting [] = Unit
  IsWaiting (p ∷ q) = p.finished ≡ false

  pub Line-slots :
      (slots slots' : Slots C B) (live : List Key) (o : Option ℕ) (q : Queue C B)
      → ((k : Key) → contains (keys q) k ≡ true → slots' k ≡ slots k)
      → Line slots live o q
      → Line slots' live o q
  Line-slots slots slots' live o [] same h = h
  Line-slots slots slots' live o (p ∷ q) same (r, rest, new) = (
    record {
      opened = rw (same p.key (ground (arith, eq_refl p.key))) r.opened;
      shaped = rw (same p.key (ground (arith, eq_refl p.key))) r.shaped;
      alive = r.alive;
    },
    Line-slots slots slots' live none q (λ k h. same k (ground arith)) rest,
    new,
  )

  pub opens-nothing : (e : Emitter C B) → shape_of C B e ≡ nothing → opens C B e ≡ none
  opens-nothing idle h = refl
  opens-nothing (reasoner r) h = absurd (ground arith)
  opens-nothing (texter m) h = absurd (ground arith)

  set-other :
      (slots : Slots C B) (k j : Key) (e : Emitter C B) → j ≢ k → set C B slots k e j ≡ slots j
  set-other slots k j e n = rw (eq_false j k n)

  set-same : (slots : Slots C B) (k : Key) (e : Emitter C B) → set C B slots k e k ≡ e
  set-same slots k e = rw (eq_refl k)

  set-Grounded :
      (slots : Slots C B) (k : Key) (e : Emitter C B)
      → ((j : Key) → Grounded C B (slots j))
      → Grounded C B e
      → (j : Key) → Grounded C B (set C B slots k e j)
  set-Grounded slots k e all g j = elim (key_eq.dec j k) [
    | yes same ↦
        subst (λ (x : Emitter C B). Grounded C B x)
          (sym (ap (λ j. set C B slots k e j) same ∙ set-same slots k e)) g
    | no other ↦
        subst (λ (x : Emitter C B). Grounded C B x) (sym (set-other slots k j e other)) (all j)
  ]

  module _ (slots : Slots C B) (live : List Key) (o : Option ℕ) (p : Pending C B) (q : Queue C B)
      (h : Orderly slots live o (p ∷ q)) (e : Emitter C B) (g : Grounded C B e) where
    others_kept : (k : Key) → contains (keys q) k ≡ true → set C B slots p.key e k ≡ slots k
    others_kept k here =
        set-other slots p.key k e
          (λ same. absurd (ground (arith, h.line.2, sym here ∙ ap (λ j. contains (keys q) j) same)))

    away_after :
        (k : Key)
        → contains (keys q) k ≡ false
        → k ≢ p.key
        → (shape_of C B (set C B slots p.key e k) ≡ nothing) × (contains live k ≡ false)
    away_after k n other =
        let (idle_before, dead) = h.away k (ground (arith, eq_false k p.key other)) in
        (ap (shape_of C B) (set-other slots p.key k e other) ∙ idle_before, dead)

    pub published-Orderly :
        p.finished ≡ true
        → shape_of C B e ≡ (if p.finished then nothing else kind_of p.key)
        → (opens C B e ≡ none) × Orderly (set C B slots p.key e) live none q
    published-Orderly done sh =
        let quiet : shape_of C B e ≡ nothing = ground (arith, sh, done) in
        (
          opens-nothing e quiet,
          record {
            line = Line-slots slots (set C B slots p.key e) live none q others_kept h.line.1;
            grounded = set-Grounded slots p.key e h.grounded g;
            away = λ k n. elim (key_eq.dec k p.key) [
              | yes same ↦ (
                ap (λ j. shape_of C B (set C B slots p.key e j)) same
                    ∙ ap (shape_of C B) (set-same slots p.key e)
                    ∙ quiet,
                ap (λ j. contains live j) same ∙ ground (arith, h.line.0.alive, done),
              )
              | no other ↦ away_after k n other
            ];
          },
        )

    pub waiting-Orderly :
        p.finished ≡ false
        → shape_of C B e ≡ (if p.finished then nothing else kind_of p.key)
        → Orderly (set C B slots p.key e) live (opens C B e) (record p { operations = [] } ∷ q)
    waiting-Orderly waits sh = record {
      line = (
        record {
          opened = ap (opens C B) (set-same slots p.key e);
          shaped = ap (λ x. some (shape_of C B x)) (set-same slots p.key e) ∙ ap some sh;
          alive = h.line.0.alive;
        },
        Line-slots slots (set C B slots p.key e) live none q others_kept h.line.1,
        h.line.2,
      );
      grounded = set-Grounded slots p.key e h.grounded g;
      away = λ k n.
          away_after k (ground (arith, n)) (λ same. absurd (ground (arith, n, eq_refl k, same)));
    }

  -- What a drain leaves: the events continue the open position, and the rest is orderly again.
  abbrev pub Drained : List Key → Option ℕ → Events C B × B.State × Slots C B × Queue C B → Type 0
  Drained live o (es, s, slots, q) =
      (o' : Option ℕ) × (walk (some o) es ≡ some o') × Orderly slots live o' q × IsWaiting q

  pub drain-Drained :
      (s : B.State) (slots : Slots C B) (live : List Key) (o : Option ℕ) (q : Queue C B)
      → Orderly slots live o q
      → Drained live o (drain C B s slots q)
  unfolding drain walk
  drain-Drained s slots live o [] h = (o, refl, h, tt)
  drain-Drained s slots live o (p ∷ q) h =
      let head = run_all C B s (slots p.key) p.operations in
      let rest = drain C B head.1 (set C B slots p.key head.2) q in
      let (w, sh, g) =
        run_all_lem C B s (slots p.key) p.operations (if p.finished then nothing else kind_of p.key)
          h.line.0.shaped (h.grounded p.key) in
      let w' = ap (λ x. walk (some x) head.0) (sym h.line.0.opened) ∙ w in
      elim (Bool-cases p.finished) [
        | inl done ↦
            let (shut, orderly) = published-Orderly slots live o p q h head.2 g done sh in
            let (o', w'', rest_orderly, waiting) =
              drain-Drained head.1 (set C B slots p.key head.2) live none q orderly in
            subst
              (λ b. Drained live o (
                if b then (head.0 ++ rest.0, rest.1, rest.2, rest.3) else (
                  head.0,
                  head.1,
                  set C B slots p.key head.2,
                  record p { operations = [] } ∷ q,
                )))
              (sym done)
              (
                o',
                walk-append (some o) head.0 rest.0
                    ∙ ap (λ x. walk x rest.0) (w' ∙ ap some shut)
                    ∙ w'',
                rest_orderly,
                waiting,
              )
        | inr waits ↦
            subst
              (λ b. Drained live o (
                if b then (head.0 ++ rest.0, rest.1, rest.2, rest.3) else (
                  head.0,
                  head.1,
                  set C B slots p.key head.2,
                  record p { operations = [] } ∷ q,
                )))
              (sym waits)
              (opens C B head.2, w', waiting-Orderly slots live o p q h head.2 g waits sh, waits)
      ]
