-- ===== src/Streaming/Edits.antt =====
-- What adding an operation, finishing an item and starting one do to an orderly queue.
use langchain_azure.Base.{
  ℕ, Bool, true, false, Option, none, some, List, [], ◌∷◌, ◌++◌, ◌≡◌, refl, sym, ap, ◌∙◌, arith,
  if◌then◌else◌, ◌==◌, contains, Bool-cases, inl, inr, eq_refl, eq_sound,
}
use langchain_azure.Streaming.Content.{Schema}
use langchain_azure.Streaming.Emitters.{Stream}
use langchain_azure.Streaming.Queue.{Key, key_eq, Operation, Pending, Queue, Slots, add, finish}
use langchain_azure.Streaming.Lines.{nothing, kind_of, shape_of, next, shapes, shapes-append}
use langchain_azure.Streaming.Converter.{discard}
use langchain_azure.Streaming.Drain.{keys, Ready, Line}

pub contains-discard :
    (ks : List Key) (k j : Key)
    → contains (discard ks k) j ≡ (if j == k then false else contains ks j)
unfolding discard
contains-discard [] k j = ground arith
contains-discard (i ∷ ks) k j = ground (arith, contains-discard ks k j)

pub contains-snoc :
    (ks : List Key) (k j : Key)
    → contains (ks ++ k ∷ []) j ≡ (if j == k then true else contains ks j)
contains-snoc [] k j = ground arith
contains-snoc (i ∷ ks) k j = ground (arith, contains-snoc ks k j)

module _ (C : Schema) (B : Stream) where
  pub keys-add :
      (q : Queue C B) (k : Key) (op : Operation C B) (j : Key)
      → contains (keys C B (add C B q k op)) j ≡ (if j == k then true else contains (keys C B q) j)
  unfolding add
  keys-add [] k op j = ground arith
  keys-add (p ∷ q) k op j = ground (arith, keys-add q k op j)

  pub keys-finish : (q : Queue C B) (k : Key) → keys C B (finish C B q k) ≡ keys C B q
  unfolding finish
  keys-finish [] k = refl
  keys-finish (p ∷ q) k = ground (arith, keys-finish q k)

  pub Line-live :
      (slots : Slots C B) (live live' : List Key) (o : Option ℕ) (q : Queue C B)
      → ((k : Key) → contains (keys C B q) k ≡ true → contains live' k ≡ contains live k)
      → Line C B slots live o q
      → Line C B slots live' o q
  Line-live slots live live' o [] same h = h
  Line-live slots live live' o (p ∷ q) same (r, rest, new) = (
    record {
      opened = r.opened;
      shaped = r.shaped;
      alive = same p.key (ground (arith, eq_refl p.key)) ∙ r.alive;
    },
    Line-live slots live live' none q (λ k h. same k (ground arith)) rest,
    new,
  )

  -- A new item at the end.
  abbrev pub started : Key → Operation C B → Bool → Pending C B
  started k op fin = record { key = k; operations = op ∷ []; finished = fin }

  pub add-new :
      (q : Queue C B) (k : Key) (op : Operation C B)
      → contains (keys C B q) k ≡ false
      → add C B q k op ≡ q ++ started k op false ∷ []
  unfolding add
  add-new [] k op h = refl
  add-new (p ∷ q) k op h = ground (arith, add-new q k op)

  pub keys-snoc :
      (q : Queue C B) (p : Pending C B) → keys C B (q ++ p ∷ []) ≡ keys C B q ++ p.key ∷ []
  keys-snoc [] p = refl
  keys-snoc (a ∷ q) p = ap (λ ks. a.key ∷ ks) (keys-snoc q p)

  pub Line-snoc :
      (slots : Slots C B) (live : List Key) (o : Option ℕ) (q : Queue C B) (p : Pending C B)
      → Line C B slots live o q
      → Ready C B slots live none p
      → contains (keys C B q) p.key ≡ false
      → Line C B slots live o (q ++ p ∷ [])
  Line-snoc slots live o [] p h r new = (rw h r, refl, refl)
  Line-snoc slots live o (a ∷ q) p (ra, rest, newa) r new = (
    ra,
    Line-snoc slots live none q p rest r (ground arith),
    ap (λ ks. contains ks a.key) (keys-snoc q p)
        ∙ contains-snoc (keys C B q) p.key a.key
        ∙ ground arith,
  )

  module _ (slots : Slots C B) (live : List Key) (o : Option ℕ) (p : Pending C B) (k : Key)
      (op : Operation C B) (r : Ready C B slots live o p) (same : p.key ≡ k)
      (here : contains live k ≡ true) where
    unfinished : p.finished ≡ false
    unfinished = ground (arith, sym r.alive ∙ ap (λ j. contains live j) same ∙ here)

    shapes-grown :
        shapes C B (some (shape_of C B (slots p.key))) (p.operations ++ op ∷ [])
        ≡ next C B (some (kind_of k)) op
    shapes-grown =
        shapes-append C B (some (shape_of C B (slots p.key))) p.operations (op ∷ [])
        ∙ ap (λ w. next C B w op)
            (r.shaped
              ∙ ap (λ b. some (if b then nothing else kind_of p.key)) unfinished
              ∙ ap (λ j. some (kind_of j)) same)

    Ready-add :
        next C B (some (kind_of k)) op ≡ some (kind_of k)
        → Ready C B slots live o (record p { operations = p.operations ++ op ∷ [] })
    Ready-add keeps = record {
      opened = r.opened;
      shaped =
          shapes-grown
          ∙ keeps
          ∙ ap (λ j. some (kind_of j)) (sym same)
          ∙ ap (λ b. some (if b then nothing else kind_of p.key)) (sym unfinished);
      alive = r.alive;
    }

    Ready-finish :
        next C B (some (kind_of k)) op ≡ some nothing
        → Ready C B slots
            (discard live k)
            o
            (record p { operations = p.operations ++ op ∷ []; finished = true })
    Ready-finish closes = record {
      opened = r.opened;
      shaped = shapes-grown ∙ closes;
      alive =
          ap (λ j. contains (discard live k) j) same
          ∙ contains-discard live k k
          ∙ ground (arith, eq_refl k);
    }

  -- An operation for an item that is still open.
  pub add-Line :
      (slots : Slots C B) (live : List Key) (o : Option ℕ) (q : Queue C B) (k : Key)
      (op : Operation C B)
      → contains live k ≡ true
      → next C B (some (kind_of k)) op ≡ some (kind_of k)
      → contains (keys C B q) k ≡ true
      → Line C B slots live o q
      → Line C B slots live o (add C B q k op)
  unfolding add
  add-Line slots live o [] k op here keeps known h = absurd (ground arith)
  add-Line slots live o (p ∷ q) k op here keeps known (r, rest, new) =
      elim (Bool-cases (p.key == k)) [
        | inl e ↦ rw e (Ready-add slots live o p k op r (eq_sound p.key k e) here keeps, rest, new)
        | inr e ↦ rw e (
          r,
          add-Line slots live none q k op here keeps (ground (arith, e, known)) rest,
          keys-add q k op p.key ∙ ground (arith, e, new),
        )
      ]

  -- The last operation of an item that is still open.
  pub close-Line :
      (slots : Slots C B) (live : List Key) (o : Option ℕ) (q : Queue C B) (k : Key)
      (op : Operation C B)
      → contains live k ≡ true
      → next C B (some (kind_of k)) op ≡ some nothing
      → contains (keys C B q) k ≡ true
      → Line C B slots live o q
      → Line C B slots (discard live k) o (finish C B (add C B q k op) k)
  unfolding add finish
  close-Line slots live o [] k op here closes known h = absurd (ground arith)
  close-Line slots live o (p ∷ q) k op here closes known (r, rest, new) =
      elim (Bool-cases (p.key == k)) [
        | inl e ↦
            rw (e, e)
              (
                Ready-finish slots live o p k op r (eq_sound p.key k e) here closes,
                Line-live slots live (discard live k) none q
                    (λ j n.
                      contains-discard live k j
                      ∙ ground (arith, n, new, e, eq_sound p.key k e, eq_sound j k))
                    rest,
                new,
              )
        | inr e ↦
            rw (e, e)
              (
                record {
                  opened = r.opened;
                  shaped = r.shaped;
                  alive = contains-discard live k p.key ∙ rw e r.alive;
                },
                close-Line slots live none q k op here closes (ground (arith, e, known)) rest,
                ap (λ ks. contains ks p.key) (keys-finish (add C B q k op) k)
                    ∙ keys-add q k op p.key
                    ∙ ground (arith, e, new),
              )
      ]
