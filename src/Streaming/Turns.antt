-- ===== src/Streaming/Turns.antt =====
-- What each step of the converter keeps of an orderly queue.
use langchain_azure.Base.{
  ℕ, string_eq, Bool, true, false, Option, some, [], ◌∷◌, ◌++◌, String, ◌≡◌, ◌≢◌, refl, sym, ap,
  ◌∙◌, arith, if◌then◌else◌, ◌==◌, contains, Bool-cases, inl, inr, subst, eq_refl, eq_sound,
}
use langchain_azure.Streaming.Content.{Schema}
use langchain_azure.Streaming.Emitters.{Stream, Events}
use langchain_azure.Streaming.Queue.{
  Key, reasoning, text, function_call, function_call_output, key_eq, Operation, run_all, Queue,
  Slots, set, add, finish, drain,
}
use langchain_azure.Streaming.Brackets.{walk}
use langchain_azure.Streaming.Lines.{Shape, nothing, kind_of, shape_of, next}
use langchain_azure.Streaming.Converter.{
  Converter, discard, closing, finish_key, add_op, publish, published, add_complete,
}
use langchain_azure.Streaming.Drain.{keys, Orderly}
use langchain_azure.Streaming.Edits.{
  contains-discard, contains-snoc, keys-add, keys-finish, Line-live, started, add-new, keys-snoc,
  Line-snoc, add-Line, close-Line,
}
use langchain_azure.Streaming.Drain.{opens-nothing, drain-Drained, IsWaiting}
use langchain_azure.Invocations.Values.{Value}

module _ (C : Schema) (B : Stream) where
  drain-keys :
      (s : B.State) (slots : Slots C B) (q : Queue C B) (j : Key)
      → contains (keys C B (drain C B s slots q).3) j ≡ true
      → contains (keys C B q) j ≡ true
  unfolding drain
  drain-keys s slots [] j h = h
  drain-keys s slots (p ∷ q) j h = elim (Bool-cases p.finished) [
    | inl e ↦ ground (
      arith,
      e,
      drain-keys (run_all C B s (slots p.key) p.operations).1
          (set C B slots p.key (run_all C B s (slots p.key) p.operations).2) q j,
    )
    | inr e ↦ ground (arith, e, h)
  ]

  finish-snoc :
      (q : Queue C B) (k : Key) (op : Operation C B)
      → contains (keys C B q) k ≡ false
      → finish C B (q ++ started C B k op false ∷ []) k ≡ q ++ started C B k op true ∷ []
  unfolding finish
  finish-snoc [] k op h = ground (arith, eq_refl k)
  finish-snoc (p ∷ q) k op h = ground (arith, finish-snoc q k op)

  closes :
      (dumps : Value → String) (k : Key)
      → kind_of k ≢ nothing
      → next C B (some (kind_of k)) (closing C B dumps k) ≡ some nothing
  closes dumps (reasoning id) h = refl
  closes dumps (text id) h = refl
  closes dumps (function_call id) h = absurd (h refl)
  closes dumps (function_call_output id) h = absurd (h refl)

module _ (C : Schema) (B : Stream) (dumps : Value → String) where
  -- The queue is orderly with the position `o` open, its emitters can be found, and a tool call or
  -- result in it is known.
  pub record Tidy (c : Converter C B dumps) (o : Option ℕ) : Type 0 where
    pub orderly : Orderly C B c.emitters c.live o c.outputs
    pub live_kinds : (k : Key) → contains c.live k ≡ true → kind_of k ≢ nothing
    pub calls :
        (id : String)
        → contains (keys C B c.outputs) (function_call id) ≡ true
        → contains c.emitted_tool_call_ids id ≡ true
    pub results :
        (id : String)
        → contains (keys C B c.outputs) (function_call_output id) ≡ true
        → contains c.emitted_tool_output_call_ids id ≡ true

  module _ (c : Converter C B dumps) (o : Option ℕ) (h : Tidy c o) (k : Key) where
    known : contains c.live k ≡ true → contains (keys C B c.outputs) k ≡ true
    known here = elim (Bool-cases (contains (keys C B c.outputs) k)) [
      | inl e ↦ e
      | inr e ↦ absurd (ground (arith, here, (h.orderly.away k e).1))
    ]

    pub add_op-Tidy :
        (op : Operation C B)
        → contains c.live k ≡ true
        → next C B (some (kind_of k)) op ≡ some (kind_of k)
        → Tidy (add_op C B dumps c k op) o
    unfolding add_op
    add_op-Tidy op here keeps =
        let in_queue = known here in
        let same = λ (j : Key) (e : contains (keys C B (add C B c.outputs k op)) j ≡ true).
          let e' = sym (keys-add C B c.outputs k op j) ∙ e in
          let e'' : contains (keys C B c.outputs) j ≡ true =
            ground (arith, e', in_queue, eq_sound j k) in
          e'' in
        record {
          orderly = record {
            line =
                add-Line C B c.emitters c.live o c.outputs k op here keeps in_queue h.orderly.line;
            grounded = h.orderly.grounded;
            away =
                λ j e. h.orderly.away j (ground (arith, sym (keys-add C B c.outputs k op j) ∙ e));
          };
          live_kinds = h.live_kinds;
          calls = λ id e. h.calls id (same (function_call id) e);
          results = λ id e. h.results id (same (function_call_output id) e);
        }

    finished_key-Tidy :
        contains c.live k ≡ true
        → Tidy
            (record c {
              live = discard c.live k;
              outputs = finish C B (add C B c.outputs k (closing C B dumps k)) k;
            })
            o
    finished_key-Tidy here =
        let in_queue = known here in
        let op = closing C B dumps k in
        let keys' = λ (j : Key).
          ap (λ ks. contains ks j) (keys-finish C B (add C B c.outputs k op) k)
          ∙ keys-add C B c.outputs k op j in
        let same =
          λ (j : Key) (e : contains (keys C B (finish C B (add C B c.outputs k op) k)) j ≡ true).
            let e' : contains (keys C B c.outputs) j ≡ true =
              ground (arith, sym (keys' j) ∙ e, in_queue, eq_sound j k) in
            e' in
        record {
          orderly = record {
            line =
                close-Line C B c.emitters c.live o c.outputs k op here
                  (closes C B dumps k (h.live_kinds k here)) in_queue h.orderly.line;
            grounded = h.orderly.grounded;
            away = λ j e.
                let off : (j == k) ≡ false = ground (arith, sym (keys' j) ∙ e) in
                let (sh, dead) = h.orderly.away j (ground (arith, sym (keys' j) ∙ e)) in
                (sh, contains-discard c.live k j ∙ ground (arith, off, dead));
          };
          live_kinds =
              λ j e. h.live_kinds j (ground (arith, sym (contains-discard c.live k j) ∙ e));
          calls = λ id e. h.calls id (same (function_call id) e);
          results = λ id e. h.results id (same (function_call_output id) e);
        }

    pub finish_key-Tidy : Tidy (finish_key C B dumps c k) o
    unfolding finish_key
    finish_key-Tidy = elim (Bool-cases (contains c.live k)) [
      | inr e ↦ rw e h
      | inl here ↦ rw here (finished_key-Tidy here)
    ]

    module _ (fresh : contains (keys C B c.outputs) k ≡ false) (op : Operation C B) where
      new_keys :
          (fin : Bool) (j : Key)
          → contains (keys C B (c.outputs ++ started C B k op fin ∷ [])) j
            ≡ (if j == k then true else contains (keys C B c.outputs) j)
      new_keys fin j =
          ap (λ ks. contains ks j) (keys-snoc C B c.outputs (started C B k op fin))
          ∙ contains-snoc (keys C B c.outputs) k j

      new_shape :
          (sh : Shape)
          → next C B (some nothing) op ≡ some sh
          → next C B (some (shape_of C B (c.emitters k))) op ≡ some sh
      new_shape sh e = ap (λ x. next C B (some x) op) (h.orderly.away k fresh).0 ∙ e

      other_key :
          (fin : Bool) (j : Key)
          → kind_of k ≢ nothing
          → kind_of j ≡ nothing
          → contains (keys C B (c.outputs ++ started C B k op fin ∷ [])) j ≡ true
          → contains (keys C B c.outputs) j ≡ true
      other_key fin j kind plain e = elim (Bool-cases (j == k)) [
        | inl same ↦ absurd (kind (ap kind_of (sym (eq_sound j k same)) ∙ plain))
        | inr off ↦ ground (arith, sym (new_keys fin j) ∙ e, off)
      ]

      pub created-Tidy :
          kind_of k ≢ nothing
          → next C B (some nothing) op ≡ some (kind_of k)
          → Tidy
              (record c {
                live = c.live ++ k ∷ [];
                outputs = c.outputs ++ started C B k op false ∷ [];
              })
              o
      created-Tidy kind starts = record {
        orderly = record {
          line =
              Line-snoc C B c.emitters (c.live ++ k ∷ []) o c.outputs (started C B k op false)
                (Line-live C B c.emitters c.live (c.live ++ k ∷ []) o c.outputs
                  (λ j e. contains-snoc c.live k j ∙ ground (arith, e, fresh, eq_sound j k))
                  h.orderly.line)
                record {
                  opened = opens-nothing C B (c.emitters k) (h.orderly.away k fresh).0;
                  shaped = new_shape (kind_of k) starts;
                  alive = contains-snoc c.live k k ∙ ground (arith, eq_refl k);
                }
                fresh;
          grounded = h.orderly.grounded;
          away = λ j e.
              let off : (j == k) ≡ false = ground (arith, sym (new_keys false j) ∙ e) in
              let (sh, dead) = h.orderly.away j (ground (arith, sym (new_keys false j) ∙ e)) in
              (sh, contains-snoc c.live k j ∙ ground (arith, off, dead));
        };
        live_kinds = λ j e.
            let e' = sym (contains-snoc c.live k j) ∙ e in
            elim (Bool-cases (j == k)) [
              | inl same ↦ subst (λ i. kind_of i ≢ nothing) (sym (eq_sound j k same)) kind
              | inr off ↦ h.live_kinds j (ground (arith, e', off))
            ];
        calls = λ id e. h.calls id (other_key false (function_call id) kind refl e);
        results = λ id e. h.results id (other_key false (function_call_output id) kind refl e);
      }

      -- A tool call or result is complete at once.
      pub completed-Tidy :
          next C B (some nothing) op ≡ some nothing
          → ((id : String) → function_call id ≡ k → contains c.emitted_tool_call_ids id ≡ true)
          → ((id : String)
              → function_call_output id ≡ k
              → contains c.emitted_tool_output_call_ids id ≡ true)
          → Tidy (add_complete C B dumps c k op) o
      unfolding add_complete
      completed-Tidy starts called resulted =
          subst (λ q. Tidy (record c { outputs = q }) o)
            (sym (
              ap (λ q. finish C B q k) (add-new C B c.outputs k op fresh)
              ∙ finish-snoc C B c.outputs k op fresh))
            record {
              orderly = record {
                line =
                    Line-snoc C B c.emitters c.live o c.outputs (started C B k op true)
                      h.orderly.line
                      record {
                        opened = opens-nothing C B (c.emitters k) (h.orderly.away k fresh).0;
                        shaped = new_shape nothing starts;
                        alive = (h.orderly.away k fresh).1;
                      }
                      fresh;
                grounded = h.orderly.grounded;
                away = λ j e. h.orderly.away j (ground (arith, sym (new_keys true j) ∙ e));
              };
              live_kinds = h.live_kinds;
              calls = λ id e. elim (Bool-cases (function_call id == k)) [
                | inl same ↦ called id (eq_sound (function_call id) k same)
                | inr off ↦
                    h.calls id (ground (arith, sym (new_keys true (function_call id)) ∙ e, off))
              ];
              results = λ id e. elim (Bool-cases (function_call_output id == k)) [
                | inl same ↦ resulted id (eq_sound (function_call_output id) k same)
                | inr off ↦
                    h.results id
                      (ground (arith, sym (new_keys true (function_call_output id)) ∙ e, off))
              ];
            }

  -- The events continue the open position, and the converter is tidy again.
  abbrev pub Publishes : Option ℕ → Events C B × Converter C B dumps → Type 0
  Publishes o (es, c) = (o' : Option ℕ) × (walk (some o) es ≡ some o') × Tidy c o'

  pub publish-Publishes :
      (c : Converter C B dumps) (o : Option ℕ)
      → Tidy c o
      → Publishes o (publish C B dumps c) × IsWaiting C B (publish C B dumps c).1.outputs
  unfolding publish published
  publish-Publishes c o h =
      let (o', w, orderly, waiting) =
        drain-Drained C B c.stream c.emitters c.live o c.outputs h.orderly in
      (
        (
          o',
          w,
          record {
            orderly = orderly;
            live_kinds = h.live_kinds;
            calls = λ id e.
                h.calls id (drain-keys C B c.stream c.emitters c.outputs (function_call id) e);
            results = λ id e.
                h.results id
                  (drain-keys C B c.stream c.emitters c.outputs (function_call_output id) e);
          },
        ),
        waiting,
      )
