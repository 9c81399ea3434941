-- ===== src/Streaming/Whole.antt =====
-- The whole stream: every chunk, stops and the last flush.
use langchain_azure.Base.{
  ℕ, string_eq, ◌&&◌, Bool, true, false, Option, none, some, List, [], ◌∷◌, ◌++◌, String, ◌≡◌, refl,
  ap, ◌∙◌, arith, if◌then◌else◌, ◌==◌, not, contains, Bool-cases, inl, inr, subst, eq_sound,
}
use langchain_azure.Streaming.Content.{Schema}
use langchain_azure.Streaming.Emitters.{Stream}
use langchain_azure.Streaming.Queue.{Key, key_eq, idle, Queue, Slots}
use langchain_azure.Streaming.Brackets.{walk, walk-append}
use langchain_azure.Streaming.Converter.{
  Converter, finish_key, publish, handle_message_chunk, finish_keys, flush, take_checkpoint,
}
use langchain_azure.Streaming.Drain.{Line}
use langchain_azure.Streaming.Edits.{contains-discard}
use langchain_azure.Streaming.Drain.{IsWaiting}
use langchain_azure.Invocations.Values.{Value}
use langchain_azure.Streaming.Turns.{Tidy, finish_key-Tidy, Publishes, publish-Publishes}
use langchain_azure.Streaming.Converter.{
  Emitted, Payload, messages, updates, checkpoints, other_mode, Chunk, handle, is_checkpoints,
  stream_graph_to_events, then_checkpoint,
}
use langchain_azure.Streaming.Emitters.{checkpoint}
use langchain_azure.Streaming.Sequential.{take_message-Tidy, continues}
use langchain_azure.Streaming.Updates.{handle_update-Publishes}

module _ (C : Schema) (B : Stream) (dumps : Value → String) where
  finish_keys-Tidy :
      (c : Converter C B dumps) (o : Option ℕ) (ks : List Key)
      → Tidy C B dumps c o
      → Tidy C B dumps (finish_keys C B dumps c ks) o
  unfolding finish_keys
  finish_keys-Tidy c o [] h = h
  finish_keys-Tidy c o (k ∷ ks) h =
      finish_keys-Tidy (finish_key C B dumps c k) o ks (finish_key-Tidy C B dumps c o h k)

  live-finish_key :
      (c : Converter C B dumps) (k j : Key)
      → contains (finish_key C B dumps c k).live j ≡ (if j == k then false else contains c.live j)
  unfolding finish_key
  live-finish_key c k j = elim (Bool-cases (contains c.live k)) [
    | inl e ↦ rw e (contains-discard c.live k j)
    | inr e ↦ rw e (ground (arith, e, eq_sound j k))
  ]

  live-finish_keys :
      (c : Converter C B dumps) (ks : List Key) (j : Key)
      → contains (finish_keys C B dumps c ks).live j
        ≡ (if contains ks j then false else contains c.live j)
  unfolding finish_keys
  live-finish_keys c [] j = refl
  live-finish_keys c (k ∷ ks) j =
      live-finish_keys (finish_key C B dumps c k) ks j ∙ ground (arith, live-finish_key c k j)

  -- Nothing is open, queued or waited for.
  pub record IsFlushed (c : Converter C B dumps) : Type 0 where
    pub tidy : Tidy C B dumps c none
    pub empty : c.outputs ≡ []
    pub closed : (k : Key) → contains c.live k ≡ false

  queue-empty :
      (slots : Slots C B) (live : List Key) (o : Option ℕ) (q : Queue C B)
      → ((k : Key) → contains live k ≡ false)
      → IsWaiting C B q
      → Line C B slots live o q
      → (q ≡ []) × (o ≡ none)
  queue-empty slots live o [] dead waiting h = (refl, h)
  queue-empty slots live o (p ∷ q) dead waiting (r, rest, new) =
      absurd (ground (arith, r.alive, dead p.key, waiting))

  -- After a flush every item is complete.
  pub flush-IsFlushed :
      (c : Converter C B dumps) (o : Option ℕ)
      → Tidy C B dumps c o
      → (walk (some o) (flush C B dumps c).0 ≡ some none) × IsFlushed (flush C B dumps c).1
  unfolding flush
  flush-IsFlushed c o h =
      let c' = finish_keys C B dumps c c.live in
      let ((o', w, tidy), waiting) =
        publish-Publishes C B dumps c' o (finish_keys-Tidy c o c.live h) in
      let dead = λ (k : Key).
        live-finish_keys c c.live k
        ∙ (let b = contains c.live k in
            let e : (if b then false else b) ≡ false = ground arith in e) in
      let (empty, shut) =
        queue-empty (publish C B dumps c').1.emitters c'.live o' (publish C B dumps c').1.outputs
          dead waiting tidy.orderly.line in
      (
        w ∙ ap some shut,
        record {
          tidy = subst (λ x. Tidy C B dumps (publish C B dumps c').1 x) shut tidy;
          empty = empty;
          closed = dead;
        },
      )

  take_checkpoint-Publishes :
      (c : Converter C B dumps) (o : Option ℕ)
      → Tidy C B dumps c o
      → Publishes C B dumps o (take_checkpoint C B dumps c)
  unfolding take_checkpoint then_checkpoint walk
  take_checkpoint-Publishes c o h =
      let (w, flushed) = flush-IsFlushed c o h in
      (
        none,
        walk-append (some o) (flush C B dumps c).0 (checkpoint ∷ [])
            ∙ ap (λ x. walk {A = C.Annotation} x (checkpoint ∷ [])) w,
        flushed.tidy,
      )

  -- No emitter is created for a key whose item still waits in the queue.
  abbrev pub continues_in : Converter C B dumps → Payload → Bool
  continues_in c (messages (some m)) = continues C B dumps c m
  continues_in c p = true

  handle-Publishes :
      (c : Converter C B dumps) (o : Option ℕ) (p : Payload)
      → Tidy C B dumps c o
      → continues_in c p ≡ true
      → Publishes C B dumps o (handle C B dumps c p)
  unfolding handle handle_message_chunk walk
  handle-Publishes c o (messages none) h ok = (o, refl, h)
  handle-Publishes c o (messages (some m)) h ok =
      (publish-Publishes C B dumps _ o (take_message-Tidy C B dumps c o m h ok)).0
  handle-Publishes c o (updates us) h ok = handle_update-Publishes C B dumps c o us h
  handle-Publishes c o checkpoints h ok = take_checkpoint-Publishes c o h
  handle-Publishes c o other_mode h ok = (o, refl, h)

  -- No message of the stream comes back to an item of its own that waits behind another one.
  abbrev pub Continues : Converter C B dumps → List Chunk → Type 0
  Continues c [] = Unit
  Continues c (x ∷ xs) =
      (continues_in c x.payload ≡ true) × Continues (handle C B dumps c x.payload).1 xs

  abbrev Completes : Option ℕ → Emitted C B dumps → Type 0
  Completes o (es, c) = (walk (some o) es ≡ some none) × IsFlushed c

  Completes-then :
      (o : Option ℕ) (e e' : Emitted C B dumps)
      → Publishes C B dumps o e
      → ((o' : Option ℕ) → Tidy C B dumps e.1 o' → Completes o' e')
      → Completes o (e.0 ++ e'.0, e'.1)
  Completes-then o (es, c) (es', c') (o', w, h) f =
      let (w', h') = f o' h in (walk-append (some o) es es' ∙ ap (λ x. walk x es') w ∙ w', h')

  stream-Completes :
      (c : Converter C B dumps) (o : Option ℕ) (xs : List Chunk)
      → Tidy C B dumps c o
      → Continues c xs
      → Completes o (stream_graph_to_events C B dumps c xs)
  unfolding stream_graph_to_events
  stream-Completes c o [] h ok = flush-IsFlushed c o h
  stream-Completes c o (x ∷ xs) h (ok, more) =
      let one = handle C B dumps c x.payload in
      let done = handle-Publishes c o x.payload h ok in
      elim (Bool-cases (x.stop_before && not (is_checkpoints x.payload))) [
        | inl e ↦ rw e (flush-IsFlushed c o h)
        | inr e ↦ elim (Bool-cases x.stop_after) [
          | inl s ↦
              rw (e, s)
                (Completes-then o one (flush C B dumps one.1) done
                  (λ o' h'. flush-IsFlushed one.1 o' h'))
          | inr s ↦
              rw (e, s)
                (Completes-then o one (stream_graph_to_events C B dumps one.1 xs) done
                  (λ o' h'. stream-Completes one.1 o' xs h' more))
        ]
      ]

  -- `StreamConverter(stream)`
  unfoldable pub new_converter : B.State → Converter C B dumps
  new_converter s = record {
    stream = s;
    outputs = [];
    emitters = λ k. idle;
    live = [];
    emitted_tool_call_ids = [];
    emitted_tool_output_call_ids = [];
  }

  new-Tidy : (s : B.State) → Tidy C B dumps (new_converter s) none
  unfolding new_converter
  new-Tidy s = record {
    orderly = record { line = refl; grounded = λ k. tt; away = λ k h. (refl, refl) };
    live_kinds = λ k h. absurd (ground arith);
    calls = λ id h. absurd (ground arith);
    results = λ id h. absurd (ground arith);
  }

  -- The events of a whole stream are the lifecycles of its output items, one after the other: every
  -- item is added, published without another's events between its own, and completed before the
  -- next one, a checkpoint or the end, also where a stop is requested; and nothing stays queued.
  -- The messages may be interleaved, but none comes back to an item of its own that waits behind
  -- another one.
  pub stream_is_sequential :
      (s : B.State) (xs : List Chunk)
      → Continues (new_converter s) xs
      → (walk (some none) (stream_graph_to_events C B dumps (new_converter s) xs).0 ≡ some none)
        × ((stream_graph_to_events C B dumps (new_converter s) xs).1.outputs ≡ [])
  stream_is_sequential s xs ok =
      let (w, flushed) = stream-Completes (new_converter s) none xs (new-Tidy s) ok in
      (w, flushed.empty)
