-- ===== src/Checkpoints/Preserved.antt =====
-- The parts of a read keep the context consistent with the storage.
use langchain_azure.Base.{
  ℕ, true, Option, none, some, List, ◌∷◌, ◌++◌, ◌≡◌, refl, sym, ap, ◌∙◌, ◌⊎◌, inl, inr, arith, All,
  All-take_out, All-put_in, string_eq, option_eq, String, subst,
}
use mathlib.Core.Option.{some-injective}
use langchain_azure.Checkpoints.Config.{Config}
use langchain_azure.Checkpoints.Serialized.{Serde, CheckpointTuple}
use langchain_azure.Checkpoints.Reuse.{Runtime, User, Key, ReadContext, RequestSaver}
use langchain_azure.Checkpoints.Reads.{Started, answered, awaits, is_cacheable, takes_part, finish}
use langchain_azure.Checkpoints.Reach.{Names}
use langchain_azure.Checkpoints.Steps.{Storage, Reading, State, started, stored_for, loaded_with}
use langchain_azure.Checkpoints.Calls.{
  Kept, Allows, finish-cases, Remembers, remembered, takes_part-Names, is_cacheable_input,
}
use langchain_azure.Checkpoints.Fresh.{
  Shut-IsFresh, invalidate-Shut, reading_set, IsFresh, IsCurrent, IsStored,
}

module _ (S : Serde) (R : Runtime S) (D : Storage S) (k : Key) (id : Option String) where
  pub started-IsFresh :
      (st : State S R D) (user : User) (self : RequestSaver S) (config : Config)
      (p : ReadContext S × Started S R)
      → IsFresh S R D k id st
      → Kept S R st.reads p.0
      → Allows S R (takes_part S R st.reads user self config) (is_cacheable S R st.reads config) p.1
      → IsFresh S R D k id (started S R D st user self config p)
  started-IsFresh st user self config (reads, answered a) h (inl same) allows =
      subst (λ r. IsFresh S R D k id (record st { reads = r })) (sym same) h
  started-IsFresh st user self config (reads, answered a) h (inr shut) allows =
      Shut-IsFresh S R D k id reads st.store st.reading st.writing
        (invalidate-Shut S R D k id st reads h shut)
  started-IsFresh st user self config (reads, awaits t) h (inr shut) allows =
      Shut-IsFresh S R D k id reads st.store _ st.writing
        (invalidate-Shut S R D k id st reads h shut)
  started-IsFresh st user self config (reads, awaits t) h (inl same) allows =
      subst
        (λ r. IsFresh S R D k id (record st {
          reads = r;
          reading =
              record { user = user; saver = self; config = config; ticket = t; loaded = none }
              ∷ st.reading;
        }))
        (sym same)
        (reading_set S R D k id st
          (record { user = user; saver = self; config = config; ticket = t; loaded = none }
            ∷ st.reading)
          h
          (λ on. (
            λ c.
                let (part, cacheable) = allows c in
                (
                  takes_part-Names S R st.reads k user self config h.key part,
                  is_cacheable_input S R st.reads config cacheable ∙ h.input,
                  λ o e. absurd (ground arith),
                ),
            h.readings on,
          )))

  taken :
      (st : State S R D) (xs ys : List (Reading S)) (r : Reading S)
      → IsFresh S R D k id st
      → st.reading ≡ xs ++ r ∷ ys
      → st.reads.cache_enabled ≡ true
      → IsCurrent S R D k id st.store r × All (IsCurrent S R D k id st.store) (xs ++ ys)
  taken st xs ys r h here on =
      All-take_out (IsCurrent S R D k id st.store) xs ys r
        (subst (λ rs. All (IsCurrent S R D k id st.store) rs) here (h.readings on))

  current_load :
      (store : D.Store) (r : Reading S) (o : Option (Option (CheckpointTuple S)))
      (a : Option (CheckpointTuple S))
      → (o ≡ none) ⊎ (o ≡ stored_for S R D store r)
      → some o ≡ some (some a)
      → stored_for S R D store r ≡ some a
  current_load store r o a (inl p) e = absurd (ground arith)
  current_load store r o a (inr p) e = sym p ∙ some-injective o (some a) e

  pub loads-IsFresh :
      (st : State S R D) (xs ys : List (Reading S)) (r : Reading S)
      (o : Option (Option (CheckpointTuple S)))
      → IsFresh S R D k id st
      → st.reading ≡ xs ++ r ∷ ys
      → (o ≡ none) ⊎ (o ≡ stored_for S R D st.store r)
      → IsFresh S R D k id (record st { reading = xs ++ loaded_with S R D r o ∷ ys })
  loads-IsFresh st xs ys r o h here answer = reading_set S R D k id st _ h (λ on.
      let (current, others) = taken st xs ys r h here on in
      All-put_in (IsCurrent S R D k id st.store) xs ys (loaded_with S R D r o)
        (λ c. let (n, i, l) = current c in (n, i, λ a e. current_load st.store r o a answer e))
        others)

  pub global-Names :
      (owner : ℕ) (user : User) (config : Config)
      → Names k owner user config
      → Names k k.owner k.user_id config
  global-Names owner user config n = record {
    same_owner = refl;
    same_user = refl;
    thread = n.thread;
    namespace = n.namespace;
  }

  remembered-IsFresh :
      (st : State S R D) (xs ys : List (Reading S)) (r : Reading S)
      (o : Option (Option (CheckpointTuple S)))
      → IsFresh S R D k id st
      → st.reading ≡ xs ++ r ∷ ys
      → r.loaded ≡ some o
      → (m : Remembers S R st.reads r.saver r.config r.ticket o
          (finish S R st.reads r.saver r.config r.ticket o))
      → IsFresh S R D k id (record st {
        reads = remembered S R st.reads r.saver r.config m.value;
        reading = xs ++ ys;
      })
  remembered-IsFresh st xs ys r o h here loaded m =
      let (current, others) = taken st xs ys r h here m.enabled in
      let (n, i, l) = current m.cacheable in
      record {
        key = h.key;
        input = h.input;
        disabled = λ off. absurd (ground (arith, off, m.enabled));
        live = h.live;
        cached = λ c e.
            subst (λ c. IsStored S R D k id st.store c) (some-injective _ _ e)
              record {
                saver = r.saver;
                config = r.config;
                result = m.result;
                names = global-Names r.saver.cache_owner r.user r.config n;
                input = i;
                allowlist = refl;
                values = refl;
                stored = rw (n.same_owner, n.same_user) (l m.result (loaded ∙ ap some m.here));
                kept = m.serialized;
              };
        readings = λ on. others;
        writings = h.writings;
      }

  pub finishes-IsFresh :
      (st : State S R D) (xs ys : List (Reading S)) (r : Reading S)
      (o : Option (Option (CheckpointTuple S)))
      → IsFresh S R D k id st
      → st.reading ≡ xs ++ r ∷ ys
      → r.loaded ≡ some o
      → IsFresh S R D k id (record st {
        reads = finish S R st.reads r.saver r.config r.ticket o;
        reading = xs ++ ys;
      })
  finishes-IsFresh st xs ys r o h here loaded =
      elim (finish-cases S R st.reads r.saver r.config r.ticket o) [
        | inl (inl same) ↦
            subst (λ reads. IsFresh S R D k id (record st { reads = reads; reading = xs ++ ys }))
              (sym same)
              (reading_set S R D k id st (xs ++ ys) h (λ on. (taken st xs ys r h here on).1))
        | inl (inr shut) ↦
            Shut-IsFresh S R D k id (finish S R st.reads r.saver r.config r.ticket o) st.store
              (xs ++ ys) st.writing (invalidate-Shut S R D k id st _ h shut)
        | inr m ↦
            subst (λ reads. IsFresh S R D k id (record st { reads = reads; reading = xs ++ ys }))
              (sym m.after) (remembered-IsFresh st xs ys r o h here loaded m)
      ]
