-- ===== src/Checkpoints/Runs.antt =====
-- Whole requests: any interleaving of their reads and writes.
use langchain_azure.Base.{
  true, Option, none, some, [], ◌≡◌, refl, sym, ◌∙◌, arith, string_eq, option_eq, String,
}
use langchain_azure.Checkpoints.Config.{Config}
use langchain_azure.Checkpoints.Serialized.{Serde, CheckpointTuple}
use langchain_azure.Checkpoints.Reuse.{
  Runtime, User, Key, thread_of, namespace_of, ReadContext, RequestSaver,
}
use langchain_azure.Checkpoints.Reads.{answered, start}
use langchain_azure.Checkpoints.Steps.{
  Storage, IsIsolated, State, Step, read_starts, read_loads, read_finishes, write_starts,
  write_lands, context_closes, Steps, done, after,
}
use langchain_azure.Checkpoints.Calls.{start-Kept, start-Allows}
use langchain_azure.Checkpoints.Reuse.{Candidate, owner_of, key_at, pin_key}
use langchain_azure.Checkpoints.Reads.{pin}
use langchain_azure.Checkpoints.Hits.{IsSound, IsExplained, start-IsExplained}
use langchain_azure.Checkpoints.Fresh.{IsFresh}
use langchain_azure.Checkpoints.Preserved.{started-IsFresh, loads-IsFresh, finishes-IsFresh}
use langchain_azure.Checkpoints.Invalidated.{write_starts-IsFresh, lands-IsFresh, closes-IsFresh}
use langchain_azure.Checkpoints.Serialized.{IsSerde}

pin_key_keeps :
    {S : Serde} (reads : ReadContext S) (id : Option String) (key : Option Key)
    → ((pin_key S reads id key).cache ≡ reads.cache)
      × ((pin_key S reads id key).active ≡ reads.active)
pin_key_keeps reads id none = (refl, refl)
pin_key_keeps reads id (some k) = (refl, refl)

pinned-IsFresh :
    (S : Serde) (R : Runtime S) (D : Storage S) (fresh : ReadContext S) (saver : Candidate S)
    (user : User) (pinned : Config) (k : Key) (store : D.Store)
    → fresh.cache ≡ none
    → fresh.active ≡ true
    → (pin S R fresh saver user pinned).key ≡ some k
    → IsFresh S R D k (pin S R fresh saver user pinned).input_checkpoint_id record {
      reads = pin S R fresh saver user pinned;
      store = store;
      reading = [];
      writing = [];
    }
unfolding pin
pinned-IsFresh S R D fresh saver user pinned k store empty active key =
    let (c, l) =
      pin_key_keeps fresh (R.get_checkpoint_id pinned)
        (key_at S (owner_of S saver) user (thread_of pinned) (namespace_of pinned)) in
    record {
      key = key;
      input = refl;
      disabled = λ _. c ∙ empty;
      live = λ _. l ∙ active;
      cached = λ x h. absurd (ground (arith, sym (c ∙ empty) ∙ h));
      readings = λ _. tt;
      writings = λ _. tt;
    }

module _ (S : Serde) (R : Runtime S) (D : Storage S) (lawful : IsIsolated S D) (k : Key)
    (id : Option String) where
  Step-IsFresh : (a b : State S R D) → Step S R D a b → IsFresh S R D k id a → IsFresh S R D k id b
  Step-IsFresh a b (read_starts st user self config) h =
      started-IsFresh S R D k id st user self config (start S R st.reads user self config) h
        (start-Kept S R st.reads user self config) (start-Allows S R st.reads user self config)
  Step-IsFresh a b (read_loads st xs ys r o here answer) h =
      loads-IsFresh S R D k id st xs ys r o h here answer
  Step-IsFresh a b (read_finishes st xs ys r o here loaded) h =
      finishes-IsFresh S R D k id st xs ys r o h here loaded
  Step-IsFresh a b (write_starts st user self w) h =
      write_starts-IsFresh S R D k id st user self w h
  Step-IsFresh a b (write_lands st xs ys w here) h =
      lands-IsFresh S R D k id lawful st xs ys w h here
  Step-IsFresh a b (context_closes st) h = closes-IsFresh S R D k id st h

  -- Whatever the interleaving of the reads, the writes and the closing of a request, the context
  -- stays consistent with the storage: a cached result is what the storage gives now to the config
  -- it was cached for, and no write that reaches the pinned thread and namespace is on its way
  -- while the cache is enabled. It needs that a write changes only what it is addressed to.
  pub Steps-IsFresh :
      (a b : State S R D) → Steps S R D a b → IsFresh S R D k id a → IsFresh S R D k id b
  Steps-IsFresh a b (done st) h = h
  Steps-IsFresh a b (after x y z step rest) h = Steps-IsFresh y z rest (Step-IsFresh x y step h)

-- Over any interleaving that starts with a newly pinned context and no call on its way, a read that
-- the cache answers gives what the storage has at that moment for a config of the same thread,
-- namespace, checkpoint and further values, with the reader's own config kept beside the reference.
-- It needs that the serializer reads back what it wrote, that equal allowlists are the same one, and
-- that a write changes only what it is addressed to.
pub cached_read_is_current :
    (S : Serde) (R : Runtime S) (D : Storage S)
    → IsSerde S
    → IsSound S R
    → IsIsolated S D
    → (fresh : ReadContext S) (saver : Candidate S) (user : User) (pinned : Config) (k : Key)
      (store : D.Store) (st : State S R D)
    → fresh.cache ≡ none
    → fresh.active ≡ true
    → (pin S R fresh saver user pinned).key ≡ some k
    → Steps S R D
        record {
          reads = pin S R fresh saver user pinned;
          store = store;
          reading = [];
          writing = [];
        }
        st
    → (reader : User) (self : RequestSaver S) (config : Config) (a : Option (CheckpointTuple S))
    → (start S R st.reads reader self config).1 ≡ answered a
    → IsExplained S R D k
        (pin S R fresh saver user pinned).input_checkpoint_id
        st.store
        reader
        self
        config
        a
cached_read_is_current S R D serde sound lawful fresh saver user pinned k store st empty active key
      steps reader self config a hit =
    start-IsExplained S R D k (pin S R fresh saver user pinned).input_checkpoint_id serde sound st
      reader self config a
      (Steps-IsFresh S R D lawful k (pin S R fresh saver user pinned).input_checkpoint_id
        record {
          reads = pin S R fresh saver user pinned;
          store = store;
          reading = [];
          writing = [];
        }
        st steps (pinned-IsFresh S R D fresh saver user pinned k store empty active key))
      hit
