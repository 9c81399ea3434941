-- ===== src/Checkpoints/Steps.antt =====
-- A request whose reads and writes of checkpoints suspend, as steps: between the parts of one call,
-- other calls go on.
use langchain_azure.Base.{ℕ, Option, none, some, List, ◌∷◌, ◌++◌, ◌≡◌, ◌⊎◌}
use langchain_azure.Checkpoints.Config.{Config}
use langchain_azure.Checkpoints.Serialized.{Serde, CheckpointTuple}
use langchain_azure.Checkpoints.Reuse.{
  Runtime, User, Key, Ticket, Write, ReadContext, RequestSaver, close, before, forwarded,
}
use langchain_azure.Checkpoints.Reads.{Started, answered, awaits, start, finish}
use langchain_azure.Checkpoints.Reach.{Touches, Names}

module _ (S : Serde) where
  -- The wrapped savers: clones of an owner with an allowlist. What a write answers is passed on.
  pub record Storage : Type 1 where
    pub Store : Type 0
    pub aget_tuple : Store → ℕ → S.Allowlist → User → Config → Option (Option (CheckpointTuple S))
    pub apply : Store → ℕ → S.Allowlist → User → Write → Store

  -- A write changes only what it is addressed to.
  pub record IsIsolated (D : Storage) : Type 0 where
    pub elsewhere :
        (store : D.Store) (owner : ℕ) (allowlist other : S.Allowlist) (user : User) (w : Write)
        (k : Key) (config : Config)
        → ¬ Touches k owner user w
        → Names k k.owner k.user_id config
        → D.aget_tuple (D.apply store owner allowlist user w) k.owner other k.user_id config
          ≡ D.aget_tuple store k.owner other k.user_id config

  -- A read that awaits the storage, and what the storage gave.
  pub record Reading : Type 0 where
    pub user : User
    pub saver : RequestSaver S
    pub config : Config
    pub ticket : Ticket
    pub loaded : Option (Option (Option (CheckpointTuple S)))

  -- A write that awaits the storage.
  pub record Writing : Type 0 where
    pub user : User
    pub saver : RequestSaver S
    pub call : Write

  module _ (R : Runtime S) (D : Storage) where
    pub record State : Type 0 where
      pub reads : ReadContext S
      pub store : D.Store
      pub reading : List Reading
      pub writing : List Writing

    abbrev pub started :
        State → User → RequestSaver S → Config → ReadContext S × Started S R → State
    started st user self config (reads, answered a) = record st { reads = reads }
    started st user self config (reads, awaits t) = record st {
      reads = reads;
      reading =
          record { user = user; saver = self; config = config; ticket = t; loaded = none }
          ∷ st.reading;
    }

    -- What the storage gives now to a read.
    abbrev pub stored_for : D.Store → Reading → Option (Option (CheckpointTuple S))
    stored_for store r = D.aget_tuple store r.saver.cache_owner r.saver.allowlist r.user r.config

    abbrev pub loaded_with : Reading → Option (Option (CheckpointTuple S)) → Reading
    loaded_with r o = record r { loaded = some o }

    pub data Step : State → State → Type 0 where
      read_starts :
          (st : State) (user : User) (self : RequestSaver S) (config : Config)
          → Step st (started st user self config (start S R st.reads user self config))
      -- the storage's answer, or an exception
      read_loads :
          (st : State) (xs ys : List Reading) (r : Reading)
          (o : Option (Option (CheckpointTuple S)))
          → st.reading ≡ xs ++ r ∷ ys
          → (o ≡ none) ⊎ (o ≡ stored_for st.store r)
          → Step st (record st { reading = xs ++ loaded_with r o ∷ ys })
      read_finishes :
          (st : State) (xs ys : List Reading) (r : Reading)
          (o : Option (Option (CheckpointTuple S)))
          → st.reading ≡ xs ++ r ∷ ys
          → r.loaded ≡ some o
          → Step st (record st {
            reads = finish S R st.reads r.saver r.config r.ticket o;
            reading = xs ++ ys;
          })
      write_starts :
          (st : State) (user : User) (self : RequestSaver S) (w : Write)
          → Step st (record st {
            reads = before S st.reads user self w;
            writing = record { user = user; saver = self; call = forwarded S self w } ∷ st.writing;
          })
      write_lands :
          (st : State) (xs ys : List Writing) (w : Writing)
          → st.writing ≡ xs ++ w ∷ ys
          → Step st (record st {
            store = D.apply st.store w.saver.cache_owner w.saver.allowlist w.user w.call;
            writing = xs ++ ys;
          })
      context_closes : (st : State) → Step st (record st { reads = close S st.reads })

    pub data Steps : State → State → Type 0 where
      done : (st : State) → Steps st st
      after : (a b c : State) → Step a b → Steps b c → Steps a c
