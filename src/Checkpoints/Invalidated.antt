-- ===== src/Checkpoints/Invalidated.antt =====
-- The parts of a write, and the end of the request, keep the context consistent with the storage.
use langchain_azure.Base.{
  ℕ, true, Option, List, ◌∷◌, ◌++◌, ◌≡◌, refl, sym, ap, ◌∙◌, inl, inr, arith, All, All-map,
  All-take_out, Bool-cases, string_eq, option_eq, String, subst,
}
use langchain_azure.Checkpoints.Config.{Config}
use langchain_azure.Checkpoints.Serialized.{Serde}
use langchain_azure.Checkpoints.Reuse.{
  Runtime, User, Key, Write, put, put_writes, delete_thread, delete_for_runs, copy_thread, prune,
  RequestSaver, invalidate, close, before, forwarded,
}
use langchain_azure.Checkpoints.Reach.{Touches, before-Touches, before-cases}
use langchain_azure.Checkpoints.Steps.{Storage, IsIsolated, Writing, State}
use langchain_azure.Checkpoints.Fresh.{
  Shut-IsFresh, invalidate-Shut, Shut-set, writing_set, IsFresh, Misses,
}
use langchain_azure.Checkpoints.Preserved.{global-Names}

forwarded-Touches :
    {S : Serde} (k : Key) (owner : ℕ) (user : User) (self : RequestSaver S) (w : Write)
    → Touches k owner user (forwarded S self w)
    → Touches k owner user w
unfolding forwarded
forwarded-Touches k owner user self (put c p) h = h
forwarded-Touches k owner user self (put_writes c p path) h = h
forwarded-Touches k owner user self (delete_thread t) h = h
forwarded-Touches k owner user self (delete_for_runs runs) h = h
forwarded-Touches k owner user self (copy_thread source target) h = h
forwarded-Touches k owner user self (prune threads strategy) h = h

module _ (S : Serde) (R : Runtime S) (D : Storage S) (k : Key) (id : Option String) where
  new_write :
      (st : State S R D) (user : User) (self : RequestSaver S) (w : Write)
      → IsFresh S R D k id st
      → before S st.reads user self w ≡ st.reads
      → st.reads.cache_enabled ≡ true
      → ¬ Touches k self.cache_owner user (forwarded S self w)
  unfolding invalidate
  new_write st user self w h same on touches =
      let shut =
        before-Touches S st.reads k user self w h.key (h.live on)
          (forwarded-Touches k self.cache_owner user self w touches) in
      absurd (ground (arith, ap (λ reads. reads.cache_enabled) (sym shut ∙ same)))

  pub write_starts-IsFresh :
      (st : State S R D) (user : User) (self : RequestSaver S) (w : Write)
      → IsFresh S R D k id st
      → IsFresh S R D k id (record st {
        reads = before S st.reads user self w;
        writing = record { user = user; saver = self; call = forwarded S self w } ∷ st.writing;
      })
  write_starts-IsFresh st user self w h = elim (before-cases S st.reads user self w) [
    | inr shut ↦
        Shut-IsFresh S R D k id (before S st.reads user self w) st.store st.reading _
          (invalidate-Shut S R D k id st (before S st.reads user self w) h shut)
    | inl same ↦
        subst
          (λ reads. IsFresh S R D k id (record st {
            reads = reads;
            writing = record { user = user; saver = self; call = forwarded S self w } ∷ st.writing;
          }))
          (sym same)
          (writing_set S R D k id st
            (record { user = user; saver = self; call = forwarded S self w } ∷ st.writing) h
            (λ on. (new_write st user self w h same on, h.writings on)))
  ]

  landed-IsFresh :
      (lawful : IsIsolated S D) (st : State S R D) (xs ys : List (Writing S)) (w : Writing S)
      → IsFresh S R D k id st
      → st.writing ≡ xs ++ w ∷ ys
      → st.reads.cache_enabled ≡ true
      → IsFresh S R D k id (record st {
        store = D.apply st.store w.saver.cache_owner w.saver.allowlist w.user w.call;
        writing = xs ++ ys;
      })
  landed-IsFresh lawful st xs ys w h here on =
      let (miss, others) =
        All-take_out (Misses S R D k id) xs ys w
          (subst (λ ws. All (Misses S R D k id) ws) here (h.writings on)) in
      let elsewhere = λ (other : S.Allowlist). λ (config : Config).
        lawful.elsewhere st.store w.saver.cache_owner w.saver.allowlist other w.user w.call k config
          miss in
      record {
        key = h.key;
        input = h.input;
        disabled = h.disabled;
        live = h.live;
        cached = λ c e.
            let s = h.cached c e in
            record {
              saver = s.saver;
              config = s.config;
              result = s.result;
              names = s.names;
              input = s.input;
              allowlist = s.allowlist;
              values = s.values;
              stored = elsewhere s.saver.allowlist s.config s.names ∙ s.stored;
              kept = s.kept;
            };
        readings = λ _.
            All-map
              (λ r current c.
                let (n, i, l) = current c in
                (
                  n,
                  i,
                  λ o e.
                      rw (sym n.same_owner, sym n.same_user)
                        (elsewhere r.saver.allowlist r.config
                          (global-Names S R D k id r.saver.cache_owner r.user r.config n))
                      ∙ l o e,
                ))
              st.reading (h.readings on);
        writings = λ _. others;
      }

  pub lands-IsFresh :
      (lawful : IsIsolated S D) (st : State S R D) (xs ys : List (Writing S)) (w : Writing S)
      → IsFresh S R D k id st
      → st.writing ≡ xs ++ w ∷ ys
      → IsFresh S R D k id (record st {
        store = D.apply st.store w.saver.cache_owner w.saver.allowlist w.user w.call;
        writing = xs ++ ys;
      })
  lands-IsFresh lawful st xs ys w h here = elim (Bool-cases st.reads.cache_enabled) [
    | inr off ↦ Shut-set S R D k id st _ st.reading (xs ++ ys) h off
    | inl on ↦ landed-IsFresh lawful st xs ys w h here on
  ]

  pub closes-IsFresh :
      (st : State S R D)
      → IsFresh S R D k id st
      → IsFresh S R D k id (record st { reads = close S st.reads })
  unfolding close invalidate
  closes-IsFresh st h =
      Shut-IsFresh S R D k id (close S st.reads) st.store st.reading st.writing
        (h.key, h.input, refl, refl)
