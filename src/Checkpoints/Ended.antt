-- ===== src/Checkpoints/Ended.antt =====
-- The reuse of a request, once a write or the end of the request has ended it.
use langchain_azure.Base.{
  true, false, Option, some, ◌∷◌, ◌≡◌, refl, inl, inr, ◌≢◌, arith, string_eq, option_eq,
}
use langchain_azure.Checkpoints.Config.{Config}
use langchain_azure.Checkpoints.Serialized.{Serde, CheckpointTuple}
use langchain_azure.Checkpoints.Reuse.{
  Runtime, User, Key, Ticket, Write, ReadContext, RequestSaver, invalidate, close, before,
  forwarded,
}
use langchain_azure.Checkpoints.Reads.{Started, answered, awaits, is_cacheable, start, finish}
use langchain_azure.Checkpoints.Reach.{Touches, before-Touches, before-cases}
use langchain_azure.Checkpoints.Steps.{
  Storage, State, started, Step, read_starts, read_loads, read_finishes, write_starts, write_lands,
  context_closes, Steps, done, after,
}
use langchain_azure.Checkpoints.Calls.{Kept, start-Kept, finish-cases}
use langchain_azure.Checkpoints.Hits.{start_if-answered}

module _ (S : Serde) (R : Runtime S) (D : Storage S) where
  disabled-Kept :
      (reads reads' : ReadContext S)
      → reads.cache_enabled ≡ false
      → Kept S R reads reads'
      → reads'.cache_enabled ≡ false
  unfolding invalidate
  disabled-Kept reads reads' off (inl same) = rw same off
  disabled-Kept reads reads' off (inr shut) = rw shut refl

  started_off :
      (st : State S R D) (user : User) (self : RequestSaver S) (config : Config)
      (p : ReadContext S × Started S R)
      → (started S R D st user self config p).reads ≡ p.0
  started_off st user self config (reads, answered a) = refl
  started_off st user self config (reads, awaits t) = refl

  finish_off :
      (reads : ReadContext S) (self : RequestSaver S) (config : Config) (ticket : Ticket)
      (o : Option (Option (CheckpointTuple S)))
      → reads.cache_enabled ≡ false
      → (finish S R reads self config ticket o).cache_enabled ≡ false
  finish_off reads self config ticket o off = elim (finish-cases S R reads self config ticket o) [
    | inl kept ↦ disabled-Kept reads _ off kept
    | inr m ↦ absurd (ground (arith, off, m.enabled))
  ]

  disabled-Step :
      (a b : State S R D)
      → Step S R D a b
      → a.reads.cache_enabled ≡ false
      → b.reads.cache_enabled ≡ false
  unfolding close invalidate
  disabled-Step a b (read_starts st user self config) off =
      rw (started_off st user self config (start S R st.reads user self config))
        (disabled-Kept st.reads _ off (start-Kept S R st.reads user self config))
  disabled-Step a b (read_loads st xs ys r o here answer) off = off
  disabled-Step a b (read_finishes st xs ys r o here loaded) off =
      finish_off st.reads r.saver r.config r.ticket o off
  disabled-Step a b (write_starts st user self w) off =
      disabled-Kept st.reads _ off (before-cases S st.reads user self w)
  disabled-Step a b (write_lands st xs ys w here) off = off
  disabled-Step a b (context_closes st) off = refl

  disabled-Steps :
      (a b : State S R D)
      → Steps S R D a b
      → a.reads.cache_enabled ≡ false
      → b.reads.cache_enabled ≡ false
  disabled-Steps a b (done st) off = off
  disabled-Steps a b (after x y z step rest) off =
      disabled-Steps y z rest (disabled-Step x y step off)

  start_off :
      (reads : ReadContext S) (user : User) (self : RequestSaver S) (config : Config)
      (a : Option (CheckpointTuple S))
      → reads.cache_enabled ≡ false
      → (start S R reads user self config).1 ≢ answered a
  unfolding start is_cacheable
  start_off reads user self config a off hit =
      let (part, cacheable, h) = start_if-answered S R reads self config _ _ a hit in
      absurd (ground (arith, off, cacheable))

-- When a write that reaches the pinned thread and namespace has started in an active context, no
-- read of the request is answered by the cache any more, whatever reads and writes follow, those
-- that were on their way among them.
pub write_ends_reuse :
    (S : Serde) (R : Runtime S) (D : Storage S) (st later : State S R D) (k : Key) (user : User)
    (self : RequestSaver S) (w : Write)
    → st.reads.key ≡ some k
    → st.reads.active ≡ true
    → Touches k self.cache_owner user w
    → Steps S R D
        (record st {
          reads = before S st.reads user self w;
          writing = record { user = user; saver = self; call = forwarded S self w } ∷ st.writing;
        })
        later
    → (reader : User) (saver : RequestSaver S) (config : Config) (a : Option (CheckpointTuple S))
    → (start S R later.reads reader saver config).1 ≢ answered a
unfolding invalidate
write_ends_reuse S R D st later k user self w key active touches steps reader saver config a =
    start_off S R D later.reads reader saver config a (
      disabled-Steps S R D _ later steps (
        disabled-Kept S R D (invalidate S st.reads) (before S st.reads user self w) refl
          (inl (before-Touches S st.reads k user self w key active touches))))
