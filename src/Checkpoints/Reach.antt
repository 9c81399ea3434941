-- ===== src/Checkpoints/Reach.antt =====
-- Which reads and writes concern the pinned checkpoint, and that `_read_context` finds them.
use langchain_azure.Base.{
  ℕ, Bool, true, false, some, List, [], ◌∷◌, String, ◌&&◌, string_eq, option_eq, nat_eq, ◌≡◌, refl,
  ◌⊎◌, inl, inr, arith, In, contains, eq_refl,
}
use langchain_azure.Checkpoints.Config.{Setting, null, text, object, Config}
use langchain_azure.Checkpoints.Serialized.{Serde}
use langchain_azure.Checkpoints.Reuse.{
  User, Key, Write, put, put_writes, delete_thread, delete_for_runs, copy_thread, prune, is_text,
  matches, thread_of, namespace_of, ReadContext, RequestSaver, key_matches, invalidate,
  invalidate_if, read_context, invalidate_config, invalidate_threads, before,
}

-- The writes that reach the checkpoints of a key.
abbrev pub Reaches : Key → Write → Type 0
Reaches k (put c p) = (thread_of c ≡ text k.thread_id) × (namespace_of c ≡ text k.namespace)
Reaches k (put_writes c p path) =
    (thread_of c ≡ text k.thread_id) × (namespace_of c ≡ text k.namespace)
Reaches k (delete_thread t) = k.thread_id ≡ t
Reaches k (delete_for_runs runs) = Unit
Reaches k (copy_thread source target) = k.thread_id ≡ target
Reaches k (prune threads strategy) = In k.thread_id threads

abbrev pub Touches : Key → ℕ → User → Write → Type 0
Touches k owner user w = (k.owner ≡ owner) × (k.user_id ≡ user) × Reaches k w

-- A config of the key's thread and namespace, used with the key's owner and user.
pub record Names (k : Key) (owner : ℕ) (user : User) (config : Config) : Type 0 where
  pub same_owner : k.owner ≡ owner
  pub same_user : k.user_id ≡ user
  pub thread : thread_of config ≡ text k.thread_id
  pub namespace : namespace_of config ≡ text k.namespace

module _ (S : Serde) where
  pub matches-Names :
      (active : Bool) (k : Key) (user : User) (self : RequestSaver S) (t n : Setting)
      → (is_text t && (is_text n && (active && key_matches S (some k) user self t n))) ≡ true
      → (k.owner ≡ self.cache_owner)
        × (k.user_id ≡ user)
        × (t ≡ text k.thread_id)
        × (n ≡ text k.namespace)
  unfolding matches
  matches-Names active k user self null n h = absurd (ground arith)
  matches-Names active k user self (object i) n h = absurd (ground arith)
  matches-Names active k user self (text s) null h = absurd (ground arith)
  matches-Names active k user self (text s) (object i) h = absurd (ground arith)
  matches-Names active k user self (text s) (text u) h =
      (ground arith, ground arith, ground arith, ground arith)

  contains-In : (xs : List String) (s : String) → In s xs → contains xs s ≡ true
  contains-In [] s h = elim h [ ]
  contains-In (x ∷ xs) s (inl p) = ground arith
  contains-In (x ∷ xs) s (inr p) = ground (arith, contains-In xs s p)

  invalidate_if-cases :
      (b : Bool) (reads : ReadContext S)
      → (invalidate_if S b reads ≡ reads) ⊎ (invalidate_if S b reads ≡ invalidate S reads)
  unfolding invalidate_if
  invalidate_if-cases true reads = inr refl
  invalidate_if-cases false reads = inl refl

  -- A write that reaches the key ends the reuse.
  pub before-Touches :
      (reads : ReadContext S) (k : Key) (user : User) (self : RequestSaver S) (w : Write)
      → reads.key ≡ some k
      → reads.active ≡ true
      → Touches k self.cache_owner user w
      → before S reads user self w ≡ invalidate S reads
  unfolding before invalidate_config invalidate_threads invalidate_if read_context matches
  before-Touches reads k user self (put c p) key active (o, u, (t, n)) = rw (
    key,
    active,
    o,
    u,
    t,
    n,
    eq_refl self.cache_owner,
    eq_refl user,
    eq_refl k.thread_id,
    eq_refl k.namespace,
  )
  before-Touches reads k user self (put_writes c p path) key active (o, u, (t, n)) = rw (
    key,
    active,
    o,
    u,
    t,
    n,
    eq_refl self.cache_owner,
    eq_refl user,
    eq_refl k.thread_id,
    eq_refl k.namespace,
  )
  before-Touches reads k user self (delete_thread t) key active (o, u, r) =
      rw (key, active, o, u, r, eq_refl self.cache_owner, eq_refl user, eq_refl t)
  before-Touches reads k user self (delete_for_runs runs) key active (o, u, r) =
      rw (key, active, o, u, eq_refl self.cache_owner, eq_refl user)
  before-Touches reads k user self (copy_thread source target) key active (o, u, r) =
      rw (key, active, o, u, r, eq_refl self.cache_owner, eq_refl user, eq_refl target)
  before-Touches reads k user self (prune threads strategy) key active (o, u, r) =
      rw (
        key,
        active,
        o,
        u,
        eq_refl self.cache_owner,
        eq_refl user,
        contains-In threads k.thread_id r,
      )

  -- Every write leaves the context as it is, or ends the reuse.
  pub before-cases :
      (reads : ReadContext S) (user : User) (self : RequestSaver S) (w : Write)
      → (before S reads user self w ≡ reads) ⊎ (before S reads user self w ≡ invalidate S reads)
  unfolding before invalidate_config invalidate_threads
  before-cases reads user self (put c p) = invalidate_if-cases _ reads
  before-cases reads user self (put_writes c p path) = invalidate_if-cases _ reads
  before-cases reads user self (delete_thread t) = invalidate_if-cases _ reads
  before-cases reads user self (delete_for_runs runs) = invalidate_if-cases _ reads
  before-cases reads user self (copy_thread source target) = invalidate_if-cases _ reads
  before-cases reads user self (prune threads strategy) = invalidate_if-cases _ reads
