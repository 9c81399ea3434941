-- ===== src/Blob/Service/Memory.antt =====
-- A container in memory: it shows that what is assumed of the service can hold, and runs tests.
use langchain_azure.Base.{
  ℕ, ◌+◌, ◌≡◌, ◌≢◌, refl, sym, ap, ◌∙◌, true, Option, none, some, List, [], ◌∷◌, arith,
  if◌then◌else◌, ◌==◌, codes_eq, In, inl, inr, eq_false, Bool-cases, Option-cases, subst, length,
}
use langchain_azure.Base.Words.{Text, starts_with}
use langchain_azure.Blob.Service.{
  Blob, Item, blob, Outcome, returned, raised, resource_not_found, resource_modified, Service,
  IsBlobStore,
}

abbrev pub Entries : Type 0
Entries = List (Text × Blob)

pub record Memory : Type 0 where
  pub entries : Entries
  pub stamp : ℕ

unfoldable pub find : Entries → Text → Option Blob
find [] k = none
find ((j, b) ∷ m) k = if k == j then some b else find m k

unfoldable pub erase : Entries → Text → Entries
erase [] k = []
erase ((j, b) ∷ m) k = let rest = erase m k in if k == j then rest else (j, b) ∷ rest

find-erase_self : (m : Entries) (k : Text) → find (erase m k) k ≡ none
unfolding find erase
find-erase_self [] k = refl
find-erase_self ((j, b) ∷ m) k = ground (arith, find-erase_self m k)

find-erase_ne : (m : Entries) (k j : Text) → j ≢ k → find (erase m k) j ≡ find m j
unfolding find erase
find-erase_ne [] k j n = refl
find-erase_ne ((i, b) ∷ m) k j n = ground (arith, find-erase_ne m k j n)

unfoldable pub put : Memory → Text → List ℕ → Memory
put s k v = record {
  entries = (k, record { body = v; etag = s.stamp ∷ [] }) ∷ erase s.entries k;
  stamp = s.stamp + 1;
}

-- an upload whose condition fails changes nothing
unfoldable pub put_if : Memory → Text → List ℕ → Text → Option Blob → Memory × Outcome (Unit {0})
unfolding put
put_if s k v tag none = (s, raised (resource_modified []))
put_if s k v tag (some b) =
    if b.etag == tag then (put s k v, returned tt) else (s, raised (resource_modified []))

unfoldable pub upload : Memory → Text → List ℕ → Option Text → Memory × Outcome (Unit {0})
unfolding put_if find put
upload s k v none = (put s k v, returned tt)
upload s k v (some tag) = put_if s k v tag (find s.entries k)

unfoldable pub fetched : Option Blob → Outcome Blob
fetched none = raised (resource_not_found [])
fetched (some b) = returned b

unfoldable pub listing : Entries → Text → List Item
listing [] p = []
listing ((k, b) ∷ m) p =
    let rest = listing m p in
    if starts_with k p then blob k (some (length b.body)) none ∷ rest else rest

unfoldable pub remove : Memory → Text → Option Blob → Memory × Outcome (Unit {0})
unfolding erase
remove s k none = (s, raised (resource_not_found []))
remove s k (some b) = (record s { entries = erase s.entries k }, returned tt)

abbrev pub memory : Service
memory = record {
  State = Memory;
  download_blob = λ s k. fetched (find s.entries k);
  upload_blob = upload;
  delete_blob = λ s k. remove s k (find s.entries k);
  list_blobs = λ s p. returned (listing s.entries p);
  walk_blobs = λ s p. returned (listing s.entries p);
}

pub find-listing :
    (m : Entries) (p k : Text)
    → find m k ≢ none
    → starts_with k p ≡ true
    → (size : Option ℕ) × (modified : Option Text) × In (blob k size modified) (listing m p)
unfolding find listing
find-listing [] p k n h = absurd (n refl)
find-listing ((j, b) ∷ m) p k n h = elim (codes_eq.dec k j) [
  | yes e ↦ (
    some (length b.body),
    none,
    rw (ap (λ i. starts_with i p) (sym e) ∙ h)
        (inl (ap (λ i. blob i (some (length b.body)) none) e)),
  )
  | no d ↦
      let (size, modified, i) = find-listing m p k (λ absent. n (rw (eq_false k j d) absent)) h in
      elim (Bool-cases (starts_with j p)) [
        | inl e ↦ (size, modified, rw e (inr i))
        | inr e ↦ (size, modified, rw e i)
      ]
]

pub upload_stored :
    (s : Memory) (k : Text) (v : List ℕ) (c : Option Text)
    → (upload s k v c).1 ≡ returned tt
    → (etag : Text) × (find (upload s k v c).0.entries k ≡ some (record { body = v; etag = etag }))
unfolding upload put_if find put
upload_stored s k v none h = (s.stamp ∷ [], ground arith)
upload_stored s k v (some tag) h = (s.stamp ∷ [], ground arith)

pub upload_others :
    (s : Memory) (k : Text) (v : List ℕ) (c : Option Text) (j : Text)
    → j ≢ k
    → find (upload s k v c).0.entries j ≡ find s.entries j
unfolding upload put_if find put
upload_others s k v none j n = ground (arith, find-erase_ne s.entries k j n)
upload_others s k v (some tag) j n = ground (arith, find-erase_ne s.entries k j n)

pub upload_refused :
    (s : Memory) (k : Text) (v : List ℕ) (c : Option Text) (m : Text)
    → (upload s k v c).1 ≡ raised (resource_modified m)
    → find (upload s k v c).0.entries k ≡ find s.entries k
unfolding upload put_if
upload_refused s k v none m h = absurd (cc)
upload_refused s k v (some tag) m h = ground arith

pub upload_checked :
    (s : Memory) (k : Text) (v : List ℕ) (tag : Text)
    → (upload s k v (some tag)).1 ≡ returned tt
    → (b : Blob) × (find s.entries k ≡ some b) × (b.etag ≡ tag)
unfolding upload put_if
upload_checked s k v tag h = ground arith

pub removed_gone : (s : Memory) (k : Text) → find (remove s k (find s.entries k)).0.entries k ≡ none
unfolding remove
removed_gone s k = elim (Option-cases (find s.entries k)) [
  | inl e ↦ rw e e
  | inr (b, e) ↦ rw e (find-erase_self s.entries k)
]

pub removed_others :
    (s : Memory) (k j : Text)
    → j ≢ k
    → find (remove s k (find s.entries k)).0.entries j ≡ find s.entries j
unfolding remove
removed_others s k j n = elim (Option-cases (find s.entries k)) [
  | inl e ↦ rw e refl
  | inr (b, e) ↦ rw e (find-erase_ne s.entries k j n)
]

pub fetched_blob : (o : Option Blob) (b : Blob) → fetched o ≡ returned b → o ≡ some b
unfolding fetched
fetched_blob none b h = absurd (cc)
fetched_blob (some a) b h = cc

pub fetched_absent :
    (o : Option Blob) (m : Text) → fetched o ≡ raised (resource_not_found m) → o ≡ none
unfolding fetched
fetched_absent none m h = refl
fetched_absent (some a) m h = absurd (cc)

pub listing_returned :
    (s : Memory) (p : Text) (items : List Item)
    → memory.list_blobs s p ≡ returned items
    → items ≡ listing s.entries p
listing_returned s p items h = cc

abbrev pub memory-IsBlobStore : IsBlobStore memory
memory-IsBlobStore = record {
  view = λ s. find s.entries;
  download_returned = λ s k b h. fetched_blob (find s.entries k) b h;
  download_not_found = λ s k m h. fetched_absent (find s.entries k) m h;
  upload_returned = upload_stored;
  upload_elsewhere = upload_others;
  upload_modified = upload_refused;
  upload_condition = upload_checked;
  delete_returned = λ s k h. removed_gone s k;
  delete_not_found = λ s k m h. removed_gone s k;
  delete_absent = λ s k h. removed_gone s k;
  delete_elsewhere = removed_others;
  listed = λ s p items k h n st.
      subst (λ l. (size : Option ℕ) × (modified : Option Text) × In (blob k size modified) l)
        (sym (listing_returned s p items h)) (find-listing s.entries p k n st);
}
