-- ===== src/Blob/Paths/Laws.antt =====
-- Paths and keys correspond: the proofs about `Blob.Paths`.
use langchain_azure.Base.{
  false, List, [], ◌∷◌, ◌++◌, codes_eq, eq_false, ◌≡◌, refl, ap, sym, ◌∙◌, arith, All, ◌≢◌,
  drop-append,
}
use langchain_azure.Base.Words.{
  Text, slash, same, starts_with, split_at, join_with, starts_with-append, starts_with_cancel,
}
use langchain_azure.Blob.Library.{Library, valid, IsSegment, IsNormal, IsDocumented}
use langchain_azure.Blob.Paths.{
  nonempty_parts, with_slash, from_blob_key, key_of, listing_prefix, strip_root, normalize_path,
  to_blob_key, get_prefix_for_path,
}

-- Splitting a component and what follows a slash.
split_at-segment :
    (s rest : Text)
    → All (λ c. same c slash ≡ false) s
    → split_at slash (s ++ slash ∷ rest) ≡ s ∷ split_at slash rest
unfolding split_at
split_at-segment [] rest h = refl
split_at-segment (c ∷ s) rest (hc, h) = rw (split_at-segment s rest h, hc)

split_at-last : (s : Text) → All (λ c. same c slash ≡ false) s → split_at slash s ≡ s ∷ []
unfolding split_at
split_at-last [] h = refl
split_at-last (c ∷ s) (hc, h) = rw (split_at-last s h, hc)

-- Splitting at slashes undoes joining, for one component or more.
split_at-join_with :
    (s : Text) (segments : List Text)
    → All IsSegment (s ∷ segments)
    → split_at slash (join_with slash (s ∷ segments)) ≡ s ∷ segments
unfolding join_with
split_at-join_with s [] h = split_at-last s h.0.1
split_at-join_with s (t ∷ segments) h =
    split_at-segment s _ h.0.1 ∙ ap (λ r. s ∷ r) (split_at-join_with t segments h.1)

nonempty_parts-segments :
    (segments : List Text) → All IsSegment segments → nonempty_parts segments ≡ segments
unfolding nonempty_parts
nonempty_parts-segments [] h = refl
nonempty_parts-segments ([] ∷ rest) h = absurd (h.0.0 refl)
nonempty_parts-segments ((c ∷ s) ∷ rest) h =
    ap (λ r. (c ∷ s) ∷ r) (nonempty_parts-segments rest h.1)

join_with-ne-nil : (s : Text) (rest : List Text) → IsSegment s → join_with slash (s ∷ rest) ≢ []
unfolding join_with
join_with-ne-nil [] rest h e = h.0 refl
join_with-ne-nil (c ∷ s) [] h e = cc
join_with-ne-nil (c ∷ s) (t ∷ rest) h e = cc

nonempty_parts-rooted :
    (t : Text) → nonempty_parts (split_at slash (slash ∷ t)) ≡ nonempty_parts (split_at slash t)
unfolding nonempty_parts split_at
nonempty_parts-rooted t = refl

strip_root-normal :
    (segments : List Text)
    → All IsSegment segments
    → strip_root (valid (slash ∷ join_with slash segments)) ≡ valid (join_with slash segments)
unfolding strip_root join_with
strip_root-normal [] h = ground arith
strip_root-normal (s ∷ rest) h =
    rw
      (eq_false (slash ∷ join_with slash (s ∷ rest)) (slash ∷ [])
        (λ e. join_with-ne-nil s rest h.0 (cc)))
      (rw (nonempty_parts-rooted, split_at-join_with s rest h, nonempty_parts-segments _ h) refl)

from_blob_key-key_of :
    (prefix name : Text) → from_blob_key prefix (key_of prefix name) ≡ slash ∷ name
unfolding from_blob_key key_of
from_blob_key-key_of [] name = refl
from_blob_key-key_of (c ∷ prefix) name =
    rw (starts_with-append (with_slash (c ∷ prefix)) name) (rw drop-append refl)

starts_with-listing_prefix :
    (prefix name dir : Text)
    → dir ≢ []
    → starts_with (key_of prefix name) (listing_prefix prefix dir)
      ≡ starts_with name (dir ++ slash ∷ [])
unfolding key_of listing_prefix
starts_with-listing_prefix prefix name [] n = absurd (n refl)
starts_with-listing_prefix [] name (d ∷ dir) n = refl
starts_with-listing_prefix (c ∷ prefix) name (d ∷ dir) n =
    starts_with_cancel (with_slash (c ∷ prefix)) name ((d ∷ dir) ++ slash ∷ [])

-- What validation makes of a path, as seen by keys: a validated path is a slash and its name, and
-- the key is the name behind the prefix.
pub record IsNamed (L : Library) (q name : Text) : Type 0 where
  pub path : q ≡ slash ∷ name
  pub normalized : normalize_path L q ≡ valid name

module _ (L : Library) (D : IsDocumented L) (p : Text) where
  pub name_of : (q : Text) → L.validate_path p ≡ valid q → (name : Text) × IsNamed L q name
  unfolding normalize_path
  name_of q v =
      let n : IsNormal q = D.result_normal p q v in
      let f : L.validate_path q ≡ valid q = D.result_fixed p q v in
      (
        join_with slash n.0,
        record { path = n.2; normalized = rw n.2 (rw (rw n.2 at f) (strip_root-normal n.0 n.1)) },
      )

module _ (L : Library) (prefix q name : Text) (n : IsNamed L q name) where
  pub to_blob_key-IsNamed : to_blob_key L prefix q ≡ valid (key_of prefix name)
  unfolding to_blob_key
  to_blob_key-IsNamed = rw (n.normalized, to_blob_key)

  pub get_prefix_for_path-IsNamed :
      get_prefix_for_path L prefix q ≡ valid (listing_prefix prefix name)
  unfolding get_prefix_for_path
  get_prefix_for_path-IsNamed = rw (n.normalized, get_prefix_for_path)

  pub from_blob_key-IsNamed : from_blob_key prefix (key_of prefix name) ≡ q
  from_blob_key-IsNamed = from_blob_key-key_of prefix name ∙ sym n.path

-- For every validated path `q`, `to_blob_key` succeeds, and `from_blob_key` turns the key back into
-- `q`, whatever the prefix.
pub from_blob_key-to_blob_key :
    (L : Library) (D : IsDocumented L) (prefix p q : Text)
    → L.validate_path p ≡ valid q
    → (key : Text) × (to_blob_key L prefix q ≡ valid key) × (from_blob_key prefix key ≡ q)
from_blob_key-to_blob_key L D prefix p q v =
    let n = name_of L D p q v in
    (
      key_of prefix n.0,
      to_blob_key-IsNamed L prefix q n.0 n.1,
      from_blob_key-IsNamed L prefix q n.0 n.1,
    )

valid_injective : (a b : Text) → valid a ≡ valid b → a ≡ b
valid_injective a b e = cc

-- Two validated paths with the same blob key are the same path: no file shadows another.
pub to_blob_key_injective :
    (L : Library) (D : IsDocumented L) (prefix p q p' q' : Text)
    → L.validate_path p ≡ valid q
    → L.validate_path p' ≡ valid q'
    → to_blob_key L prefix q ≡ to_blob_key L prefix q'
    → q ≡ q'
to_blob_key_injective L D prefix p q p' q' v v' same_key =
    let (key, made, back) = from_blob_key-to_blob_key L D prefix p q v in
    let (key', made', back') = from_blob_key-to_blob_key L D prefix p' q' v' in
    let keys : key ≡ key' = valid_injective key key' (sym made ∙ same_key ∙ made') in
    sym back ∙ ap (from_blob_key prefix) keys ∙ back'

-- The listing prefix of a directory other than the root selects exactly the keys of the paths that
-- lie below the directory: `/workspace` does not reach `/workspace-backup`.
pub listing_prefix_selects_descendants :
    (L : Library) (D : IsDocumented L) (prefix p dir p' file key listing : Text)
    → L.validate_path p ≡ valid dir
    → L.validate_path p' ≡ valid file
    → dir ≢ slash ∷ []
    → to_blob_key L prefix file ≡ valid key
    → get_prefix_for_path L prefix dir ≡ valid listing
    → starts_with key listing ≡ starts_with file (dir ++ slash ∷ [])
unfolding starts_with
listing_prefix_selects_descendants L D prefix p dir p' file key listing v v' not_root made listed =
    let n = name_of L D p dir v in
    let m = name_of L D p' file v' in
    let k : key ≡ key_of prefix m.0 =
      valid_injective key _ (sym made ∙ to_blob_key-IsNamed L prefix file m.0 m.1) in
    let l : listing ≡ listing_prefix prefix n.0 =
      valid_injective listing _ (sym listed ∙ get_prefix_for_path-IsNamed L prefix dir n.0 n.1) in
    rw (k, l, n.1.path, m.1.path)
      (starts_with-listing_prefix prefix m.0 n.0 λ e. not_root (n.1.path ∙ ap (λ t. slash ∷ t) e))
