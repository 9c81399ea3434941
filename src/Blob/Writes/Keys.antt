-- ===== src/Blob/Writes/Keys.antt =====
-- The key that an operation acts on, for a validated path and for an invalid one.
use langchain_azure.Base.{◌≡◌, sym, ◌∙◌, ◌++◌}
use langchain_azure.Base.Words.{Text, codes}
use langchain_azure.Blob.Library.{Library, IsDocumented, valid, invalid}
use langchain_azure.Blob.Paths.{key_of, to_blob_key}
use langchain_azure.Blob.Paths.Laws.{name_of, to_blob_key-IsNamed, to_blob_key_injective}
use langchain_azure.Blob.Select.{validated, described_error}
use langchain_azure.Blob.Answers.{bad_path, at_key, target_of, key_at}

module _ (L : Library) (D : IsDocumented L) (prefix : Text) where
  -- A path that validates has a target: its validated form and that form's key.
  pub record HasKey (p q key : Text) : Type 0 where
    pub path : L.validate_path p ≡ valid q
    pub key_made : to_blob_key L prefix q ≡ valid key
    pub target : target_of L prefix p ≡ at_key q key

  pub validated-valid : (p q : Text) → L.validate_path p ≡ valid q → validated L p ≡ valid q
  unfolding validated described_error
  validated-valid p q v = rw (v, validated)

  abbrev pub path_error : Text → Text → Text
  path_error p m = codes "Error: Invalid path '" ++ (p ++ (codes "': " ++ m))

  pub validated-invalid :
      (p m : Text) → L.validate_path p ≡ invalid m → validated L p ≡ invalid (path_error p m)
  unfolding validated described_error
  validated-invalid p m v = rw (v, validated)

  target_of-described : (p m : Text) → validated L p ≡ invalid m → target_of L prefix p ≡ bad_path m
  unfolding target_of
  target_of-described p m v = rw (v, target_of)

  -- An invalid path has no target.
  pub target_of-invalid :
      (p m : Text)
      → L.validate_path p ≡ invalid m
      → target_of L prefix p ≡ bad_path (path_error p m)
  target_of-invalid p m v = target_of-described p (path_error p m) (validated-invalid p m v)

  target_of-valid :
      (p q key : Text)
      → validated L p ≡ valid q
      → to_blob_key L prefix q ≡ valid key
      → target_of L prefix p ≡ at_key q key
  unfolding target_of key_at
  target_of-valid p q key v made = rw (v, target_of) (rw (made, key_at))

  pub key_for : (p q : Text) → L.validate_path p ≡ valid q → (key : Text) × HasKey p q key
  key_for p q v =
      let n = name_of L D p q v in
      let made = to_blob_key-IsNamed L prefix q n.0 n.1 in
      (
        key_of prefix n.0,
        record {
          path = v;
          key_made = made;
          target = target_of-valid p q (key_of prefix n.0) (validated-valid p q v) made;
        },
      )

  pub HasKey-of :
      (p q key : Text)
      → L.validate_path p ≡ valid q
      → to_blob_key L prefix q ≡ valid key
      → HasKey p q key
  HasKey-of p q key v made = record {
    path = v;
    key_made = made;
    target = target_of-valid p q key (validated-valid p q v) made;
  }

  pub HasKey-same : (p q key p' q' : Text) → HasKey p q key → HasKey p' q' key → q ≡ q'
  HasKey-same p q key p' q' h h' =
      to_blob_key_injective L D prefix p q p' q' h.path h'.path (h.key_made ∙ sym h'.key_made)
