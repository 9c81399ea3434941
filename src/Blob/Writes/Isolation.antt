-- ===== src/Blob/Writes/Isolation.antt =====
-- What `write`, `edit` and `upload_files` leave alone, and what `upload_files` answers.
use langchain_azure.Base.{
  ◌≡◌, ◌≢◌, refl, sym, ap, ◌∙◌, subst, Bool, none, some, List, [], ◌∷◌, ℕ, inl, inr, All, ◌⊎◌,
}
use langchain_azure.Base.Words.{Text}
use langchain_azure.Blob.Library.{
  Library, IsDocumented, Checked, Checked-cases, valid, invalid, Replacement, refused, replaced,
}
use langchain_azure.Blob.Paths.{to_blob_key}
use langchain_azure.Blob.Service.{Service, IsBlobStore, Outcome, returned, raised, Blob, Failure}
use langchain_azure.Blob.Answers.{
  Target, bad_path, no_key, at_key, target_of, key_at, UploadResponse,
}
use langchain_azure.Blob.Writes.{
  write, write_at, written, edit, edit_at, edit_blob, edit_text, edit_content, edited, upload_file,
  upload_valid, upload_at, uploaded, upload_files,
}
use langchain_azure.Blob.Select.{invalid_path, operation_error}
use langchain_azure.Blob.Writes.Keys.{HasKey, HasKey-same, HasKey-of, key_for, target_of-invalid}

-- The key of a target, if it has one, is another key.
abbrev pub AvoidsKey : Target → Text → Type 0
AvoidsKey (bad_path m) j = Unit {0}
AvoidsKey (no_key m) j = Unit {0}
AvoidsKey (at_key q key) j = j ≢ key

module _ (L : Library) (S : Service) (W : IsBlobStore S) (prefix : Text) where
  written-state : (q : Text) (r : S.State × Outcome (Unit {0})) → (written L S prefix q r).0 ≡ r.0
  unfolding written
  written-state q (s, returned u) = refl
  written-state q (s, raised e) = refl

  write_at-elsewhere :
      (s : S.State) (content : Text) (t : Target) (j : Text)
      → AvoidsKey t j
      → W.view (write_at L S prefix s content t).0 j ≡ W.view s j
  unfolding write_at
  write_at-elsewhere s content (bad_path m) j n = refl
  write_at-elsewhere s content (no_key m) j n = refl
  write_at-elsewhere s content (at_key q key) j n =
      ap (λ u. W.view u j) (written-state q (S.upload_blob s key (L.encode_utf8 content) none))
      ∙ W.upload_elsewhere s key (L.encode_utf8 content) none j n

  edited-state :
      (q : Text) (n : ℕ) (r : S.State × Outcome (Unit {0})) → (edited L S prefix q n r).0 ≡ r.0
  unfolding edited
  edited-state q n (s, returned u) = refl
  edited-state q n (s, raised e) = refl

  uploaded-state : (q : Text) (r : S.State × Outcome (Unit {0})) → (uploaded L S prefix q r).0 ≡ r.0
  unfolding uploaded
  uploaded-state q (s, returned u) = refl
  uploaded-state q (s, raised e) = refl

module _ (L : Library) (S : Service) (W : IsBlobStore S) (prefix : Text) (j : Text) where
  -- Other clients keep the blob `j`.
  abbrev pub KeepsKey : (S.State → S.State) → Type 0
  KeepsKey between = (s : S.State) → W.view (between s) j ≡ W.view s j

  edit_content-elsewhere :
      (s now : S.State) (q key tag : Text) (r : Replacement)
      → W.view now j ≡ W.view s j
      → j ≢ key
      → W.view (edit_content L S prefix s now q key tag r).0 j ≡ W.view s j
  unfolding edit_content
  edit_content-elsewhere s now q key tag (refused m) k n = refl
  edit_content-elsewhere s now q key tag (replaced content count) k n =
      ap (λ u. W.view u j)
        (edited-state L S W prefix q count
          (S.upload_blob now key (L.encode_utf8 content) (some tag)))
      ∙ W.upload_elsewhere now key (L.encode_utf8 content) (some tag) j n
      ∙ k

  edit_text-elsewhere :
      (s now : S.State) (q key tag old new : Text) (all : Bool) (c : Checked Text)
      → W.view now j ≡ W.view s j
      → j ≢ key
      → W.view (edit_text L S prefix s now q key tag old new all c).0 j ≡ W.view s j
  unfolding edit_text
  edit_text-elsewhere s now q key tag old new all (invalid m) k n = refl
  edit_text-elsewhere s now q key tag old new all (valid c) k n =
      edit_content-elsewhere s now q key tag _ k n

  edit_blob-elsewhere :
      (s now : S.State) (q key old new : Text) (all : Bool) (o : Outcome Blob)
      → W.view now j ≡ W.view s j
      → j ≢ key
      → W.view (edit_blob L S prefix s now q key old new all o).0 j ≡ W.view s j
  unfolding edit_blob
  edit_blob-elsewhere s now q key old new all (raised e) k n = refl
  edit_blob-elsewhere s now q key old new all (returned b) k n =
      edit_text-elsewhere s now q key b.etag old new all (L.decode_utf8 b.body) k n

  edit_at-elsewhere :
      (s : S.State) (between : S.State → S.State) (old new : Text) (all : Bool) (t : Target)
      → KeepsKey between
      → AvoidsKey t j
      → W.view (edit_at L S prefix s between old new all t).0 j ≡ W.view s j
  unfolding edit_at
  edit_at-elsewhere s between old new all (bad_path m) k n = refl
  edit_at-elsewhere s between old new all (no_key m) k n = refl
  edit_at-elsewhere s between old new all (at_key q key) k n =
      edit_blob-elsewhere s (between s) q key old new all (S.download_blob s key) (k s) n

  upload_at-elsewhere :
      (s : S.State) (q : Text) (content : List ℕ) (c : Checked Text)
      → AvoidsKey (key_at L prefix q c) j
      → W.view (upload_at L S prefix s q content c).0 j ≡ W.view s j
  unfolding upload_at key_at
  upload_at-elsewhere s q content (invalid m) n = refl
  upload_at-elsewhere s q content (valid key) n =
      ap (λ u. W.view u j) (uploaded-state L S W prefix q (S.upload_blob s key content none))
      ∙ W.upload_elsewhere s key content none j n

module _ (L : Library) (D : IsDocumented L) (prefix : Text) where
  target_of-avoids :
      (p p' q' key' : Text)
      → HasKey L D prefix p' q' key'
      → L.validate_path p ≢ valid q'
      → AvoidsKey (target_of L prefix p) key'
  target_of-avoids p p' q' key' h n = elim (Checked-cases (L.validate_path p)) [
    | inl (m, e) ↦ subst (λ t. AvoidsKey t key') (sym (target_of-invalid L D prefix p m e)) tt
    | inr (q, e) ↦
        let (key, k) = key_for L D prefix p q e in
        subst (λ t. AvoidsKey t key') (sym k.target)
          λ same. n (
            e
            ∙ ap valid (
                HasKey-same L D prefix p q key p' q' k
                  (subst (λ j. HasKey L D prefix p' q' j) same h)))
  ]

module _ (L : Library) (D : IsDocumented L) (S : Service) (W : IsBlobStore S) (prefix : Text) where
  -- What a response says of the upload of one file, and what the upload has done.
  abbrev pub IsAnswer : S.State → Text × List ℕ → S.State → UploadResponse → Type 0
  IsAnswer s (p, content) now response =
      ((m : Text) × (L.validate_path p ≡ invalid m)
        × (response.path ≡ p)
        × (response.error ≡ some invalid_path)
        × (now ≡ s))
      ⊎ ((q : Text) × (key : Text) × (L.validate_path p ≡ valid q)
          × (to_blob_key L prefix q ≡ valid key)
          × (response.path ≡ q)
          × (((response.error ≡ none)
                × ((etag : Text) × (W.view now key
                      ≡ some (record { body = content; etag = etag }))))
              ⊎ ((e : Failure) × ((S.upload_blob s key content none).1 ≡ raised e)
                  × (response.error ≡ some (operation_error e)))))

  -- One response for each file, in order, each upload after the ones before it.
  abbrev pub AreAnswers : S.State → List (Text × List ℕ) → S.State → List UploadResponse → Type 0
  AreAnswers s [] now responses = (now ≡ s) × (responses ≡ [])
  AreAnswers s (file ∷ files) now responses =
      (next : S.State) × (response : UploadResponse) × (rest : List UploadResponse) × (responses
        ≡ response ∷ rest)
      × IsAnswer s file next response
      × AreAnswers next files now rest

  -- `write` changes no file but the one that its path names, whether it succeeds, is refused or
  -- fails: the blob of any path that validates to something else keeps its content.
  pub write-elsewhere :
      (s : S.State) (p content p' q' key' : Text)
      → L.validate_path p' ≡ valid q'
      → to_blob_key L prefix q' ≡ valid key'
      → L.validate_path p ≢ valid q'
      → W.view (write L S prefix s p content).0 key' ≡ W.view s key'
  unfolding write
  write-elsewhere s p content p' q' key' v made n =
      write_at-elsewhere L S W prefix s content (target_of L prefix p) key'
        (target_of-avoids L D prefix p p' q' key' (HasKey-of L D prefix p' q' key' v made) n)

  -- The same holds of `edit`, where other clients that act during the edit leave that file alone.
  pub edit-elsewhere :
      (s : S.State) (between : S.State → S.State) (p old new : Text) (all : Bool)
      (p' q' key' : Text)
      → L.validate_path p' ≡ valid q'
      → to_blob_key L prefix q' ≡ valid key'
      → L.validate_path p ≢ valid q'
      → KeepsKey L S W prefix key' between
      → W.view (edit L S prefix s between p old new all).0 key' ≡ W.view s key'
  unfolding edit
  edit-elsewhere s between p old new all p' q' key' v made n k =
      edit_at-elsewhere L S W prefix key' s between old new all (target_of L prefix p) k
        (target_of-avoids L D prefix p p' q' key' (HasKey-of L D prefix p' q' key' v made) n)

  upload_valid-elsewhere :
      (s : S.State) (p : Text) (content : List ℕ) (c : Checked Text) (p' q' key' : Text)
      → L.validate_path p ≡ c
      → HasKey L D prefix p' q' key'
      → c ≢ valid q'
      → W.view (upload_valid L S prefix s p content c).0 key' ≡ W.view s key'
  unfolding upload_valid key_at
  upload_valid-elsewhere s p content (invalid m) p' q' key' e h n = refl
  upload_valid-elsewhere s p content (valid q) p' q' key' e h n =
      let (key, k) = key_for L D prefix p q e in
      upload_at-elsewhere L S W prefix key' s q content (to_blob_key L prefix q) (
        subst (λ c. AvoidsKey (key_at L prefix q c) key') (sym k.key_made)
          λ same. n (
            ap valid (
              HasKey-same L D prefix p q key p' q' k
                (subst (λ j. HasKey L D prefix p' q' j) same h))))

  IsAnswer-uploaded :
      (s : S.State) (p q key : Text) (content : List ℕ)
      → HasKey L D prefix p q key
      → (o : Outcome (Unit {0})) → (S.upload_blob s key content none).1 ≡ o
      → IsAnswer s
          (p, content)
          (S.upload_blob s key content none).0
          (uploaded L S prefix q ((S.upload_blob s key content none).0, o)).1
  unfolding uploaded
  IsAnswer-uploaded s p q key content k (returned u) e =
      inr (q, key, k.path, k.key_made, refl, inl (refl, W.upload_returned s key content none e))
  IsAnswer-uploaded s p q key content k (raised failure) e =
      inr (q, key, k.path, k.key_made, refl, inr (failure, e, refl))

  IsAnswer-upload_valid :
      (s : S.State) (p : Text) (content : List ℕ) (c : Checked Text)
      → L.validate_path p ≡ c
      → IsAnswer s
          (p, content)
          (upload_valid L S prefix s p content c).0
          (upload_valid L S prefix s p content c).1
  unfolding upload_valid upload_at
  IsAnswer-upload_valid s p content (invalid m) e = inl (m, e, refl, refl, refl)
  IsAnswer-upload_valid s p content (valid q) e =
      let (key, k) = key_for L D prefix p q e in
      let o = S.upload_blob s key content none in
      subst
        (λ c.
          IsAnswer s (p, content) (upload_at L S prefix s q content c).0
            (upload_at L S prefix s q content c).1)
        (sym k.key_made)
        (subst (λ now. IsAnswer s (p, content) now (uploaded L S prefix q o).1)
          (sym (uploaded-state L S W prefix q o)) (IsAnswer-uploaded s p q key content k o.1 refl))

  -- `upload_files` answers each file in turn: a path that does not validate is refused and changes
  -- nothing; any other is reported, under its validated form, without an error after its content is
  -- stored in its blob, or with the error of the upload that failed. A file that none of the paths
  -- names keeps its content, whatever the uploads' outcomes.
  pub upload_files-elsewhere :
      (s : S.State) (files : List (Text × List ℕ)) (p' q' key' : Text)
      → L.validate_path p' ≡ valid q'
      → to_blob_key L prefix q' ≡ valid key'
      → All (λ f. L.validate_path f.0 ≢ valid q') files
      → (W.view (upload_files L S prefix s files).0 key' ≡ W.view s key')
        × AreAnswers s files (upload_files L S prefix s files).0 (upload_files L S prefix s files).1
  unfolding upload_files upload_file
  upload_files-elsewhere s [] p' q' key' v made h = (refl, (refl, refl))
  upload_files-elsewhere s ((p, content) ∷ files) p' q' key' v made (n, h) =
      let s' = (upload_file L S prefix s (p, content)).0 in
      let rest = upload_files-elsewhere s' files p' q' key' v made h in
      (
        rest.0
            ∙ upload_valid-elsewhere s p content (L.validate_path p) p' q' key' refl
                (HasKey-of L D prefix p' q' key' v made) n,
        (s', _, _, refl, IsAnswer-upload_valid s p content (L.validate_path p) refl, rest.1),
      )
