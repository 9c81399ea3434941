-- ===== src/Blob/Reads/RoundTrip.antt =====
-- What `read` returns after `write`.
use mathlib.Core.Path.{subst₂}
use langchain_azure.Base.{
  ◌≡◌, refl, sym, ap, ◌∙◌, subst, Bool, true, false, none, some, ◌⊎◌, inl, inr, if◌then◌else◌,
}
use langchain_azure.Base.Integer.{ℤ}
use langchain_azure.Base.Words.{Text}
use langchain_azure.Blob.Library.{Library, IsDocumented, Checked-cases}
use langchain_azure.Blob.Paths.{is_text_file}
use langchain_azure.Blob.Service.{
  Service, IsBlobStore, Outcome, returned, raised, Outcome-cases, Failure, resource_not_found,
}
use langchain_azure.Blob.Answers.{
  Answer, success, error, Target, at_key, ReadData, sliced, base64, read_result_from_bytes,
  read_text, on_missing, not_found_message,
}
use langchain_azure.Blob.Writes.{write, write_at, written}
use langchain_azure.Blob.Writes.Keys.{key_for, target_of-invalid}
use langchain_azure.Blob.Reads.{read, read_at, read_blob}

module _ (L : Library) (D : IsDocumented L) where
  -- What a reader is to see of a text file, and of another.
  abbrev pub shown : Text → Text → ℤ → ℤ → ReadData L
  shown q content offset limit =
      if is_text_file L q
      then sliced (L.slice_read_response content offset limit)
      else base64 (L.b64encode (L.encode_utf8 content))

  read_result_from_bytes-encode :
      (content : Text) (offset limit : ℤ) (text : Bool)
      → read_result_from_bytes L (L.encode_utf8 content) offset limit text ≡ (
          if text
          then sliced (L.slice_read_response content offset limit)
          else base64 (L.b64encode (L.encode_utf8 content)))
  unfolding read_result_from_bytes read_text
  read_result_from_bytes-encode content offset limit true = rw (D.decode-encode content, read_text)
  read_result_from_bytes-encode content offset limit false = refl

module _ (L : Library) (D : IsDocumented L) (S : Service) (W : IsBlobStore S) (prefix : Text) where
  written-returned :
      (q : Text) (r : S.State × Outcome (Unit {0})) {a : Answer Text}
      → (written L S prefix q r).1 ≡ returned a
      → (a ≡ success q) × (r.1 ≡ returned tt) × ((written L S prefix q r).0 ≡ r.0)
  unfolding written
  written-returned q (s, returned u) h = (cc, refl, refl)
  written-returned q (s, raised e) h = absurd (cc)

  on_missing-cases :
      {A : Type 0} (e : Failure) (a : A)
      → ((m : Text) × (e ≡ resource_not_found m)) ⊎ (on_missing e a ≡ raised e)
  unfolding on_missing
  on_missing-cases (resource_not_found m) a = inl (m, refl)
  on_missing-cases (Failure.resource_modified m) a = inr refl
  on_missing-cases (Failure.authentication m) a = inr refl
  on_missing-cases (Failure.http_response c m) a = inr refl
  on_missing-cases (Failure.azure_error m) a = inr refl
  on_missing-cases (Failure.unicode_error m) a = inr refl
  on_missing-cases (Failure.other_error m) a = inr refl

  abbrev pub Shows : S.State → Target → Text → Text → ℤ → ℤ → Type 0
  Shows s t q content offset limit =
      (read_at L S prefix s offset limit t ≡ returned (success (shown L D q content offset limit)))
      ⊎ ((e : Failure) × (read_at L S prefix s offset limit t ≡ raised e))

  -- The read shows the content, or an exception leaves it.
  abbrev pub ShowsContent : S.State → Text → Text → Text → ℤ → ℤ → Type 0
  ShowsContent s p q content offset limit =
      (read L S prefix s p offset limit ≡ returned (success (shown L D q content offset limit)))
      ⊎ ((e : Failure) × (read L S prefix s p offset limit ≡ raised e))

  read_blob-body :
      (q content tag : Text) (offset limit : ℤ)
      → read_blob L S prefix q offset limit
          (returned (record { body = L.encode_utf8 content; etag = tag }))
        ≡ returned (success (shown L D q content offset limit))
  unfolding read_blob
  read_blob-body q content tag offset limit =
      ap (λ r. returned (success r))
        (read_result_from_bytes-encode L D content offset limit (is_text_file L q))

  read_at-content :
      (s : S.State) (q key content tag : Text) (offset limit : ℤ)
      → W.view s key ≡ some (record { body = L.encode_utf8 content; etag = tag })
      → Shows s (at_key q key) q content offset limit
  unfolding read_at
  read_at-content s q key content tag offset limit h =
      elim (Outcome-cases (S.download_blob s key)) [
        | inl (b, e) ↦
            let same : b ≡ record { body = L.encode_utf8 content; etag = tag } =
              cc (W.download_returned s key b e) in
            inl (
              ap (read_blob L S prefix q offset limit) (e ∙ ap returned same)
              ∙ read_blob-body q content tag offset limit)
        | inr (x, e) ↦
            let absent : Answer (ReadData L) = error (not_found_message q) in
            elim (on_missing-cases x absent) [
              | inl (m, missing) ↦
                  absurd (cc (W.download_not_found s key m (e ∙ ap raised missing)))
              | inr kept ↦
                  inr (x, ap (read_blob L S prefix q offset limit) e ∙ unfold read_blob in kept)
            ]
      ]

  write_at-content :
      (s : S.State) (content q' key : Text) {q : Text}
      → (write_at L S prefix s content (at_key q' key)).1 ≡ returned (success q)
      → (q ≡ q')
        × (tag : Text) × (W.view (write_at L S prefix s content (at_key q' key)).0 key
            ≡ some (record { body = L.encode_utf8 content; etag = tag }))
  unfolding write_at
  write_at-content s content q' key h =
      let upload = S.upload_blob s key (L.encode_utf8 content) none in
      let (answer, done, state) = written-returned q' upload h in
      let (tag, stored) = W.upload_returned s key (L.encode_utf8 content) none done in
      (cc answer, tag, ap (λ u. W.view u key) state ∙ stored)

  -- A read after a `write` that succeeded shows the written text (or its bytes in base64, for a path
  -- whose extension is not one of text), or fails with an exception. It never reports the file as
  -- missing and never shows another content.
  pub read-write :
      (s : S.State) (p content q : Text) (offset limit : ℤ)
      → (write L S prefix s p content).1 ≡ returned (success q)
      → ShowsContent (write L S prefix s p content).0 p q content offset limit
  unfolding write read write_at
  read-write s p content q offset limit h = elim (Checked-cases (L.validate_path p)) [
    | inl (m, e) ↦ absurd (
        cc (
          subst (λ t. (write_at L S prefix s content t).1 ≡ returned (success q))
            (target_of-invalid L D prefix p m e) h))
    | inr (q', e) ↦
        let (key, k) = key_for L D prefix p q' e in
        let (same, tag, stored) =
          write_at-content s content q' key
            (subst (λ t. (write_at L S prefix s content t).1 ≡ returned (success q)) k.target h) in
        subst₂ (λ t r. Shows (write_at L S prefix s content t).0 t r content offset limit)
          (sym k.target) (sym same)
          (read_at-content (write_at L S prefix s content (at_key q' key)).0 q' key content tag
            offset limit stored)
  ]
