-- ===== src/Blob/Writes/Editing.antt =====
-- What a successful `edit` has done, with other clients at work during it.
use langchain_azure.Base.{◌≡◌, ◌≢◌, refl, sym, ap, ◌∙◌, subst, Bool, some, ℕ, inl, inr, arith}
use langchain_azure.Base.Words.{Text}
use langchain_azure.Blob.Library.{
  Library, IsDocumented, Checked, Checked-cases, valid, invalid, Replacement, refused, replaced,
}
use langchain_azure.Blob.Paths.{to_blob_key}
use langchain_azure.Blob.Service.{Service, IsBlobStore, Outcome, returned, raised, Blob, Failure}
use langchain_azure.Blob.Answers.{success, error, at_key, on_missing, on_modified}
use langchain_azure.Blob.Writes.{edit, edit_at, edit_blob, edit_text, edit_content, edited}
use langchain_azure.Blob.Writes.Keys.{key_for, target_of-invalid}

module _ (L : Library) (S : Service) (W : IsBlobStore S) (prefix : Text) where
  -- An ETag seen before the other clients' actions still names the same bytes after them.
  abbrev pub TagsIdentify : S.State → S.State → Type 0
  TagsIdentify s now =
      (k : Text) (b b' : Blob)
      → W.view s k ≡ some b
      → W.view now k ≡ some b'
      → b'.etag ≡ b.etag
      → b'.body ≡ b.body

  -- The edit of `old` to `new` applied to the text that the key held at the time of the upload.
  pub record IsReplaced (now after : S.State) (key old new : Text) (all : Bool) (count : ℕ)
      : Type 0 where
    pub before : Blob
    pub held : W.view now key ≡ some before
    pub text : Text
    pub decoded : L.decode_utf8 before.body ≡ valid text
    pub result : Text
    pub replacement : L.perform_string_replacement text old new all ≡ replaced result count
    pub tag : Text
    pub stored : W.view after key ≡ some (record { body = L.encode_utf8 result; etag = tag })

  on_missing-error :
      (e : Failure) (m : Text) {x : Text × ℕ} → on_missing e (error m) ≢ returned (success x)
  unfolding on_missing
  on_missing-error e m h = ground arith

  edited-success :
      (q : Text) (n : ℕ) (r : S.State × Outcome (Unit {0})) {x : Text × ℕ}
      → (edited L S prefix q n r).1 ≡ returned (success x)
      → (x ≡ (q, n)) × (r.1 ≡ returned tt) × ((edited L S prefix q n r).0 ≡ r.0)
  unfolding edited on_modified
  edited-success q n (s, returned u) h = (cc, refl, refl)
  edited-success q n (s, raised e) h = absurd (ground arith)

  module _ (s now : S.State) (q key : Text) (b : Blob) (old new : Text) (all : Bool)
      (known : TagsIdentify s now) (there : W.view s key ≡ some b) where
    edit_content-success :
        (text : Text) (r : Replacement) {x : Text} {n : ℕ}
        → L.decode_utf8 b.body ≡ valid text
        → L.perform_string_replacement text old new all ≡ r
        → (edit_content L S prefix s now q key b.etag r).1 ≡ returned (success (x, n))
        → (x ≡ q)
          × IsReplaced now (edit_content L S prefix s now q key b.etag r).0 key old new all n
    unfolding edit_content
    edit_content-success text (refused m) d e h = absurd (cc)
    edit_content-success text (replaced result count) d e h =
        let upload = S.upload_blob now key (L.encode_utf8 result) (some b.etag) in
        let (answer, done, state) = edited-success q count upload h in
        let (b', held, tags) = W.upload_condition now key (L.encode_utf8 result) b.etag done in
        let (tag, stored) = W.upload_returned now key (L.encode_utf8 result) (some b.etag) done in
        (
          ap (λ p. p.0) answer,
          record {
            before = b';
            held = held;
            text = text;
            decoded = ap L.decode_utf8 (known key b b' there held tags) ∙ d;
            result = result;
            replacement = e ∙ ap (replaced result) (sym (ap (λ p. p.1) answer));
            tag = tag;
            stored = ap (λ u. W.view u key) state ∙ stored;
          },
        )

    edit_text-success :
        (c : Checked Text) {x : Text} {n : ℕ}
        → L.decode_utf8 b.body ≡ c
        → (edit_text L S prefix s now q key b.etag old new all c).1 ≡ returned (success (x, n))
        → (x ≡ q)
          × IsReplaced now
              (edit_text L S prefix s now q key b.etag old new all c).0
              key
              old
              new
              all
              n
    unfolding edit_text
    edit_text-success (invalid m) d h = absurd (cc)
    edit_text-success (valid text) d h =
        edit_content-success text (L.perform_string_replacement text old new all) d refl h

  edit_blob-success :
      (s now : S.State) (q key old new : Text) (all : Bool) (o : Outcome Blob) {x : Text} {n : ℕ}
      → TagsIdentify s now
      → S.download_blob s key ≡ o
      → (edit_blob L S prefix s now q key old new all o).1 ≡ returned (success (x, n))
      → (x ≡ q)
        × IsReplaced now (edit_blob L S prefix s now q key old new all o).0 key old new all n
  unfolding edit_blob
  edit_blob-success s now q key old new all (raised e) known d h = absurd (on_missing-error e _ h)
  edit_blob-success s now q key old new all (returned b) known d h =
      edit_text-success s now q key b old new all known (W.download_returned s key b d)
        (L.decode_utf8 b.body) refl h

  edit_at-success :
      (s : S.State) (between : S.State → S.State) (q key old new : Text) (all : Bool) {x : Text}
      {n : ℕ}
      → TagsIdentify s (between s)
      → (edit_at L S prefix s between old new all (at_key q key)).1 ≡ returned (success (x, n))
      → (x ≡ q)
        × IsReplaced
            (between s)
            (edit_at L S prefix s between old new all (at_key q key)).0
            key
            old
            new
            all
            n
  unfolding edit_at
  edit_at-success s between q key old new all known h =
      edit_blob-success s (between s) q key old new all (S.download_blob s key) known refl h

module _ (L : Library) (D : IsDocumented L) (S : Service) (W : IsBlobStore S) (prefix : Text) where
  -- No update is lost: if `edit` reports success with `n` occurrences, then, whatever other clients
  -- did between its download and its upload, the file held a text at the moment of the upload, the
  -- new content is that very text with `old` replaced, `n` is its count, and the result is stored
  -- under the key of the reported path. ETags are taken to name contents.
  pub edit_no_lost_update :
      (s : S.State) (between : S.State → S.State) (p old new q : Text) (all : Bool) (n : ℕ)
      → TagsIdentify L S W prefix s (between s)
      → (edit L S prefix s between p old new all).1 ≡ returned (success (q, n))
      → (key : Text) × (to_blob_key L prefix q ≡ valid key)
        × IsReplaced L S W prefix
            (between s)
            (edit L S prefix s between p old new all).0
            key
            old
            new
            all
            n
  unfolding edit edit_at
  edit_no_lost_update s between p old new q all n known h =
      elim (Checked-cases (L.validate_path p)) [
        | inl (m, e) ↦ absurd (
            cc (
              subst
                (λ t. (edit_at L S prefix s between old new all t).1 ≡ returned (success (q, n)))
                (target_of-invalid L D prefix p m e) h))
        | inr (q', e) ↦
            let (key, k) = key_for L D prefix p q' e in
            let (same, result) = edit_at-success L S W prefix s between q' key old new all known (
              subst
                (λ t. (edit_at L S prefix s between old new all t).1 ≡ returned (success (q, n)))
                k.target h) in
            (
              key,
              ap (to_blob_key L prefix) same ∙ k.key_made,
              subst
                  (λ t.
                    IsReplaced L S W prefix (between s)
                      (edit_at L S prefix s between old new all t).0 key old new all n)
                  (sym k.target) result,
            )
      ]
