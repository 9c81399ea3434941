-- ===== src/Blob/Writes/Deletion.antt =====
-- What `delete` removes and what it leaves, by virtual paths.
use mathlib.Core.List.{append_assoc}
use langchain_azure.Base.{
  ◌≡◌, ◌≢◌, refl, sym, ap, ◌∙◌, subst, true, false, Option, none, some, [], ◌∷◌, ◌++◌, inl, inr,
  arith, codes_eq, ◌⊎◌, eq_false, eq_refl, Bool-cases,
}
use langchain_azure.Base.Words.{Text, slash, starts_with, starts_with_refl, starts_with_shorter}
use langchain_azure.Blob.Library.{Library, IsDocumented, valid}
use langchain_azure.Blob.Paths.{to_blob_key, get_prefix_for_path, key_of, listing_prefix}
use langchain_azure.Blob.Paths.Laws.{
  name_of, to_blob_key-IsNamed, get_prefix_for_path-IsNamed, to_blob_key_injective,
  listing_prefix_selects_descendants,
}
use langchain_azure.Blob.Select.{is_exact}
use langchain_azure.Blob.Service.{Service, IsBlobStore, returned}
use langchain_azure.Blob.Answers.{success}
use langchain_azure.Blob.Writes.{
  delete, delete_valid, delete_in, delete_listed, delete_scope, scope_of, listing_start,
}
use langchain_azure.Blob.Writes.Keys.{validated-valid}
use langchain_azure.Blob.Writes.Removal.{is_selected, delete_listed-elsewhere, delete_listed-gone}

abbrev root : Text
root = slash ∷ []

-- The path lies in the subtree of a directory, or is the file itself.
abbrev pub IsWithin : Text → Text → Type 0
IsWithin file dir = (dir ≡ root) ⊎ ((file ≡ dir) ⊎ (starts_with file (dir ++ slash ∷ []) ≡ true))

-- The key is below the path, or is the path's own.
abbrev pub IsInScope : Library → Text → Text → Text → Text → Type 0
IsInScope L prefix q listing j =
    (starts_with j listing ≡ true) ⊎ ((q ≢ root) × (to_blob_key L prefix q ≡ valid j))

listing_prefix-key_of :
    (prefix name : Text) → name ≢ [] → listing_prefix prefix name ≡ key_of prefix name ++ slash ∷ []
unfolding listing_prefix key_of
listing_prefix-key_of prefix [] n = absurd (n refl)
listing_prefix-key_of [] (c ∷ name) n = refl
listing_prefix-key_of (d ∷ prefix) (c ∷ name) n = sym (append_assoc _ (c ∷ name) (slash ∷ []))

valid_injective : (a b : Text) → valid a ≡ valid b → a ≡ b
valid_injective a b e = cc

module _ (L : Library) (S : Service) (prefix : Text) where
  delete_scope-root :
      (q listing : Text)
      → q ≡ root
      → get_prefix_for_path L prefix q ≡ valid listing
      → delete_scope L S prefix q ≡ valid (none, listing)
  unfolding delete_scope scope_of
  delete_scope-root q listing e l = rw (l, scope_of) (rw e (ground arith))

  delete_scope-path :
      (q key listing : Text)
      → q ≢ root
      → to_blob_key L prefix q ≡ valid key
      → get_prefix_for_path L prefix q ≡ valid listing
      → delete_scope L S prefix q ≡ valid (some key, listing)
  unfolding delete_scope scope_of
  delete_scope-path q key listing n k l = rw (l, k) (rw (eq_false q root n) refl)

module _ (L : Library) (D : IsDocumented L) (S : Service) (W : IsBlobStore S) (prefix : Text) where
  delete-eq-delete_listed :
      (s : S.State) (p q descendants : Text) (exact : Option Text)
      → L.validate_path p ≡ valid q
      → delete_scope L S prefix q ≡ valid (exact, descendants)
      → delete L S prefix s p
        ≡ delete_listed L S prefix s q exact descendants
            (S.list_blobs s (listing_start exact descendants))
  unfolding delete delete_valid delete_in
  delete-eq-delete_listed s p q descendants exact v e =
      ap (delete_valid L S prefix s) (validated-valid L D prefix p q v)
      ∙ ap (delete_in L S prefix s q) e

  -- Deleting a path other than the root leaves every file alone that is neither that path nor below
  -- it, whether the delete succeeds, fails in part or fails at all: `/src` does not reach
  -- `/src-backup`.
  pub delete-elsewhere :
      (s : S.State) (p q p' q' key' : Text)
      → L.validate_path p ≡ valid q
      → L.validate_path p' ≡ valid q'
      → to_blob_key L prefix q' ≡ valid key'
      → ¬ (IsWithin q' q)
      → W.view (delete L S prefix s p).0 key' ≡ W.view s key'
  unfolding is_exact
  delete-elsewhere s p q p' q' key' v v' made out =
      let (name, n) = name_of L D p q v in
      let key = key_of prefix name in
      let listing = listing_prefix prefix name in
      let k = to_blob_key-IsNamed L prefix q name n in
      let l = get_prefix_for_path-IsNamed L prefix q name n in
      let not_root : q ≢ root = λ e. out (inl e) in
      let below : starts_with key' listing ≡ starts_with q' (q ++ slash ∷ []) =
        listing_prefix_selects_descendants L D prefix p q p' q' key' listing v v' not_root made l in
      let apart : key' ≢ key = λ e.
        out (
          inr
            (inl (to_blob_key_injective L D prefix p' q' p q v' v (made ∙ ap valid e ∙ sym k)))) in
      let outside : starts_with q' (q ++ slash ∷ []) ≡ false =
        elim (Bool-cases (starts_with q' (q ++ slash ∷ []))) [
          | inl e ↦ absurd (out (inr (inr e)))
          | inr e ↦ e
        ] in
      ap (λ r. W.view r.0 key')
        (delete-eq-delete_listed s p q listing (some key) v
          (delete_scope-path L S prefix q key listing not_root k l))
      ∙ delete_listed-elsewhere L S W prefix s q (some key) listing key' (S.list_blobs s key)
          (rw (eq_false key' key apart) (below ∙ outside))

  gone_in_scope :
      (s : S.State) (p q key' descendants : Text) (exact : Option Text) {reported : Text}
      → L.validate_path p ≡ valid q
      → delete_scope L S prefix q ≡ valid (exact, descendants)
      → is_selected exact descendants key' ≡ true
      → starts_with key' (listing_start exact descendants) ≡ true
      → (delete L S prefix s p).1 ≡ returned (success reported)
      → W.view (delete L S prefix s p).0 key' ≡ none
  gone_in_scope s p q key' descendants exact {reported} v scope chosen listed h =
      let e = delete-eq-delete_listed s p q descendants exact v scope in
      ap (λ r. W.view r.0 key') e
      ∙ delete_listed-gone L S W prefix s q exact descendants key'
          (S.list_blobs s (listing_start exact descendants)) refl chosen listed
          (subst (λ r. r.1 ≡ returned (success reported)) e h)

  -- A delete that reports success has removed the blob of the path, unless it is the root, and every
  -- blob, directory markers included, whose key starts with the path's listing prefix; that of the root
  -- is the backend's own.
  pub delete_removes_subtree :
      (s : S.State) (p q listing j reported : Text)
      → L.validate_path p ≡ valid q
      → get_prefix_for_path L prefix q ≡ valid listing
      → IsInScope L prefix q listing j
      → (delete L S prefix s p).1 ≡ returned (success reported)
      → W.view (delete L S prefix s p).0 j ≡ none
  unfolding is_exact
  delete_removes_subtree s p q listing j reported v l inside h =
      let (name, n) = name_of L D p q v in
      let k = to_blob_key-IsNamed L prefix q name n in
      let made : listing ≡ listing_prefix prefix name =
        valid_injective listing _ (sym l ∙ get_prefix_for_path-IsNamed L prefix q name n) in
      elim (codes_eq.dec q root) [
        | yes e ↦ elim inside [
          | inl starts ↦
              gone_in_scope s p q j listing none v (delete_scope-root L S prefix q listing e l)
                starts starts h
          | inr (not_root, own) ↦ absurd (not_root e)
        ]
        | no not_root ↦
            (let name_ne : name ≢ [] = λ e. not_root (n.path ∙ ap (λ t. slash ∷ t) e) in
              let scope = delete_scope-path L S prefix q _ listing not_root k l in
              elim inside [
                | inl starts ↦
                    gone_in_scope s p q j listing (some (key_of prefix name)) v scope
                      (rw starts (ground arith))
                      (starts_with_shorter j (key_of prefix name) (slash ∷ []) (
                        subst (λ t. starts_with j t ≡ true)
                          (made ∙ listing_prefix-key_of prefix name name_ne) starts))
                      h
                | inr (not_here, own) ↦
                    (let same : j ≡ key_of prefix name = valid_injective j _ (sym own ∙ k) in
                      gone_in_scope s p q j listing (some (key_of prefix name)) v scope
                        (rw same (rw (eq_refl (key_of prefix name)) refl))
                        (rw same (starts_with_refl (key_of prefix name))) h)
              ])
      ]
