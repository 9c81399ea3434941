-- ===== src/Blob/Writes/Removal.antt =====
-- The keys that `delete` selects and removes.
use langchain_azure.Base.{
  ◌≡◌, ◌≢◌, refl, sym, ap, ◌∙◌, subst, Bool, true, false, Option, none, some, List, [], ◌∷◌, ℕ, inl,
  inr, All, In, ◌||◌, codes_eq, ◌⊎◌, Bool-cases, Option-cases,
}
use langchain_azure.Base.Words.{Text, starts_with}
use langchain_azure.Blob.Library.{Library}
use langchain_azure.Blob.Select.{keys_to_delete, is_exact}
use langchain_azure.Blob.Service.{
  Service, IsBlobStore, Outcome, returned, raised, Failure, Item, blob, item_name,
  resource_not_found, Failure,
}
use langchain_azure.Blob.Answers.{success, is_azure_error}
use langchain_azure.Blob.Writes.{
  delete_listed, delete_keys, deleted, remove_all, removal, add_failed, listing_start,
}

-- The test of `_keys_to_delete`.
abbrev pub is_selected : Option Text → Text → Text → Bool
is_selected exact descendants name = is_exact exact name || starts_with name descendants

-- What is not selected is not among the keys to delete.
pub keys_to_delete-avoid :
    (items : List Item) (exact : Option Text) (descendants j : Text)
    → is_selected exact descendants j ≡ false
    → All (λ k. j ≢ k) (keys_to_delete items exact descendants)
unfolding keys_to_delete
keys_to_delete-avoid [] exact descendants j h = tt
keys_to_delete-avoid (item ∷ items) exact descendants j h =
    let rest = keys_to_delete-avoid items exact descendants j h in
    elim (Bool-cases (is_selected exact descendants (item_name item))) [
      | inl e ↦ rw e ((λ same. cc (ap (is_selected exact descendants) same)), rest)
      | inr e ↦ rw e rest
    ]

-- What is listed and selected is among the keys to delete.
pub keys_to_delete-has :
    (items : List Item) (exact : Option Text) (descendants : Text) (i : Item)
    → is_selected exact descendants (item_name i) ≡ true
    → In i items
    → In (item_name i) (keys_to_delete items exact descendants)
unfolding keys_to_delete
keys_to_delete-has [] exact descendants i h m = m
keys_to_delete-has (item ∷ items) exact descendants i h (inl e) =
    rw (ap (λ x. is_selected exact descendants (item_name x)) (sym e) ∙ h) (inl (ap item_name e))
keys_to_delete-has (item ∷ items) exact descendants i h (inr m) =
    let rest = keys_to_delete-has items exact descendants i h m in
    elim (Bool-cases (is_selected exact descendants (item_name item))) [
      | inl e ↦ rw e (inr rest)
      | inr e ↦ rw e rest
    ]

module _ (L : Library) (S : Service) (W : IsBlobStore S) (prefix : Text) where
  remove_all-elsewhere :
      (s : S.State) (keys : List Text) (j : Text)
      → All (λ k. j ≢ k) keys
      → W.view (remove_all L S prefix s keys).0 j ≡ W.view s j
  unfolding remove_all
  remove_all-elsewhere s [] j h = refl
  remove_all-elsewhere s (k ∷ keys) j (n, h) =
      remove_all-elsewhere (S.delete_blob s k).0 keys j h ∙ W.delete_elsewhere s k j n

  delete_blob-absent :
      (s : S.State) (k j : Text) → W.view s j ≡ none → W.view (S.delete_blob s k).0 j ≡ none
  delete_blob-absent s k j h = elim (codes_eq.dec j k) [
    | yes e ↦
        subst (λ i. W.view (S.delete_blob s k).0 i ≡ none) (sym e)
          (W.delete_absent s k (ap (W.view s) (sym e) ∙ h))
    | no n ↦ W.delete_elsewhere s k j n ∙ h
  ]

  -- Removing keys creates none.
  remove_all-absent :
      (s : S.State) (keys : List Text) (j : Text)
      → W.view s j ≡ none
      → W.view (remove_all L S prefix s keys).0 j ≡ none
  unfolding remove_all
  remove_all-absent s [] j h = h
  remove_all-absent s (k ∷ keys) j h =
      remove_all-absent (S.delete_blob s k).0 keys j (delete_blob-absent s k j h)

  add_failed-nil :
      (o : Outcome (Option Text)) (rest : Outcome (List Text))
      → add_failed L S prefix o rest ≡ returned []
      → (o ≡ returned none) × (rest ≡ returned [])
  unfolding add_failed
  add_failed-nil (raised e) rest h = absurd (cc)
  add_failed-nil (returned none) (raised e) h = absurd (cc)
  add_failed-nil (returned (some p)) (raised e) h = absurd (cc)
  add_failed-nil (returned none) (returned failed) h = (refl, h)
  add_failed-nil (returned (some p)) (returned failed) h = absurd (cc)

  removal-none :
      (k : Text) (o : Outcome (Unit {0}))
      → removal L S prefix k o ≡ returned none
      → (o ≡ returned tt) ⊎ ((m : Text) × (o ≡ raised (resource_not_found m)))
  unfolding removal is_azure_error
  removal-none k (returned u) h = inl refl
  removal-none k (raised (resource_not_found m)) h = inr (m, refl)
  removal-none k (raised (Failure.resource_modified m)) h = absurd (cc)
  removal-none k (raised (Failure.authentication m)) h = absurd (cc)
  removal-none k (raised (Failure.http_response c m)) h = absurd (cc)
  removal-none k (raised (Failure.azure_error m)) h = absurd (cc)
  removal-none k (raised (Failure.unicode_error m)) h = absurd (cc)
  removal-none k (raised (Failure.other_error m)) h = absurd (cc)

  removal-absent :
      (s : S.State) (k : Text)
      → removal L S prefix k (S.delete_blob s k).1 ≡ returned none
      → W.view (S.delete_blob s k).0 k ≡ none
  removal-absent s k h = elim (removal-none k (S.delete_blob s k).1 h) [
    | inl done ↦ W.delete_returned s k done
    | inr (m, missing) ↦ W.delete_not_found s k m missing
  ]

  -- When no removal failed, every key is gone.
  remove_all-gone :
      (s : S.State) (keys : List Text) (j : Text)
      → (remove_all L S prefix s keys).1 ≡ returned []
      → In j keys
      → W.view (remove_all L S prefix s keys).0 j ≡ none
  unfolding remove_all
  remove_all-gone s [] j h m = absurd m
  remove_all-gone s (k ∷ keys) j h (inl e) =
      let (first, rest) = add_failed-nil _ _ h in
      remove_all-absent (S.delete_blob s k).0 keys j
        (ap (W.view (S.delete_blob s k).0) e ∙ removal-absent s k first)
  remove_all-gone s (k ∷ keys) j h (inr m) =
      let (first, rest) = add_failed-nil _ _ h in
      remove_all-gone (S.delete_blob s k).0 keys j rest m

  deleted-state :
      (q : Text) (n : ℕ) (r : S.State × Outcome (List Text)) → (deleted L S prefix q n r).0 ≡ r.0
  unfolding deleted
  deleted-state q n (s, raised e) = refl
  deleted-state q n (s, returned []) = refl
  deleted-state q n (s, returned (p ∷ failed)) = refl

  deleted-success :
      (q : Text) (n : ℕ) (r : S.State × Outcome (List Text)) {x : Text}
      → (deleted L S prefix q n r).1 ≡ returned (success x)
      → r.1 ≡ returned []
  unfolding deleted
  deleted-success q n (s, raised e) h = absurd (cc)
  deleted-success q n (s, returned []) h = refl
  deleted-success q n (s, returned (p ∷ failed)) h = absurd (cc)

  delete_keys-elsewhere :
      (s : S.State) (q : Text) (keys : List Text) (j : Text)
      → All (λ k. j ≢ k) keys
      → W.view (delete_keys L S prefix s q keys).0 j ≡ W.view s j
  unfolding delete_keys
  delete_keys-elsewhere s q [] j h = refl
  delete_keys-elsewhere s q (k ∷ keys) j h =
      ap (λ u. W.view u j) (deleted-state q _ (remove_all L S prefix s (k ∷ keys)))
      ∙ remove_all-elsewhere s (k ∷ keys) j h

  delete_keys-gone :
      (s : S.State) (q : Text) (keys : List Text) (j : Text) {x : Text}
      → (delete_keys L S prefix s q keys).1 ≡ returned (success x)
      → In j keys
      → W.view (delete_keys L S prefix s q keys).0 j ≡ none
  unfolding delete_keys
  delete_keys-gone s q [] j h m = absurd m
  delete_keys-gone s q (k ∷ keys) j h m =
      ap (λ u. W.view u j) (deleted-state q _ (remove_all L S prefix s (k ∷ keys)))
      ∙ remove_all-gone s (k ∷ keys) j (deleted-success q _ (remove_all L S prefix s (k ∷ keys)) h)
          m

  delete_keys-absent :
      (s : S.State) (q : Text) (keys : List Text) (j : Text)
      → W.view s j ≡ none
      → W.view (delete_keys L S prefix s q keys).0 j ≡ none
  unfolding delete_keys
  delete_keys-absent s q [] j h = h
  delete_keys-absent s q (k ∷ keys) j h =
      ap (λ u. W.view u j) (deleted-state q _ (remove_all L S prefix s (k ∷ keys)))
      ∙ remove_all-absent s (k ∷ keys) j h

  pub delete_listed-elsewhere :
      (s : S.State) (q : Text) (exact : Option Text) (descendants j : Text)
      (o : Outcome (List Item))
      → is_selected exact descendants j ≡ false
      → W.view (delete_listed L S prefix s q exact descendants o).0 j ≡ W.view s j
  unfolding delete_listed
  delete_listed-elsewhere s q exact descendants j (raised e) h = refl
  delete_listed-elsewhere s q exact descendants j (returned items) h =
      delete_keys-elsewhere s q (keys_to_delete items exact descendants) j
        (keys_to_delete-avoid items exact descendants j h)

  pub delete_listed-gone :
      (s : S.State) (q : Text) (exact : Option Text) (descendants j : Text)
      (o : Outcome (List Item)) {x : Text}
      → S.list_blobs s (listing_start exact descendants) ≡ o
      → is_selected exact descendants j ≡ true
      → starts_with j (listing_start exact descendants) ≡ true
      → (delete_listed L S prefix s q exact descendants o).1 ≡ returned (success x)
      → W.view (delete_listed L S prefix s q exact descendants o).0 j ≡ none
  unfolding delete_listed
  delete_listed-gone s q exact descendants j (raised e) l c p h = absurd (cc)
  delete_listed-gone s q exact descendants j (returned items) l c p h =
      elim (Option-cases (W.view s j)) [
        | inl e ↦ delete_keys-absent s q (keys_to_delete items exact descendants) j e
        | inr (b, e) ↦
            let (size, modified, m) =
              W.listed s (listing_start exact descendants) items j l (λ n. cc) p in
            delete_keys-gone s q (keys_to_delete items exact descendants) j h
              (keys_to_delete-has items exact descendants (blob j size modified) c m)
      ]
