-- ===== src/Blob/Service.antt =====
-- The blob container as the backend sees it: the operations of the Azure SDK's clients that
-- backend.py calls, over an unknown state, and what the SDK documents of them.
pub mod Memory
use langchain_azure.Base.{
  ℕ, Bool, true, false, Option, none, some, List, [], ◌∷◌, ◌≡◌, ◌≢◌, ◌⊎◌, inl, inr, refl,
  if◌then◌else◌, ◌==◌, codes_eq, option_eq, In, ◌||◌,
}
use langchain_azure.Base.Words.{Text, starts_with}

-- The exceptions that the backend tells apart: `ResourceNotFoundError`, `ResourceModifiedError`
-- and `ClientAuthenticationError` are HTTP errors, those are Azure errors, and a decoding error is
-- none of them. Each carries the text of `str(exc)`.
pub data Failure : Type 0 where
  resource_not_found : Text → Failure
  resource_modified : Text → Failure
  authentication : Text → Failure
  http_response : Option ℕ → Text → Failure
  azure_error : Text → Failure
  unicode_error : Text → Failure
  other_error : Text → Failure

-- What a call returns, or the exception that leaves it.
pub data Outcome (A : Type 0) : Type 0 where
  returned : A → Outcome A
  raised : Failure → Outcome A

pub Outcome-cases :
    {A : Type 0} (o : Outcome A) → ((a : A) × (o ≡ returned a)) ⊎ ((e : Failure) × (o ≡ raised e))
Outcome-cases (returned a) = inl (a, refl)
Outcome-cases (raised e) = inr (e, refl)

-- A downloaded blob.
pub record Blob : Type 0 where
  pub body : List ℕ
  pub etag : Text

-- An entry of a listing. `BlobPrefix` entries come from delimited walks only.
pub data Item : Type 0 where
  blob_prefix : Text → Item
  blob : Text → Option ℕ → Option Text → Item

-- item.name
abbrev pub item_name : Item → Text
item_name (blob_prefix name) = name
item_name (blob name size modified) = name

pub record Service : Type 1 where
  pub State : Type 0
  pub download_blob : State → Text → Outcome Blob
  -- with `some etag`: `match_condition=IfNotModified`
  pub upload_blob : State → Text → List ℕ → Option Text → State × Outcome (Unit {0})
  pub delete_blob : State → Text → State × Outcome (Unit {0})
  -- `name_starts_with`, where `None` and "" select every blob
  pub list_blobs : State → Text → Outcome (List Item)
  -- with `delimiter="/"`
  pub walk_blobs : State → Text → Outcome (List Item)

-- What the SDK documents. `view` is the content of the container: body and ETag of each key.
pub record IsBlobStore (S : Service) : Type 1 where
  pub view : S.State → Text → Option Blob
  -- a download returns what is there, reports a missing key, or fails for another reason
  pub download_returned :
      (s : S.State) (k : Text) (b : Blob) → S.download_blob s k ≡ returned b → view s k ≡ some b
  pub download_not_found :
      (s : S.State) (k m : Text)
      → S.download_blob s k ≡ raised (resource_not_found m)
      → view s k ≡ none
  -- an upload that returns has stored the bytes, whatever it does it leaves other keys alone, and
  -- if the condition fails it leaves its own key alone
  pub upload_returned :
      (s : S.State) (k : Text) (v : List ℕ) (c : Option Text)
      → (S.upload_blob s k v c).1 ≡ returned tt
      → (etag : Text) × (view (S.upload_blob s k v c).0 k ≡ some (record { body = v; etag = etag }))
  pub upload_elsewhere :
      (s : S.State) (k : Text) (v : List ℕ) (c : Option Text) (j : Text)
      → j ≢ k
      → view (S.upload_blob s k v c).0 j ≡ view s j
  pub upload_modified :
      (s : S.State) (k : Text) (v : List ℕ) (c : Option Text) (m : Text)
      → (S.upload_blob s k v c).1 ≡ raised (resource_modified m)
      → view (S.upload_blob s k v c).0 k ≡ view s k
  -- a conditional upload returns only if the blob is there with that ETag
  pub upload_condition :
      (s : S.State) (k : Text) (v : List ℕ) (tag : Text)
      → (S.upload_blob s k v (some tag)).1 ≡ returned tt
      → (b : Blob) × (view s k ≡ some b) × (b.etag ≡ tag)
  -- after a delete that returns or does not find the blob it is gone; no delete
  -- creates a blob, and other keys are left alone
  pub delete_returned :
      (s : S.State) (k : Text)
      → (S.delete_blob s k).1 ≡ returned tt
      → view (S.delete_blob s k).0 k ≡ none
  pub delete_not_found :
      (s : S.State) (k m : Text)
      → (S.delete_blob s k).1 ≡ raised (resource_not_found m)
      → view (S.delete_blob s k).0 k ≡ none
  pub delete_absent :
      (s : S.State) (k : Text) → view s k ≡ none → view (S.delete_blob s k).0 k ≡ none
  pub delete_elsewhere :
      (s : S.State) (k j : Text) → j ≢ k → view (S.delete_blob s k).0 j ≡ view s j
  -- a listing holds the keys with the prefix, and no other
  pub listed :
      (s : S.State) (p : Text) (items : List Item) (k : Text)
      → S.list_blobs s p ≡ returned items
      → view s k ≢ none
      → starts_with k p ≡ true
      → (size : Option ℕ) × (modified : Option Text) × In (blob k size modified) items
