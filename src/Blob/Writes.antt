-- ===== src/Blob/Writes.antt =====
-- backend.py: the operations of `AzureBlobBackend` that change the container. Their asynchronous
-- twins differ by `await` only. The calls that a thread pool or a gather makes are taken in the
-- order of its input.
pub mod Keys
pub mod Isolation
pub mod Editing
pub mod Removal
pub mod Deletion
use langchain_azure.Base.{
  ℕ, Bool, true, false, Option, none, some, List, [], ◌∷◌, ◌++◌, if◌then◌else◌, length, ◌==◌,
  codes_eq,
}
use langchain_azure.Base.Words.{Text, codes, slash}
use langchain_azure.Blob.Library.{Library, Checked, valid, invalid, Replacement, refused, replaced}
use langchain_azure.Blob.Paths.{from_blob_key, to_blob_key, get_prefix_for_path}
use langchain_azure.Blob.Service.{
  Failure, resource_not_found, other_error, Outcome, returned, raised, Blob, Item, Service,
}
use langchain_azure.Blob.Select.{
  keys_to_delete, delete_failure_error, concurrent_modification_error, FileError, invalid_path,
  operation_error, validated, described,
}
use langchain_azure.Blob.Answers.{
  Answer, success, error, Target, bad_path, no_key, at_key, target_of, on_missing, on_modified,
  is_azure_error, not_found_message, UploadResponse,
}

-- the prefix of the listing: the exact key if there is one
abbrev pub listing_start : Option Text → Text → Text
listing_start none descendants = descendants
listing_start (some key) descendants = key

module _ (L : Library) (S : Service) (prefix : Text) where
  unfoldable pub written : Text → S.State × Outcome (Unit {0}) → S.State × Outcome (Answer Text)
  written q (s, returned u) = (s, returned (success q))
  written q (s, raised e) = (s, raised e)

  unfoldable pub write_at : S.State → Text → Target → S.State × Outcome (Answer Text)
  unfolding written
  write_at s content (bad_path m) = (s, returned (error m))
  write_at s content (no_key m) = (s, raised (other_error m))
  write_at s content (at_key q key) = written q (S.upload_blob s key (L.encode_utf8 content) none)

  unfoldable pub write : S.State → Text → Text → S.State × Outcome (Answer Text)
  unfolding write_at
  write s file_path content = write_at s content (target_of L prefix file_path)

  -- The end of `edit`: a failed condition is reported, any other failure leaves the call.
  unfoldable pub edited :
      Text → ℕ → S.State × Outcome (Unit {0}) → S.State × Outcome (Answer (Text × ℕ))
  unfolding on_modified
  edited q n (s, returned u) = (s, returned (success (q, n)))
  edited q n (s, raised e) = (s, on_modified e (error (concurrent_modification_error q)))

  -- `now` is the state that the upload meets: other clients may have acted since the download.
  unfoldable pub edit_content :
      S.State → S.State → Text → Text → Text → Replacement → S.State × Outcome (Answer (Text × ℕ))
  unfolding edited
  edit_content s now q key tag (refused m) = (s, returned (error m))
  edit_content s now q key tag (replaced content n) =
      edited q n (S.upload_blob now key (L.encode_utf8 content) (some tag))

  unfoldable pub edit_text :
      S.State
      → S.State
      → Text
      → Text
      → Text
      → Text
      → Text
      → Bool
      → Checked Text
      → S.State × Outcome (Answer (Text × ℕ))
  unfolding edit_content
  edit_text s now q key tag old new all (invalid m) = (s, raised (Failure.unicode_error m))
  edit_text s now q key tag old new all (valid content) =
      edit_content s now q key tag (L.perform_string_replacement content old new all)

  unfoldable pub edit_blob :
      S.State
      → S.State
      → Text
      → Text
      → Text
      → Text
      → Bool
      → Outcome Blob
      → S.State × Outcome (Answer (Text × ℕ))
  unfolding edit_text on_missing
  edit_blob s now q key old new all (returned b) =
      edit_text s now q key b.etag old new all (L.decode_utf8 b.body)
  edit_blob s now q key old new all (raised e) =
      (s, on_missing e (error (codes "Error: " ++ not_found_message q)))

  unfoldable pub edit_at :
      S.State
      → (S.State → S.State)
      → Text
      → Text
      → Bool
      → Target
      → S.State × Outcome (Answer (Text × ℕ))
  unfolding edit_blob
  edit_at s between old new all (bad_path m) = (s, returned (error m))
  edit_at s between old new all (no_key m) = (s, raised (other_error m))
  edit_at s between old new all (at_key q key) =
      edit_blob s (between s) q key old new all (S.download_blob s key)

  -- `between` is what other clients do after the download and before the upload.
  unfoldable pub edit :
      S.State
      → (S.State → S.State)
      → Text
      → Text
      → Text
      → Bool
      → S.State × Outcome (Answer (Text × ℕ))
  unfolding edit_at
  edit s between file_path old new all =
      edit_at s between old new all (target_of L prefix file_path)

  -- `_delete_scope`: the exact key, absent for the root, and the prefix of the descendants. The
  -- prefix is computed first.
  unfoldable pub scope_of : Text → Checked Text → Checked Text → Checked (Option Text × Text)
  scope_of normalized (invalid m) exact = invalid m
  scope_of normalized (valid descendants) exact =
      if normalized == slash ∷ []
      then valid (none, descendants)
      else elim exact [ invalid m ↦ invalid m | valid key ↦ valid (some key, descendants) ]

  unfoldable pub delete_scope : Text → Checked (Option Text × Text)
  unfolding scope_of
  delete_scope normalized =
      scope_of normalized (get_prefix_for_path L prefix normalized)
        (to_blob_key L prefix normalized)

  -- `remove`: the path that could not be deleted, if any
  unfoldable pub removal : Text → Outcome (Unit {0}) → Outcome (Option Text)
  unfolding is_azure_error
  removal key (returned u) = returned none
  removal key (raised (resource_not_found m)) = returned none
  removal key (raised e) =
      if is_azure_error e then returned (some (from_blob_key prefix key)) else raised e

  -- one more result in front of the failed paths
  unfoldable pub add_failed : Outcome (Option Text) → Outcome (List Text) → Outcome (List Text)
  add_failed (raised e) rest = raised e
  add_failed (returned p) (raised e) = raised e
  add_failed (returned none) (returned failed) = returned failed
  add_failed (returned (some p)) (returned failed) = returned (p ∷ failed)

  unfoldable pub remove_all : S.State → List Text → S.State × Outcome (List Text)
  remove_all s [] = (s, returned [])
  remove_all s (key ∷ keys) =
      let (s', outcome) = S.delete_blob s key in
      let (s'', rest) = remove_all s' keys in (s'', add_failed (removal key outcome) rest)

  unfoldable pub deleted :
      Text → ℕ → S.State × Outcome (List Text) → S.State × Outcome (Answer Text)
  deleted q attempted (s, raised e) = (s, raised e)
  deleted q attempted (s, returned []) = (s, returned (success q))
  deleted q attempted (s, returned (p ∷ failed)) =
      (s, returned (error (delete_failure_error q (p ∷ failed) attempted)))

  unfoldable pub delete_keys : S.State → Text → List Text → S.State × Outcome (Answer Text)
  unfolding deleted remove_all
  delete_keys s q [] = (s, returned (error (codes "Error: " ++ not_found_message q)))
  delete_keys s q (key ∷ keys) = deleted q (length (key ∷ keys)) (remove_all s (key ∷ keys))

  unfoldable pub delete_listed :
      S.State → Text → Option Text → Text → Outcome (List Item) → S.State × Outcome (Answer Text)
  unfolding delete_keys
  delete_listed s q exact descendants (raised e) = (s, raised e)
  delete_listed s q exact descendants (returned items) =
      delete_keys s q (keys_to_delete items exact descendants)

  unfoldable pub delete_in :
      S.State → Text → Checked (Option Text × Text) → S.State × Outcome (Answer Text)
  unfolding delete_listed
  delete_in s q (invalid m) = (s, raised (other_error m))
  delete_in s q (valid (exact, descendants)) =
      delete_listed s q exact descendants (S.list_blobs s (listing_start exact descendants))

  unfoldable pub delete_valid : S.State → Checked Text → S.State × Outcome (Answer Text)
  unfolding delete_in delete_scope
  delete_valid s (invalid m) = (s, returned (error m))
  delete_valid s (valid q) = delete_in s q (delete_scope q)

  unfoldable pub delete : S.State → Text → S.State × Outcome (Answer Text)
  unfolding delete_valid
  delete s file_path = delete_valid s (validated L file_path)

  -- `upload`, inside `upload_files`: every exception becomes the response's error.
  unfoldable pub uploaded : Text → S.State × Outcome (Unit {0}) → S.State × UploadResponse
  uploaded q (s, returned u) = (s, record { path = q; error = none })
  uploaded q (s, raised e) = (s, record { path = q; error = some (operation_error e) })

  unfoldable pub upload_at : S.State → Text → List ℕ → Checked Text → S.State × UploadResponse
  unfolding uploaded
  upload_at s q content (invalid m) = (s, record { path = q; error = some (described m) })
  upload_at s q content (valid key) = uploaded q (S.upload_blob s key content none)

  unfoldable pub upload_valid : S.State → Text → List ℕ → Checked Text → S.State × UploadResponse
  unfolding upload_at
  upload_valid s file_path content (invalid m) =
      (s, record { path = file_path; error = some invalid_path })
  upload_valid s file_path content (valid q) = upload_at s q content (to_blob_key L prefix q)

  unfoldable pub upload_file : S.State → Text × List ℕ → S.State × UploadResponse
  unfolding upload_valid
  upload_file s (file_path, content) = upload_valid s file_path content (L.validate_path file_path)

  unfoldable pub upload_files : S.State → List (Text × List ℕ) → S.State × List UploadResponse
  upload_files s [] = (s, [])
  upload_files s (file ∷ files) =
      let (s', response) = upload_file s file in
      let (s'', responses) = upload_files s' files in (s'', response ∷ responses)
