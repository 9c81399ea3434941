-- ===== src/Blob/Answers.antt =====
-- backend.py: the results of the operations of `AzureBlobBackend`, their arguments' defaults, and
-- the exceptions that they catch.
use langchain_azure.Base.{ℕ, Bool, true, false, Option, none, some, List, [], ◌∷◌, ◌++◌}
use langchain_azure.Base.Integer.{ℤ}
use langchain_azure.Base.Words.{Text, codes, slash}
use langchain_azure.Blob.Library.{Library, Checked, valid, invalid}
use langchain_azure.Blob.Paths.{to_blob_key}
use langchain_azure.Blob.Service.{
  Failure, resource_not_found, resource_modified, unicode_error, other_error, Outcome, returned,
  raised,
}
use langchain_azure.Blob.Select.{GrepMatch, FileError, validated}

-- A result object: its value, or its `error`.
pub data Answer (A : Type 0) : Type 0 where
  success : A → Answer A
  error : Text → Answer A

abbrev pub max_concurrency : ℕ
max_concurrency = 8

-- `path or "/"`
abbrev pub or_root : Text → Text
or_root [] = slash ∷ []
or_root (c ∷ path) = c ∷ path

-- an optional argument in which "" counts as absent
abbrev pub given : Option Text → Option Text
given none = none
given (some []) = none
given (some (c ∷ t)) = some (c ∷ t)

abbrev pub root_of : Option Text → Text
root_of none = slash ∷ []
root_of (some path) = or_root path

-- Where an operation on one path ends up: an invalid path, a `ValueError` of the key, or the key.
pub data Target : Type 0 where
  bad_path : Text → Target
  no_key : Text → Target
  at_key : Text → Text → Target

pub data Scope : Type 0 where
  bad_scope : Text → Scope
  no_scope : Text → Scope
  in_scope : Text → Option Text → Text → Scope

unfoldable pub not_found_message : Text → Text
not_found_message path = codes "File '" ++ (path ++ codes "' not found")

-- `except ResourceNotFoundError`
unfoldable pub on_missing : {A : Type 0} → Failure → A → Outcome A
on_missing (resource_not_found m) a = returned a
on_missing e a = raised e

-- `except ResourceModifiedError`
unfoldable pub on_modified : {A : Type 0} → Failure → A → Outcome A
on_modified (resource_modified m) a = returned a
on_modified e a = raised e

-- isinstance(exc, AzureError)
unfoldable pub is_azure_error : Failure → Bool
is_azure_error (unicode_error m) = false
is_azure_error (other_error m) = false
is_azure_error e = true

-- isinstance(exc, (AzureError, UnicodeError))
unfoldable pub is_read_error : Failure → Bool
is_read_error (other_error m) = false
is_read_error e = true

pub record GrepResult : Type 0 where
  pub matches : List GrepMatch
  pub truncated : Bool

-- What a scan has found and could not read.
pub record Scanned : Type 0 where
  pub matches : List GrepMatch
  pub failed : List Text

pub record UploadResponse : Type 0 where
  pub path : Text
  pub error : Option FileError

pub record DownloadResponse : Type 0 where
  pub path : Text
  pub content : Option (List ℕ)
  pub error : Option FileError

module _ (L : Library) where
  pub data ReadData : Type 0 where
    sliced : L.Slice → ReadData
    base64 : Text → ReadData

  unfoldable pub read_text : Checked Text → List ℕ → ℤ → ℤ → ReadData
  read_text (valid text) bytes offset limit = sliced (L.slice_read_response text offset limit)
  read_text (invalid m) bytes offset limit = base64 (L.b64encode bytes)

  unfoldable pub read_result_from_bytes : List ℕ → ℤ → ℤ → Bool → ReadData
  unfolding read_text
  read_result_from_bytes bytes offset limit true =
      read_text (L.decode_utf8 bytes) bytes offset limit
  read_result_from_bytes bytes offset limit false = base64 (L.b64encode bytes)

  -- the path, and the key that the prefix gives it
  unfoldable pub key_at : Text → Text → Checked Text → Target
  key_at prefix q (invalid m) = no_key m
  key_at prefix q (valid key) = at_key q key

  unfoldable pub target_of : Text → Text → Target
  unfolding key_at
  target_of prefix path = elim (validated L path) [
    | invalid m ↦ bad_path m
    | valid q ↦ key_at prefix q (to_blob_key L prefix q)
  ]
