-- ===== src/Blob/Select.antt =====
-- backend.py: the functions that build results from listings and from contents.
pub mod Windows
pub mod Sorting
use langchain_azure.Base.{
  ℕ, zero, suc, ◌+◌, ◌-◌, min, Bool, true, false, Option, none, some, List, [], ◌∷◌, ◌++◌, ◌||◌,
  ◌&&◌, if◌then◌else◌, ◌==◌, codes_eq, nat_eq, length, take, drop, contains,
}
use langchain_azure.Base.Integer.{ℤ, at_least_zero}
use langchain_azure.Base.Format.{show_number, comma_joined}
use langchain_azure.Base.Words.{
  Text, codes, slash, starts_with, ends_with, contains_text, split_at, text_leb,
}
use langchain_azure.Blob.Library.{Library, Checked, valid, invalid}
use langchain_azure.Blob.Paths.{from_blob_key, relative_path}
use langchain_azure.Blob.Service.{
  Failure, authentication, http_response, resource_not_found, resource_modified, azure_error,
  unicode_error, other_error, Item, blob_prefix, blob, item_name,
}

-- FileInfo, as `build_file_info` makes it
pub record FileInfo : Type 0 where
  pub path : Text
  pub is_dir : Bool
  pub size : ℕ
  pub modified_at : Text

-- `value or default`
abbrev pub or_else {ℓ} : {A : Type ℓ} → Option A → A → A
or_else none d = d
or_else (some a) d = a

-- `list.sort`, by a key: stable.
unfoldable pub insert_by_path : FileInfo → List FileInfo → List FileInfo
insert_by_path x [] = x ∷ []
insert_by_path x (y ∷ ys) = if text_leb x.path y.path then x ∷ y ∷ ys else y ∷ insert_by_path x ys

unfoldable pub sort_by_path : List FileInfo → List FileInfo
sort_by_path [] = []
sort_by_path (x ∷ xs) = insert_by_path x (sort_by_path xs)

unfoldable pub insert_text : Text → List Text → List Text
insert_text x [] = x ∷ []
insert_text x (y ∷ ys) = if text_leb x y then x ∷ y ∷ ys else y ∷ insert_text x ys

unfoldable pub sort_texts : List Text → List Text
sort_texts [] = []
sort_texts (x ∷ xs) = insert_text x (sort_texts xs)

-- the loop of `_ls_result`: marker blobs are skipped
unfoldable pub ls_entries : Text → List Item → List FileInfo
ls_entries prefix [] = []
ls_entries prefix (blob_prefix name ∷ items) =
    record { path = from_blob_key prefix name; is_dir = true; size = 0; modified_at = [] }
    ∷ ls_entries prefix items
ls_entries prefix (blob name size modified ∷ items) =
    let rest = ls_entries prefix items in
    if ends_with name slash
    then rest
    else record {
      path = from_blob_key prefix name;
      is_dir = false;
      size = or_else size 0;
      modified_at = or_else modified [];
    }
      ∷ rest

unfoldable pub ls_result : List Item → Text → List FileInfo
ls_result items prefix = sort_by_path (ls_entries prefix items)

unfoldable pub file_info_of : Text → Item → FileInfo
file_info_of prefix (blob_prefix name) = record {
  path = from_blob_key prefix name;
  is_dir = false;
  size = 0;
  modified_at = [];
}
file_info_of prefix (blob name size modified) = record {
  path = from_blob_key prefix name;
  is_dir = false;
  size = or_else size 0;
  modified_at = or_else modified [];
}

-- whether `relative` is a path that the matcher takes
unfoldable pub accepted : (Text → Bool) → Option Text → Bool
accepted matcher none = false
accepted matcher (some relative) = matcher relative

unfoldable pub glob_result : List Item → Text → Text → (Text → Bool) → List FileInfo
glob_result [] prefix base matcher = []
glob_result (item ∷ items) prefix base matcher =
    let rest = glob_result items prefix base matcher in
    if accepted matcher (relative_path (from_blob_key prefix (item_name item)) base)
    then file_info_of prefix item ∷ rest
    else rest

-- GrepMatch
pub record GrepMatch : Type 0 where
  pub path : Text
  pub line : ℕ
  pub text : Text

unfoldable pub grep_from : ℕ → List Text → Text → Text → List GrepMatch
grep_from n [] pattern virtual = []
grep_from n (line ∷ lines) pattern virtual =
    let rest = grep_from (n + 1) lines pattern virtual in
    if contains_text line pattern
    then record { path = virtual; line = n; text = line } ∷ rest
    else rest

abbrev newline : ℕ
newline = 10

unfoldable pub grep_lines : Text → Text → Text → List GrepMatch
grep_lines content pattern virtual = grep_from 1 (split_at newline content) pattern virtual

-- `matcher is not None and not matcher(relative)` drops a candidate
unfoldable pub passes : Option (Text → Bool) → Option Text → Bool
passes matcher none = false
passes none (some relative) = true
passes (some matcher) (some relative) = matcher relative

unfoldable pub grep_candidates : List Item → Text → Text → Option (Text → Bool) → List Text
grep_candidates [] prefix base matcher = []
grep_candidates (item ∷ items) prefix base matcher =
    let rest = grep_candidates items prefix base matcher in
    if passes matcher (relative_path (from_blob_key prefix (item_name item)) base)
    then item_name item ∷ rest
    else rest

-- `exact_key is not None and name == exact_key`
unfoldable pub is_exact : Option Text → Text → Bool
is_exact none name = false
is_exact (some key) name = name == key

unfoldable pub keys_to_delete : List Item → Option Text → Text → List Text
keys_to_delete [] exact_key descendant_prefix = []
keys_to_delete (item ∷ items) exact_key descendant_prefix =
    let rest = keys_to_delete items exact_key descendant_prefix in
    if is_exact exact_key (item_name item) || starts_with (item_name item) descendant_prefix
    then item_name item ∷ rest
    else rest

-- the sample of at most three names, and how many are left out
unfoldable pub sample_of : List Text → Text
sample_of names =
    let sorted = sort_texts names in
    let remainder = length sorted - min (length sorted) 3 in
    comma_joined (take 3 sorted)
    ++ (if remainder == 0 then [] else codes ", and " ++ (show_number remainder ++ codes " more"))

unfoldable pub delete_failure_error : Text → List Text → ℕ → Text
delete_failure_error file_path failed attempted =
    let n = length failed in
    let summary =
      if n == attempted
      then codes "failed on all " ++ (show_number attempted ++ codes " file(s)")
      else codes "removed "
        ++ (show_number (attempted - n) ++ (codes " file(s) but failed on " ++ show_number n)) in
    codes "Error: delete of '"
    ++ (file_path ++ (codes "' " ++ (summary ++ (codes ": " ++ sample_of failed))))

unfoldable pub normalize_max_count : Option ℤ → Option ℕ
normalize_max_count none = none
normalize_max_count (some n) = some (at_least_zero n)

-- `range(0, len(items), size)` with slices; the fuel is the number of items
unfoldable pub windows_from {ℓ} : {A : Type ℓ} → ℕ → ℕ → List A → List (List A)
windows_from zero size items = []
windows_from (suc fuel) size [] = []
windows_from (suc fuel) size (x ∷ items) =
    take size (x ∷ items) ∷ windows_from fuel size (drop size (x ∷ items))

unfoldable pub windows {ℓ} : {A : Type ℓ} → List A → ℕ → List (List A)
windows items size = windows_from (length items) size items

unfoldable pub grep_failure_error : List Text → Text
grep_failure_error failed =
    codes "Error: grep could not read "
    ++ (show_number (length failed) ++ (codes " file(s): " ++ sample_of failed))

unfoldable pub concurrent_modification_error : Text → Text
concurrent_modification_error file_path =
    codes "Error: File '"
    ++ (file_path
        ++ codes
            "' was modified concurrently during the edit. Read the file again and retry the edit.")

-- deepagents' standard error codes
pub data FileError : Type 0 where
  permission_denied invalid_path file_not_found : FileError
  described : Text → FileError

unfoldable pub operation_error : Failure → FileError
operation_error (authentication message) = permission_denied
operation_error (http_response none message) = described message
operation_error (http_response (some status) message) =
    if contains (401 ∷ 403 ∷ []) status then permission_denied else described message
operation_error (resource_not_found message) = described message
operation_error (resource_modified message) = described message
operation_error (azure_error message) = described message
operation_error (unicode_error message) = described message
operation_error (other_error message) = described message

-- pattern.lstrip("/")
unfoldable pub strip_slashes : Text → Text
strip_slashes [] = []
strip_slashes (c ∷ cs) = let rest = strip_slashes cs in if c == slash then rest else c ∷ cs

-- `_validate_path`
unfoldable pub described_error : Text → Checked Text → Checked Text
described_error path (valid q) = valid q
described_error path (invalid message) =
    invalid (codes "Error: Invalid path '" ++ (path ++ (codes "': " ++ message)))

module _ (L : Library) where
  -- `_compile_glob`: a pattern with a slash matches the relative path, another the base name
  unfoldable pub matcher_of : Bool → Checked (Text → Bool) → Text → Checked (Text → Bool)
  matcher_of anchored (invalid message) pattern =
      invalid (codes "Error: invalid glob pattern '" ++ (pattern ++ (codes "': " ++ message)))
  matcher_of true (valid matches) pattern = valid matches
  matcher_of false (valid matches) pattern = valid (λ relative. matches (L.base_name relative))

  unfoldable pub compile_glob : Text → Checked (Text → Bool)
  compile_glob pattern =
      matcher_of (contains pattern slash) (L.compile_pattern (strip_slashes pattern)) pattern

  unfoldable pub validated : Text → Checked Text
  validated path = described_error path (L.validate_path path)
