-- ===== src/Blob/Reads.antt =====
-- backend.py: the operations of `AzureBlobBackend` that read the container. Their asynchronous
-- twins differ by `await` only. The calls that a thread pool or a gather makes are taken in the
-- order of its input.
pub mod RoundTrip
pub mod Capped
use langchain_azure.Base.{
  ℕ, Bool, true, false, Option, none, some, List, [], ◌∷◌, ◌++◌, if◌then◌else◌, ltb, length, take,
  max, map,
}
use langchain_azure.Base.Integer.{ℤ}
use langchain_azure.Base.Words.{Text, codes, slash}
use langchain_azure.Blob.Library.{Library, Checked, valid, invalid}
use langchain_azure.Blob.Paths.{from_blob_key, to_blob_key, get_prefix_for_path, is_text_file}
use langchain_azure.Blob.Service.{
  Failure, resource_not_found, other_error, unicode_error, Outcome, returned, raised, Blob, Item,
  Service,
}
use langchain_azure.Blob.Select.{
  FileInfo, GrepMatch, ls_result, glob_result, grep_lines, grep_candidates, normalize_max_count,
  windows, grep_failure_error, FileError, invalid_path, file_not_found, described, operation_error,
  compile_glob, validated,
}
use langchain_azure.Blob.Answers.{
  Answer, success, error, Target, bad_path, no_key, at_key, target_of, on_missing, is_read_error,
  not_found_message, ReadData, read_result_from_bytes, or_root, root_of, given, max_concurrency,
  GrepResult, Scanned, DownloadResponse,
}

module _ (L : Library) (S : Service) (prefix : Text) where
  unfoldable pub ls_walked : Outcome (List Item) → Outcome (Answer (List FileInfo))
  ls_walked (raised e) = raised e
  ls_walked (returned items) = returned (success (ls_result items prefix))

  unfoldable pub ls_under : S.State → Checked Text → Outcome (Answer (List FileInfo))
  unfolding ls_walked
  ls_under s (invalid m) = raised (other_error m)
  ls_under s (valid start) = ls_walked (S.walk_blobs s start)

  unfoldable pub ls_valid : S.State → Checked Text → Outcome (Answer (List FileInfo))
  unfolding ls_under
  ls_valid s (invalid m) = returned (error m)
  ls_valid s (valid root) = ls_under s (get_prefix_for_path L prefix root)

  unfoldable pub ls : S.State → Text → Outcome (Answer (List FileInfo))
  unfolding ls_valid
  ls s path = ls_valid s (validated L (or_root path))

  unfoldable pub read_blob : Text → ℤ → ℤ → Outcome Blob → Outcome (Answer (ReadData L))
  unfolding on_missing read_result_from_bytes
  read_blob q offset limit (returned b) =
      returned (success (read_result_from_bytes L b.body offset limit (is_text_file L q)))
  read_blob q offset limit (raised e) = on_missing e (error (not_found_message q))

  unfoldable pub read_at : S.State → ℤ → ℤ → Target → Outcome (Answer (ReadData L))
  unfolding read_blob
  read_at s offset limit (bad_path m) = returned (error m)
  read_at s offset limit (no_key m) = raised (other_error m)
  read_at s offset limit (at_key q key) = read_blob q offset limit (S.download_blob s key)

  unfoldable pub read : S.State → Text → ℤ → ℤ → Outcome (Answer (ReadData L))
  unfolding read_at
  read s file_path offset limit = read_at s offset limit (target_of L prefix file_path)

  -- `_list_target_blobs_sync`
  unfoldable pub list_target : S.State → Text → Outcome (List Item)
  list_target s path = elim (get_prefix_for_path L prefix path) [
    | invalid m ↦ raised (other_error m)
    | valid start ↦ S.list_blobs s start
  ]

  unfoldable pub glob_listed :
      Text → (Text → Bool) → Outcome (List Item) → Outcome (Answer (List FileInfo))
  glob_listed base matcher (raised e) = raised e
  glob_listed base matcher (returned items) =
      returned (success (glob_result items prefix base matcher))

  unfoldable pub glob_valid :
      S.State → Checked Text → Checked (Text → Bool) → Outcome (Answer (List FileInfo))
  unfolding glob_listed list_target
  glob_valid s (invalid m) matcher = returned (error m)
  glob_valid s (valid base) (invalid m) = returned (error m)
  glob_valid s (valid base) (valid matcher) = glob_listed base matcher (list_target s base)

  unfoldable pub glob : S.State → Text → Option Text → Outcome (Answer (List FileInfo))
  unfolding glob_valid
  glob s pattern path = glob_valid s (validated L (root_of path)) (compile_glob L pattern)

  -- `scan`, with what the scans before it have found
  unfoldable pub scan_text : Text → Text → Scanned → Checked Text → Outcome Scanned
  scan_text pattern virtual found (valid content) =
      returned (record found { matches = found.matches ++ grep_lines content pattern virtual })
  scan_text pattern virtual found (invalid m) =
      returned (record found { failed = found.failed ++ virtual ∷ [] })

  unfoldable pub scan_blob : Text → Text → Scanned → Outcome Blob → Outcome Scanned
  unfolding scan_text is_read_error
  scan_blob pattern virtual found (returned b) =
      scan_text pattern virtual found (L.decode_utf8 b.body)
  scan_blob pattern virtual found (raised e) =
      if is_read_error e
      then returned (record found { failed = found.failed ++ virtual ∷ [] })
      else raised e

  unfoldable pub scan : S.State → Text → Scanned → Text → Outcome Scanned
  unfolding scan_blob
  scan s pattern found name =
      scan_blob pattern (from_blob_key prefix name) found (S.download_blob s name)

  -- one chunk
  unfoldable pub scan_chunk : S.State → Text → List Text → Outcome Scanned → Outcome Scanned
  scan_chunk s pattern [] found = found
  scan_chunk s pattern (name ∷ names) (raised e) = raised e
  scan_chunk s pattern (name ∷ names) (returned found) =
      scan_chunk s pattern names (scan s pattern found name)

  -- `cap is not None and len(matches) > cap`
  abbrev pub exceeds : Option ℕ → List GrepMatch → Bool
  exceeds none matches = false
  exceeds (some cap) matches = ltb cap (length matches)

  -- `del matches[cap:]`
  abbrev pub cut : Option ℕ → List GrepMatch → List GrepMatch
  cut none matches = matches
  cut (some cap) matches = take cap matches

  -- `if failed: …`
  unfoldable pub grep_end : Bool → Scanned → Outcome (Answer GrepResult)
  grep_end truncated found = elim found.failed [
    | [] ↦ returned (success (record { matches = found.matches; truncated = truncated }))
    | f ∷ fs ↦ returned (error (grep_failure_error (f ∷ fs)))
  ]

  -- after a chunk: stop if the cap is exceeded, or go on
  unfoldable pub after_chunk :
      Option ℕ
      → (Outcome Scanned → Outcome (Answer GrepResult))
      → Outcome Scanned
      → Outcome (Answer GrepResult)
  unfolding grep_end
  after_chunk cap go_on (raised e) = raised e
  after_chunk cap go_on (returned found) =
      if exceeds cap found.matches
      then grep_end true (record found { matches = cut cap found.matches })
      else go_on (returned found)

  -- the loop over the chunks
  unfoldable pub scan_chunks :
      S.State → Text → Option ℕ → List (List Text) → Outcome Scanned → Outcome (Answer GrepResult)
  unfolding after_chunk
  scan_chunks s pattern cap [] (raised e) = raised e
  scan_chunks s pattern cap [] (returned found) = grep_end false found
  scan_chunks s pattern cap (chunk ∷ chunks) found =
      after_chunk cap (scan_chunks s pattern cap chunks) (scan_chunk s pattern chunk found)

  -- the chunk size: only a capped scan is chunked
  abbrev pub window_size : Option ℕ → List Text → ℕ
  window_size none candidates = max (length candidates) 1
  window_size (some cap) candidates = max_concurrency

  unfoldable pub grep_candidates_in :
      S.State → Text → Option ℕ → List Text → Outcome (Answer GrepResult)
  unfolding scan_chunks
  grep_candidates_in s pattern cap candidates =
      scan_chunks s pattern cap (windows candidates (window_size cap candidates))
        (returned (record { matches = []; failed = [] }))

  unfoldable pub grep_listed :
      S.State
      → Text
      → Text
      → Option (Text → Bool)
      → Option ℕ
      → Outcome (List Item)
      → Outcome (Answer GrepResult)
  unfolding grep_candidates_in
  grep_listed s pattern base matcher cap (raised e) = raised e
  grep_listed s pattern base matcher cap (returned items) =
      grep_candidates_in s pattern cap (grep_candidates items prefix base matcher)

  -- `_compile_glob(glob) if glob else None`
  unfoldable pub optional_matcher : Option Text → Checked (Option (Text → Bool))
  optional_matcher none = valid none
  optional_matcher (some pattern) = elim (compile_glob L pattern) [
    | invalid m ↦ invalid m
    | valid matcher ↦ valid (some matcher)
  ]

  unfoldable pub grep_valid :
      S.State
      → Text
      → Option ℕ
      → Checked Text
      → Checked (Option (Text → Bool))
      → Outcome (Answer GrepResult)
  unfolding grep_listed list_target
  grep_valid s pattern cap (invalid m) matcher = returned (error m)
  grep_valid s pattern cap (valid base) (invalid m) = returned (error m)
  grep_valid s pattern cap (valid base) (valid matcher) =
      grep_listed s pattern base matcher cap (list_target s base)

  unfoldable pub grep :
      S.State → Text → Option Text → Option Text → Option ℤ → Outcome (Answer GrepResult)
  unfolding grep_valid optional_matcher
  grep s pattern path file_glob max_count =
      grep_valid s pattern (normalize_max_count max_count) (validated L (root_of path))
        (optional_matcher (given file_glob))

  unfoldable pub downloaded : Text → Outcome Blob → DownloadResponse
  downloaded q (returned b) = record { path = q; content = some b.body; error = none }
  downloaded q (raised (resource_not_found m)) = record {
    path = q;
    content = none;
    error = some file_not_found;
  }
  downloaded q (raised e) = record { path = q; content = none; error = some (operation_error e) }

  unfoldable pub download_at : S.State → Text → Checked Text → DownloadResponse
  unfolding downloaded
  download_at s q (invalid m) = record { path = q; content = none; error = some (described m) }
  download_at s q (valid key) = downloaded q (S.download_blob s key)

  unfoldable pub download_file : S.State → Text → DownloadResponse
  unfolding download_at
  download_file s file_path = elim (L.validate_path file_path) [
    | invalid m ↦ record { path = file_path; content = none; error = some invalid_path }
    | valid q ↦ download_at s q (to_blob_key L prefix q)
  ]

  unfoldable pub download_files : S.State → List Text → List DownloadResponse
  unfolding download_file
  download_files s paths = map (download_file s) paths
