-- ===== src/Blob/Examples.antt =====
-- The theorems about the backend at concrete data: a library that knows four paths, and a container
-- in memory.
use langchain_azure.Base.{
  ℕ, ◌≡◌, ◌≢◌, ◌⊎◌, refl, Bool, true, false, none, some, List, [], ◌∷◌, ◌++◌, arith, if◌then◌else◌,
  ◌==◌, codes_eq, inl, inr, not, ◌&&◌, All,
}
use langchain_azure.Base.Integer.{pos}
use langchain_azure.Base.Words.{
  Text, codes, slash, same, starts_with, ends_with, split_at, join_with,
}
use langchain_azure.Blob.Library.{
  Library, Checked, valid, invalid, IsNormal, IsSegment, replaced, refused,
}
use mathlib.Core.List.{Perm}
use langchain_azure.Base.{concat}
use langchain_azure.Blob.Answers.{success, target_of}
use langchain_azure.Blob.Library.{IsDocumented}
use langchain_azure.Blob.Paths.{
  to_blob_key, normalize_path, strip_root, nonempty_parts, key_of, with_slash, from_blob_key,
  get_prefix_for_path, listing_prefix, relative_path,
}
use langchain_azure.Blob.Paths.Laws.{
  from_blob_key-to_blob_key, to_blob_key_injective, listing_prefix_selects_descendants,
}
use langchain_azure.Blob.Reads.{grep_listed}
use langchain_azure.Blob.Reads.Capped.{IsReadable, all_matches, capped, grep_capped}
use langchain_azure.Blob.Reads.RoundTrip.{ShowsContent, read-write}
use langchain_azure.Blob.Select.{
  validated, described_error, windows, ls_result, FileInfo, grep_candidates, passes, keys_to_delete,
  is_exact,
}
use langchain_azure.Blob.Select.Sorting.{IsSorted, AreEntriesOf, ls_result-IsSorted}
use langchain_azure.Blob.Select.Windows.{IsChunk, windows_partition}
use langchain_azure.Blob.Service.{Item, blob, blob_prefix, returned}
use langchain_azure.Blob.Service.Memory.{upload, fetched, find, listing, remove}
use langchain_azure.Blob.Writes.{
  write, write_at, edit, edit_at, delete, removal, add_failed, upload_files,
}
use langchain_azure.Blob.Writes.Deletion.{IsWithin, delete-elsewhere, delete_removes_subtree}
use langchain_azure.Blob.Writes.Editing.{IsReplaced, edit_no_lost_update}
use langchain_azure.Blob.Writes.Isolation.{
  write-elsewhere, edit-elsewhere, AreAnswers, upload_files-elsewhere,
}
use langchain_azure.Blob.Service.Memory.{memory, memory-IsBlobStore, Memory}

abbrev tree : Text
tree = codes "/src"

abbrev file : Text
file = codes "/src/a.txt"

abbrev sibling : Text
sibling = codes "/src-backup"

abbrev check_path : Text → Checked Text
check_path p =
    if p == tree
    then valid tree
    else if p == file
    then valid file
    else if p == sibling
    then valid sibling
    else if p == codes "src/a.txt"
    then valid file
    else invalid (codes "unknown")

abbrev library : Library
library = record {
  validate_path = check_path;
  suffix = λ p. codes ".txt";
  lower = λ t. t;
  base_name = λ t. t;
  compile_pattern = λ pattern. valid (λ t. t == pattern);
  perform_string_replacement =
      λ content old new all. if content == old then replaced new 1 else refused (codes "not found");
  Slice = Text;
  slice_read_response = λ content offset limit. content;
  encode_utf8 = λ t. t;
  decode_utf8 = λ b. valid b;
  b64encode = λ b. b;
}

check_path_cases : (p q : Text) → check_path p ≡ valid q → (q ≡ tree) ⊎ ((q ≡ file) ⊎ (q ≡ sibling))
check_path_cases p q h = ground arith

-- A decidable form of `IsSegment`'s second part.
plain_text : Text → Bool
plain_text [] = true
plain_text (c ∷ t) = not (same c slash) && plain_text t

plain_text-All : (t : Text) → plain_text t ≡ true → All (λ x. same x slash ≡ false) t
unfolding plain_text
plain_text-All [] h = tt
plain_text-All (c ∷ t) h = (ground arith, plain_text-All t (ground arith))

segment : (c : ℕ) (s : Text) → plain_text (c ∷ s) ≡ true → IsSegment (c ∷ s)
segment c s h = ((λ e. cc), plain_text-All (c ∷ s) h)

IsNormal-paths : (q : Text) → (q ≡ tree) ⊎ ((q ≡ file) ⊎ (q ≡ sibling)) → IsNormal q
unfolding join_with plain_text
IsNormal-paths q (inl e) = (codes "src" ∷ [], (segment _ _ refl, tt), e)
IsNormal-paths q (inr (inl e)) =
    (codes "src" ∷ codes "a.txt" ∷ [], (segment _ _ refl, (segment _ _ refl, tt)), e)
IsNormal-paths q (inr (inr e)) = (codes "src-backup" ∷ [], (segment _ _ refl, tt), e)

fixed_paths : (q : Text) → (q ≡ tree) ⊎ ((q ≡ file) ⊎ (q ≡ sibling)) → check_path q ≡ valid q
unfolding codes_eq
fixed_paths q (inl e) = rw e refl
fixed_paths q (inr (inl e)) = rw e refl
fixed_paths q (inr (inr e)) = rw e refl

library-IsDocumented : IsDocumented library
library-IsDocumented = record {
  result_normal = λ p q h. IsNormal-paths q (check_path_cases p q h);
  result_fixed = λ p q h. fixed_paths q (check_path_cases p q h);
  decode-encode = λ t. refl;
}

-- under the prefix "agent", two files and the marker of a directory
abbrev before : Memory
before = record {
  entries =
      (codes "agent/src/a.txt", record { body = codes "x"; etag = 1 ∷ [] })
      ∷ (codes "agent/src-backup", record { body = codes "y"; etag = 2 ∷ [] })
      ∷ (codes "agent/src/", record { body = []; etag = 1 ∷ [] })
      ∷ [];
  stamp = 3;
}

abbrev agent : Text
agent = codes "agent"

file_valid : check_path file ≡ valid file
unfolding codes_eq
file_valid = refl

tree_valid : check_path tree ≡ valid tree
unfolding codes_eq
tree_valid = refl

sibling_valid : check_path sibling ≡ valid sibling
unfolding codes_eq
sibling_valid = refl

sibling_key : to_blob_key library agent sibling ≡ valid (codes "agent/src-backup")
unfolding to_blob_key codes_eq normalize_path strip_root nonempty_parts key_of with_slash split_at
    join_with ends_with
sibling_key = refl

apart : check_path file ≢ valid sibling
unfolding codes_eq
apart e = cc

-- What the theorems need to see through to run an operation on this data.
run_write : (write library memory agent before file (codes "new")).1 ≡ returned (success file)
unfolding write write_at target_of validated described_error to_blob_key codes_eq normalize_path
    strip_root nonempty_parts key_of with_slash split_at join_with ends_with upload
run_write = refl

run_edit :
    (edit library memory agent before (λ s. s) file (codes "x") (codes "new") false).1
    ≡ returned (success (file, 1))
unfolding edit edit_at target_of validated described_error to_blob_key codes_eq normalize_path
    strip_root nonempty_parts key_of with_slash split_at join_with ends_with upload fetched find
run_edit = refl

run_delete : (delete library memory agent before tree).1 ≡ returned (success tree)
unfolding delete validated described_error to_blob_key get_prefix_for_path codes_eq normalize_path
    strip_root nonempty_parts key_of with_slash split_at join_with ends_with listing_prefix listing
    starts_with keys_to_delete is_exact remove find removal add_failed
run_delete = refl

relative_valid : check_path (codes "src/a.txt") ≡ valid file
unfolding codes_eq
relative_valid = refl

tree_listing : get_prefix_for_path library agent tree ≡ valid (codes "agent/src/")
unfolding get_prefix_for_path codes_eq normalize_path strip_root nonempty_parts listing_prefix
    with_slash split_at join_with ends_with
tree_listing = refl

outside_tree : ¬ (IsWithin sibling tree)
unfolding starts_with
outside_tree (inl e) = cc
outside_tree (inr (inl e)) = cc
outside_tree (inr (inr e)) = cc

readable :
    All
      (IsReadable library memory agent before (codes "x"))
      (grep_candidates (blob (codes "agent/src/a.txt") none none ∷ []) agent (codes "/") none)
unfolding grep_candidates passes relative_path from_blob_key codes_eq with_slash ends_with
    starts_with fetched find
readable = ((_, _, refl, refl), tt)

from_blob_key-to_blob_key_example :
    (key : Text) × (to_blob_key library agent file ≡ valid key) × (from_blob_key agent key ≡ file)
from_blob_key-to_blob_key_example =
    from_blob_key-to_blob_key library library-IsDocumented agent file file file_valid

to_blob_key_injective_example : file ≡ file
to_blob_key_injective_example =
    to_blob_key_injective library library-IsDocumented agent (codes "src/a.txt") file file file
      relative_valid file_valid refl

listing_prefix_selects_descendants_example :
    starts_with (codes "agent/src-backup") (codes "agent/src/")
    ≡ starts_with sibling (tree ++ slash ∷ [])
listing_prefix_selects_descendants_example =
    listing_prefix_selects_descendants library library-IsDocumented agent tree tree sibling sibling
      (codes "agent/src-backup") (codes "agent/src/") tree_valid sibling_valid (λ e. cc) sibling_key
      tree_listing

write-elsewhere_example :
    find (write library memory agent before file (codes "new")).0.entries (codes "agent/src-backup")
    ≡ find before.entries (codes "agent/src-backup")
write-elsewhere_example =
    write-elsewhere library library-IsDocumented memory memory-IsBlobStore agent before file
      (codes "new") sibling sibling (codes "agent/src-backup") sibling_valid sibling_key apart

edit-elsewhere_example :
    find
      (edit library memory agent before (λ s. s) file (codes "x") (codes "new") false).0.entries
      (codes "agent/src-backup")
    ≡ find before.entries (codes "agent/src-backup")
edit-elsewhere_example =
    edit-elsewhere library library-IsDocumented memory memory-IsBlobStore agent before (λ s. s) file
      (codes "x") (codes "new") false sibling sibling (codes "agent/src-backup") sibling_valid
      sibling_key apart (λ s. refl)

abbrev two_files : List (Text × List ℕ)
two_files = (codes "elsewhere", 8 ∷ []) ∷ (file, 7 ∷ []) ∷ []

unnamed : check_path (codes "elsewhere") ≢ valid sibling
unfolding codes_eq
unnamed e = cc

upload_files-elsewhere_example :
    (find (upload_files library memory agent before two_files).0.entries (codes "agent/src-backup")
      ≡ find before.entries (codes "agent/src-backup"))
    × AreAnswers library library-IsDocumented memory memory-IsBlobStore agent before two_files
        (upload_files library memory agent before two_files).0
        (upload_files library memory agent before two_files).1
upload_files-elsewhere_example =
    upload_files-elsewhere library library-IsDocumented memory memory-IsBlobStore agent before
      two_files sibling sibling (codes "agent/src-backup") sibling_valid sibling_key
      (unnamed, (apart, tt))

read-write_example :
    ShowsContent library library-IsDocumented memory memory-IsBlobStore agent
      (write library memory agent before file (codes "new")).0
      file
      file
      (codes "new")
      (pos 0)
      (pos 9)
read-write_example =
    read-write library library-IsDocumented memory memory-IsBlobStore agent before file
      (codes "new") file (pos 0) (pos 9) run_write

edit_no_lost_update_example :
    (key : Text) × (to_blob_key library agent file ≡ valid key)
    × IsReplaced library memory memory-IsBlobStore agent before
        (edit library memory agent before (λ s. s) file (codes "x") (codes "new") false).0
        key
        (codes "x")
        (codes "new")
        false
        1
edit_no_lost_update_example =
    edit_no_lost_update library library-IsDocumented memory memory-IsBlobStore agent before (λ s. s)
      file (codes "x") (codes "new") file false 1 (λ k b b' h h' e. cc) run_edit

delete-elsewhere_example :
    find (delete library memory agent before tree).0.entries (codes "agent/src-backup")
    ≡ find before.entries (codes "agent/src-backup")
delete-elsewhere_example =
    delete-elsewhere library library-IsDocumented memory memory-IsBlobStore agent before tree tree
      sibling sibling (codes "agent/src-backup") tree_valid sibling_valid sibling_key outside_tree

delete_removes_subtree_example :
    find (delete library memory agent before tree).0.entries (codes "agent/src/") ≡ none
unfolding starts_with
delete_removes_subtree_example =
    delete_removes_subtree library library-IsDocumented memory memory-IsBlobStore agent before tree
      tree (codes "agent/src/") (codes "agent/src/") tree tree_valid tree_listing (inl refl)
      run_delete

windows_partition_example :
    (concat (windows {A = ℕ} (1 ∷ 2 ∷ 3 ∷ []) 2) ≡ 1 ∷ 2 ∷ 3 ∷ [])
    × All (IsChunk 2) (windows {A = ℕ} (1 ∷ 2 ∷ 3 ∷ []) 2)
windows_partition_example = windows_partition (1 ∷ 2 ∷ 3 ∷ []) 2 (omega arith)

abbrev walked : List Item
walked = blob (codes "agent/b") (some 2) none ∷ blob_prefix (codes "agent/a/") ∷ []

ls_result-IsSorted_example :
    IsSorted (ls_result walked agent)
    × ((entries : List FileInfo) × AreEntriesOf agent walked entries
        × Perm (ls_result walked agent) entries)
ls_result-IsSorted_example = ls_result-IsSorted walked agent

grep_capped_example :
    grep_listed library memory agent before
      (codes "x")
      (codes "/")
      none
      (some 1)
      (returned (blob (codes "agent/src/a.txt") none none ∷ []))
    ≡ capped library memory agent before (codes "x") (some 1) (
        all_matches library memory agent before
          (codes "x")
          (grep_candidates (blob (codes "agent/src/a.txt") none none ∷ []) agent (codes "/") none))
grep_capped_example =
    grep_capped library memory agent before (codes "x") (codes "/") none (some 1)
      (blob (codes "agent/src/a.txt") none none ∷ []) readable
