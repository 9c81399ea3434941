-- ===== src/Blob/Reads/Capped.antt =====
-- A `grep` with a cap, scanned in chunks, against a plain scan of every candidate.
use mathlib.Core.List.{append-nil, append_assoc}
use langchain_azure.Base.{
  ℕ, ◌<◌, ◌≤◌, ◌≡◌, refl, sym, ap, ◌∙◌, subst, Bool, true, false, Option, none, some, List, [], ◌∷◌,
  ◌++◌, arith, inl, inr, All, All-split, concat, length, take-all, take-append, length-append,
  Bool-cases, ltb, ltb→lt,
}
use langchain_azure.Base.Words.{Text}
use langchain_azure.Blob.Library.{Library, Checked, valid, invalid}
use langchain_azure.Blob.Paths.{from_blob_key}
use langchain_azure.Blob.Select.{GrepMatch, grep_lines, grep_candidates, windows}
use langchain_azure.Blob.Select.Windows.{windows_partition}
use langchain_azure.Blob.Service.{Service, Outcome, returned, raised, Blob, Item}
use langchain_azure.Blob.Answers.{Answer, success, GrepResult, Scanned}
use langchain_azure.Blob.Reads.{
  scan, scan_blob, scan_text, scan_chunk, scan_chunks, after_chunk, grep_end, exceeds, cut,
  window_size, grep_candidates_in, grep_listed,
}

ltb-true : (a b : ℕ) → a < b → ltb a b ≡ true
ltb-true a b h = ground arith

ltb-false : (a b : ℕ) → ltb a b ≡ false → b ≤ a
ltb-false a b h = ground arith

module _ (L : Library) (S : Service) (prefix : Text) (s : S.State) (pattern : Text) where
  -- The blob can be downloaded and decoded.
  abbrev pub IsReadable : Text → Type 0
  IsReadable name =
      (b : Blob) × (content : Text) × (S.download_blob s name ≡ returned b)
      × (L.decode_utf8 b.body ≡ valid content)

  lines_of_text : Text → Checked Text → List GrepMatch
  lines_of_text name (invalid m) = []
  lines_of_text name (valid content) = grep_lines content pattern (from_blob_key prefix name)

  lines_of_blob : Text → Outcome Blob → List GrepMatch
  unfolding lines_of_text
  lines_of_blob name (raised e) = []
  lines_of_blob name (returned b) = lines_of_text name (L.decode_utf8 b.body)

  -- The matches of the candidates, file by file, with no chunks and no cap.
  pub all_matches : List Text → List GrepMatch
  unfolding lines_of_blob
  all_matches [] = []
  all_matches (name ∷ names) = lines_of_blob name (S.download_blob s name) ++ all_matches names

  abbrev plain : List GrepMatch → Scanned
  plain matches = record { matches = matches; failed = [] }

  scan_readable :
      (name : Text) (found : List GrepMatch)
      → IsReadable name
      → scan L S prefix s pattern (plain found) name
        ≡ returned (plain (found ++ lines_of_blob name (S.download_blob s name)))
  unfolding scan scan_blob scan_text lines_of_blob lines_of_text
  scan_readable name found (b, content, e, d) = rw (e, scan_blob) (rw (d, scan_text) refl)

  scan_chunk_readable :
      (names : List Text) (found : List GrepMatch)
      → All IsReadable names
      → scan_chunk L S prefix s pattern names (returned (plain found))
        ≡ returned (plain (found ++ all_matches names))
  unfolding scan_chunk all_matches
  scan_chunk_readable [] found h = rw append-nil
  scan_chunk_readable (name ∷ names) found (r, h) =
      ap (scan_chunk L S prefix s pattern names) (scan_readable name found r)
      ∙ scan_chunk_readable names (found ++ lines_of_blob name (S.download_blob s name)) h
      ∙ ap (λ m. returned (plain m)) (append_assoc found _ (all_matches names))

  all_matches-append :
      (xs ys : List Text) → all_matches (xs ++ ys) ≡ all_matches xs ++ all_matches ys
  unfolding all_matches
  all_matches-append [] ys = refl
  all_matches-append (x ∷ xs) ys =
      ap (λ r. lines_of_blob x (S.download_blob s x) ++ r) (all_matches-append xs ys)
      ∙ sym (append_assoc _ (all_matches xs) (all_matches ys))

  -- The result of a capped scan that finds these matches.
  abbrev pub capped : Option ℕ → List GrepMatch → Outcome (Answer GrepResult)
  capped cap matches = returned (
      success (record {
        matches = cut L S prefix cap matches;
        truncated = exceeds L S prefix cap matches;
      }))

  capped-exceeded :
      (cap : Option ℕ) (found rest : List GrepMatch)
      → exceeds L S prefix cap found ≡ true
      → capped cap (found ++ rest)
        ≡ returned (success (record { matches = cut L S prefix cap found; truncated = true }))
  capped-exceeded none found rest e = absurd (cc)
  capped-exceeded (some n) found rest e =
      let bound : n < length found = ltb→lt n (length found) e in
      rw (
        take-append n found rest (omega arith),
        ltb-true n (length (found ++ rest)) (omega (arith, length-append found rest)),
      )

  capped-within :
      (cap : Option ℕ) (found : List GrepMatch)
      → exceeds L S prefix cap found ≡ false
      → capped cap found ≡ returned (success (record { matches = found; truncated = false }))
  capped-within none found e = refl
  capped-within (some n) found e = rw (take-all n found (ltb-false n (length found) e), e)

  nothing_exceeds : (cap : Option ℕ) → exceeds L S prefix cap [] ≡ false
  nothing_exceeds none = refl
  nothing_exceeds (some n) = ground arith

  scan_chunks-capped :
      (cap : Option ℕ) (chunks : List (List Text)) (found : List GrepMatch)
      → All IsReadable (concat chunks)
      → exceeds L S prefix cap found ≡ false
      → scan_chunks L S prefix s pattern cap chunks (returned (plain found))
        ≡ capped cap (found ++ all_matches (concat chunks))
  unfolding scan_chunks grep_end all_matches
  scan_chunks-capped cap [] found h e =
      sym (ap (capped cap) (append-nil found) ∙ capped-within cap found e)
  scan_chunks-capped cap (chunk ∷ chunks) found h e =
      let (here, later) = All-split IsReadable chunk (concat chunks) h in
      let found' = found ++ all_matches chunk in
      ap (after_chunk L S prefix cap (scan_chunks L S prefix s pattern cap chunks))
        (scan_chunk_readable chunk found here)
      ∙ elim (Bool-cases (exceeds L S prefix cap found')) [
        | inl over ↦ rw over (sym (capped-exceeded cap found' (all_matches (concat chunks)) over))
        | inr within ↦ rw within (scan_chunks-capped cap chunks found' later within)
      ]
      ∙ ap (capped cap) (
          append_assoc found (all_matches chunk) (all_matches (concat chunks))
          ∙ ap (λ r. found ++ r) (sym (all_matches-append chunk (concat chunks))))

  window_size-pos :
      (cap : Option ℕ) (candidates : List Text) → 0 < window_size L S prefix cap candidates
  window_size-pos none candidates = omega arith
  window_size-pos (some n) candidates = omega arith

  -- If every candidate can be read, `grep` returns the first `max_count` matches of a plain scan of
  -- all candidates in order, and says that it was truncated exactly if that scan finds more. The
  -- chunks and the early stop do not show in the result.
  pub grep_capped :
      (base : Text) (matcher : Option (Text → Bool)) (cap : Option ℕ) (items : List Item)
      → All IsReadable (grep_candidates items prefix base matcher)
      → grep_listed L S prefix s pattern base matcher cap (returned items)
        ≡ capped cap (all_matches (grep_candidates items prefix base matcher))
  unfolding grep_listed grep_candidates_in
  grep_capped base matcher cap items h =
      let candidates = grep_candidates items prefix base matcher in
      let size = window_size L S prefix cap candidates in
      let (whole, sizes) = windows_partition candidates size (window_size-pos cap candidates) in
      scan_chunks-capped cap (windows candidates size) [] (subst (All IsReadable) (sym whole) h)
        (nothing_exceeds cap)
      ∙ ap (λ c. capped cap (all_matches c)) whole
