-- ===== src/Blob/Library.antt =====
-- What the backend takes from libraries that are not in the repository: deepagents' path rules and
-- text helpers, wcmatch, pathlib, the codecs of Python. Each is a field of `Library`.
use langchain_azure.Base.{ℕ, Bool, List, ◌∷◌, ◌≡◌, ◌≢◌, ◌⊎◌, inl, inr, refl}
use langchain_azure.Base.Integer.{ℤ}
use langchain_azure.Base.Words.{Text, slash, same, join_with}
use langchain_azure.Base.{All, false}

-- A call that may raise `ValueError` (`UnicodeDecodeError` is one; for wcmatch, any exception) with
-- a message.
pub data Checked (A : Type 0) : Type 0 where
  valid : A → Checked A
  invalid : Text → Checked A

pub Checked-cases :
    {A : Type 0} (c : Checked A) → ((m : Text) × (c ≡ invalid m)) ⊎ ((a : A) × (c ≡ valid a))
Checked-cases (valid a) = inr (a, refl)
Checked-cases (invalid m) = inl (m, refl)

-- `perform_string_replacement`: an error text, or the new content and the number of occurrences.
pub data Replacement : Type 0 where
  refused : Text → Replacement
  replaced : Text → ℕ → Replacement

pub record Library : Type 1 where
  pub validate_path : Text → Checked Text
  pub suffix : Text → Text
  pub lower : Text → Text
  pub base_name : Text → Text
  pub compile_pattern : Text → Checked (Text → Bool)
  pub perform_string_replacement : Text → Text → Text → Bool → Replacement
  -- the window that `slice_read_response` returns, with its pagination metadata
  pub Slice : Type 0
  pub slice_read_response : Text → ℤ → ℤ → Slice
  pub encode_utf8 : Text → List ℕ
  pub decode_utf8 : List ℕ → Checked Text
  pub b64encode : List ℕ → Text

-- A path component: not empty, and without a slash.
abbrev pub IsSegment : Text → Type 0
IsSegment s = (s ≢ List.[]) × All (λ c. same c slash ≡ false) s

-- An absolute path with no empty component and no trailing slash; the root is "/".
abbrev pub IsNormal : Text → Type 0
IsNormal path =
    (segments : List Text) × All IsSegment segments × (path ≡ slash ∷ join_with slash segments)

-- What deepagents documents of `validate_path`: its results are normalized absolute paths, and
-- validating a result again returns it.
pub record IsDocumented (L : Library) : Type 0 where
  pub result_normal : (p q : Text) → L.validate_path p ≡ valid q → IsNormal q
  pub result_fixed : (p q : Text) → L.validate_path p ≡ valid q → L.validate_path q ≡ valid q
  pub decode-encode : (t : Text) → L.decode_utf8 (L.encode_utf8 t) ≡ valid t
