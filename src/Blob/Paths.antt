-- ===== src/Blob/Paths.antt =====
-- deepagents/_utils.py, and `_relative_path` of backend.py: virtual paths and blob keys.
pub mod Laws
use langchain_azure.Base.{
  ℕ, Bool, true, false, not, Option, none, some, List, [], ◌∷◌, ◌++◌, if◌then◌else◌, ◌==◌, codes_eq,
  contains, drop, length,
}
use langchain_azure.Base.Words.{Text, codes, slash, starts_with, ends_with, split_at, join_with}
use langchain_azure.Blob.Library.{Library, Checked, valid, invalid}

-- `_NON_TEXT_EXTENSIONS`
abbrev pub non_text_extensions : List Text
non_text_extensions =
    codes ".png"
    ∷ codes ".jpeg"
    ∷ codes ".jpg"
    ∷ codes ".webp"
    ∷ codes ".gif"
    ∷ codes ".heic"
    ∷ codes ".heif"
    ∷ codes ".mp4"
    ∷ codes ".mpeg"
    ∷ codes ".mov"
    ∷ codes ".avi"
    ∷ codes ".flv"
    ∷ codes ".mpg"
    ∷ codes ".webm"
    ∷ codes ".wmv"
    ∷ codes ".3gpp"
    ∷ codes ".wav"
    ∷ codes ".mp3"
    ∷ codes ".aiff"
    ∷ codes ".aac"
    ∷ codes ".ogg"
    ∷ codes ".flac"
    ∷ codes ".pdf"
    ∷ codes ".ppt"
    ∷ codes ".pptx"
    ∷ []

-- `[part for part in parts if part]`
unfoldable pub nonempty_parts : List Text → List Text
nonempty_parts [] = []
nonempty_parts ([] ∷ parts) = nonempty_parts parts
nonempty_parts ((c ∷ p) ∷ parts) = (c ∷ p) ∷ nonempty_parts parts

-- `prefix if prefix.endswith("/") else prefix + "/"`
unfoldable pub with_slash : Text → Text
with_slash prefix = if ends_with prefix slash then prefix else prefix ++ slash ∷ []

-- `"/" + blob_name if blob_name else "/"`: both are a slash and the name. An empty prefix is not
-- removed.
unfoldable pub from_blob_key : Text → Text → Text
from_blob_key [] name = slash ∷ name
from_blob_key (c ∷ prefix) name =
    let p = with_slash (c ∷ prefix) in
    slash ∷ (if starts_with name p then drop (length p) name else name)

-- The text after the last slash: `virtual_path.split("/")[-1]`.
unfoldable pub last_piece : List Text → Text
last_piece [] = []
last_piece (p ∷ []) = p
last_piece (p ∷ q ∷ rest) = last_piece (q ∷ rest)

unfoldable pub relative_path : Text → Text → Option Text
relative_path virtual base =
    if base == slash ∷ []
    then some (drop 1 virtual)
    else if starts_with virtual (base ++ slash ∷ [])
    then some (drop (length (base ++ slash ∷ [])) virtual)
    else if virtual == base
    then some (last_piece (split_at slash virtual))
    else none

unfoldable pub key_of : Text → Text → Text
key_of [] normalized = normalized
key_of (c ∷ prefix) normalized = with_slash (c ∷ prefix) ++ normalized

unfoldable pub listing_prefix : Text → Text → Text
listing_prefix [] [] = []
listing_prefix [] (c ∷ normalized) = (c ∷ normalized) ++ slash ∷ []
listing_prefix (c ∷ prefix) [] = with_slash (c ∷ prefix)
listing_prefix (c ∷ prefix) (d ∷ normalized) =
    with_slash (c ∷ prefix) ++ ((d ∷ normalized) ++ slash ∷ [])

-- the rest of `normalize_path`, after validation
unfoldable pub strip_root : Checked Text → Checked Text
strip_root (invalid message) = invalid message
strip_root (valid normalized) =
    if normalized == slash ∷ []
    then valid []
    else valid (join_with slash (nonempty_parts (split_at slash normalized)))

module _ (L : Library) where
  unfoldable pub is_text_file : Text → Bool
  is_text_file path = not (contains non_text_extensions (L.lower (L.suffix path)))

  unfoldable pub normalize_path : Text → Checked Text
  normalize_path [] = valid []
  normalize_path (c ∷ path) = strip_root (L.validate_path (c ∷ path))

  unfoldable pub to_blob_key : Text → Text → Checked Text
  to_blob_key prefix path = elim (normalize_path path) [
    | invalid message ↦ invalid message
    | valid normalized ↦ valid (key_of prefix normalized)
  ]

  unfoldable pub get_prefix_for_path : Text → Text → Checked Text
  get_prefix_for_path prefix path = elim (normalize_path path) [
    | invalid message ↦ invalid message
    | valid normalized ↦ valid (listing_prefix prefix normalized)
  ]
