-- ===== src/Upload/Files.antt =====
-- The checks on an uploaded file (xportra/domain/evidence_upload.py).
use xportra_ai.Base.{
  ℕ, ◌-◌, ◌*◌, Bool, true, false, ◌&&◌, ◌||◌, Option, none, some, List, [], ◌∷◌, Any, Result, ok,
  err, ◌>>=◌, ◌>>◌, raise_if, raise_unless, expect, ◌==◌, ltb, if◌then◌else◌, is_empty, contains,
  length, drop, any, list_eq,
}
use xportra_ai.Base.Text.{Text, codes, strip}
use xportra_ai.Errors.{
  Error, upload, content_differs, not_bytes, name_required, unsupported_type, type_required,
  extension_differs, malformed_name, empty_file, too_large, separator_in_name, long_name,
}

-- The four kinds of file.
pub data Kind : Type 0 where
  pdf docx jpeg png : Kind

abbrev pub max_upload_bytes : ℕ
max_upload_bytes = 10 * 1024 * 1024

abbrev pub max_filename_characters : ℕ
max_filename_characters = 255

-- CANONICAL_UPLOAD_CONTENT_TYPES, in its order.
unfoldable pub content_types : List (Kind × Text)
content_types =
    (pdf, codes "application/pdf")
    ∷ (docx, codes "application/vnd.openxmlformats-officedocument.wordprocessingml.document")
    ∷ (jpeg, codes "image/jpeg")
    ∷ (png, codes "image/png")
    ∷ []

-- UPLOAD_EXTENSIONS
unfoldable pub extensions : Kind → List Text
extensions pdf = codes ".pdf" ∷ []
extensions docx = codes ".docx" ∷ []
extensions jpeg = codes ".jpg" ∷ codes ".jpeg" ∷ []
extensions png = codes ".png" ∷ []

-- CANONICAL_UPLOAD_EXTENSION
unfoldable pub canonical_extension : Kind → Text
canonical_extension pdf = codes ".pdf"
canonical_extension docx = codes ".docx"
canonical_extension jpeg = codes ".jpg"
canonical_extension png = codes ".png"

abbrev pub pdf_magic : List ℕ
pdf_magic = codes "%PDF-"

abbrev pub zip_magic : List ℕ
zip_magic = 80 ∷ 75 ∷ 3 ∷ 4 ∷ []

abbrev pub jpeg_magic : List ℕ
jpeg_magic = 0xff ∷ 0xd8 ∷ 0xff ∷ []

abbrev pub png_magic : List ℕ
png_magic = 0x89 ∷ 80 ∷ 78 ∷ 71 ∷ 13 ∷ 10 ∷ 26 ∷ 10 ∷ []

-- `raw.startswith(prefix)`
unfoldable pub starts_with : List ℕ → List ℕ → Bool
starts_with raw [] = true
starts_with [] (p ∷ ps) = false
starts_with (x ∷ raw) (p ∷ ps) = x == p && starts_with raw ps

-- `text.endswith(suffix)`
abbrev pub ends_with : Text → Text → Bool
ends_with t suffix = list_eq (drop (length t - length suffix) t) suffix

-- `t in texts`
abbrev pub among : Text → List Text → Bool
among t [] = false
among t (u ∷ us) = list_eq t u || among t us

-- `ValidatedUpload`
pub record ValidatedUpload : Type 0 where
  pub content_hash : Text
  pub detected_kind : Kind
  pub content_type : Text
  pub extension : Text
  pub original_filename : Text
  pub size_bytes : ℕ

abbrev pub is_control : ℕ → Bool
is_control c = ltb c 32 || c == 127

-- `sanitize_filename`
unfoldable pub sanitize_filename : Any Text → Result Error Text
sanitize_filename given = do
  name ← expect given (upload name_required)
  raise_if (contains name 0) (upload malformed_name)
  raise_if (contains name 47 || contains name 92) (upload separator_in_name)
  let candidate = strip name
  raise_if (is_empty candidate || among candidate (codes "." ∷ codes ".." ∷ []))
      (upload malformed_name)
  raise_if (any is_control candidate) (upload malformed_name)
  raise_if (ltb max_filename_characters (length candidate)) (upload long_name)
  ok candidate

-- `text.split(";")[0]`
abbrev pub before_semicolon : Text → Text
before_semicolon [] = []
before_semicolon (c ∷ cs) = let rest = before_semicolon cs in if c == 59 then [] else c ∷ rest

-- The loop of `_kind_for_content_type`.
abbrev pub find_kind : Text → List (Kind × Text) → Result Error Kind
find_kind declared [] = err (upload unsupported_type)
find_kind declared (row ∷ rows) =
    let rest = find_kind declared rows in if list_eq declared row.1 then ok row.0 else rest

unfoldable pub kind_for_content_type : Text → Result Error Kind
kind_for_content_type declared = find_kind declared content_types

-- Python's `str.lower`.
module _ (lower : Text → Text) where
  -- `_normalize_content_type`
  unfoldable pub normalize_content_type : Any Text → Result Error Text
  normalize_content_type given = do
    t ← expect given (upload type_required)
    let normalized = lower (strip (before_semicolon t))
    raise_if (is_empty normalized) (upload type_required)
    ok normalized

  -- `_require_extension_consistency`
  unfoldable pub require_extension : Text → Kind → Result Error (Unit {0})
  require_extension name kind =
      raise_unless (any (ends_with (lower name)) (extensions kind)) (upload extension_differs)

-- The names in a zip archive, where it can be read.
module _ (namelist : List ℕ → Option (List Text)) where
  -- `_is_docx_archive`
  unfoldable pub is_docx_archive : List ℕ → Bool
  is_docx_archive raw = elim (namelist raw) [
    | none ↦ false
    | some names ↦
        among (codes "[Content_Types].xml") names && among (codes "word/document.xml") names
  ]

  unfoldable pub has_magic : Kind → List ℕ → Bool
  has_magic pdf raw = starts_with raw pdf_magic
  has_magic docx raw = starts_with raw zip_magic && is_docx_archive raw
  has_magic jpeg raw = starts_with raw jpeg_magic
  has_magic png raw = starts_with raw png_magic

  -- `_require_magic_bytes`
  unfoldable pub require_magic_bytes : Kind → List ℕ → Result Error (Unit {0})
  require_magic_bytes kind raw = raise_unless (has_magic kind raw) (upload content_differs)

-- With the SHA-256 digest in hexadecimal.
module _ (lower : Text → Text) (namelist : List ℕ → Option (List Text))
    (sha256 : List ℕ → Text) where
  -- `validate_upload_file`
  unfoldable pub validate_upload_file :
      Any Text → Any Text → Any (List ℕ) → Result Error ValidatedUpload
  unfolding sanitize_filename normalize_content_type kind_for_content_type require_extension
      require_magic_bytes
  validate_upload_file filename content_type content = do
    raw ← expect content (upload not_bytes)
    raise_if (is_empty raw) (upload empty_file)
    raise_if (ltb max_upload_bytes (length raw)) (upload too_large)
    safe_name ← sanitize_filename filename
    declared ← normalize_content_type lower content_type
    kind ← kind_for_content_type declared
    require_extension lower safe_name kind
    require_magic_bytes namelist kind raw
    ok (record {
      content_hash = sha256 raw;
      detected_kind = kind;
      content_type = declared;
      extension = canonical_extension kind;
      original_filename = safe_name;
      size_bytes = length raw;
    })
