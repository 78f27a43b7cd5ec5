-- ===== src/Upload/Tests.antt =====
-- Small files; the theorems at them.
use xportra_ai.Base.{
  ℕ, suc, ◌+◌, ◌≤◌, ◌≡◌, ◌↔◌, refl, ◌⊎◌, true, false, ◌&&◌, Option, none, some, List, [], ◌∷◌, ◌++◌,
  map, typed, arith, ok, is_some, leb, if◌then◌else◌, is_empty, length,
}
use xportra_ai.Base.Text.{Text, codes, is_space, is_blank, strip}
use xportra_ai.Errors.{Uuid}
use xportra_ai.Base.Text.{join, lstrip, rstrip}
use xportra_ai.Upload.Files.{
  png, ValidatedUpload, validate_upload_file, sanitize_filename, normalize_content_type,
  kind_for_content_type, require_extension, require_magic_bytes, has_magic, starts_with,
  content_types, extensions, canonical_extension, png_magic,
}
use xportra_ai.Upload.Keys.{compose_object_key, key_text}
use xportra_ai.Upload.Images.{
  extract_png_text, extract_jpeg_text, png_texts, jpeg_texts, note_chunk,
}
use xportra_ai.Upload.Pdf.{pdf_literal_strings, find_literals, literal_body, unescape, replace_pair}
use xportra_ai.Upload.Extract.{extract_upload_text, text_of_kind}
use xportra_ai.Upload.Checks.{IsUpload, validate_upload_file_iff}
use xportra_ai.Upload.KeySafety.{compose_object_key-injective}
use xportra_ai.Upload.Bounds.{images_bounded}
use xportra_ai.Upload.Literals.{escape, pdf_literal_strings-escape}
use xportra_ai.Upload.Clean.{is_image, extract_upload_text_bounds}

-- Letters of ASCII only.
abbrev lower_letter : ℕ → ℕ
lower_letter c = if leb 65 c && leb c 90 then c + 32 else c

abbrev lower : Text → Text
lower t = map lower_letter t

abbrev no_archive : List ℕ → Option (List Text)
no_archive raw = none

abbrev digest_of : List ℕ → Text
digest_of raw = codes "d"

-- One text chunk, with the key `k` and the text `ok`.
abbrev image : List ℕ
image =
    png_magic
    ++ (0 ∷ 0 ∷ 0 ∷ 4 ∷ (codes "tEXt" ++ (codes "k" ++ (0 ∷ (codes "ok" ++ (9 ∷ 9 ∷ 9 ∷ 9 ∷ []))))))

abbrev recorded : ValidatedUpload
recorded = record {
  content_hash = codes "d";
  detected_kind = png;
  content_type = codes "image/png";
  extension = codes ".png";
  original_filename = codes "Scan.PNG";
  size_bytes = 24;
}

accepted :
    validate_upload_file lower no_archive digest_of
      (typed (codes " Scan.PNG"))
      (typed (codes "Image/PNG; q=1"))
      (typed image)
    ≡ ok recorded
unfolding validate_upload_file sanitize_filename normalize_content_type kind_for_content_type
    require_extension require_magic_bytes has_magic starts_with content_types extensions
    canonical_extension strip lstrip rstrip is_blank is_space
accepted = refl

validate_upload_file_iff_example :
    (validate_upload_file lower no_archive digest_of
        (typed (codes " Scan.PNG"))
        (typed (codes "Image/PNG; q=1"))
        (typed image)
      ≡ ok recorded)
    ↔ IsUpload lower no_archive digest_of
        (codes " Scan.PNG")
        (codes "Image/PNG; q=1")
        image
        recorded
validate_upload_file_iff_example =
    validate_upload_file_iff lower no_archive digest_of (codes " Scan.PNG") (codes "Image/PNG; q=1")
      image recorded

taken :
    extract_upload_text (λ raw. none) (λ raw. none) (λ raw. none) (some png) (typed image)
    ≡ ok (codes "ok")
unfolding extract_upload_text text_of_kind extract_png_text png_texts note_chunk join starts_with
    strip lstrip rstrip is_blank is_space
taken = refl

extract_upload_text_bounds_example :
    (is_empty (codes "ok") ≡ false)
    × (strip (codes "ok") ≡ codes "ok")
    × (2 ≤ 1000000)
    × (is_image (some png) ≡ true → 2 ≤ length image)
extract_upload_text_bounds_example =
    extract_upload_text_bounds (λ raw. none) (λ raw. none) (λ raw. none) (some png) image
      (codes "ok") taken

images_bounded_example :
    (is_some (png_texts (suc (length image)) image 8) ≡ true)
    × (is_some (jpeg_texts (suc (length image)) image 2) ≡ true)
    × ((text : Text)
        → (extract_png_text image ≡ ok text) ⊎ (extract_jpeg_text image ≡ ok text)
        → length text ≤ length image)
images_bounded_example = images_bounded image

-- What a literal with brackets says.
filled : is_empty (strip (codes "a (b)")) ≡ false
unfolding strip lstrip rstrip is_blank is_space
filled = refl

pdf_literal_strings-escape_example :
    pdf_literal_strings (40 ∷ (escape (codes "a (b)") ++ (41 ∷ []))) ≡ strip (codes "a (b)") ∷ []
pdf_literal_strings-escape_example = pdf_literal_strings-escape (codes "a (b)") refl filled

-- An escaped backslash before the letter n is read as a line feed: the replacements follow one
-- another, and the last see what the ones before them have made.
backslash_lost : pdf_literal_strings (codes "(a\\\\nb)") ≡ (97 ∷ 10 ∷ 98 ∷ []) ∷ []
unfolding pdf_literal_strings find_literals literal_body unescape replace_pair strip lstrip rstrip
    is_blank is_space
backslash_lost = refl

-- Texts of 32 characters, each identity its own.
abbrev hex : Uuid → Text
hex u = u ∷ codes "0000000000000000000000000000000"

abbrev digest : Text
digest = codes "0123456789abcdef0123456789abcdef0123456789abcdef0123456789abcdef"

composes :
    compose_object_key hex (typed 1) (typed 2) (typed digest) (codes ".pdf")
    ≡ ok (key_text hex 1 2 digest (codes ".pdf"))
unfolding compose_object_key
composes = refl

compose_object_key-injective_example :
    (◌≡◌ {A = Uuid} 1 1) × (◌≡◌ {A = Uuid} 2 2) × (digest ≡ digest) × (codes ".pdf" ≡ codes ".pdf")
compose_object_key-injective_example =
    compose_object_key-injective hex (λ u b. refl) (λ u v b c e. cc e) 1 1 2 2 digest digest
      (codes ".pdf") (codes ".pdf") (key_text hex 1 2 digest (codes ".pdf"))
      ((omega arith, omega arith), (omega arith, omega arith)) composes composes
