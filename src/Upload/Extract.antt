-- ===== src/Upload/Extract.antt =====
-- The text of a file that has passed the checks (`extract_upload_text`), and which evidence
-- may be used (`is_evidence_usable`).
use xportra_ai.Base.{
  ℕ, Bool, true, false, not, ◌&&◌, Option, none, some, List, Any, typed, untyped, Result, ok, err,
  ◌>>=◌, ◌>>◌, raise_if, expect, ltb, is_empty, length,
}
use xportra_ai.Base.Text.{Text, strip}
use xportra_ai.Errors.{Error, upload, unsupported_kind, unreadable, no_text, too_much_text}
use xportra_ai.Upload.Files.{Kind, pdf, docx, jpeg, png}
use xportra_ai.Upload.Images.{extract_png_text, extract_jpeg_text}
use xportra_ai.Upload.Pdf.{extract_pdf_text}
use xportra_ai.Upload.Docx.{Markup, extract_docx_text}

abbrev pub max_extracted_text_characters : ℕ
max_extracted_text_characters = 1000000

-- The processing states, and `other` for any other string.
pub data Processing : Type 0 where
  uploaded processing ready failed other : Processing

-- A review status, as far as the code tells one from another.
pub data Review : Type 0 where
  archived rejected another : Review

-- What a row of evidence has under its two keys.
pub record Row : Type 0 where
  pub processing_status : Option Processing
  pub status : Option Review

-- `row.get("processing_status", PROCESSING_UPLOADED) == PROCESSING_READY`
abbrev pub is_ready : Option Processing → Bool
is_ready (some ready) = true
is_ready _ = false

-- `row.get("status") in ("archived", "rejected")`
abbrev pub is_hidden : Option Review → Bool
is_hidden (some archived) = true
is_hidden (some rejected) = true
is_hidden _ = false

-- `is_evidence_usable`
unfoldable pub is_evidence_usable : Any Row → Bool
is_evidence_usable untyped = false
is_evidence_usable (typed row) = is_ready row.processing_status && not (is_hidden row.status)

module _ (decompress : List ℕ → Option (List ℕ)) (read_document : List ℕ → Option (List ℕ))
    (parse : List ℕ → Option Markup) where
  -- The adapter of a kind; `none` is a kind that is none of the four.
  unfoldable pub text_of_kind : Option Kind → List ℕ → Result Error Text
  text_of_kind none raw = err (upload unsupported_kind)
  text_of_kind (some docx) raw = extract_docx_text read_document parse raw
  text_of_kind (some pdf) raw = extract_pdf_text decompress raw
  text_of_kind (some jpeg) raw = extract_jpeg_text raw
  text_of_kind (some png) raw = extract_png_text raw

  -- `extract_upload_text`
  unfoldable pub extract_upload_text : Option Kind → Any (List ℕ) → Result Error Text
  unfolding text_of_kind
  extract_upload_text kind content = do
    raw ← expect content (upload unreadable)
    text ← text_of_kind kind raw
    let cleaned = strip text
    raise_if (is_empty cleaned) (upload no_text)
    raise_if (ltb max_extracted_text_characters (length cleaned)) (upload too_much_text)
    ok cleaned
