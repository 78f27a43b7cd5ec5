-- ===== src/Upload/Docx.antt =====
-- The text of a DOCX file (`_extract_docx_text`).
use xportra_ai.Base.{
  ℕ, Bool, ◌||◌, Option, none, some, List, [], ◌∷◌, ◌++◌, Result, ok, err, ◌>>=◌, ◌>>◌, raise_if,
  if◌then◌else◌, is_empty,
}
use xportra_ai.Base.Text.{Text, codes, strip}
use xportra_ai.Errors.{Error, upload, unreadable}
use xportra_ai.Base.Text.{join}
use xportra_ai.Upload.Files.{starts_with, ends_with}
use xportra_ai.Upload.Pdf.{keep_text}

-- What the code asks of a parsed document: for each paragraph the texts of its runs, and for each
-- element, in document order, its tag and its text.
pub record Markup : Type 0 where
  pub paragraphs : List (List (Option Text))
  pub elements : List (Text × Option Text)

-- `part in data`
unfoldable pub occurs : List ℕ → List ℕ → Bool
occurs part [] = starts_with [] part
occurs part (c ∷ s) = starts_with (c ∷ s) part || occurs part s

-- `"".join(node.text for node in nodes if node.text)`
abbrev pub joined_runs : List (Option Text) → Text
joined_runs [] = []
joined_runs (none ∷ rest) = joined_runs rest
joined_runs (some t ∷ rest) = t ++ joined_runs rest

abbrev pub paragraph_texts : List (List (Option Text)) → List Text
paragraph_texts [] = []
paragraph_texts (p ∷ ps) = keep_text (strip (joined_runs p)) (paragraph_texts ps)

-- The texts of the elements whose tag ends in `}t`.
abbrev pub run_texts : List (Text × Option Text) → List (Option Text)
run_texts [] = []
run_texts (e ∷ es) =
    let rest = run_texts es in if ends_with e.0 (codes "}t") then e.1 ∷ rest else rest

unfoldable pub docx_paragraphs : Markup → List Text
docx_paragraphs m =
    let found = paragraph_texts m.paragraphs in
    if is_empty found then keep_text (strip (joined_runs (run_texts m.elements))) [] else found

-- `word/document.xml` of a zip archive, where it can be read; and the parser of markup, where the
-- bytes are well-formed.
module _ (read_document : List ℕ → Option (List ℕ)) (parse : List ℕ → Option Markup) where
  abbrev pub readable : {A : Type 0} → Option A → Result Error A
  readable none = err (upload unreadable)
  readable (some a) = ok a

  -- `_extract_docx_text`
  unfoldable pub extract_docx_text : List ℕ → Result Error Text
  unfolding docx_paragraphs occurs
  extract_docx_text raw = do
    document_xml ← readable (read_document raw)
    raise_if (occurs (codes "<!DOCTYPE") document_xml || occurs (codes "<!ENTITY") document_xml)
        (upload unreadable)
    root ← readable (parse document_xml)
    ok (join (10 ∷ 10 ∷ []) (docx_paragraphs root))
