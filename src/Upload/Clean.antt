-- ===== src/Upload/Clean.antt =====
-- What the text of a file is, once it is taken.
use xportra_ai.Base.{
  ℕ, ◌≤◌, ◌≡◌, subst, inl, inr, Bool, true, false, Option, none, some, List, typed, arith, ok,
  raise_if, ltb, is_empty, length, >>=-eq-ok, >>-eq-ok, raise_if-eq-ok, ok-injective,
}
use xportra_ai.Base.Text.{Text, strip, strip_idem}
use xportra_ai.Errors.{upload, no_text, too_much_text}
use xportra_ai.Upload.Files.{Kind, jpeg, png}
use xportra_ai.Upload.Docx.{Markup}
use xportra_ai.Upload.Extract.{max_extracted_text_characters, text_of_kind, extract_upload_text}
use xportra_ai.Upload.Bounds.{images_bounded, length-strip}

abbrev pub is_image : Option Kind → Bool
is_image (some jpeg) = true
is_image (some png) = true
is_image _ = false

module _ (decompress : List ℕ → Option (List ℕ)) (read_document : List ℕ → Option (List ℕ))
    (parse : List ℕ → Option Markup) where
  image_text :
      (kind : Option Kind) (raw : List ℕ) (text : Text)
      → is_image kind ≡ true
      → text_of_kind decompress read_document parse kind raw ≡ ok text
      → length text ≤ length raw
  unfolding text_of_kind
  image_text none raw text h e = absurd (cc h)
  image_text (some Kind.pdf) raw text h e = absurd (cc h)
  image_text (some Kind.docx) raw text h e = absurd (cc h)
  image_text (some jpeg) raw text h e = (images_bounded raw).2 text (inr e)
  image_text (some png) raw text h e = (images_bounded raw).2 text (inl e)

  -- If the extraction returns a text, it is not empty, has no white space around it and at most a
  -- million characters; and that of an image has no more characters than the file has bytes.
  pub extract_upload_text_bounds :
      (kind : Option Kind) (raw : List ℕ) (text : Text)
      → extract_upload_text decompress read_document parse kind (typed raw) ≡ ok text
      → (is_empty text ≡ false)
        × (strip text ≡ text)
        × (length text ≤ 1000000)
        × (is_image kind ≡ true → length text ≤ length raw)
  unfolding extract_upload_text
  extract_upload_text_bounds kind raw text e =
      let (found, taken, a) =
        >>=-eq-ok (text_of_kind decompress read_document parse kind raw) _ e in
      let (filled, b) = >>-eq-ok (raise_if (is_empty (strip found)) (upload no_text)) _ a in
      let (short, c) =
        >>-eq-ok
          (raise_if (ltb max_extracted_text_characters (length (strip found)))
            (upload too_much_text))
          _ b in
      let small =
        raise_if-eq-ok (ltb max_extracted_text_characters (length (strip found)))
          (upload too_much_text) short in
      let shorter = length-strip found in
      let fact : (is_empty (strip found) ≡ false)
          × (strip (strip found) ≡ strip found)
          × (length (strip found) ≤ 1000000)
          × (is_image kind ≡ true → length (strip found) ≤ length raw) =
        (
          raise_if-eq-ok (is_empty (strip found)) (upload no_text) filled,
          strip_idem found,
          ground (arith, small),
          λ image. let h = image_text kind raw found image taken in omega (arith, h, shorter),
        ) in
      subst
        (λ t.
          (is_empty t ≡ false)
          × (strip t ≡ t)
          × (length t ≤ 1000000)
          × (is_image kind ≡ true → length t ≤ length raw))
        (ok-injective c) fact
