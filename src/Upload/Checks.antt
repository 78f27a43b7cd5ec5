-- ===== src/Upload/Checks.antt =====
-- Which files pass the checks.
use xportra_ai.Base.{
  ℕ, ◌≤◌, ◌≡◌, ◌↔◌, refl, sym, ap, ◌∙◌, subst, inl, inr, true, false, ◌||◌, Option, List, [], ◌∷◌,
  typed, arith, ok, raise_if, ltb, is_empty, contains, length, All, Bool-cases, >>=-eq-ok, >>-eq-ok,
  raise_if-eq-ok, raise_unless-eq-ok, ok-injective, any, list_eq, list_eq→eq,
}
use xportra_ai.Base.Text.{Text, codes, strip}
use xportra_ai.Errors.{upload, empty_file, too_large, extension_differs, content_differs}
use xportra_ai.Upload.Files.{
  Kind, pdf, docx, jpeg, png, ValidatedUpload, max_upload_bytes, max_filename_characters, among,
  ends_with, is_control, before_semicolon, content_types, extensions, canonical_extension,
  find_kind, sanitize_filename, normalize_content_type, kind_for_content_type, require_extension,
  has_magic, require_magic_bytes, validate_upload_file,
}

-- The tests of `sanitize_filename`, all passed.
abbrev Passes : Text → Type 0
Passes name =
    (contains name 0 ≡ false)
    × ((contains name 47 || contains name 92) ≡ false)
    × ((is_empty (strip name) || among (strip name) (codes "." ∷ codes ".." ∷ [])) ≡ false)
    × (any is_control (strip name) ≡ false)
    × (ltb max_filename_characters (length (strip name)) ≡ false)

sanitize_iff :
    (name safe : Text)
    → (sanitize_filename (typed name) ≡ ok safe) ↔ (Passes name × (safe ≡ strip name))
unfolding sanitize_filename
sanitize_iff name safe = ground arith

-- The one content type of a kind.
abbrev type_of : Kind → Text
type_of pdf = codes "application/pdf"
type_of docx = codes "application/vnd.openxmlformats-officedocument.wordprocessingml.document"
type_of jpeg = codes "image/jpeg"
type_of png = codes "image/png"

find_kind→type_of :
    (t : Text) (rows : List (Kind × Text)) (k : Kind)
    → All (λ row. row.1 ≡ type_of row.0) rows
    → find_kind t rows ≡ ok k
    → t ≡ type_of k
find_kind→type_of t [] k h e = absurd (cc e)
find_kind→type_of t (row ∷ rows) k h e = elim (Bool-cases (list_eq t row.1)) [
  | inl a ↦
      let same : row.0 ≡ k = ok-injective (rw a at e) in
      list_eq→eq t row.1 a ∙ (h.0 ∙ ap type_of same)
  | inr a ↦ find_kind→type_of t rows k h.1 (rw a at e)
]

kind_for_content_type→type_of :
    (t : Text) (k : Kind) → kind_for_content_type t ≡ ok k → t ≡ type_of k
unfolding kind_for_content_type content_types
kind_for_content_type→type_of t k e =
    find_kind→type_of t content_types k (refl, (refl, (refl, (refl, tt)))) e

type_of-not_empty : (k : Kind) → is_empty (type_of k) ≡ false
type_of-not_empty pdf = refl
type_of-not_empty docx = refl
type_of-not_empty jpeg = refl
type_of-not_empty png = refl

type_of→kind_for_content_type : (k : Kind) → kind_for_content_type (type_of k) ≡ ok k
unfolding kind_for_content_type content_types
type_of→kind_for_content_type pdf = refl
type_of→kind_for_content_type docx = refl
type_of→kind_for_content_type jpeg = refl
type_of→kind_for_content_type png = refl

module _ (lower : Text → Text) (namelist : List ℕ → Option (List Text))
    (sha256 : List ℕ → Text) where
  -- What a file and what is said of it must be, and what is recorded of it.
  pub record IsUpload (filename content_type : Text) (raw : List ℕ) (v : ValidatedUpload)
      : Type 0 where
    pub not_empty : is_empty raw ≡ false
    pub bounded : length raw ≤ 10485760
    pub safe : Passes filename
    pub shown : v.original_filename ≡ strip filename
    pub declared : v.content_type ≡ lower (strip (before_semicolon content_type))
    pub canonical : v.content_type ≡ type_of v.detected_kind
    pub extension_fits :
        any (ends_with (lower (strip filename))) (extensions v.detected_kind) ≡ true
    pub content_fits : has_magic namelist v.detected_kind raw ≡ true
    pub hash : v.content_hash ≡ sha256 raw
    pub stored_extension : v.extension ≡ canonical_extension v.detected_kind
    pub size : v.size_bytes ≡ length raw

  -- The upload that is recorded.
  abbrev upload_of : Text → Text → List ℕ → Kind → ValidatedUpload
  upload_of filename content_type raw kind = record {
    content_hash = sha256 raw;
    detected_kind = kind;
    content_type = lower (strip (before_semicolon content_type));
    extension = canonical_extension kind;
    original_filename = strip filename;
    size_bytes = length raw;
  }

  normalize_iff :
      (t n : Text)
      → (normalize_content_type lower (typed t) ≡ ok n)
        ↔ ((is_empty n ≡ false) × (n ≡ lower (strip (before_semicolon t))))
  unfolding normalize_content_type
  normalize_iff t n = ground arith

  -- For a file with a name, a content type and bytes: validation returns a record exactly if
  -- the bytes are not empty and at most 10 MiB, the name passes its tests (it is refused, not cut,
  -- if it has a path separator), the content type is
  -- that of the recorded kind, the lower-case name ends in an extension of the kind, and the
  -- bytes are of the kind; and the record holds the digest, the kind, the normalized type, the
  -- extension, the stripped name and the size.
  pub validate_upload_file_iff :
      (filename content_type : Text) (raw : List ℕ) (v : ValidatedUpload)
      → (validate_upload_file lower namelist sha256
            (typed filename)
            (typed content_type)
            (typed raw)
          ≡ ok v)
        ↔ IsUpload filename content_type raw v
  unfolding validate_upload_file require_extension require_magic_bytes
  validate_upload_file_iff filename content_type raw v = (
    λ e.
        let (filled, a) = >>-eq-ok (raise_if (is_empty raw) (upload empty_file)) _ e in
        let (small, b) =
          >>-eq-ok (raise_if (ltb max_upload_bytes (length raw)) (upload too_large)) _ a in
        let (name, named, c) = >>=-eq-ok (sanitize_filename (typed filename)) _ b in
        let (declared, typing, d) =
          >>=-eq-ok (normalize_content_type lower (typed content_type)) _ c in
        let (kind, found, f) = >>=-eq-ok (kind_for_content_type declared) _ d in
        let (fits, g) = >>-eq-ok (require_extension lower name kind) _ f in
        let (magic, h) = >>-eq-ok (require_magic_bytes namelist kind raw) _ g in
        let small_enough =
          raise_if-eq-ok (ltb max_upload_bytes (length raw)) (upload too_large) small in
        let (safe, shown) = (sanitize_iff filename name).0 named in
        let fact : IsUpload filename content_type raw (record {
          content_hash = sha256 raw;
          detected_kind = kind;
          content_type = declared;
          extension = canonical_extension kind;
          original_filename = name;
          size_bytes = length raw;
        }) =
          record {
            not_empty = raise_if-eq-ok (is_empty raw) (upload empty_file) filled;
            bounded = ground (arith, small_enough);
            safe = safe;
            shown = shown;
            declared = ((normalize_iff content_type declared).0 typing).1;
            canonical = kind_for_content_type→type_of declared kind found;
            extension_fits =
                subst (λ n. any (ends_with (lower n)) (extensions kind) ≡ true) shown
                  (raise_unless-eq-ok (any (ends_with (lower name)) (extensions kind))
                    (upload extension_differs) fits);
            content_fits =
                raise_unless-eq-ok (has_magic namelist kind raw) (upload content_differs) magic;
            hash = refl;
            stored_extension = refl;
            size = refl;
          } in
        subst (IsUpload filename content_type raw) (ok-injective h) fact,
    λ u.
        let small : ltb max_upload_bytes (length raw) ≡ false = ground (arith, u.bounded) in
        let named : sanitize_filename (typed filename) ≡ ok (strip filename) =
          (sanitize_iff filename (strip filename)).1 (u.safe, refl) in
        let filled : is_empty v.content_type ≡ false =
          subst (λ t. is_empty t ≡ false) (sym u.canonical) (type_of-not_empty v.detected_kind) in
        let typing : normalize_content_type lower (typed content_type) ≡ ok v.content_type =
          (normalize_iff content_type v.content_type).1 (filled, u.declared) in
        let found : kind_for_content_type v.content_type ≡ ok v.detected_kind =
          subst (λ t. kind_for_content_type t ≡ ok v.detected_kind) (sym u.canonical)
            (type_of→kind_for_content_type v.detected_kind) in
        rw (u.not_empty, small, named, typing, found, u.extension_fits, u.content_fits)
          (ground arith),
  )
