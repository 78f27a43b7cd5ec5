-- ===== src/Upload/Pdf.antt =====
-- The text of a PDF file (`_extract_pdf_text`, `_pdf_literal_strings`).
use xportra_ai.Base.{
  ℕ, zero, suc, ◌+◌, ◌-◌, Bool, ◌&&◌, ◌||◌, Option, none, some, List, [], ◌∷◌, ◌++◌, Result, ok,
  ◌>>◌, raise_unless, ◌==◌, leb, if◌then◌else◌, is_empty, length, drop,
}
use xportra_ai.Base.Text.{Text, codes, strip}
use xportra_ai.Errors.{Error, upload, unreadable}
use mathlib.Core.Option
use xportra_ai.Base.Text.{join}
use xportra_ai.Upload.Files.{starts_with, pdf_magic}

-- `(?:[^()\\]|\\.)*\)` : what stands before the bracket that closes. A backslash takes the next
-- character with it, which is no line feed.
unfoldable pub literal_body : List ℕ → Option (List ℕ)
literal_body [] = none
literal_body (c ∷ []) = if c == 41 then some [] else none
literal_body (c ∷ d ∷ s) =
    let escaped = Option.map (λ b. c ∷ d ∷ b) (literal_body s) in
    let plain = Option.map (λ b. c ∷ b) (literal_body (d ∷ s)) in
    if c == 41
    then some []
    else if c == 40 || (c == 92 && d == 10)
    then none
    else if c == 92
    then escaped
    else plain

-- A match of the pattern of a literal is recorded and skipped.
abbrev pub after_literal : Option (List ℕ) → (ℕ → List (List ℕ)) → List (List ℕ)
after_literal none continue = continue 0
after_literal (some body) continue = body ∷ continue (suc (length body))

-- `_PDF_LITERAL_STRING.finditer`, each match without its brackets; `skip` is what is left of the
-- match before.
unfoldable pub find_literals : List ℕ → ℕ → List (List ℕ)
unfolding literal_body
find_literals [] skip = []
find_literals (c ∷ cs) (suc skip) = find_literals cs skip
find_literals (c ∷ cs) zero =
    after_literal (if c == 40 then literal_body cs else none) (find_literals cs)

-- `literal.replace(old, new)` for an old of two bytes and a new of one.
unfoldable pub replace_pair : ℕ → ℕ → ℕ → List ℕ → List ℕ
replace_pair p q r [] = []
replace_pair p q r (c ∷ []) = c ∷ []
replace_pair p q r (c ∷ d ∷ s) =
    let found = r ∷ replace_pair p q r s in
    let other = c ∷ replace_pair p q r (d ∷ s) in if c == p && d == q then found else other

-- The six replacements, one after the other.
unfoldable pub unescape : List ℕ → List ℕ
unfolding replace_pair
unescape s = replace_pair 92 116 9 (
    replace_pair 92 114 13 (
      replace_pair 92 110 10
        (replace_pair 92 92 92 (replace_pair 92 41 41 (replace_pair 92 40 40 s)))))

-- `if text: found.append(text)`
abbrev pub keep_text : Text → List Text → List Text
keep_text t ts = if is_empty t then ts else t ∷ ts

abbrev pub clean_literals : List (List ℕ) → List Text
clean_literals [] = []
clean_literals (l ∷ ls) = keep_text (strip (unescape l)) (clean_literals ls)

-- `_pdf_literal_strings`; a byte of Latin-1 is its code point.
unfoldable pub pdf_literal_strings : List ℕ → List Text
unfolding find_literals unescape
pdf_literal_strings blob = clean_literals (find_literals blob 0)

-- `blob.strip()` of bytes.
abbrev pub is_ascii_space : ℕ → Bool
is_ascii_space c = (leb 9 c && leb c 13) || c == 32

abbrev pub lstrip_bytes : List ℕ → List ℕ
lstrip_bytes [] = []
lstrip_bytes (c ∷ s) = let rest = lstrip_bytes s in if is_ascii_space c then rest else c ∷ s

abbrev pub rstrip_bytes : List ℕ → List ℕ
rstrip_bytes [] = []
rstrip_bytes (c ∷ s) =
    let rest = rstrip_bytes s in if is_ascii_space c && is_empty rest then [] else c ∷ rest

-- What stands before the first `endstream`.
unfoldable pub before_end : List ℕ → Option (List ℕ)
before_end [] = none
before_end (c ∷ s) =
    let rest = Option.map (λ b. c ∷ b) (before_end s) in
    if starts_with (c ∷ s) (codes "endstream") then some [] else rest

-- `stream\r?\n` at the start of bytes: its length.
abbrev pub stream_start : List ℕ → Option ℕ
stream_start s =
    if starts_with s (codes "stream" ++ (13 ∷ 10 ∷ []))
    then some 8
    else if starts_with s (codes "stream" ++ (10 ∷ []))
    then some 7
    else none

-- The group of a match, if the pattern of a stream matches at the start of bytes.
abbrev pub stream_body : List ℕ → Option ℕ → Option (List ℕ)
stream_body s none = none
stream_body s (some n) = before_end (drop n s)

-- The length of a match with this start and group.
abbrev pub match_length : Option ℕ → ℕ → ℕ
match_length none body = 0
match_length (some n) body = n + body + 9

abbrev pub after_stream : Option (List ℕ) → Option ℕ → (ℕ → List (List ℕ)) → List (List ℕ)
after_stream none start continue = continue 0
after_stream (some body) start continue = body ∷ continue (match_length start (length body) - 1)

-- `re.finditer(rb"stream\r?\n(.*?)endstream", raw, re.DOTALL)`, the group of each match.
unfoldable pub find_streams : List ℕ → ℕ → List (List ℕ)
unfolding before_end
find_streams [] skip = []
find_streams (c ∷ cs) (suc skip) = find_streams cs skip
find_streams (c ∷ cs) zero =
    after_stream (stream_body (c ∷ cs) (stream_start (c ∷ cs))) (stream_start (c ∷ cs))
      (find_streams cs)

-- `zlib.decompress`, where the bytes are a compressed stream.
module _ (decompress : List ℕ → Option (List ℕ)) where
  abbrev pub decoded : List ℕ → List ℕ
  decoded blob = elim (decompress blob) [ none ↦ blob | some bytes ↦ bytes ]

  abbrev pub stream_texts : List (List ℕ) → List Text
  stream_texts [] = []
  stream_texts (g ∷ gs) =
      pdf_literal_strings (decoded (rstrip_bytes (lstrip_bytes g))) ++ stream_texts gs

  -- `_extract_pdf_text`
  unfoldable pub extract_pdf_text : List ℕ → Result Error Text
  unfolding find_streams pdf_literal_strings
  extract_pdf_text raw = do
    raise_unless (starts_with raw pdf_magic) (upload unreadable)
    let pieces = stream_texts (find_streams raw 0)
    let every = if is_empty pieces then pdf_literal_strings raw else pieces
    ok (join (10 ∷ []) every)
