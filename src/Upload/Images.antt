-- ===== src/Upload/Images.antt =====
-- The text in the metadata of PNG and JPEG files (`_extract_png_text`, `_extract_jpeg_text`).
use xportra_ai.Base.{
  ℕ, zero, suc, ◌+◌, ◌*◌, Bool, not, ◌&&◌, ◌||◌, Option, none, some, List, [], ◌∷◌, Result, ok,
  ◌>>◌, raise_unless, ◌==◌, ltb, leb, if◌then◌else◌, is_empty, contains, length, slice, list_eq,
}
use mathlib.Core.Option
use xportra_ai.Base.Text.{join, Text, codes, strip}
use xportra_ai.Errors.{Error, upload, unreadable}
use xportra_ai.Upload.Files.{starts_with, png_magic, jpeg_magic}

-- A big-endian number, as `struct.unpack` reads it.
abbrev pub big_endian : ℕ → List ℕ → ℕ
big_endian n [] = n
big_endian n (b ∷ bs) = big_endian (n * 256 + b) bs

-- `raw[offset]`, within the bytes.
abbrev pub byte_at : List ℕ → ℕ → ℕ
byte_at [] i = 0
byte_at (b ∷ bs) zero = b
byte_at (b ∷ bs) (suc i) = byte_at bs i

-- `data.partition(b"\x00")`, where there is such a byte: what follows the first.
abbrev pub after_nul : List ℕ → List ℕ
after_nul [] = []
after_nul (b ∷ bs) = let rest = after_nul bs in if b == 0 then bs else rest

-- `if decoded: texts.append(decoded)`; a byte of Latin-1 is its code point.
abbrev pub add_text : List ℕ → List Text → List Text
add_text bytes texts = if is_empty (strip bytes) then texts else strip bytes ∷ texts

-- What `add_text` finds in the chunk at an offset.
abbrev pub chunk_length : List ℕ → ℕ → ℕ
chunk_length raw offset = big_endian 0 (slice raw offset (offset + 4))

abbrev pub chunk_type : List ℕ → ℕ → List ℕ
chunk_type raw offset = slice raw (offset + 4) (offset + 8)

abbrev pub chunk_data : List ℕ → ℕ → List ℕ
chunk_data raw offset = slice raw (offset + 8) (offset + 8 + chunk_length raw offset)

-- The test before `break`.
abbrev pub is_cut_off : List ℕ → ℕ → Bool
is_cut_off raw offset =
    not (length (chunk_data raw offset) == chunk_length raw offset)
    || ltb (length raw) (offset + 8 + chunk_length raw offset + 4)

unfoldable pub note_chunk : List ℕ → ℕ → List Text → List Text
note_chunk raw offset texts =
    if list_eq (chunk_type raw offset) (codes "tEXt") && contains (chunk_data raw offset) 0
    then add_text (after_nul (chunk_data raw offset)) texts
    else texts

-- The loop over chunks: `none` if the fuel runs out. The texts of the rest follow those of the
-- chunk at hand.
unfoldable pub png_texts : ℕ → List ℕ → ℕ → Option (List Text)
unfolding note_chunk
png_texts zero raw offset = none
png_texts (suc fuel) raw offset =
    let rest = png_texts fuel raw (offset + (8 + chunk_length raw offset + 4)) in
    if ltb (length raw) (offset + 8) || is_cut_off raw offset
    then some []
    else if list_eq (chunk_type raw offset) (codes "IEND")
    then some (note_chunk raw offset [])
    else Option.map (note_chunk raw offset) rest

abbrev pub segment_length : List ℕ → ℕ → ℕ
segment_length raw offset = big_endian 0 (slice raw (offset + 2) (offset + 4))

-- A marker without a segment: TEM, or a restart.
abbrev pub is_bare : ℕ → Bool
is_bare marker = marker == 0x01 || (leb 0xd0 marker && leb marker 0xd7)

unfoldable pub note_segment : List ℕ → ℕ → List Text → List Text
note_segment raw offset texts =
    if byte_at raw (offset + 1) == 0xfe
    then add_text (slice raw (offset + 4) (offset + 2 + segment_length raw offset)) texts
    else texts

-- The loop over segments.
unfoldable pub jpeg_texts : ℕ → List ℕ → ℕ → Option (List Text)
unfolding note_segment
jpeg_texts zero raw offset = none
jpeg_texts (suc fuel) raw offset =
    let after_marker = jpeg_texts fuel raw (offset + 2) in
    let after_segment = jpeg_texts fuel raw (offset + (2 + segment_length raw offset)) in
    if ltb (length raw) (offset + 4)
      || not (byte_at raw offset == 0xff)
      || byte_at raw (offset + 1) == 0xd9
    then some []
    else if is_bare (byte_at raw (offset + 1))
    then after_marker
    else if ltb (segment_length raw offset) 2
        || ltb (length raw) (offset + 2 + segment_length raw offset)
    then some []
    else Option.map (note_segment raw offset) after_segment

-- Every round moves on by two bytes at least, so one more than the bytes is enough fuel.
abbrev pub or_none : Option (List Text) → List Text
or_none none = []
or_none (some ts) = ts

unfoldable pub extract_png_text : List ℕ → Result Error Text
unfolding png_texts join
extract_png_text raw = do
  raise_unless (starts_with raw png_magic) (upload unreadable)
  ok (join (10 ∷ []) (or_none (png_texts (suc (length raw)) raw (length png_magic))))

unfoldable pub extract_jpeg_text : List ℕ → Result Error Text
unfolding jpeg_texts join
extract_jpeg_text raw = do
  raise_unless (starts_with raw jpeg_magic) (upload unreadable)
  ok (join (10 ∷ []) (or_none (jpeg_texts (suc (length raw)) raw 2)))
