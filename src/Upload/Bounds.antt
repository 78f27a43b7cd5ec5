-- ===== src/Upload/Bounds.antt =====
-- The text taken from an image: the loops end, and the text is no longer than the file.
use xportra_ai.Base.{
  ℕ, zero, suc, ◌+◌, ◌-◌, ◌≤◌, ◌<◌, ◌≡◌, refl, ap, subst, inl, inr, ◌⊎◌, true, false, not, ◌&&◌,
  ◌||◌, Option, some, List, [], ◌∷◌, arith, ok, raise_unless, ◌==◌, is_some, ltb, contains, length,
  drop, slice, Bool-cases, >>-eq-ok, ok-injective, list_eq, length-append, length-take,
}
use xportra_ai.Base.Text.{Text, codes, strip}
use xportra_ai.Errors.{upload, unreadable}
use mathlib.Core.Option
use xportra_ai.Base.Text.{join, lstrip, rstrip}
use xportra_ai.Upload.Files.{starts_with, png_magic, jpeg_magic}
use xportra_ai.Upload.Images.{
  after_nul, add_text, chunk_length, chunk_type, chunk_data, is_cut_off, note_chunk, png_texts,
  segment_length, is_bare, byte_at, note_segment, jpeg_texts, or_none, extract_png_text,
  extract_jpeg_text,
}

length-lstrip : (s : Text) → length (lstrip s) ≤ length s
unfolding lstrip
length-lstrip [] = omega arith
length-lstrip (c ∷ s) = ground (arith, length-lstrip s)

length-rstrip : (s : Text) → length (rstrip s) ≤ length s
unfolding rstrip
length-rstrip [] = omega arith
length-rstrip (c ∷ s) = ground (arith, length-rstrip s)

pub length-strip : (s : Text) → length (strip s) ≤ length s
unfolding strip
length-strip s = let a = length-rstrip (lstrip s) in let b = length-lstrip s in omega (arith, a, b)

length-after_nul : (s : List ℕ) → length (after_nul s) ≤ length s
length-after_nul [] = omega arith
length-after_nul (c ∷ s) = ground (arith, length-after_nul s)

length-slice : (raw : List ℕ) (from to : ℕ) → length (slice raw from to) ≤ to - from
length-slice raw from to = let h = length-take (to - from) (drop from raw) in omega (arith, h)

-- The letters of texts, and one more for each.
abbrev size : List Text → ℕ
size [] = 0
size (t ∷ ts) = suc (length t + size ts)

length-join : (ts : List Text) → length (join (10 ∷ []) ts) ≤ size ts
unfolding join
length-join [] = omega arith
length-join (t ∷ []) = omega arith
length-join (t ∷ u ∷ rest) =
    let h = length-append t (10 ∷ join (10 ∷ []) (u ∷ rest)) in
    let k = length-join (u ∷ rest) in omega (arith, h, k)

size-add_text :
    (bytes : List ℕ) (ts : List Text) → size (add_text bytes ts) ≤ suc (length bytes + size ts)
size-add_text bytes ts = ground (arith, length-strip bytes)

size-note_chunk :
    (raw : List ℕ) (offset : ℕ) (ts : List Text)
    → size (note_chunk raw offset ts) ≤ suc (chunk_length raw offset + size ts)
unfolding note_chunk
size-note_chunk raw offset ts =
    let a = length-slice raw (offset + 8) (offset + 8 + chunk_length raw offset) in
    let b = length-after_nul (chunk_data raw offset) in
    let c = size-add_text (after_nul (chunk_data raw offset)) ts in
    elim (Bool-cases
      (list_eq (chunk_type raw offset) (codes "tEXt") && contains (chunk_data raw offset) 0)) [
        | inl e ↦ rw e (omega (arith, a, b, c))
        | inr e ↦ rw e (omega arith)
      ]

-- What a loop leaves from an offset on: it ends, and its texts fit into the rest of the file.
abbrev Fits : List ℕ → ℕ → Option (List Text) → Type 0
Fits raw offset found = (ts : List Text) × (found ≡ some ts) × (size ts ≤ length raw - offset)

-- Where the test before `break` fails, the chunk lies within the file.
within_chunk :
    (raw : List ℕ) (offset : ℕ)
    → (ltb (length raw) (offset + 8) || is_cut_off raw offset) ≡ false
    → offset + 8 + chunk_length raw offset + 4 ≤ length raw
within_chunk raw offset e = ground (arith, e)

Fits-chunk :
    (raw : List ℕ) (offset : ℕ) (rest : Option (List Text))
    → offset + 8 + chunk_length raw offset + 4 ≤ length raw
    → Fits raw (offset + (8 + chunk_length raw offset + 4)) rest
    → Fits raw offset (Option.map (note_chunk raw offset) rest)
Fits-chunk raw offset rest inside (ts, made, small) =
    let h = size-note_chunk raw offset ts in
    (
      note_chunk raw offset ts,
      ap (Option.map (note_chunk raw offset)) made,
      omega (arith, h, small, inside),
    )

png_texts-Fits :
    (fuel : ℕ) (raw : List ℕ) (offset : ℕ)
    → length raw < suc fuel + offset
    → Fits raw offset (png_texts (suc fuel) raw offset)
unfolding png_texts
png_texts-Fits zero raw offset b =
    let outside : ltb (length raw) (offset + 8) ≡ true = ground arith in
    rw outside ([], refl, omega arith)
png_texts-Fits (suc fuel) raw offset b =
    elim (Bool-cases (ltb (length raw) (offset + 8) || is_cut_off raw offset)) [
      | inl e ↦ rw e ([], refl, omega arith)
      | inr e ↦
          let inside = within_chunk raw offset e in
          elim (Bool-cases (list_eq (chunk_type raw offset) (codes "IEND"))) [
            | inl f ↦
                let h = size-note_chunk raw offset [] in
                rw (e, f) (note_chunk raw offset [], refl, omega (arith, h, inside))
            | inr f ↦
                rw (e, f)
                  (Fits-chunk raw offset _ inside (
                    png_texts-Fits fuel raw (offset + (8 + chunk_length raw offset + 4))
                      (omega (arith, b))))
          ]
    ]

size-note_segment :
    (raw : List ℕ) (offset : ℕ) (ts : List Text)
    → ltb (segment_length raw offset) 2 ≡ false
    → size (note_segment raw offset ts) ≤ segment_length raw offset + size ts
unfolding note_segment
size-note_segment raw offset ts e =
    let a = length-slice raw (offset + 4) (offset + 2 + segment_length raw offset) in
    let c = size-add_text (slice raw (offset + 4) (offset + 2 + segment_length raw offset)) ts in
    let two : 2 ≤ segment_length raw offset = ground (arith, e) in
    elim (Bool-cases (byte_at raw (offset + 1) == 0xfe)) [
      | inl f ↦ rw f (omega (arith, a, c, two))
      | inr f ↦ rw f (omega arith)
    ]

within_segment :
    (raw : List ℕ) (offset : ℕ)
    → (ltb (segment_length raw offset) 2
        || ltb (length raw) (offset + 2 + segment_length raw offset))
      ≡ false
    → (ltb (segment_length raw offset) 2 ≡ false)
      × (offset + 2 + segment_length raw offset ≤ length raw)
within_segment raw offset e = ground (arith, e)

Fits-segment :
    (raw : List ℕ) (offset : ℕ) (rest : Option (List Text))
    → (ltb (segment_length raw offset) 2 ≡ false)
      × (offset + 2 + segment_length raw offset ≤ length raw)
    → Fits raw (offset + (2 + segment_length raw offset)) rest
    → Fits raw offset (Option.map (note_segment raw offset) rest)
Fits-segment raw offset rest (two, inside) (ts, made, small) =
    let h = size-note_segment raw offset ts two in
    (
      note_segment raw offset ts,
      ap (Option.map (note_segment raw offset)) made,
      omega (arith, h, small, inside),
    )

Fits-marker :
    (raw : List ℕ) (offset : ℕ) (rest : Option (List Text))
    → Fits raw (offset + 2) rest
    → Fits raw offset rest
Fits-marker raw offset rest (ts, made, small) = (ts, made, omega (arith, small))

jpeg_texts-Fits :
    (fuel : ℕ) (raw : List ℕ) (offset : ℕ)
    → length raw < suc fuel + offset
    → Fits raw offset (jpeg_texts (suc fuel) raw offset)
unfolding jpeg_texts
jpeg_texts-Fits zero raw offset b =
    let outside : ltb (length raw) (offset + 4) ≡ true = ground arith in
    rw outside ([], refl, omega arith)
jpeg_texts-Fits (suc fuel) raw offset b =
    elim (Bool-cases (
      ltb (length raw) (offset + 4)
      || not (byte_at raw offset == 0xff)
      || byte_at raw (offset + 1) == 0xd9)) [
        | inl e ↦ rw e ([], refl, omega arith)
        | inr e ↦ elim (Bool-cases (is_bare (byte_at raw (offset + 1)))) [
          | inl f ↦
              rw (e, f)
                (Fits-marker raw offset _
                  (jpeg_texts-Fits fuel raw (offset + 2) (omega (arith, b))))
          | inr f ↦
              elim (Bool-cases (
                ltb (segment_length raw offset) 2
                || ltb (length raw) (offset + 2 + segment_length raw offset))) [
                  | inl g ↦ rw (e, f, g) ([], refl, omega arith)
                  | inr g ↦
                      rw (e, f, g)
                        (Fits-segment raw offset _ (within_segment raw offset g) (
                          jpeg_texts-Fits fuel raw (offset + (2 + segment_length raw offset))
                            (omega (arith, b))))
                ]
        ]
      ]

joined-Fits :
    (raw : List ℕ) (offset : ℕ) (found : Option (List Text))
    → Fits raw offset found
    → length (join (10 ∷ []) (or_none found)) ≤ length raw
joined-Fits raw offset found (ts, made, small) =
    let h = length-join ts in rw made (omega (arith, h, small))

-- The loops over the chunks of a PNG file and the segments of a JPEG file end within their fuel,
-- whatever the bytes are; and the text that is taken from either is no longer than the file.
pub images_bounded :
    (raw : List ℕ)
    → (is_some (png_texts (suc (length raw)) raw (length png_magic)) ≡ true)
      × (is_some (jpeg_texts (suc (length raw)) raw 2) ≡ true)
      × ((text : Text)
          → (extract_png_text raw ≡ ok text) ⊎ (extract_jpeg_text raw ≡ ok text)
          → length text ≤ length raw)
unfolding extract_png_text extract_jpeg_text
images_bounded raw =
    let p = png_texts-Fits (length raw) raw (length png_magic) (omega arith) in
    let j = jpeg_texts-Fits (length raw) raw 2 (omega arith) in
    (
      ap is_some p.1,
      ap is_some j.1,
      λ text h. elim h [
        | inl e ↦
            let (u, same) =
              >>-eq-ok (raise_unless (starts_with raw png_magic) (upload unreadable)) _ e in
            subst (λ t. length t ≤ length raw) (ok-injective same)
              (joined-Fits raw (length png_magic) _ p)
        | inr e ↦
            let (u, same) =
              >>-eq-ok (raise_unless (starts_with raw jpeg_magic) (upload unreadable)) _ e in
            subst (λ t. length t ≤ length raw) (ok-injective same) (joined-Fits raw 2 _ j)
      ],
    )
