-- ===== src/Evidence/Paragraphs.antt =====
-- The loop over the lines: the paragraphs lie in order and cover every visible character.
use xportra_ai.Base.{
  ltb, ltb→lt, ℕ, zero, suc, ◌+◌, ◌-◌, ◌≤◌, ◌<◌, ◌≡◌, refl, sym, ap, ◌∙◌, subst, inl, inr, true,
  false, Option, none, some, List, [], ◌∷◌, ◌++◌, arith, length, get_elem?, Bool-cases,
  length-append,
}
use xportra_ai.Base.Text.{Text, is_space, is_blank}
use xportra_ai.Evidence.Chunking.{Span, split_lines, flush, or_start, segment, segment_paragraphs}
use xportra_ai.Evidence.Segments.{
  Covered, Ordered, join_lines, join_lines-split_lines, is_blank-get, get_append, get_after,
  get_beyond,
}

-- An open paragraph stays covered until it is closed.
open-Covered :
    (lines : List Text) (start end pos j : ℕ)
    → start ≤ j
    → j < end
    → end ≤ pos
    → Covered j (segment lines (some start) end pos)
unfolding segment
open-Covered [] start end pos j a b c = inl (a, b)
open-Covered (l ∷ lines) start end pos j a b c = elim (Bool-cases (is_blank l)) [
  | inl e ↦ rw e (inl (a, b))
  | inr e ↦ rw e (
      open-Covered lines start (pos + length l) (pos + length l + 1) j a (omega arith)
        (omega arith))
]

flush-Covered :
    (start : Option ℕ) (end j : ℕ) (rest : List Span)
    → Covered j rest
    → Covered j (flush start end rest)
flush-Covered none end j rest h = h
flush-Covered (some start) end j rest h = inr h

-- The open paragraph, if any, lies before `pos`.
abbrev pub Open : Option ℕ → ℕ → ℕ → Type 0
Open none end pos = Unit
Open (some start) end pos = (start ≤ end) × (end ≤ pos)

or_start-le : (start : Option ℕ) (end pos : ℕ) → Open start end pos → or_start start pos ≤ pos
or_start-le none end pos h = omega arith
or_start-le (some start) end pos h = omega arith

module _ (l : Text) (ls : List Text) (start : Option ℕ) (end pos : ℕ) where
  segment_blank :
      is_blank l ≡ true
      → segment (l ∷ ls) start end pos ≡ flush start end (segment ls none end (pos + length l + 1))
  unfolding segment
  segment_blank h = rw h refl

  segment_text :
      is_blank l ≡ false
      → segment (l ∷ ls) start end pos
        ≡ segment ls (some (or_start start pos)) (pos + length l) (pos + length l + 1)
  unfolding segment
  segment_text h = rw h refl

join_head :
    (l : Text) (ls : List Text) (i : ℕ)
    → i < length l
    → get_elem? (join_lines (l ∷ ls)) i ≡ get_elem? l i
unfolding join_lines
join_head l [] i h = refl
join_head l (m ∷ ls) i h = get_append l (10 ∷ join_lines (m ∷ ls)) i h

newline_is_space : is_space 10 ≡ true
unfolding is_space
newline_is_space = refl

-- A visible character beyond a line is beyond its newline.
after_newline :
    (rest : Text) (j c : ℕ)
    → get_elem? (10 ∷ rest) j ≡ some c
    → is_space c ≡ false
    → (k : ℕ) × (j ≡ suc k) × (get_elem? rest k ≡ some c)
after_newline rest zero c g h = absurd (ground (arith, newline_is_space))
after_newline rest (suc k) c g h = (k, refl, g)

join_tail :
    (l : Text) (ls : List Text) (i c : ℕ)
    → length l ≤ i
    → get_elem? (join_lines (l ∷ ls)) i ≡ some c
    → is_space c ≡ false
    → (k : ℕ) × (i ≡ length l + 1 + k) × (get_elem? (join_lines ls) k ≡ some c)
unfolding join_lines
join_tail l [] i c h g v = absurd (omega (arith, get_beyond l i c g))
join_tail l (m ∷ ls) i c h g v =
    let rest = join_lines (m ∷ ls) in
    let at : i ≡ length l + (i - length l) = omega arith in
    let (k, is, found) =
      after_newline rest (i - length l) c
        (sym (get_after l (10 ∷ rest) (i - length l))
          ∙ (ap (get_elem? (l ++ (10 ∷ rest))) (sym at) ∙ g))
        v in
    (k, omega arith, found)

visible_line :
    (l : Text) (i c : ℕ) → get_elem? l i ≡ some c → is_space c ≡ false → is_blank l ≡ false
visible_line l i c g v = elim (Bool-cases (is_blank l)) [
  | inl e ↦ let s = is_blank-get l i c e g in absurd (ground arith)
  | inr e ↦ e
]

opened :
    (l : Text) (start : Option ℕ) (end pos : ℕ)
    → Open start end pos
    → Open (some (or_start start pos)) (pos + length l) (pos + length l + 1)
opened l start end pos o = let low = or_start-le start end pos o in (omega arith, omega arith)

pub segment-Covered :
    (lines : List Text) (start : Option ℕ) (end pos i c : ℕ)
    → Open start end pos
    → get_elem? (join_lines lines) i ≡ some c
    → is_space c ≡ false
    → Covered (pos + i) (segment lines start end pos)
unfolding join_lines
segment-Covered [] start end pos i c o g v = cc
segment-Covered (l ∷ ls) start end pos i c o g v = elim (Bool-cases (ltb i (length l))) [
  | inl near ↦
      let inside = ltb→lt i (length l) near in
      let text : is_blank l ≡ false = visible_line l i c (sym (join_head l ls i inside) ∙ g) v in
      let low = or_start-le start end pos o in
      subst (Covered (pos + i)) (sym (segment_text l ls start end pos text)) (
        open-Covered ls (or_start start pos) (pos + length l) (pos + length l + 1) (pos + i)
          (omega arith) (omega arith) (omega arith))
  | inr far ↦
      let (k, at, found) = join_tail l ls i c (ground arith) g v in
      let next = pos + length l + 1 in
      let place : next + k ≡ pos + i = omega arith in
      elim (Bool-cases (is_blank l)) [
        | inl e ↦ subst (Covered (pos + i)) (sym (segment_blank l ls start end pos e)) (
            flush-Covered start end (pos + i) (segment ls none end next) (
              subst (λ j. Covered j (segment ls none end next)) place
                (segment-Covered ls none end next k c tt found v)))
        | inr e ↦ subst (Covered (pos + i)) (sym (segment_text l ls start end pos e)) (
            subst (λ j. Covered j (segment ls (some (or_start start pos)) (pos + length l) next))
              place
              (segment-Covered ls (some (or_start start pos)) (pos + length l) next k c
                (opened l start end pos o) found v))
      ]
]

-- The lines from `pos` on end within the content.
abbrev Fits : List Text → ℕ → ℕ → Type 0
Fits [] pos high = Unit
Fits (l ∷ ls) pos high = pos + length (join_lines (l ∷ ls)) ≤ high

Fits-tail :
    (l : Text) (ls : List Text) (pos high : ℕ)
    → Fits (l ∷ ls) pos high
    → (pos + length l ≤ high) × Fits ls (pos + length l + 1) high
unfolding join_lines
Fits-tail l [] pos high h = (h, tt)
Fits-tail l (m ∷ ls) pos high h =
    let sum = length-append l (10 ∷ join_lines (m ∷ ls)) in (omega arith, omega arith)

-- The open paragraph begins at `low` or later and ends within the content.
abbrev Starts : Option ℕ → ℕ → ℕ → ℕ → Type 0
Starts none end low high = Unit
Starts (some start) end low high = (low ≤ start) × (start ≤ end) × (end ≤ high)

or_start-ge :
    (start : Option ℕ) (end pos low high : ℕ)
    → Starts start end low high
    → low ≤ pos
    → low ≤ or_start start pos
or_start-ge none end pos low high s h = h
or_start-ge (some start) end pos low high s h = s.0

closed-Ordered :
    (ls : List Text) (start : Option ℕ) (end pos next low high : ℕ)
    → Starts start end low high
    → Open start end pos
    → low ≤ pos
    → pos ≤ next
    → ((from : ℕ) → from ≤ next → Ordered from high (segment ls none end next))
    → Ordered low high (flush start end (segment ls none end next))
closed-Ordered ls none end pos next low high s o b n k = k low (omega arith)
closed-Ordered ls (some start) end pos next low high s o b n k =
    (s.0, s.1, s.2, k end (omega arith))

segment-Ordered :
    (lines : List Text) (start : Option ℕ) (end pos low high : ℕ)
    → Starts start end low high
    → Open start end pos
    → low ≤ pos
    → Fits lines pos high
    → Ordered low high (segment lines start end pos)
unfolding segment
segment-Ordered [] none end pos low high s o b f = tt
segment-Ordered [] (some start) end pos low high s o b f = (s.0, s.1, s.2, tt)
segment-Ordered (l ∷ ls) start end pos low high s o b f =
    let next = pos + length l + 1 in
    let (bound, rest) = Fits-tail l ls pos high f in
    elim (Bool-cases (is_blank l)) [
      | inl e ↦ subst (Ordered low high) (sym (segment_blank l ls start end pos e)) (
          closed-Ordered ls start end pos next low high s o b (omega arith)
            (λ from h. segment-Ordered ls none end next from high tt tt h rest))
      | inr e ↦ subst (Ordered low high) (sym (segment_text l ls start end pos e)) (
          segment-Ordered ls (some (or_start start pos)) (pos + length l) next low high
            (or_start-ge start end pos low high s b, (opened l start end pos o).0, bound)
            (opened l start end pos o) (omega arith) rest)
    ]

Fits-split_lines : (ls : List Text) (t : Text) → join_lines ls ≡ t → Fits ls 0 (length t)
Fits-split_lines [] t e = tt
Fits-split_lines (l ∷ ls) t e = let same = ap length e in omega arith

-- The paragraphs of a content lie one after the other within it, and every character that is not
-- white space lies in one of them.
pub segment_paragraphs_exact :
    (content : Text)
    → Ordered 0 (length content) (segment_paragraphs content)
      × ((i c : ℕ)
          → get_elem? content i ≡ some c
          → is_space c ≡ false
          → Covered i (segment_paragraphs content))
unfolding segment_paragraphs
segment_paragraphs_exact content =
    let lines = split_lines content in
    let whole = join_lines-split_lines content in
    (
      segment-Ordered lines none 0 0 0 (length content) tt tt (omega arith)
          (Fits-split_lines lines content whole),
      λ i c g v.
          subst (λ j. Covered j (segment lines none 0 0)) (omega arith)
            (segment-Covered lines none 0 0 i c tt (ap (λ t. get_elem? t i) whole ∙ g) v),
    )
