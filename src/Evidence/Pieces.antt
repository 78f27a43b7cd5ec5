-- ===== src/Evidence/Pieces.antt =====
-- The split of an oversized paragraph: pieces in order, none too long, that cover every visible
-- character.
use xportra_ai.Base.{
  get_elem?-drop, get_elem?-take, length-take, drop, leb→le, Option-cases, ltb, ltb→lt, ℕ, zero,
  suc, ◌+◌, ◌-◌, ◌≤◌, ◌<◌, ◌≡◌, sym, ap, ◌∙◌, inl, inr, true, false, Option, none, some, List, [],
  ◌∷◌, arith, leb, length, slice, get_elem?, Bool-cases, All,
}
use xportra_ai.Base.Text.{Text, is_space}
use xportra_ai.Evidence.Chunking.{
  Span, max_chunk_characters, is_space_at, last_space, slice_end, next_cursor, cut_at, split_from,
  split_oversized,
}
use xportra_ai.Evidence.Segments.{Covered, Ordered, get_beyond}

-- The offset found is in range and has a white space.
abbrev Cut : Text → ℕ → Option ℕ → Type 0
Cut w n none = Unit
Cut w n (some k) = (1 ≤ k) × (k ≤ n) × (is_space_at w k ≡ true)

Cut-weaken : (w : Text) (n : ℕ) (o : Option ℕ) → Cut w n o → Cut w (suc n) o
Cut-weaken w n none h = tt
Cut-weaken w n (some k) h = (h.0, omega arith, h.2)

last_space-Cut : (w : Text) (n : ℕ) → Cut w n (last_space w n)
unfolding last_space
last_space-Cut w zero = tt
last_space-Cut w (suc n) = elim (Bool-cases (is_space_at w (suc n))) [
  | inl e ↦ rw e (omega arith, omega arith, e)
  | inr e ↦ rw e (Cut-weaken w n (last_space w n) (last_space-Cut w n))
]

-- A character of a window is one of the content.
length-slice : (content : Text) (from n : ℕ) → length (slice content from (from + n)) ≤ n
length-slice content from n = omega (arith, length-take (from + n - from) (drop from content))

slice-get :
    (content : Text) (from to i c : ℕ)
    → get_elem? (slice content from to) i ≡ some c
    → get_elem? content (from + i) ≡ some c
slice-get content from to i c g =
    let inside : i < to - from = omega (
      arith,
      get_beyond (slice content from to) i c g,
      length-take (to - from) (drop from content),
    ) in
    sym (get_elem?-drop from content i)
    ∙ (sym (get_elem?-take (to - from) (drop from content) i inside) ∙ g)

pub get-slice :
    (content : Text) (from to i c : ℕ)
    → i < to - from
    → get_elem? content (from + i) ≡ some c
    → get_elem? (slice content from to) i ≡ some c
get-slice content from to i c inside g =
    get_elem?-take (to - from) (drop from content) i inside ∙ (get_elem?-drop from content i ∙ g)

space_at :
    (w : Text) (k : ℕ)
    → is_space_at w k ≡ true
    → (c : ℕ) × (get_elem? w k ≡ some c) × (is_space c ≡ true)
space_at w k h = elim (Option-cases (get_elem? w k)) [
  | inl e ↦ absurd (ground (arith, e, h))
  | inr (c, e) ↦ (c, e, ground (arith, e, h))
]

-- Where a piece ends and the next begins, while the paragraph is too long: between the two there
-- is white space at most.
record Advances (content : Text) (cursor end to next : ℕ) : Type 0 where
  begins : cursor ≤ to
  short : to - cursor ≤ max_chunk_characters
  skips : to ≤ next
  moves : cursor < next
  within : next ≤ end
  only_space : (i c : ℕ) → to ≤ i → i < next → get_elem? content i ≡ some c → is_space c ≡ true

advances :
    (content : Text) (cursor end : ℕ)
    → max_chunk_characters < end - cursor
    → (o : Option ℕ)
    → Cut
        (slice content cursor (cursor + max_chunk_characters))
        (length (slice content cursor (cursor + max_chunk_characters)) - 1)
        o
    → Advances content cursor end (slice_end cursor o) (next_cursor cursor o)
advances content cursor end h none c = record {
  begins = omega arith;
  short = omega arith;
  skips = omega arith;
  moves = omega arith;
  within = omega arith;
  only_space = λ i d a b g. absurd (omega arith);
}
advances content cursor end h (some k) (low, high, at) =
    let window = slice content cursor (cursor + max_chunk_characters) in
    let size = length-slice content cursor max_chunk_characters in
    let (space, found, is) = space_at window k at in
    let there = slice-get content cursor (cursor + max_chunk_characters) k space found in
    record {
      begins = omega arith;
      short = omega arith;
      skips = omega arith;
      moves = omega arith;
      within = omega arith;
      only_space = λ i c a b g.
          let here : i ≡ cursor + k = omega arith in
          let same : some c ≡ some space = sym g ∙ (ap (get_elem? content) here ∙ there) in
          ground (arith, same, is);
    }

pub Ordered-weaken : (a b high : ℕ) (ss : List Span) → a ≤ b → Ordered b high ss → Ordered a high ss
Ordered-weaken a b high [] h o = tt
Ordered-weaken a b high (s ∷ ss) h o = (omega arith, o.1, o.2, o.3)

-- What the pieces of a stretch of the content are.
abbrev pub Short : Span → Type 0
Short s = s.end - s.start ≤ max_chunk_characters

pub record Splits (content : Text) (start end : ℕ) (out : List Span) : Type 0 where
  pub ordered : Ordered start end out
  pub short : All Short out
  pub complete :
      (i c : ℕ)
      → start ≤ i
      → i < end
      → get_elem? content i ≡ some c
      → is_space c ≡ false
      → Covered i out

nothing-Splits : (content : Text) (start end : ℕ) → end ≤ start → Splits content start end []
nothing-Splits content start end h = record {
  ordered = tt;
  short = tt;
  complete = λ i c a b g v. absurd (omega arith);
}

pub one-Splits :
    (content : Text) (start end : ℕ)
    → start ≤ end
    → end - start ≤ max_chunk_characters
    → Splits content start end (record { start = start; end = end } ∷ [])
one-Splits content start end h k = record {
  ordered = (omega arith, h, omega arith, tt);
  short = (k, tt);
  complete = λ i c a b g v. inl (a, b);
}

more-Splits :
    (content : Text) (cursor end to next : ℕ) (rest : List Span)
    → Advances content cursor end to next
    → Splits content next end rest
    → Splits content cursor end (record { start = cursor; end = to } ∷ rest)
more-Splits content cursor end to next rest a s = record {
  ordered = (
    omega arith,
    a.begins,
    (let x = a.skips in let y = a.within in omega arith),
    Ordered-weaken to next end rest a.skips s.ordered,
  );
  short = (a.short, s.short);
  complete = λ i c low high g v. elim (Bool-cases (ltb i to)) [
    | inl e ↦ inl (low, ltb→lt i to e)
    | inr e ↦ elim (Bool-cases (ltb i next)) [
      | inl f ↦ absurd (ground (arith, a.only_space i c (ground arith) (ltb→lt i next f) g, v))
      | inr f ↦ inr (s.complete i c (ground arith) high g v)
    ]
  ];
}

split_from-Splits :
    (fuel : ℕ) (content : Text) (cursor end : ℕ)
    → end - cursor ≤ fuel
    → Splits content cursor end (split_from fuel content cursor end)
unfolding split_from
split_from-Splits zero content cursor end h = nothing-Splits content cursor end (omega arith)
split_from-Splits (suc fuel) content cursor end h = elim (Bool-cases (leb end cursor)) [
  | inl e ↦ rw e (nothing-Splits content cursor end (leb→le end cursor e))
  | inr e ↦ rw e (elim (Bool-cases (leb (end - cursor) max_chunk_characters)) [
    | inl f ↦ rw f (
        one-Splits content cursor end (ground arith) (leb→le (end - cursor) max_chunk_characters f))
    | inr f ↦
        let window = slice content cursor (cursor + max_chunk_characters) in
        let cut = cut_at content cursor in
        let a =
          advances content cursor end (ground arith) cut
            (last_space-Cut window (length window - 1)) in
        rw f (
          more-Splits content cursor end (slice_end cursor cut) (next_cursor cursor cut)
            (split_from fuel content (next_cursor cursor cut) end) a
            (split_from-Splits fuel content (next_cursor cursor cut) end
              (let m = a.moves in omega arith)))
  ])
]

-- The pieces of a stretch lie in it one after the other, none is longer than 1200 characters, and
-- every character of the stretch that is not white space is in one of them: so the fuel is
-- enough.
pub split_oversized-Splits :
    (content : Text) (start end : ℕ) → Splits content start end (split_oversized content start end)
unfolding split_oversized
split_oversized-Splits content start end =
    split_from-Splits (end - start) content start end (omega arith)
