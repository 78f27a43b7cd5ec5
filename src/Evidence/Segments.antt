-- ===== src/Evidence/Segments.antt =====
-- Paragraphs: where they lie, and that they cover every visible character.
use xportra_ai.Base.{
  ℕ, zero, suc, ◌+◌, ◌≤◌, ◌<◌, ◌≡◌, refl, sym, ap, ◌∙◌, inl, inr, true, some, List, [], ◌∷◌, ◌++◌,
  arith, ◌==◌, length, get_elem?, Bool-cases, Exists, ==_iff,
}
use xportra_ai.Base.Text.{Text, is_space, is_blank}
use xportra_ai.Evidence.Chunking.{Span, push, split_lines}

-- An offset lies in one of the spans.
abbrev pub Covers : ℕ → Span → Type 0
Covers i s = (s.start ≤ i) × (i < s.end)

abbrev pub Covered : ℕ → List Span → Type 0
Covered i ss = Exists (Covers i) ss

-- Spans one after the other, from `low` on and within `high`.
abbrev pub Ordered : ℕ → ℕ → List Span → Type 0
Ordered low high [] = Unit
Ordered low high (s ∷ ss) =
    (low ≤ s.start) × (s.start ≤ s.end) × (s.end ≤ high) × Ordered s.end high ss

-- The text that the lines come from.
unfoldable pub join_lines : List Text → Text
join_lines [] = []
join_lines (l ∷ []) = l
join_lines (l ∷ m ∷ ls) = l ++ (10 ∷ join_lines (m ∷ ls))

join_push : (c : ℕ) (ls : List Text) → join_lines (push c ls) ≡ c ∷ join_lines ls
unfolding join_lines
join_push c [] = refl
join_push c (l ∷ []) = refl
join_push c (l ∷ m ∷ ls) = refl

abbrev Nonempty : List Text → Type 0
Nonempty [] = ⊥
Nonempty (l ∷ ls) = Unit

Nonempty-push : (c : ℕ) (ls : List Text) → Nonempty (push c ls)
Nonempty-push c [] = tt
Nonempty-push c (l ∷ ls) = tt

Nonempty-split_lines : (t : Text) → Nonempty (split_lines t)
unfolding split_lines join_lines
Nonempty-split_lines [] = tt
Nonempty-split_lines (c ∷ cs) = elim (Bool-cases (c == 10)) [
  | inl e ↦ rw e tt
  | inr e ↦ rw e (Nonempty-push c (split_lines cs))
]

join_newline : (ls : List Text) → Nonempty ls → join_lines ([] ∷ ls) ≡ 10 ∷ join_lines ls
unfolding join_lines
join_newline [] h = elim h [ ]
join_newline (l ∷ ls) h = refl

pub join_lines-split_lines : (t : Text) → join_lines (split_lines t) ≡ t
unfolding split_lines join_lines
join_lines-split_lines [] = refl
join_lines-split_lines (c ∷ cs) = elim (Bool-cases (c == 10)) [
  | inl e ↦ rw e (
      join_newline (split_lines cs) (Nonempty-split_lines cs)
      ∙ (ap (λ t. 10 ∷ t) (join_lines-split_lines cs) ∙ ap (λ x. x ∷ cs) (sym ((==_iff c 10).0 e))))
  | inr e ↦ rw e (join_push c (split_lines cs) ∙ ap (λ t. c ∷ t) (join_lines-split_lines cs))
]

-- A blank text has no visible character.
pub is_blank-get :
    (t : Text) (i c : ℕ) → is_blank t ≡ true → get_elem? t i ≡ some c → is_space c ≡ true
unfolding is_blank
is_blank-get [] i c h g = cc
is_blank-get (x ∷ t) zero c h g = ground arith
is_blank-get (x ∷ t) (suc i) c h g = is_blank-get t i c (ground arith) g

pub get_append : (xs ys : Text) (i : ℕ) → i < length xs → get_elem? (xs ++ ys) i ≡ get_elem? xs i
get_append [] ys i h = elim h [ ]
get_append (x ∷ xs) ys zero h = refl
get_append (x ∷ xs) ys (suc i) h = get_append xs ys i (omega arith)

pub get_after : (xs ys : Text) (i : ℕ) → get_elem? (xs ++ ys) (length xs + i) ≡ get_elem? ys i
get_after [] ys i = ap (get_elem? ys) (omega arith)
get_after (x ∷ xs) ys i =
    let moved : suc (length xs) + i ≡ suc (length xs + i) = omega arith in
    ap (get_elem? (x ∷ (xs ++ ys))) moved ∙ get_after xs ys i

pub get_beyond : (xs : Text) (i c : ℕ) → get_elem? xs i ≡ some c → i < length xs
get_beyond [] i c h = cc
get_beyond (x ∷ xs) zero c h = omega arith
get_beyond (x ∷ xs) (suc i) c h = omega (arith, get_beyond xs i c h)
