-- ===== src/Upload/Literals.antt =====
-- Reading back what a writer of PDF literals escapes.
use xportra_ai.Base.{
  ℕ, zero, suc, ◌≤◌, ◌≡◌, refl, sym, ap, ◌∙◌, inl, inr, Bool, true, false, ◌||◌, some, List, [],
  ◌∷◌, ◌++◌, arith, ◌==◌, if◌then◌else◌, is_empty, contains, length, Bool-cases, ==_iff,
  length-append,
}
use xportra_ai.Base.Text.{Text, strip}
use xportra_ai.Upload.Pdf.{
  literal_body, find_literals, replace_pair, unescape, clean_literals, keep_text, after_literal,
  pdf_literal_strings,
}

-- A text as a literal writes it: a backslash before brackets and backslashes.
abbrev pub escape : Text → List ℕ
escape [] = []
escape (c ∷ s) =
    let rest = escape s in if c == 40 || c == 41 || c == 92 then 92 ∷ c ∷ rest else c ∷ rest

abbrev pub escape_close : Text → List ℕ
escape_close [] = []
escape_close (c ∷ s) = let rest = escape_close s in if c == 41 then 92 ∷ c ∷ rest else c ∷ rest

abbrev is_special : ℕ → Bool
is_special c = c == 40 || c == 41 || c == 92

plain_body :
    (c : ℕ) (t b : List ℕ)
    → is_special c ≡ false
    → literal_body t ≡ some b
    → literal_body (c ∷ t) ≡ some (c ∷ b)
unfolding literal_body
plain_body c [] b h e = absurd (cc e)
plain_body c (d ∷ s) b h e = ground (arith, h, e)

escaped_body :
    (c : ℕ) (t b : List ℕ)
    → is_special c ≡ true
    → literal_body t ≡ some b
    → literal_body (92 ∷ c ∷ t) ≡ some (92 ∷ c ∷ b)
unfolding literal_body
escaped_body c t b h e = let no_feed : (c == 10) ≡ false = ground (arith, h) in rw (no_feed, e) refl

-- The body of a literal is all that was escaped.
literal_body-escape : (s rest : List ℕ) → literal_body (escape s ++ (41 ∷ rest)) ≡ some (escape s)
literal_body-escape [] [] = unfold literal_body in refl
literal_body-escape [] (r ∷ rest) = unfold literal_body in refl
literal_body-escape (c ∷ s) rest = elim (Bool-cases (is_special c)) [
  | inl h ↦
      rw h (escaped_body c (escape s ++ (41 ∷ rest)) (escape s) h (literal_body-escape s rest))
  | inr h ↦ rw h (plain_body c (escape s ++ (41 ∷ rest)) (escape s) h (literal_body-escape s rest))
]

-- A pair that does not begin a list is left out of it.
replace_skip :
    (p q r c : ℕ) (t : List ℕ)
    → (c == p) ≡ false
    → replace_pair p q r (c ∷ t) ≡ c ∷ replace_pair p q r t
unfolding replace_pair
replace_skip p q r c [] h = refl
replace_skip p q r c (d ∷ t) h = rw h refl

replace_hit : (p q r : ℕ) (t : List ℕ) → replace_pair p q r (p ∷ q ∷ t) ≡ r ∷ replace_pair p q r t
unfolding replace_pair
replace_hit p q r t =
    let a : (p == p) ≡ true = ground arith in
    let b : (q == q) ≡ true = ground arith in rw (a, b) refl

-- A backslash before another character stays, and so does the character.
replace_other :
    (q r c : ℕ) (t : List ℕ)
    → (c == q) ≡ false
    → (c == 92) ≡ false
    → replace_pair 92 q r (92 ∷ c ∷ t) ≡ 92 ∷ c ∷ replace_pair 92 q r t
unfolding replace_pair
replace_other q r c t h k = rw h (ap (λ s. 92 ∷ s) (replace_skip 92 q r c t k))

-- The first replacement undoes the escapes of opening brackets, the second the others.
replace_open :
    (s : Text) → contains s 92 ≡ false → replace_pair 92 40 40 (escape s) ≡ escape_close s
replace_open [] h = unfold replace_pair in refl
replace_open (c ∷ s) h =
    let plain : (c == 92) ≡ false = ground (arith, h) in
    let later = ap (λ t. c ∷ t) (replace_open s (ground (arith, h))) in
    elim (Bool-cases (c == 40)) [
      | inl e ↦
          let closing : (c == 41) ≡ false = ground (arith, e) in
          let same = (==_iff c 40).0 e in
          rw (e, closing)
            (ap (λ x. replace_pair 92 40 40 (92 ∷ x ∷ escape s)) same
              ∙ (replace_hit 92 40 40 (escape s)
                  ∙ (ap (λ x. x ∷ replace_pair 92 40 40 (escape s)) (sym same) ∙ later)))
      | inr e ↦ elim (Bool-cases (c == 41)) [
        | inl f ↦ rw (e, f) (replace_other 40 40 c (escape s) e plain ∙ ap (λ t. 92 ∷ t) later)
        | inr f ↦ rw (e, f, plain) (replace_skip 92 40 40 c (escape s) plain ∙ later)
      ]
    ]

replace_close : (s : Text) → contains s 92 ≡ false → replace_pair 92 41 41 (escape_close s) ≡ s
replace_close [] h = unfold replace_pair in refl
replace_close (c ∷ s) h =
    let plain : (c == 92) ≡ false = ground (arith, h) in
    let later = ap (λ t. c ∷ t) (replace_close s (ground (arith, h))) in
    elim (Bool-cases (c == 41)) [
      | inl e ↦
          let same = (==_iff c 41).0 e in
          rw e (
            ap (λ x. replace_pair 92 41 41 (92 ∷ x ∷ escape_close s)) same
            ∙ (replace_hit 92 41 41 (escape_close s)
                ∙ (ap (λ x. x ∷ replace_pair 92 41 41 (escape_close s)) (sym same) ∙ later)))
      | inr e ↦ rw e (replace_skip 92 41 41 c (escape_close s) plain ∙ later)
    ]

replace_none : (q r : ℕ) (s : Text) → contains s 92 ≡ false → replace_pair 92 q r s ≡ s
replace_none q r [] h = unfold replace_pair in refl
replace_none q r (c ∷ s) h =
    let plain : (c == 92) ≡ false = ground (arith, h) in
    replace_skip 92 q r c s plain ∙ ap (λ t. c ∷ t) (replace_none q r s (ground (arith, h)))

unescape-escape : (s : Text) → contains s 92 ≡ false → unescape (escape s) ≡ s
unfolding unescape
unescape-escape s h =
    ap
      (λ t.
        replace_pair 92 116 9
          (replace_pair 92 114 13 (replace_pair 92 110 10 (replace_pair 92 92 92 t))))
      (ap (replace_pair 92 41 41) (replace_open s h) ∙ replace_close s h)
    ∙ (ap (λ t. replace_pair 92 116 9 (replace_pair 92 114 13 (replace_pair 92 110 10 t)))
          (replace_none 92 92 s h)
        ∙ (ap (λ t. replace_pair 92 116 9 (replace_pair 92 114 13 t)) (replace_none 110 10 s h)
            ∙ (ap (replace_pair 92 116 9) (replace_none 114 13 s h) ∙ replace_none 116 9 s h)))

-- A match with nothing behind it.
find_none : (k : ℕ) (s : List ℕ) → length s ≤ k → find_literals s k ≡ []
unfolding find_literals
find_none k [] h = refl
find_none zero (c ∷ s) h = absurd (omega (arith, h))
find_none (suc k) (c ∷ s) h = find_none k s (omega (arith, h))

-- A text without a backslash that is written as a literal, with its brackets escaped, is read
-- back, but for the white space around it.
pub pdf_literal_strings-escape :
    (s : Text)
    → contains s 92 ≡ false
    → is_empty (strip s) ≡ false
    → pdf_literal_strings (40 ∷ (escape s ++ (41 ∷ []))) ≡ strip s ∷ []
unfolding pdf_literal_strings find_literals
pdf_literal_strings-escape s h filled =
    let size = length-append (escape s) (41 ∷ []) in
    let rest = find_none (suc (length (escape s))) (escape s ++ (41 ∷ [])) (omega (arith, size)) in
    ap (λ o. clean_literals (after_literal o (find_literals (escape s ++ (41 ∷ [])))))
      (literal_body-escape s [])
    ∙ (ap (λ ls. clean_literals (escape s ∷ ls)) rest
        ∙ (ap (λ t. keep_text (strip t) []) (unescape-escape s h) ∙ rw filled refl))
