-- ===== src/Answer/Extraction.antt =====
-- The extraction finds exactly the places where a citation stands.
use xportra_ai.Base.{
  ℕ, zero, suc, ◌+◌, ◌-◌, ◌≤◌, ◌<◌, ◌≡◌, refl, sym, ap, ◌∙◌, subst, inl, inr, Bool, true, false,
  ◌&&◌, Option, none, some, List, [], ◌∷◌, arith, ◌==◌, if◌then◌else◌, length, drop, All,
  Bool-cases, Option-cases, ==_iff,
}
use xportra_ai.Base.Text.{Text}
use mathlib.Core.Option
use xportra_ai.Answer.Citations.{
  after_match, Occurrence, digits_then_bracket, match_at, find_from, extract,
}

-- The label found at a position.
abbrev pub found_at : List Occurrence → ℕ → Option Text
found_at [] p = none
found_at (o ∷ os) p = if o.position == p then some o.label else found_at os p

-- No bracket opens in the first `n` characters.
abbrev NoOpening : ℕ → Text → Type 0
NoOpening zero t = Unit
NoOpening (suc n) [] = Unit
NoOpening (suc n) (c ∷ cs) = ((c == 91) ≡ false) × NoOpening n cs

-- Every position found is at or after `from`.
abbrev From : ℕ → List Occurrence → Type 0
From from os = All (λ o. from ≤ o.position) os

map_inv :
    (f : Text → Text) (o : Option Text) (l : Text)
    → Option.map f o ≡ some l
    → (t : Text) × (o ≡ some t) × (l ≡ f t)
map_inv f none l e = cc
map_inv f (some t) l e = (t, refl, cc)

module _ (is_digit : ℕ → Bool) (no_digit : is_digit 91 ≡ false) where
  digit_opens : (c : ℕ) → is_digit c ≡ true → (c == 91) ≡ false
  digit_opens c h = elim (Bool-cases (c == 91)) [
    | inl e ↦ let same : is_digit c ≡ is_digit 91 = ap is_digit ((==_iff c 91).0 e) in cc
    | inr e ↦ e
  ]

  rest_NoOpening :
      (t : Text) (b : Bool) (l : Text)
      → digits_then_bracket is_digit t b ≡ some l
      → NoOpening (length l) t
  unfolding digits_then_bracket
  rest_NoOpening [] b l e = cc
  rest_NoOpening (c ∷ cs) b l e = elim (Bool-cases (is_digit c)) [
    | inl d ↦
        let (t, inner, is) =
          map_inv (λ t. c ∷ t) (digits_then_bracket is_digit cs true) l (ground (arith, e, d)) in
        subst (λ m. NoOpening (length m) (c ∷ cs)) (sym is)
          (digit_opens c d, rest_NoOpening cs true t inner)
    | inr d ↦
        let is : l ≡ c ∷ [] = ground (arith, e, d) in
        subst (λ m. NoOpening (length m) (c ∷ cs)) (sym is) (ground (arith, e, d), tt)
  ]

  match-NoOpening :
      (c : ℕ) (cs l : Text) → match_at is_digit (c ∷ cs) ≡ some l → NoOpening (length l - 1) cs
  unfolding match_at
  match-NoOpening c [] l e = cc
  match-NoOpening c (d ∷ cs) l e = elim (Bool-cases ((c == 91) && (d == 69))) [
    | inl h ↦
        let (t, inner, is) =
          map_inv (λ t. c ∷ d ∷ t) (digits_then_bracket is_digit cs false) l
            (ground (arith, e, h)) in
        let long : length l - 1 ≡ suc (length t) = ap (λ m. length m - 1) is ∙ omega arith in
        subst (λ n. NoOpening n (d ∷ cs)) (sym long) (ground arith, rest_NoOpening cs false t inner)
    | inr h ↦ absurd (ground (arith, e, h))
  ]

  match-bracket : (c : ℕ) (cs : Text) → (c == 91) ≡ false → match_at is_digit (c ∷ cs) ≡ none
  unfolding match_at
  match-bracket c [] h = refl
  match-bracket c (d ∷ cs) h = rw h refl

  match_nil : match_at is_digit [] ≡ none
  unfolding match_at
  match_nil = refl

  found_in :
      (p : ℕ) (c : ℕ) (cs : Text) (from : ℕ) (m : Option Text)
      → match_at is_digit (c ∷ cs) ≡ m
      → found_at (find_from is_digit (c ∷ cs) from zero) p
        ≡ found_at (after_match m from (find_from is_digit cs (suc from))) p
  unfolding find_from
  found_in p c cs from m e =
      ap (λ o. found_at (after_match o from (find_from is_digit cs (suc from))) p) e

  -- Positions before the search find nothing.
  found_before :
      (t : Text) (from skip p : ℕ) → p < from → found_at (find_from is_digit t from skip) p ≡ none
  unfolding find_from
  found_before [] from skip p h = refl
  found_before (c ∷ cs) from (suc skip) p h = found_before cs (suc from) skip p (omega arith)
  found_before (c ∷ cs) from zero p h = elim (Option-cases (match_at is_digit (c ∷ cs))) [
    | inl e ↦ found_in p c cs from none e ∙ found_before cs (suc from) zero p (omega arith)
    | inr (l, e) ↦
        let differs : (from == p) ≡ false = ground arith in
        found_in p c cs from (some l) e
        ∙ rw differs (found_before cs (suc from) (length l - 1) p (omega arith))
  ]

  found_here : (from k : ℕ) → from + suc k ≡ suc from + k
  found_here from k = omega arith

  -- At every place from where the search begins, what is found is the match there.
  found-match :
      (t : Text) (from skip k : ℕ)
      → NoOpening skip t
      → found_at (find_from is_digit t from skip) (from + k) ≡ match_at is_digit (drop k t)
  unfolding find_from
  found-match [] from skip zero n = sym match_nil
  found-match [] from skip (suc k) n = sym match_nil
  found-match (c ∷ cs) from (suc skip) zero n =
      found_before cs (suc from) skip (from + 0) (omega arith) ∙ sym (match-bracket c cs n.0)
  found-match (c ∷ cs) from (suc skip) (suc k) n =
      ap (found_at (find_from is_digit cs (suc from) skip)) (found_here from k)
      ∙ found-match cs (suc from) skip k n.1
  found-match (c ∷ cs) from zero zero n = elim (Option-cases (match_at is_digit (c ∷ cs))) [
    | inl e ↦
        found_in (from + 0) c cs from none e
        ∙ (found_before cs (suc from) zero (from + 0) (omega arith) ∙ sym e)
    | inr (l, e) ↦
        let same : (from == from + 0) ≡ true = ground arith in
        found_in (from + 0) c cs from (some l) e ∙ rw same (sym e)
  ]
  found-match (c ∷ cs) from zero (suc k) n = elim (Option-cases (match_at is_digit (c ∷ cs))) [
    | inl e ↦
        found_in (from + suc k) c cs from none e
        ∙ (ap (found_at (find_from is_digit cs (suc from) zero)) (found_here from k)
            ∙ found-match cs (suc from) zero k tt)
    | inr (l, e) ↦
        let differs : (from == from + suc k) ≡ false = ground arith in
        found_in (from + suc k) c cs from (some l) e
        ∙ rw differs (
            ap (found_at (find_from is_digit cs (suc from) (length l - 1))) (found_here from k)
            ∙ found-match cs (suc from) (length l - 1) k (match-NoOpening c cs l e))
  ]

  -- If the opening bracket is no digit: at every position of a text, the extraction has an
  -- occurrence exactly if the citation pattern matches there, with the text that it matches.
  pub extract_exact :
      (text : Text) (p : ℕ)
      → found_at (extract is_digit text).occurrences p ≡ match_at is_digit (drop p text)
  unfolding extract
  extract_exact text p =
      let from_zero : p ≡ 0 + p = omega arith in
      ap (found_at (find_from is_digit text 0 0)) from_zero ∙ found-match text 0 0 p tt
