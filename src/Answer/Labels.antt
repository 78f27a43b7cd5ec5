-- ===== src/Answer/Labels.antt =====
-- Labels: every position has its own, and it reads back as a number.
use xportra_ai.Base.{
  ℕ, ◌+◌, ◌-◌, ◌≡◌, ◌≢◌, refl, sym, ap, ◌∙◌, inl, inr, false, ◌&&◌, [], ◌∷◌, ◌++◌, leb,
  if◌then◌else◌, drop, All, Bool-cases, list_eq, list_eq→eq, ◌*◌,
}
use xportra_ai.Base.Text.{Text}
use xportra_ai.Base.Decimal.{show, value, value-show, show-IsDigit, IsDigit}
use xportra_ai.Answer.Prompt.{citation_label}

-- The number that a label names, read up to the first character that is no digit.
unfoldable pub number_in : ℕ → Text → ℕ
number_in acc [] = acc
number_in acc (c ∷ cs) =
    let rest = number_in (acc * 10 + (c - 48)) cs in if leb 48 c && leb c 57 then rest else acc

number_in-value :
    (acc : ℕ) (ds rest : Text) → All IsDigit ds → number_in acc (ds ++ (93 ∷ rest)) ≡ value acc ds
unfolding number_in value
number_in-value acc [] rest h = refl
number_in-value acc (d ∷ ds) rest h = rw h.0 (number_in-value (acc * 10 + (d - 48)) ds rest h.1)

pub number_in-label : (n : ℕ) → number_in 0 (drop 2 (citation_label n)) ≡ n
unfolding citation_label
number_in-label n = number_in-value 0 (show n) [] (show-IsDigit n) ∙ value-show n

pub label-injective : (m n : ℕ) → citation_label m ≡ citation_label n → m ≡ n
label-injective m n e =
    sym (number_in-label m) ∙ (ap (λ l. number_in 0 (drop 2 l)) e ∙ number_in-label n)

pub label_differs : (m n : ℕ) → m ≢ n → list_eq (citation_label m) (citation_label n) ≡ false
label_differs m n h = elim (Bool-cases (list_eq (citation_label m) (citation_label n))) [
  | inl e ↦ absurd (h (label-injective m n (list_eq→eq (citation_label m) (citation_label n) e)))
  | inr e ↦ e
]
