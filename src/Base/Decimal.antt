-- ===== src/Base/Decimal.antt =====
-- `str(n)` of a natural number: its decimal digits, and back.
use Prim.Native.Nat.{ℕ, zero, suc, ◌+◌, ◌-◌, ◌*◌, ◌/◌, ◌%◌, ◌≤◌, ◌<◌}
use mathlib.Core.Path.{◌≡◌, refl, ◌∙◌}
use mathlib.Core.Logic.{inl, inr}
use mathlib.Core.Bool.{true, ◌&&◌}
use mathlib.Core.List.{[], ◌∷◌, ◌++◌}
use native.Mathlib.Omega.{arith}
use xportra_ai.Base.Tests.{ltb, leb, if◌then◌else◌, Bool-cases}
use xportra_ai.Base.Lists.{All}
use xportra_ai.Base.Text.{Text}

-- On fuel; `show` gives enough.
unfoldable pub digits_of : ℕ → ℕ → Text
digits_of zero n = []
digits_of (suc fuel) n =
    let rest = digits_of fuel (n / 10) in
    if ltb n 10 then (48 + n) ∷ [] else rest ++ ((48 + n % 10) ∷ [])

unfoldable pub show : ℕ → Text
show n = digits_of (suc n) n

-- `int(s)` of decimal digits.
unfoldable pub value : ℕ → Text → ℕ
value acc [] = acc
value acc (c ∷ cs) = value (acc * 10 + (c - 48)) cs

value-snoc :
    (acc : ℕ) (xs : Text) (c : ℕ) → value acc (xs ++ (c ∷ [])) ≡ value acc xs * 10 + (c - 48)
unfolding value
value-snoc acc [] c = refl
value-snoc acc (x ∷ xs) c = value-snoc (acc * 10 + (x - 48)) xs c

value_one : (n : ℕ) → value 0 ((48 + n) ∷ []) ≡ n
unfolding value
value_one n = omega arith

value-digits_of : (fuel n : ℕ) → n < fuel → value 0 (digits_of fuel n) ≡ n
unfolding digits_of
value-digits_of zero n h = elim h [ ]
value-digits_of (suc fuel) n h = elim (Bool-cases (ltb n 10)) [
  | inl e ↦ rw e (value_one n)
  | inr e ↦
      let big : 10 ≤ n = ground arith in
      let rest = value-digits_of fuel (n / 10) (omega arith) in
      rw e (value-snoc 0 (digits_of fuel (n / 10)) (48 + n % 10) ∙ omega (arith, rest))
]

-- A decimal digit of ASCII.
abbrev pub IsDigit : ℕ → Type 0
IsDigit c = (leb 48 c && leb c 57) ≡ true

All-snoc : (xs : Text) (c : ℕ) → All IsDigit xs → IsDigit c → All IsDigit (xs ++ (c ∷ []))
All-snoc [] c h k = (k, tt)
All-snoc (x ∷ xs) c h k = (h.0, All-snoc xs c h.1 k)

digits_of-IsDigit : (fuel n : ℕ) → All IsDigit (digits_of fuel n)
unfolding digits_of
digits_of-IsDigit zero n = tt
digits_of-IsDigit (suc fuel) n = elim (Bool-cases (ltb n 10)) [
  | inl e ↦ rw e (ground arith, tt)
  | inr e ↦ rw e (
      All-snoc (digits_of fuel (n / 10)) (48 + n % 10) (digits_of-IsDigit fuel (n / 10))
        (ground arith))
]

pub value-show : (n : ℕ) → value 0 (show n) ≡ n
unfolding show
value-show n = value-digits_of (suc n) n (omega arith)

pub show-IsDigit : (n : ℕ) → All IsDigit (show n)
unfolding show
show-IsDigit n = digits_of-IsDigit (suc n) n
