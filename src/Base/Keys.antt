-- ===== src/Base/Keys.antt =====
-- Python's comparison of tuples of numbers, as sort keys.

use mathlib.Core.Path.{◌≡◌, refl}
use mathlib.Core.Bool.{Bool, true, false}
use mathlib.Core.List.{List, [], ◌∷◌}
use native.Mathlib.Omega.{arith}
use xportra_ai.Base.Tests.{if◌then◌else◌}
use xportra_ai.Base.Int.{ℤ, leb_ℤ, leb_ℤ_antisymm, leb_ℤ_trans, leb_ℤ_total}
use xportra_ai.Base.Sorting.{IsOrder}

-- `xs <= ys`: by the first place where they differ.
unfoldable pub lex_leb : List ℤ → List ℤ → Bool
lex_leb [] ys = true
lex_leb (x ∷ xs) [] = false
lex_leb (x ∷ xs) (y ∷ ys) =
    let rest = lex_leb xs ys in if leb_ℤ x y then (if leb_ℤ y x then rest else true) else false

pub lex_leb_antisymm : (xs ys : List ℤ) → lex_leb xs ys ≡ true → lex_leb ys xs ≡ true → xs ≡ ys
unfolding lex_leb
lex_leb_antisymm [] [] h k = refl
lex_leb_antisymm [] (y ∷ ys) h k = cc
lex_leb_antisymm (x ∷ xs) [] h k = cc
lex_leb_antisymm (x ∷ xs) (y ∷ ys) h k = ground (arith, leb_ℤ_antisymm x y, lex_leb_antisymm xs ys)

lex_leb_total : (xs ys : List ℤ) → lex_leb xs ys ≡ false → lex_leb ys xs ≡ true
unfolding lex_leb
lex_leb_total [] ys h = cc
lex_leb_total (x ∷ xs) [] h = refl
lex_leb_total (x ∷ xs) (y ∷ ys) h = ground (arith, leb_ℤ_total x y, lex_leb_total xs ys)

lex_leb_trans :
    (xs ys zs : List ℤ) → lex_leb xs ys ≡ true → lex_leb ys zs ≡ true → lex_leb xs zs ≡ true
unfolding lex_leb
lex_leb_trans [] ys zs h k = refl
lex_leb_trans (x ∷ xs) [] zs h k = cc
lex_leb_trans (x ∷ xs) (y ∷ ys) [] h k = cc
lex_leb_trans (x ∷ xs) (y ∷ ys) (z ∷ zs) h k =
    ground (arith, leb_ℤ_trans x y z, leb_ℤ_trans y z x, leb_ℤ_trans z x y, lex_leb_trans xs ys zs)

-- Sorting by a key of numbers is sorting by a total preorder.
pub key-IsOrder {ℓ} : {A : Type ℓ} (key : A → List ℤ) → IsOrder (λ x y. lex_leb (key x) (key y))
key-IsOrder key = record {
  total = λ x y. lex_leb_total (key x) (key y);
  transitive = λ x y z. lex_leb_trans (key x) (key y) (key z);
}
