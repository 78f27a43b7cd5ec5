-- ===== src/Base/Filters.antt =====
-- Filters of a list: composed, of a permuted list, and put together again.
use mathlib.Core.Path.{◌≡◌, refl, sym, ap, ◌∙◌}
use mathlib.Core.Logic.{◌⊎◌, inl, inr}
use mathlib.Core.Bool.{Bool, true, false, ◌&&◌}
use mathlib.Core.List.{List, [], ◌∷◌, ◌++◌, Permᴰ, map}
use mathlib.Core.List.Permᴰ
use native.Mathlib.Omega.{arith}
use Prim.Native.Nat.{suc}
use xportra_ai.Base.Tests.{Bool-cases}
use xportra_ai.Base.Lists.{filter, length}

pub length-perm {ℓ} : {A : Type ℓ} {xs ys : List A} → Permᴰ xs ys → length xs ≡ length ys
length-perm Permᴰ.nil = refl
length-perm (Permᴰ.cons e d) = ap (λ n. suc n) (length-perm d)
length-perm (Permᴰ.swap e d) = refl
length-perm (Permᴰ.trans d e) = length-perm d ∙ length-perm e

pub map-perm {ℓ κ} :
    {A : Type ℓ} {B : Type κ} (f : A → B) {xs ys : List A}
    → Permᴰ xs ys
    → Permᴰ (map f xs) (map f ys)
map-perm f Permᴰ.nil = Permᴰ.nil
map-perm f (Permᴰ.cons e d) = Permᴰ.cons (ap f e) (map-perm f d)
map-perm f (Permᴰ.swap e d) = Permᴰ.swap (ap f e) (ap f d)
map-perm f (Permᴰ.trans d e) = Permᴰ.trans (map-perm f d) (map-perm f e)

-- An element that passes the last test passes exactly one of the three before it.
abbrev pub Parts : (p q r f : Bool) → Type 0
Parts p q r f =
    ((p ≡ true) × (q ≡ false) × (r ≡ false) × (f ≡ true))
    ⊎ ((p ≡ false) × (q ≡ true) × (r ≡ false) × (f ≡ true))
    ⊎ ((p ≡ false) × (q ≡ false) × (r ≡ true) × (f ≡ true))
    ⊎ ((p ≡ false) × (q ≡ false) × (r ≡ false) × (f ≡ false))

module _ {ℓ} {A : Type ℓ} where
  -- One filter after another.
  pub filter-filter :
      (p q : A → Bool) (xs : List A) → filter q (filter p xs) ≡ filter (λ x. p x && q x) xs
  filter-filter p q [] = refl
  filter-filter p q (x ∷ xs) = ground (arith, filter-filter p q xs)

  pub filter_ext :
      (p q : A → Bool) → ((x : A) → p x ≡ q x) → (xs : List A) → filter p xs ≡ filter q xs
  filter_ext p q h [] = refl
  filter_ext p q h (x ∷ xs) = rw (h x) (rw (filter_ext p q h xs) refl)

  -- Of a permuted list.
  filter_cons :
      (p : A → Bool) {x y : A} (xs ys : List A)
      → x ≡ y
      → Permᴰ (filter p xs) (filter p ys)
      → Permᴰ (filter p (x ∷ xs)) (filter p (y ∷ ys))
  filter_cons p {x} {y} xs ys e d = elim (Bool-cases (p x)) [
    | inl h ↦ let h' : p y ≡ true = ap p (sym e) ∙ h in rw (h, h') (Permᴰ.cons e d)
    | inr h ↦ let h' : p y ≡ false = ap p (sym e) ∙ h in rw (h, h') d
  ]

  filter_swap :
      (p : A → Bool) (x y : A) (xs : List A) → Permᴰ (filter p (x ∷ y ∷ xs)) (filter p (y ∷ x ∷ xs))
  filter_swap p x y xs = elim (Bool-cases (p x)) [
    | inl h ↦ elim (Bool-cases (p y)) [
      | inl k ↦ rw (h, k) (Permᴰ.swap refl refl)
      | inr k ↦ rw (h, k) (Permᴰ.refl (x ∷ filter p xs))
    ]
    | inr h ↦ elim (Bool-cases (p y)) [
      | inl k ↦ rw (h, k) (Permᴰ.refl (y ∷ filter p xs))
      | inr k ↦ rw (h, k) (Permᴰ.refl (filter p xs))
    ]
  ]

  pub filter-perm :
      (p : A → Bool) {xs ys : List A} → Permᴰ xs ys → Permᴰ (filter p xs) (filter p ys)
  filter-perm p Permᴰ.nil = Permᴰ.nil
  filter-perm p (Permᴰ.cons {l₁ = xs} {l₂ = ys} e d) = filter_cons p xs ys e (filter-perm p d)
  filter-perm p (Permᴰ.swap {a = a} {b = b} {a' = a'} {b' = b'} {l = l} e d) =
      Permᴰ.trans (filter_swap p a b l)
        (filter_cons p (a ∷ l) (b' ∷ l) d (filter_cons p l l e (Permᴰ.refl (filter p l))))
  filter-perm p (Permᴰ.trans d e) = Permᴰ.trans (filter-perm p d) (filter-perm p e)

  -- Three parts, one behind the other, are the whole up to order.
  pub filter_parts :
      (p q r f : A → Bool)
      → ((x : A) → Parts (p x) (q x) (r x) (f x))
      → (xs : List A) → Permᴰ (filter p xs ++ (filter q xs ++ filter r xs)) (filter f xs)
  filter_parts p q r f h [] = Permᴰ.nil
  filter_parts p q r f h (x ∷ xs) =
      let rest = filter_parts p q r f h xs in
      let last = Permᴰ.append_left (filter p xs) (Permᴰ.middle x (filter q xs) (filter r xs)) in
      let front = Permᴰ.middle x (filter p xs) (filter q xs ++ filter r xs) in
      elim (h x) [
        | inl (a, b, c, d) ↦ rw (a, b, c, d) (Permᴰ.cons refl rest)
        | inr (inl (a, b, c, d)) ↦ rw (a, b, c, d) (Permᴰ.trans front (Permᴰ.cons refl rest))
        | inr (inr (inl (a, b, c, d))) ↦
            rw (a, b, c, d) (Permᴰ.trans last (Permᴰ.trans front (Permᴰ.cons refl rest)))
        | inr (inr (inr (a, b, c, d))) ↦ rw (a, b, c, d) rest
      ]
