-- ===== src/Base/Sorting.antt =====
-- Python's `sorted(xs, key=...)`: a stable sort, here by insertion, over a Boolean order.
use mathlib.Core.Path.{◌≡◌, refl, sym, ap, ◌∙◌, subst}
use mathlib.Core.Logic.{inl, inr}
use mathlib.Core.Bool.{Bool, true, false, ◌&&◌}
use mathlib.Core.List.{List, [], ◌∷◌, Permᴰ}
use mathlib.Core.List.Permᴰ
use native.Mathlib.Omega.{arith}
use xportra_ai.Base.Tests.{if◌then◌else◌, Bool-cases}
use xportra_ai.Base.Lists.{All, All_map}

module _ {ℓ} {A : Type ℓ} (le : A → A → Bool) where
  -- Before the first element that is not smaller.
  unfoldable pub insert : A → List A → List A
  insert x [] = x ∷ []
  insert x (y ∷ ys) = let rest = insert x ys in if le x y then x ∷ y ∷ ys else y ∷ rest

  unfoldable pub sort : List A → List A
  unfolding insert
  sort [] = []
  sort (x ∷ xs) = insert x (sort xs)

  abbrev pub IsSorted : List A → Type 0
  IsSorted [] = Unit
  IsSorted (x ∷ xs) = All (λ y. le x y ≡ true) xs × IsSorted xs

  -- Neither stands for the other: one is strictly smaller.
  abbrev pub Apart : A → A → Type 0
  Apart x y = (le x y && le y x) ≡ false

  abbrev pub AllApart : List A → Type 0
  AllApart [] = Unit
  AllApart (x ∷ xs) = All (Apart x) xs × AllApart xs

  pub insert-perm : (x : A) (xs : List A) → Permᴰ (insert x xs) (x ∷ xs)
  unfolding insert
  insert-perm x [] = Permᴰ.refl (x ∷ [])
  insert-perm x (y ∷ ys) = elim (Bool-cases (le x y)) [
    | inl e ↦ rw e (Permᴰ.refl (x ∷ y ∷ ys))
    | inr e ↦ rw e (Permᴰ.trans (Permᴰ.cons refl (insert-perm x ys)) (Permᴰ.swap refl refl))
  ]

  pub sort-perm : (xs : List A) → Permᴰ (sort xs) xs
  unfolding sort
  sort-perm [] = Permᴰ.nil
  sort-perm (x ∷ xs) = Permᴰ.trans (insert-perm x (sort xs)) (Permᴰ.cons refl (sort-perm xs))

-- What holds of every element holds after a permutation.
pub All-perm {ℓ κ} :
    {A : Type ℓ} (P : A → Type κ) {xs ys : List A} → Permᴰ xs ys → All P xs → All P ys
All-perm P Permᴰ.nil h = h
All-perm P (Permᴰ.cons e d) h = (subst P e h.0, All-perm P d h.1)
All-perm P (Permᴰ.swap e d) h = (subst P d h.1.0, (subst P e h.0, h.1.1))
All-perm P (Permᴰ.trans d e) h = All-perm P e (All-perm P d h)

module _ {ℓ} {A : Type ℓ} (le : A → A → Bool) where
  pub AllApart-perm : {xs ys : List A} → Permᴰ xs ys → AllApart le xs → AllApart le ys
  AllApart-perm Permᴰ.nil h = h
  AllApart-perm (Permᴰ.cons {b = b} {l₁ = l₁} e d) h =
      (All-perm (Apart le b) d (subst (λ z. All (Apart le z) l₁) e h.0), AllApart-perm d h.1)
  AllApart-perm (Permᴰ.swap {a = a} {b = b} {b' = b'} {l = l} e d) h =
      let swapped : AllApart le (b ∷ a ∷ l) = ((ground (arith, h.0.0), h.1.0), (h.0.1, h.1.1)) in
      subst (λ v. AllApart le (v ∷ b' ∷ l)) d (subst (λ u. AllApart le (b ∷ u ∷ l)) e swapped)
  AllApart-perm (Permᴰ.trans d e) h = AllApart-perm e (AllApart-perm d h)

-- A total preorder.
pub record IsOrder {ℓ} {A : Type ℓ} (le : A → A → Bool) : Type ℓ where
  pub total : (x y : A) → le x y ≡ false → le y x ≡ true
  pub transitive : (x y z : A) → le x y ≡ true → le y z ≡ true → le x z ≡ true

module _ {ℓ} {A : Type ℓ} (le : A → A → Bool) (o : IsOrder le) where
  insert-IsSorted : (x : A) (xs : List A) → IsSorted le xs → IsSorted le (insert le x xs)
  unfolding insert
  insert-IsSorted x [] h = (tt, tt)
  insert-IsSorted x (y ∷ ys) h = elim (Bool-cases (le x y)) [
    | inl e ↦ rw e ((e, All_map (λ z. o.transitive x y z e) ys h.0), h)
    | inr e ↦ rw e (
      All-perm (λ z. le y z ≡ true) (Permᴰ.symm (insert-perm le x ys)) (o.total x y e, h.0),
      insert-IsSorted x ys h.1,
    )
  ]

  pub sort-IsSorted : (xs : List A) → IsSorted le (sort le xs)
  unfolding sort
  sort-IsSorted [] = tt
  sort-IsSorted (x ∷ xs) = insert-IsSorted x (sort le xs) (sort-IsSorted xs)

  insert_comm :
      (x y : A) (l : List A)
      → le x y ≡ true
      → le y x ≡ false
      → insert le x (insert le y l) ≡ insert le y (insert le x l)
  unfolding insert
  insert_comm x y [] p q = ground arith
  insert_comm x y (z ∷ l) p q = ground (
    arith,
    insert_comm x y l p q,
    o.transitive x y z,
    o.transitive y x z,
    o.total x z,
    o.total y z,
  )

  insert_comm_of_Apart :
      (x y : A) (l : List A)
      → Apart le x y
      → insert le x (insert le y l) ≡ insert le y (insert le x l)
  insert_comm_of_Apart x y l h = elim (Bool-cases (le x y)) [
    | inl e ↦ insert_comm x y l e (ground arith)
    | inr e ↦ sym (insert_comm y x l (o.total x y e) e)
  ]

  -- Where no two elements tie, the result does not depend on the order of the input.
  pub sort-perm_unique : {xs ys : List A} → Permᴰ xs ys → AllApart le xs → sort le xs ≡ sort le ys
  unfolding sort
  sort-perm_unique Permᴰ.nil h = refl
  sort-perm_unique (Permᴰ.cons e d) h = rw e (ap (insert le _) (sort-perm_unique d h.1))
  sort-perm_unique (Permᴰ.swap {a = a} {b = b} {l = l} e d) h =
      rw (← e, ← d) (insert_comm_of_Apart a b (sort le l) h.0.0)
  sort-perm_unique (Permᴰ.trans d e) h =
      sort-perm_unique d h ∙ sort-perm_unique e (AllApart-perm le d h)
