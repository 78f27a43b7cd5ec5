-- ===== src/Base/Results.antt =====
-- Python values of an unchecked type, and calls that raise.
use mathlib.Core.Path.{◌≡◌, refl, subst}
use mathlib.Core.Logic.{◌⊎◌, inl, inr}
use mathlib.Core.Bool.{Bool, true, false}
use mathlib.Core.List.{List, [], ◌∷◌}

-- An argument whose type the code checks by `isinstance`: a value of that type, or anything else.
pub data Any {ℓ} (A : Type ℓ) : Type ℓ where
  typed : A → Any A
  untyped : Any A

-- A call that returns, or raises an exception told apart by its class and message.
pub data Result {ℓ κ} (E : Type κ) (A : Type ℓ) : Type (ℓ ⊔ κ) where
  ok : A → Result E A
  err : E → Result E A

infixl 5 ◌>>=◌ ◌>>◌
abbrev pub ◌>>=◌ {ℓ κ μ} :
    {E : Type μ} {A : Type ℓ} {B : Type κ} → Result E A → (A → Result E B) → Result E B
ok value >>= next = next value
err fault >>= next = err fault

abbrev pub ◌>>◌ {ℓ μ} : {E : Type μ} {B : Type ℓ} → Result E (Unit {0}) → Result E B → Result E B
check >> next = check >>= λ done. next

module _ {ℓ} {E : Type ℓ} where
  -- `if test: raise e`
  abbrev pub raise_if : Bool → E → Result E (Unit {0})
  raise_if true e = err e
  raise_if false e = ok tt

  -- `if not test: raise e`
  abbrev pub raise_unless : Bool → E → Result E (Unit {0})
  raise_unless true e = ok tt
  raise_unless false e = err e

-- `if not isinstance(x, A): raise e`
abbrev pub expect {ℓ κ} : {E : Type κ} {A : Type ℓ} → Any A → E → Result E A
expect (typed a) e = ok a
expect untyped e = err e

-- `for x in xs: if not isinstance(x, A): raise e`
abbrev pub expect_all {ℓ κ} : {E : Type κ} {A : Type ℓ} → List (Any A) → E → Result E (List A)
expect_all [] e = ok []
expect_all (typed a ∷ xs) e = expect_all xs e >>= λ rest. ok (a ∷ rest)
expect_all (untyped ∷ xs) e = err e

-- What the code does on every element of a list, in order, until it raises.
abbrev pub traverse {ℓ κ μ} :
    {E : Type μ} {A : Type ℓ} {B : Type κ} → (A → Result E B) → List A → Result E (List B)
traverse f [] = ok []
traverse f (x ∷ xs) = f x >>= λ y. (traverse f xs >>= λ ys. ok (y ∷ ys))

abbrev pub Succeeds {ℓ κ} : {E : Type κ} {A : Type ℓ} → Result E A → Type 0
Succeeds (ok a) = Unit
Succeeds (err e) = ⊥

-- What holds of the value, if the call returns.
abbrev pub Ensures {ℓ μ} : {E : Type μ} {A : Type ℓ} → (A → Type 0) → Result E A → Type 0
Ensures P (ok a) = P a
Ensures P (err e) = Unit

pub Ensures-bind {ℓ κ μ} :
    {E : Type μ} {A : Type ℓ} {B : Type κ} (P : A → Type 0) (Q : B → Type 0) (m : Result E A)
    (f : A → Result E B)
    → Ensures P m
    → ((a : A) → P a → Ensures Q (f a))
    → Ensures Q (m >>= f)
Ensures-bind P Q (ok a) f h k = k a h
Ensures-bind P Q (err e) f h k = tt

pub Ensures-ok {ℓ μ} :
    {E : Type μ} {A : Type ℓ} (P : A → Type 0) (m : Result E A) {a : A}
    → Ensures P m
    → m ≡ ok a
    → P a
Ensures-ok P m h e = subst (Ensures P) e h

pub Ensures-raise_unless {ℓ} :
    {E : Type ℓ} (b : Bool) (e : E) → Ensures (λ _. b ≡ true) (raise_unless b e)
Ensures-raise_unless true e = refl
Ensures-raise_unless false e = tt

pub Ensures-raise_if {ℓ} : {E : Type ℓ} (b : Bool) (e : E) → Ensures (λ _. b ≡ false) (raise_if b e)
Ensures-raise_if true e = tt
Ensures-raise_if false e = refl

pub Ensures-expect {ℓ} :
    {E : Type ℓ} {A : Type 0} (x : Any A) (e : E) → Ensures (λ a. x ≡ typed a) (expect x e)
Ensures-expect (typed a) e = refl
Ensures-expect untyped e = tt

pub Result-cases {ℓ μ} :
    {E : Type μ} {A : Type ℓ} (m : Result E A) → ((a : A) × (m ≡ ok a)) ⊎ ((e : E) × (m ≡ err e))
Result-cases (ok a) = inl (a, refl)
Result-cases (err e) = inr (e, refl)

pub ok-injective {ℓ μ} :
    {E : Type μ} {A : Type ℓ} {a b : A} → ◌≡◌ {A = Result E A} (ok a) (ok b) → a ≡ b
ok-injective e = cc

-- Inversion of a call that returned.
pub >>=-eq-ok {ℓ κ μ} :
    {E : Type μ} {A : Type ℓ} {B : Type κ} (call : Result E A) (next : A → Result E B) {last : B}
    → (call >>= next) ≡ ok last
    → (value : A) × (call ≡ ok value) × (next value ≡ ok last)
>>=-eq-ok (ok value) next returned = (value, refl, returned)
>>=-eq-ok (err fault) next returned = cc

-- What holds of the rest holds behind a check.
pub Ensures-after {κ μ} :
    {E : Type μ} {B : Type κ} (P : B → Type 0) (check : Result E Unit) (rest : Result E B)
    → Ensures P rest
    → Ensures P (check >> rest)
Ensures-after P (ok a) rest h = h
Ensures-after P (err e) rest h = tt

-- Behind a check that passed.
pub >>-eq-ok {κ μ} :
    {E : Type μ} {B : Type κ} (check : Result E Unit) (rest : Result E B) {last : B}
    → (check >> rest) ≡ ok last
    → (check ≡ ok tt) × (rest ≡ ok last)
>>-eq-ok (ok tt) rest returned = (refl, returned)
>>-eq-ok (err fault) rest returned = cc

pub raise_if-eq-ok {ℓ} : {E : Type ℓ} (b : Bool) (e : E) → raise_if b e ≡ ok tt → b ≡ false
raise_if-eq-ok true e h = cc
raise_if-eq-ok false e h = refl

pub raise_unless-eq-ok {ℓ} : {E : Type ℓ} (b : Bool) (e : E) → raise_unless b e ≡ ok tt → b ≡ true
raise_unless-eq-ok true e h = refl
raise_unless-eq-ok false e h = cc
