-- ===== src/Decision/Information.antt =====
-- When the cases are ready, and what the report of it counts.
use xportra_ai.Base.{
  suc, ◌+◌, ◌≡◌, ◌↔◌, refl, sym, ap, ◌∙◌, subst, Bool, true, false, ◌||◌, List, [], ◌∷◌, map, Any,
  typed, arith, ok, traverse, if◌then◌else◌, is_empty, length, All, >>=-eq-ok, ok-injective, any,
}
use xportra_ai.Base.Sorting.{sort}
use xportra_ai.Errors.{Uuid}
use xportra_ai.Decision.Cases.{RawCase, Case, validate_case}
use mathlib.Core.List.{Permᴰ}
use xportra_ai.Base.Sorting.{insert, sort-perm, All-perm}
use xportra_ai.Decision.Cases.{is_unclear}
use xportra_ai.Decision.Services.{by_requirement, applicable_cases, review_of}
use xportra_ai.Decision.Readiness.{
  Gap, ready, partially_ready, not_ready, Tally, tally, is_applicability_gap, readiness_state,
  ReadinessReport, report_of, assess_readiness, gap_leb,
}
use xportra_ai.Decision.Balance.{IsDecided, tally-Owes, tally-nil, tally-any}

module _ {A : Type 0} (le : A → A → Bool) where
  length-insert : (x : A) (xs : List A) → length (insert le x xs) ≡ suc (length xs)
  unfolding insert
  length-insert x [] = refl
  length-insert x (y ∷ ys) = ground (arith, length-insert x ys)

  length-sort : (xs : List A) → length (sort le xs) ≡ length xs
  unfolding sort
  length-sort [] = refl
  length-sort (x ∷ xs) = length-insert x (sort le xs) ∙ ap suc (length-sort xs)

any-perm : {A : Type 0} (p : A → Bool) {xs ys : List A} → Permᴰ xs ys → any p xs ≡ any p ys
any-perm p Permᴰ.nil = refl
any-perm p (Permᴰ.cons {a = a} {b = b} e d) = ground (arith, any-perm p d, ap p e)
any-perm p (Permᴰ.swap {a = a} {b = b} {a' = a'} {b' = b'} e d) = ground (arith, ap p e, ap p d)
any-perm p (Permᴰ.trans d e) = any-perm p d ∙ any-perm p e

is_empty-length : {A : Type 0} (xs ys : List A) → length xs ≡ length ys → is_empty xs ≡ is_empty ys
is_empty-length [] [] h = refl
is_empty-length [] (y ∷ ys) h = absurd (omega (arith, h))
is_empty-length (x ∷ xs) [] h = absurd (omega (arith, h))
is_empty-length (x ∷ xs) (y ∷ ys) h = refl

-- The state, from what it is computed of.
state_cases :
    (none_given doubt complete : Bool)
    → (complete ≡ true → doubt ≡ false)
    → let s =
        if none_given || doubt then not_ready else if complete then ready else partially_ready in
      ((s ≡ not_ready) ↔ ((none_given || doubt) ≡ true))
      × ((s ≡ ready) ↔ ((none_given ≡ false) × (complete ≡ true)))
state_cases true doubt complete h = (ground arith, ground arith)
state_cases false true true h = absurd (cc (h refl))
state_cases false true false h = (ground arith, ground arith)
state_cases false false true h = (ground arith, ground arith)
state_cases false false false h = (ground arith, ground arith)

any_of_empty : (gaps : List Gap) → is_empty gaps ≡ true → any is_applicability_gap gaps ≡ false
any_of_empty gaps h = ground arith

nil_of_empty : (gaps : List Gap) → is_empty gaps ≡ true → gaps ≡ []
nil_of_empty [] h = refl
nil_of_empty (g ∷ gs) h = absurd (cc h)

zero_iff : (gaps : List Gap) → (is_empty gaps ≡ true) ↔ (length gaps ≡ 0)
zero_iff [] = (λ h. refl, λ h. refl)
zero_iff (g ∷ gs) = (λ h. absurd (cc h), λ h. absurd (omega (arith, h)))

-- What a report says of the cases.
abbrev pub IsReport : {C : Type 0} → List (Case C) → ReadinessReport C → Type 0
IsReport cs r =
    (r.known_information + r.missing_information ≡ r.required_information)
    × (r.missing_information ≡ length r.gaps)
    × ((r.readiness_state ≡ not_ready)
        ↔ ((is_empty cs || any (λ c. is_unclear c.applicability) cs) ≡ true))
    × ((r.readiness_state ≡ ready) ↔ ((is_empty cs ≡ false) × (r.missing_information ≡ 0)))
    × (r.readiness_state ≡ ready → All IsDecided cs)

module _ {C : Type 0} (t : Uuid) (cs : List (Case C)) where
  pub report_of-IsReport : IsReport cs (report_of t (sort by_requirement cs))
  unfolding report_of readiness_state
  report_of-IsReport =
      let ordered = sort by_requirement cs in
      let risks = map review_of (applicable_cases ordered) in
      let start : Tally = record { gaps = []; required = 0; known = 0 } in
      let all = tally risks ordered start in
      let owed = tally-Owes risks ordered start refl in
      let size = length-sort gap_leb all.gaps in
      let doubts : any is_applicability_gap all.gaps ≡ any (λ c. is_unclear c.applicability) cs =
        tally-any risks ordered start
        ∙ any-perm (λ c. is_unclear c.applicability) (sort-perm by_requirement cs) in
      let empty = is_empty-length ordered cs (length-sort by_requirement cs) in
      let (stuck, done) =
        state_cases (is_empty ordered) (any is_applicability_gap all.gaps) (is_empty all.gaps)
          (any_of_empty all.gaps) in
      let zero = zero_iff all.gaps in
      (
        omega (arith, owed, size),
        refl,
        (
          λ h. ground (arith, stuck.0 h, empty, doubts),
          λ h. stuck.1 (ground (arith, h, empty, doubts)),
        ),
        (
          λ h. (sym empty ∙ (done.0 h).0, size ∙ zero.0 (done.0 h).1),
          λ k. done.1 (empty ∙ k.0, zero.1 (sym size ∙ k.1)),
        ),
        λ h.
            All-perm IsDecided (sort-perm by_requirement cs)
              (tally-nil risks ordered start (nil_of_empty all.gaps (done.0 h).1)).0,
      )

-- If a report on the readiness of cases returns, every case has passed its checks, and: what is
-- known and what is missing make up what is required, and every gap is listed; the state is "not
-- ready" exactly if there is no case or one of which it is unknown whether it applies; it is
-- "ready" exactly if there is a case and nothing is missing; and then of every case it is known
-- whether it applies, and of one that applies its outcome.
pub assess_readiness-IsReport :
    {C : Type 0} (cases : List (Any (RawCase C))) (t : Uuid) (r : ReadinessReport C)
    → assess_readiness (typed cases) (typed t) ≡ ok r
    → (cs : List (Case C)) × (traverse (validate_case t) cases ≡ ok cs) × IsReport cs r
unfolding assess_readiness
assess_readiness-IsReport cases t r e =
    let (cs, valid, made) =
      >>=-eq-ok (traverse (validate_case t) cases)
        (λ validated. ok (report_of t (sort by_requirement validated))) e in
    (cs, valid, subst (IsReport cs) (ok-injective made) (report_of-IsReport t cs))
