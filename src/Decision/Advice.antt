-- ===== src/Decision/Advice.antt =====
-- The actions recommended and the risk agree.
use xportra_ai.Base.{
  ◌≡◌, refl, sym, ap, ◌∙◌, subst, inl, inr, ◌⊎◌, ◌≢◌, Bool, true, false, not, none, some, List, [],
  ◌∷◌, Any, typed, ok, traverse, >>=-eq-ok, ok-injective,
}
use xportra_ai.Base.Sorting.{sort}
use xportra_ai.Errors.{Uuid}
use xportra_ai.Decision.Cases.{
  Applicability, applicable, not_applicable, unclear, Outcome, satisfied, not_satisfied, unknown,
  RawCase, Case, validate_case, is_applicable, is_missing_evidence,
}
use xportra_ai.Decision.Services.{
  Risk, high, low, medium, unrated, risk_of, Action, address_requirement, no_action_required,
  review_requirement, provide_missing_evidence, action_of, Recommendation, recommendation_of,
  recommendations, recommend, risk_state, by_requirement, is_not_applicable,
}

-- The action that a risk calls for.
abbrev pub action_for : Risk → Action
action_for high = address_requirement
action_for low = no_action_required
action_for medium = provide_missing_evidence
action_for unrated = review_requirement

applicable_agrees : (o : Outcome) (m : Bool) → action_of applicable o m ≡ action_for (risk_of o m)
unfolding action_of risk_of
applicable_agrees satisfied m = refl
applicable_agrees not_satisfied m = refl
applicable_agrees unknown true = refl
applicable_agrees unknown false = refl

unclear_agrees : (o : Outcome) (m : Bool) → action_of unclear o m ≢ provide_missing_evidence
unfolding action_of
unclear_agrees satisfied m h = cc
unclear_agrees not_satisfied m h = cc
unclear_agrees unknown m h = cc

unclear_action :
    (o : Outcome) (m : Bool) → (o ≢ unknown) ⊎ (action_of unclear o m ≡ review_requirement)
unfolding action_of
unclear_action satisfied m = inl (λ h. cc)
unclear_action not_satisfied m = inl (λ h. cc)
unclear_action unknown m = inr refl

module _ {Carried : Type 0} where
  -- The risk that the outcome of an applicable case has.
  abbrev pub Rates : Case Carried → Risk → Type 0
  Rates c high = c.outcome ≡ not_satisfied
  Rates c low = c.outcome ≡ satisfied
  Rates c medium = (c.outcome ≡ unknown) × (is_missing_evidence c ≡ true)
  Rates c unrated = (c.outcome ≡ unknown) × (is_missing_evidence c ≡ false)

  -- A recommendation on an applicable case has the risk of its outcome, and the action of the risk.
  -- One on a case of which it is unclear whether it applies has no risk and does not ask for
  -- evidence; it asks for a review if the outcome is unknown.
  abbrev pub Agrees : Case Carried → Recommendation Carried → Type 0
  Agrees c r =
      (r.requirement_id ≡ c.requirement_id)
      × (r.tenant_id ≡ c.tenant_id)
      × (((c.applicability ≡ applicable)
            × ((k : Risk) × Rates c k × (r.risk_state ≡ some k) × (r.action_type ≡ action_for k)))
          ⊎ ((c.applicability ≡ unclear)
              × (r.risk_state ≡ none)
              × (r.action_type ≢ provide_missing_evidence)
              × (c.outcome ≢ unknown ⊎ (r.action_type ≡ review_requirement))))

  -- Each case that is not excluded has a recommendation, in order.
  pub data Advises : List (Case Carried) → List (Recommendation Carried) → Type 0 where
    no_more : Advises [] []
    excluded :
        {c : Case Carried} {cs : List (Case Carried)} {rs : List (Recommendation Carried)}
        → c.applicability ≡ not_applicable
        → Advises cs rs
        → Advises (c ∷ cs) rs
    advised :
        {c : Case Carried} {r : Recommendation Carried} {cs : List (Case Carried)}
        {rs : List (Recommendation Carried)}
        → Agrees c r
        → Advises cs rs
        → Advises (c ∷ cs) (r ∷ rs)

  risk_state_applicable :
      (c : Case Carried)
      → c.applicability ≡ applicable
      → risk_state c ≡ some (risk_of c.outcome (is_missing_evidence c))
  unfolding risk_state
  risk_state_applicable c e =
      let b : is_applicable c.applicability ≡ true = ap is_applicable e in rw b refl

  risk_state_unclear : (c : Case Carried) → c.applicability ≡ unclear → risk_state c ≡ none
  unfolding risk_state
  risk_state_unclear c e =
      let b : is_applicable c.applicability ≡ false = ap is_applicable e in rw b refl

  rates :
      (o : Outcome) (m : Bool) (c : Case Carried)
      → c.outcome ≡ o
      → is_missing_evidence c ≡ m
      → Rates c (risk_of o m)
  unfolding risk_of
  rates satisfied m c e h = e
  rates not_satisfied m c e h = e
  rates unknown true c e h = (e, h)
  rates unknown false c e h = (e, h)

  Agrees-applicable :
      (c : Case Carried) → c.applicability ≡ applicable → Agrees c (recommendation_of c)
  Agrees-applicable c e =
      let m = is_missing_evidence c in
      (
        refl,
        refl,
        inl (
          e,
          (
            risk_of c.outcome m,
            rates c.outcome m c refl refl,
            risk_state_applicable c e,
            ap (λ a. action_of a c.outcome m) e ∙ applicable_agrees c.outcome m,
          ),
        ),
      )

  Agrees-unclear : (c : Case Carried) → c.applicability ≡ unclear → Agrees c (recommendation_of c)
  Agrees-unclear c e =
      let m = is_missing_evidence c in
      let same = ap (λ a. action_of a c.outcome m) e in
      (
        refl,
        refl,
        inr (
          e,
          risk_state_unclear c e,
          λ k. unclear_agrees c.outcome m (sym same ∙ k),
          elim (unclear_action c.outcome m) [ inl h ↦ inl h | inr h ↦ inr (same ∙ h) ],
        ),
      )

  advises :
      (a : Applicability) (c : Case Carried) (cs : List (Case Carried))
      → c.applicability ≡ a
      → Advises cs (recommendations cs)
      → Advises (c ∷ cs) (recommendations (c ∷ cs))
  advises applicable c cs e d =
      let b : not (is_not_applicable c.applicability) ≡ true =
        ap (λ a. not (is_not_applicable a)) e in
      rw b (advised (Agrees-applicable c e) d)
  advises unclear c cs e d =
      let b : not (is_not_applicable c.applicability) ≡ true =
        ap (λ a. not (is_not_applicable a)) e in
      rw b (advised (Agrees-unclear c e) d)
  advises not_applicable c cs e d =
      let b : not (is_not_applicable c.applicability) ≡ false =
        ap (λ a. not (is_not_applicable a)) e in
      rw b (excluded e d)

  all_advised : (cs : List (Case Carried)) → Advises cs (recommendations cs)
  all_advised [] = no_more
  all_advised (c ∷ cs) = advises c.applicability c cs refl (all_advised cs)

  -- If recommendations return, every case has passed its checks, and of the cases, sorted by
  -- requirement, each that is not excluded has one recommendation, in order. That of an applicable
  -- case has the risk of its outcome, and the action of that risk; that of a case of which it is
  -- unclear whether it applies has no risk, does not ask for evidence, and asks for a review if the
  -- outcome is unknown.
  pub recommend-Agrees :
      (cases : List (Any (RawCase Carried))) (t : Uuid) (out : List (Recommendation Carried))
      → recommend cases (typed t) ≡ ok out
      → (cs : List (Case Carried)) × (traverse (validate_case t) cases ≡ ok cs)
        × Advises (sort by_requirement cs) out
  unfolding recommend
  recommend-Agrees cases t out e =
      let (cs, checked, made) =
        >>=-eq-ok (traverse (validate_case t) cases)
          (λ cs. ok (recommendations (sort by_requirement cs))) e in
      (
        cs,
        checked,
        subst (Advises (sort by_requirement cs)) (ok-injective made)
            (all_advised (sort by_requirement cs)),
      )
