-- ===== src/Decision/Services.antt =====
-- ComplianceSummaryService, ComplianceRiskService and ComplianceActionRecommendationService.
use xportra_ai.Base.{
  ℕ, Bool, true, false, not, Option, none, some, List, [], ◌∷◌, ◌++◌, map, Any, Result, ok, ◌>>=◌,
  expect, traverse, filter, length, leb, if◌then◌else◌,
}
use xportra_ai.Base.Text.{Text}
use xportra_ai.Base.Sorting.{sort}
use xportra_ai.Errors.{Uuid, Error, summary, tenant_required}
use xportra_ai.Decision.Cases.{
  Applicability, applicable, not_applicable, unclear, Outcome, satisfied, not_satisfied, unknown,
  RawCase, Case, validate_case, is_applicable, is_unclear, is_satisfied, is_not_satisfied,
  is_unknown, is_missing_evidence,
}

-- The state that a view shows: an outcome, or unknown.
pub record View (Carried : Type 0) : Type 0 where
  pub requirement_id : Uuid
  pub requirement_text : Option Text
  pub state : Outcome
  pub reason : Option Text
  pub carried : Carried

-- `_affected_view`
unfoldable pub affected_view : {Carried : Type 0} → Case Carried → View Carried
affected_view c = record {
  requirement_id = c.requirement_id;
  requirement_text = c.requirement_text;
  state = if is_unclear c.applicability then unknown else c.outcome;
  reason = if is_unclear c.applicability then c.applicability_reason else c.reason;
  carried = c.carried;
}

pub record Summary (Carried : Type 0) : Type 0 where
  pub tenant_id : Uuid
  pub total_cases : ℕ
  pub total_applicable_requirements : ℕ
  pub satisfied_requirements : ℕ
  pub not_satisfied_requirements : ℕ
  pub unknown_requirements : ℕ
  pub requirements_missing_evidence : ℕ
  pub requirements_requiring_review : ℕ
  pub affected_requirements : List (View Carried)
  pub missing_evidence_requirements : List (View Carried)

abbrev pub by_requirement : {Carried : Type 0} → Case Carried → Case Carried → Bool
by_requirement a b = leb a.requirement_id b.requirement_id

-- The lists that `summarize` takes from the sorted cases.
abbrev pub applicable_cases : {Carried : Type 0} → List (Case Carried) → List (Case Carried)
applicable_cases cs = filter (λ c. is_applicable c.applicability) cs

abbrev pub unclear_cases : {Carried : Type 0} → List (Case Carried) → List (Case Carried)
unclear_cases cs = filter (λ c. is_unclear c.applicability) cs

abbrev pub with_outcome :
    {Carried : Type 0} → (Outcome → Bool) → List (Case Carried) → List (Case Carried)
with_outcome test cs = filter (λ c. test c.outcome) (applicable_cases cs)

unfoldable pub summary_of : {Carried : Type 0} → Uuid → List (Case Carried) → Summary Carried
summary_of t ordered =
    let review = unclear_cases ordered ++ with_outcome is_unknown ordered in
    let failed = with_outcome is_not_satisfied ordered in
    let missing = filter is_missing_evidence (with_outcome is_unknown ordered) in
    record {
      tenant_id = t;
      total_cases = length ordered;
      total_applicable_requirements = length (applicable_cases ordered);
      satisfied_requirements = length (with_outcome is_satisfied ordered);
      not_satisfied_requirements = length failed;
      unknown_requirements = length review;
      requirements_missing_evidence = length missing;
      requirements_requiring_review = length review;
      affected_requirements = map affected_view (sort by_requirement (failed ++ review));
      missing_evidence_requirements = map affected_view missing;
    }

-- `ComplianceSummaryService.summarize`
unfoldable pub summarize :
    {Carried : Type 0} → List (Any (RawCase Carried)) → Any Uuid → Result Error (Summary Carried)
unfolding summary_of
summarize cases tenant_id = do
  t ← expect tenant_id (summary tenant_required)
  validated ← traverse (validate_case t) cases
  ok (summary_of t (sort by_requirement validated))

pub data Risk : Type 0 where
  high low medium unrated : Risk

-- The state and, with it, the explanation of an applicable case.
unfoldable pub risk_of : Outcome → Bool → Risk
risk_of not_satisfied missing = high
risk_of satisfied missing = low
risk_of unknown missing = if missing then medium else unrated

pub record Review (Carried : Type 0) : Type 0 where
  pub requirement_id : Uuid
  pub requirement_text : Option Text
  pub state : Risk
  pub carried : Carried

abbrev pub review_of : {Carried : Type 0} → Case Carried → Review Carried
review_of c = record {
  requirement_id = c.requirement_id;
  requirement_text = c.requirement_text;
  state = risk_of c.outcome (is_missing_evidence c);
  carried = c.carried;
}

-- `ComplianceRiskService.classify`; the last branch of `_classify_applicable` is never taken, as
-- the outcome has been checked.
unfoldable pub classify :
    {Carried : Type 0}
    → List (Any (RawCase Carried))
    → Any Uuid
    → Result Error (List (Review Carried))
classify cases tenant_id = do
  t ← expect tenant_id (summary tenant_required)
  validated ← traverse (validate_case t) cases
  ok (map review_of (applicable_cases validated))

pub data Action : Type 0 where
  address_requirement no_action_required review_requirement provide_missing_evidence : Action

-- The chain of tests on a case that is not `not_applicable`.
unfoldable pub action_of : Applicability → Outcome → Bool → Action
action_of a not_satisfied missing = address_requirement
action_of a satisfied missing = no_action_required
action_of a unknown missing =
    if is_unclear a
    then review_requirement
    else if missing
    then provide_missing_evidence
    else review_requirement

pub record Recommendation (Carried : Type 0) : Type 0 where
  pub tenant_id : Uuid
  pub requirement_id : Uuid
  pub requirement_text : Option Text
  pub action_type : Action
  pub risk_state : Option Risk
  pub carried : Carried

-- `_risk_state`: the first of what `classify` makes of the one case, which has passed its checks.
abbrev pub first_state : {Carried : Type 0} → List (Review Carried) → Option Risk
first_state [] = none
first_state (r ∷ rs) = some r.state

unfoldable pub risk_state : {Carried : Type 0} → Case Carried → Option Risk
risk_state c = first_state (map review_of (applicable_cases (c ∷ [])))

abbrev pub recommendation_of : {Carried : Type 0} → Case Carried → Recommendation Carried
recommendation_of c = record {
  tenant_id = c.tenant_id;
  requirement_id = c.requirement_id;
  requirement_text = c.requirement_text;
  action_type = action_of c.applicability c.outcome (is_missing_evidence c);
  risk_state = risk_state c;
  carried = c.carried;
}

abbrev pub is_not_applicable : Applicability → Bool
is_not_applicable not_applicable = true
is_not_applicable applicable = false
is_not_applicable unclear = false

abbrev pub recommendations :
    {Carried : Type 0} → List (Case Carried) → List (Recommendation Carried)
recommendations cs =
    map recommendation_of (filter (λ c. not (is_not_applicable c.applicability)) cs)

-- `ComplianceActionRecommendationService.recommend`, with the risk service that it makes itself.
unfoldable pub recommend :
    {Carried : Type 0}
    → List (Any (RawCase Carried))
    → Any Uuid
    → Result Error (List (Recommendation Carried))
recommend cases tenant_id = do
  t ← expect tenant_id (summary tenant_required)
  validated ← traverse (validate_case t) cases
  ok (recommendations (sort by_requirement validated))
