-- ===== src/Decision/Readiness.antt =====
-- ComplianceCaseReadinessService (xportra/domain/ingestion.py): what is known of the cases, and
-- what is not.
use xportra_ai.Base.{
  ℕ, suc, ◌+◌, Bool, true, false, not, ◌&&◌, ◌||◌, Option, none, some, List, [], ◌∷◌, ◌++◌, map,
  Any, Result, ok, ◌>>=◌, expect, traverse, ◌==◌, if◌then◌else◌, is_empty, length, any, filter,
}
use xportra_ai.Base.Text.{Text, codes}
use xportra_ai.Base.Sorting.{sort}
use xportra_ai.Errors.{Uuid, Error}
use xportra_ai.Decision.Cases.{Applicability, Outcome, RawCase, Case, validate_case, is_applicable}
use xportra_ai.Base.Int.{pos}
use xportra_ai.Base.Keys.{lex_leb}
use xportra_ai.Errors.{summary, tenant_required, cases_required}
use xportra_ai.Decision.Cases.{is_unclear, is_unknown, is_missing_evidence}
use xportra_ai.Decision.Services.{
  address_requirement, no_action_required, by_requirement, applicable_cases, Risk, high, low,
  medium, unrated, Review, review_of, Action, provide_missing_evidence, review_requirement,
  Recommendation, recommendations,
}

-- The kinds of gap, in the order of their names.
pub data GapKind : Type 0 where
  applicability_unknown assessment_unknown missing_evidence risk_unknown : GapKind

pub record Gap : Type 0 where
  pub requirement_id : Uuid
  pub kind : GapKind
  pub reason : Option Text

pub data ReadinessState : Type 0 where
  ready partially_ready not_ready : ReadinessState

-- The variables of the loop.
pub record Tally : Type 0 where
  pub gaps : List Gap
  pub required : ℕ
  pub known : ℕ

-- `risk_by_requirement.get(...)`: of two results with one key, the later one is kept.
abbrev pub risk_for : {C : Type 0} → Uuid → List (Review C) → Option Risk
risk_for q [] = none
risk_for q (r ∷ rs) = elim (risk_for q rs) [
  | none ↦ if r.requirement_id == q then some r.state else none
  | some later ↦ some later
]

-- `risk is not None and risk["state"] in {"high", "medium", "low"}`
abbrev pub is_rated : Option Risk → Bool
is_rated none = false
is_rated (some high) = true
is_rated (some medium) = true
is_rated (some low) = true
is_rated (some unrated) = false

-- The explanation that an unrated risk has.
abbrev pub risk_reason : Option Risk → Text
risk_reason none = codes "no risk classification produced"
risk_reason (some r) = codes "unknown without sufficient evidence"

-- One piece of information: it is known, or it is a gap.
unfoldable pub ask : Bool → Gap → Tally → Tally
ask true g t = record t { known = suc t.known }
ask false g t = record t { gaps = t.gaps ++ (g ∷ []) }

abbrev pub require : ℕ → Tally → Tally
require n t = record t { required = t.required + n }

abbrev pub applicability_gap : {C : Type 0} → Case C → Gap
applicability_gap c = record {
  requirement_id = c.requirement_id;
  kind = applicability_unknown;
  reason = c.applicability_reason;
}

abbrev pub assessment_gap : {C : Type 0} → Case C → Gap
assessment_gap c = record {
  requirement_id = c.requirement_id;
  kind = assessment_unknown;
  reason = c.reason;
}

abbrev pub evidence_gap : {C : Type 0} → Case C → Gap
evidence_gap c = record {
  requirement_id = c.requirement_id;
  kind = missing_evidence;
  reason = c.reason;
}

abbrev pub risk_gap : {C : Type 0} → List (Review C) → Case C → Gap
risk_gap risks c = record {
  requirement_id = c.requirement_id;
  kind = risk_unknown;
  reason = some (risk_reason (risk_for c.requirement_id risks));
}

abbrev pub lacks_evidence : {C : Type 0} → Case C → Bool
lacks_evidence c = is_unknown c.outcome && is_missing_evidence c

-- What is asked of an applicable case: its assessment, its evidence and its risk.
unfoldable pub ask_applicable : {C : Type 0} → List (Review C) → Case C → Tally → Tally
unfolding ask
ask_applicable risks c t =
    let assessed = ask (not (is_unknown c.outcome)) (assessment_gap c) (require 3 t) in
    let evident = ask (not (lacks_evidence c)) (evidence_gap c) assessed in
    ask (is_rated (risk_for c.requirement_id risks)) (risk_gap risks c) evident

-- The body of the loop.
unfoldable pub add_case : {C : Type 0} → List (Review C) → Case C → Tally → Tally
unfolding ask ask_applicable
add_case risks c t =
    let applicability =
      ask (not (is_unclear c.applicability)) (applicability_gap c) (require 1 t) in
    if is_applicable c.applicability then ask_applicable risks c applicability else applicability

unfoldable pub tally : {C : Type 0} → List (Review C) → List (Case C) → Tally → Tally
unfolding add_case
tally risks [] t = t
tally risks (c ∷ cs) t = tally risks cs (add_case risks c t)

abbrev pub is_applicability_gap : Gap → Bool
is_applicability_gap g = elim g.kind [
  | applicability_unknown ↦ true
  | assessment_unknown ↦ false
  | missing_evidence ↦ false
  | risk_unknown ↦ false
]

unfoldable pub readiness_state : {C : Type 0} → List (Case C) → List Gap → ReadinessState
readiness_state cs gaps =
    if is_empty cs || any is_applicability_gap gaps
    then not_ready
    else if is_empty gaps
    then ready
    else partially_ready

abbrev pub kind_place : GapKind → ℕ
kind_place applicability_unknown = 0
kind_place assessment_unknown = 1
kind_place missing_evidence = 2
kind_place risk_unknown = 3

-- `key=lambda gap: (str(gap["requirement_id"]), gap["kind"])`
abbrev pub gap_leb : Gap → Gap → Bool
gap_leb a b =
    lex_leb (pos a.requirement_id ∷ pos (kind_place a.kind) ∷ [])
      (pos b.requirement_id ∷ pos (kind_place b.kind) ∷ [])

abbrev pub kind_eq : GapKind → GapKind → Bool
kind_eq a b = kind_place a == kind_place b

-- `_ids`
abbrev pub ids_of : GapKind → List Gap → List Uuid
ids_of k gaps = map (λ g. g.requirement_id) (filter (λ g. kind_eq g.kind k) gaps)

-- An action that asks for information.
abbrev pub asks : {C : Type 0} → Recommendation C → Bool
asks r = elim r.action_type [
  | address_requirement ↦ false
  | no_action_required ↦ false
  | review_requirement ↦ true
  | provide_missing_evidence ↦ true
]

-- `actions_by_requirement.get(...)`
abbrev pub action_for : {C : Type 0} → Uuid → List (Recommendation C) → Option Action
action_for q [] = none
action_for q (r ∷ rs) = elim (action_for q rs) [
  | none ↦ if r.requirement_id == q then some r.action_type else none
  | some later ↦ some later
]

-- The view of one requirement.
pub record RequirementView : Type 0 where
  pub requirement_id : Uuid
  pub requirement_text : Option Text
  pub applicability_outcome : Applicability
  pub assessment_outcome : Outcome
  pub evidence_present : Bool
  pub risk_state : Option Risk
  pub action_type : Option Action

abbrev pub requirement_view :
    {C : Type 0} → List (Review C) → List (Recommendation C) → Case C → RequirementView
requirement_view risks actions c = record {
  requirement_id = c.requirement_id;
  requirement_text = c.requirement_text;
  applicability_outcome = c.applicability;
  assessment_outcome = c.outcome;
  evidence_present = not (is_empty c.evidence);
  risk_state = risk_for c.requirement_id risks;
  action_type = action_for c.requirement_id actions;
}

-- The report, without its fixed texts and the fingerprint of the context, which it carries on.
pub record ReadinessReport (C : Type 0) : Type 0 where
  pub tenant_id : Uuid
  pub readiness_state : ReadinessState
  pub required_information : ℕ
  pub known_information : ℕ
  pub missing_information : ℕ
  pub gaps : List Gap
  pub unknown_applicability_requirements : List Uuid
  pub unknown_assessment_requirements : List Uuid
  pub missing_evidence_requirements : List Uuid
  pub unknown_risk_requirements : List Uuid
  pub actions_requiring_evidence : List (Recommendation C)
  pub requirements : List RequirementView

-- What is reported of checked cases in the order of their requirements. The risk and the action
-- service check the same cases again, which have passed, and the actions are in that order.
unfoldable pub report_of : {C : Type 0} → Uuid → List (Case C) → ReadinessReport C
unfolding tally readiness_state
report_of t ordered =
    let all =
      tally (map review_of (applicable_cases ordered)) ordered
        (record { gaps = []; required = 0; known = 0 }) in
    let gaps = sort gap_leb all.gaps in
    record {
      tenant_id = t;
      readiness_state = readiness_state ordered all.gaps;
      required_information = all.required;
      known_information = all.known;
      missing_information = length gaps;
      gaps = gaps;
      unknown_applicability_requirements = ids_of applicability_unknown gaps;
      unknown_assessment_requirements = ids_of assessment_unknown gaps;
      missing_evidence_requirements = ids_of missing_evidence gaps;
      unknown_risk_requirements = ids_of risk_unknown gaps;
      actions_requiring_evidence = filter asks (recommendations ordered);
      requirements =
          map
            (requirement_view (map review_of (applicable_cases ordered)) (recommendations ordered))
            ordered;
    }

-- `assess`
unfoldable pub assess_readiness :
    {C : Type 0} → Any (List (Any (RawCase C))) → Any Uuid → Result Error (ReadinessReport C)
unfolding report_of
assess_readiness cases tenant_id = do
  given ← expect cases (summary cases_required)
  t ← expect tenant_id (summary tenant_required)
  validated ← traverse (validate_case t) given
  ok (report_of t (sort by_requirement validated))
