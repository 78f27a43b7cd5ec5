-- ===== src/Decision/Cases.antt =====
-- A compliance case as the services of xportra/domain/ingestion.py read it, and its checks.
use xportra_ai.Base.{
  Bool, true, false, ◌||◌, Option, none, some, List, Any, typed, untyped, Result, ok, err, ◌>>=◌,
  ◌>>◌, raise_unless, expect, ◌==◌, is_empty, list_eq,
}
use xportra_ai.Base.Text.{Text, codes}
use xportra_ai.Errors.{
  Uuid, Error, summary, other_tenant, requirement_required, invalid_applicability,
  invalid_assessment,
}

pub data Applicability : Type 0 where
  applicable not_applicable unclear : Applicability

pub data Outcome : Type 0 where
  satisfied not_satisfied unknown : Outcome

-- A requirement's identity is `none` if it is missing or false to Python.
pub record Requirement : Type 0 where
  pub id : Option Uuid
  pub text : Option Text

-- `untyped` stands for any outcome that is not one of the three.
pub record ApplicabilityView : Type 0 where
  pub outcome : Any Applicability
  pub reason : Option Text

pub record AssessmentView : Type 0 where
  pub outcome : Any Outcome
  pub reason : Option Text

-- The dictionary of a case. Evidence is given by identity, and the parts that the services only
-- carry (source, document, provenance, context) are one value of any type.
pub record RawCase (Carried : Type 0) : Type 0 where
  pub tenant_id : Any Uuid
  pub requirement : Any Requirement
  pub applicability : Any ApplicabilityView
  pub assessment : Any AssessmentView
  pub evidence : List Uuid
  pub carried : Carried

-- The same dictionary once it has passed the checks.
pub record Case (Carried : Type 0) : Type 0 where
  pub tenant_id : Uuid
  pub requirement_id : Uuid
  pub requirement_text : Option Text
  pub applicability : Applicability
  pub applicability_reason : Option Text
  pub outcome : Outcome
  pub reason : Option Text
  pub evidence : List Uuid
  pub carried : Carried

-- `case.get("tenant_id") != tenant_id`
abbrev pub is_own : Any Uuid → Uuid → Bool
is_own untyped t = false
is_own (typed u) t = u == t

abbrev pub identity : Option Uuid → Result Error Uuid
identity none = err (summary requirement_required)
identity (some u) = ok u

-- `_validate_case`, of the summary and of the risk service alike.
unfoldable pub validate_case :
    {Carried : Type 0} → Uuid → Any (RawCase Carried) → Result Error (Case Carried)
validate_case t raw = do
  c ← expect raw (summary other_tenant)
  raise_unless (is_own c.tenant_id t) (summary other_tenant)
  r ← expect c.requirement (summary requirement_required)
  id ← identity r.id
  a ← expect c.applicability (summary invalid_applicability)
  applies ← expect a.outcome (summary invalid_applicability)
  s ← expect c.assessment (summary invalid_assessment)
  outcome ← expect s.outcome (summary invalid_assessment)
  ok (record {
    tenant_id = t;
    requirement_id = id;
    requirement_text = r.text;
    applicability = applies;
    applicability_reason = a.reason;
    outcome = outcome;
    reason = s.reason;
    evidence = c.evidence;
    carried = c.carried;
  })

abbrev pub is_applicable : Applicability → Bool
is_applicable applicable = true
is_applicable not_applicable = false
is_applicable unclear = false

abbrev pub is_unclear : Applicability → Bool
is_unclear unclear = true
is_unclear applicable = false
is_unclear not_applicable = false

abbrev pub is_satisfied : Outcome → Bool
is_satisfied satisfied = true
is_satisfied not_satisfied = false
is_satisfied unknown = false

abbrev pub is_not_satisfied : Outcome → Bool
is_not_satisfied not_satisfied = true
is_not_satisfied satisfied = false
is_not_satisfied unknown = false

abbrev pub is_unknown : Outcome → Bool
is_unknown unknown = true
is_unknown satisfied = false
is_unknown not_satisfied = false

-- `reason == "required evidence absent"`
abbrev pub says_absent : Option Text → Bool
says_absent none = false
says_absent (some t) = list_eq t (codes "required evidence absent")

-- `_is_missing_evidence`
unfoldable pub is_missing_evidence : {Carried : Type 0} → Case Carried → Bool
is_missing_evidence c = says_absent c.reason || is_empty c.evidence
