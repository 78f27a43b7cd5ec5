-- ===== src/Decision/Building.antt =====
-- ComplianceCaseService (xportra/domain/ingestion.py): a case put together from its parts.
use xportra_ai.Base.{
  ◌&&◌, Option, none, some, List, [], ◌∷◌, map, Any, typed, Result, ok, ◌>>=◌, ◌>>◌, raise_if,
  raise_unless, expect, ◌==◌, opt_eq, if◌then◌else◌,
}
use xportra_ai.Base.Text.{Text, codes, is_blank}
use xportra_ai.Errors.{
  Uuid, Error, assessment, malformed_evidence, malformed_applicability, requirement_differs,
  assessment_differs, text_required, malformed_assessment, evidence_other_tenant, invalid_outcome,
}
use xportra_ai.Decision.Cases.{Applicability, applicable, Outcome, unknown, RawCase}
use xportra_ai.Decision.Records.{
  Status, EvidenceRecord, RawApplicability, Applied, required, is_linked,
}
use xportra_ai.Decision.Assessment.{Assessment}

-- The dictionary of a requirement. What is only copied into the case, with the source and the
-- document, is carried.
pub record RawRequirement (Carried : Type 0) : Type 0 where
  pub id : Option Uuid
  pub requirement_text : Any Text
  pub carried : Carried

-- The dictionary of an assessment, `none` for a field that is missing.
pub record RawAssessment : Type 0 where
  pub id : Option Uuid
  pub tenant_id : Option Uuid
  pub requirement_id : Option Uuid
  pub applicability_result_id : Option Uuid
  pub outcome : Any Outcome
  pub reason : Option Text
  pub evidence_id : Option Uuid
  pub evidence_ids : List Uuid

-- `_evidence_view`
pub record EvidenceView (Metadata : Type 0) : Type 0 where
  pub evidence_id : Uuid
  pub evidence_type : Text
  pub reference : Text
  pub status : Status
  pub metadata : Metadata

abbrev pub evidence_view : {Metadata : Type 0} → EvidenceRecord Metadata → EvidenceView Metadata
evidence_view e = record {
  evidence_id = e.evidence_id;
  evidence_type = e.evidence_type;
  reference = e.reference;
  status = e.status;
  metadata = e.metadata;
}

-- `_assessment_view`, and the view where there is nothing to assess.
pub record FullAssessmentView : Type 0 where
  pub id : Option Uuid
  pub outcome : Outcome
  pub reason : Option Text
  pub evidence_id : Option Uuid
  pub evidence_ids : List Uuid

-- The dictionary of a case.
pub record BuiltCase (Carried Metadata : Type 0) : Type 0 where
  pub id : Uuid
  pub tenant_id : Uuid
  pub requirement_id : Uuid
  pub requirement_text : Text
  pub applicability_id : Uuid
  pub applicability : Applicability
  pub applicability_reason : Option Text
  pub assessment : FullAssessmentView
  pub evidence : List (EvidenceView Metadata)
  pub carried : Carried

-- `_validate_applicability` of this service, for identities that are UUIDs.
unfoldable pub case_applicability : Any (RawApplicability Uuid) → Result Error Applied
case_applicability given = do
  r ← expect given (assessment malformed_applicability)
  id ← required r.id malformed_applicability
  t ← required r.tenant_id malformed_applicability
  q ← required r.requirement_id malformed_applicability
  o ← required r.outcome malformed_applicability
  outcome ← expect o (assessment invalid_outcome)
  ok (record { id = id; tenant_id = t; requirement_id = q; outcome = outcome; reason = r.reason })

-- `_validate_assessment`, with the outcome that the caller then reads.
unfoldable pub validate_assessment :
    Option RawAssessment → Uuid → Uuid → Uuid → Result Error (Option (RawAssessment × Outcome))
validate_assessment none t q a = ok none
validate_assessment (some s) t q a = do
  raise_unless
      (opt_eq s.tenant_id (some t)
        && (opt_eq s.requirement_id (some q) && opt_eq s.applicability_result_id (some a)))
      (assessment assessment_differs)
  outcome ← expect s.outcome (assessment malformed_assessment)
  ok (some (s, outcome))

-- The loop over the evidence: all of it is the tenant's, and the linked records are shown.
unfoldable pub linked_views :
    {Metadata : Type 0}
    → Uuid
    → Uuid
    → List (Any (EvidenceRecord Metadata))
    → Result Error (List (EvidenceView Metadata))
linked_views t q [] = ok []
linked_views t q (x ∷ xs) = do
  e ← expect x (assessment malformed_evidence)
  raise_unless (e.tenant_id == t) (assessment evidence_other_tenant)
  rest ← linked_views t q xs
  ok (if is_linked q e then evidence_view e ∷ rest else rest)

abbrev pub assessed_id : Option (RawAssessment × Outcome) → Option Uuid
assessed_id none = none
assessed_id (some s) = s.0.id

abbrev pub not_assessed : Option Uuid → FullAssessmentView
not_assessed id = record {
  id = id;
  outcome = unknown;
  reason = some (codes "requirement cannot yet be assessed");
  evidence_id = none;
  evidence_ids = [];
}

unfoldable pub assessment_view :
    Applicability → Option (RawAssessment × Outcome) → FullAssessmentView
assessment_view applicable (some s) = record {
  id = s.0.id;
  outcome = s.1;
  reason = s.0.reason;
  evidence_id = s.0.evidence_id;
  evidence_ids = s.0.evidence_ids;
}
assessment_view _ s = not_assessed (assessed_id s)

-- `requirement_id != applicability_result["requirement_id"]`, and the text.
unfoldable pub checked_requirement :
    {Carried : Type 0}
    → Any (RawRequirement Carried)
    → Uuid
    → Result Error (RawRequirement Carried × Text)
checked_requirement given q = do
  r ← expect given (assessment requirement_differs)
  raise_unless (opt_eq r.id (some q)) (assessment requirement_differs)
  text ← expect r.requirement_text (assessment text_required)
  raise_if (is_blank text) (assessment text_required)
  ok (r, text)

-- uuid5 of the text of the tenant, the applicability result, the assessment and the evidence.
module _ (uuid5 : Uuid → Uuid → Option Uuid → List Uuid → Uuid) where
  -- `build`
  unfoldable pub build :
      {Carried Metadata : Type 0}
      → Any (RawApplicability Uuid)
      → Any (RawRequirement Carried)
      → Option RawAssessment
      → List (Any (EvidenceRecord Metadata))
      → Result Error (BuiltCase Carried Metadata)
  unfolding case_applicability checked_requirement validate_assessment linked_views assessment_view
  build applicability_result requirement given evidence = do
    a ← case_applicability applicability_result
    r ← checked_requirement requirement a.requirement_id
    s ← validate_assessment given a.tenant_id a.requirement_id a.id
    views ← linked_views a.tenant_id a.requirement_id evidence
    ok (record {
      id = uuid5 a.tenant_id a.id (assessment_view a.outcome s).id (map (λ v. v.evidence_id) views);
      tenant_id = a.tenant_id;
      requirement_id = a.requirement_id;
      requirement_text = r.1;
      applicability_id = a.id;
      applicability = a.outcome;
      applicability_reason = a.reason;
      assessment = assessment_view a.outcome s;
      evidence = views;
      carried = r.0.carried;
    })

-- An assessment, handed on as a dictionary.
abbrev pub as_raw : Assessment → RawAssessment
as_raw s = record {
  id = some s.id;
  tenant_id = some s.tenant_id;
  requirement_id = some s.requirement_id;
  applicability_result_id = some s.applicability_result_id;
  outcome = typed s.outcome;
  reason = some s.reason;
  evidence_id = s.evidence_id;
  evidence_ids = s.evidence_ids;
}

-- A case, as the services over cases read it.
abbrev pub as_case : {Carried Metadata : Type 0} → BuiltCase Carried Metadata → RawCase Carried
as_case c = record {
  tenant_id = typed c.tenant_id;
  requirement = typed (record { id = some c.requirement_id; text = some c.requirement_text });
  applicability =
      typed (record { outcome = typed c.applicability; reason = c.applicability_reason });
  assessment =
      typed (record { outcome = typed c.assessment.outcome; reason = c.assessment.reason });
  evidence = map (λ v. v.evidence_id) c.evidence;
  carried = c.carried;
}
