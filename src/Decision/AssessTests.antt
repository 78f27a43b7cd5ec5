-- ===== src/Decision/AssessTests.antt =====
-- A requirement with rejected and accepted evidence; the theorems at it.
use xportra_ai.Base.{
  ℕ, ◌+◌, ◌≡◌, refl, true, false, Option, none, some, List, [], ◌∷◌, map, typed, ok, length,
}
use xportra_ai.Base.Text.{is_space, codes, is_blank}
use xportra_ai.Base.Sorting.{sort}
use xportra_ai.Errors.{Uuid}
use xportra_ai.Decision.Cases.{applicable, satisfied}
use xportra_ai.Decision.Records.{
  Status, accepted, EvidenceRecord, RawApplicability, Applied, validate_applicability, own_records,
}
use xportra_ai.Decision.Assessment.{
  Fingerprinted, Assessment, assess, assessment_of, decide, weigh, evidence_fingerprint,
}
use xportra_ai.Decision.Building.{RawRequirement}
use xportra_ai.Decision.Weighing.{IsWeighed, assess-IsWeighed}
use xportra_ai.Decision.Assembly.{IsAccepted, widened, assess_build_validate}

abbrev digest : List (Fingerprinted ℕ) → ℕ
digest entries = length entries

abbrev uuid5 : Uuid → Uuid → Uuid → ℕ → Uuid
uuid5 t q a n = t + q + a + n

abbrev case_uuid5 : Uuid → Uuid → Option Uuid → List Uuid → Uuid
case_uuid5 t a s es = t + a

abbrev permit : EvidenceRecord ℕ
permit = record {
  tenant_id = 1;
  evidence_id = 5;
  evidence_type = codes "permit";
  reference = codes "p-5";
  requirement_id = some 7;
  status = accepted;
  supports_requirement = true;
  metadata = 0;
}

abbrev refused : EvidenceRecord ℕ
refused = record permit { evidence_id = 6; status = Status.rejected }

abbrev evidence : List (EvidenceRecord ℕ)
evidence = refused ∷ permit ∷ []

abbrev applies : RawApplicability Uuid
applies = record {
  id = some 3;
  tenant_id = some 1;
  requirement_id = some 7;
  outcome = some (typed applicable);
  reason = none;
}

abbrev applied : Applied
applied = record { id = 3; tenant_id = 1; requirement_id = 7; outcome = applicable; reason = none }

abbrev assessed : Assessment
assessed = record {
  id = 13;
  tenant_id = 1;
  requirement_id = 7;
  applicability_result_id = 3;
  evidence_fingerprint = 2;
  evidence_id = some 5;
  evidence_ids = 6 ∷ 5 ∷ [];
  outcome = satisfied;
  reason = codes "required evidence present";
}

passes : validate_applicability (typed (widened applies)) ≡ ok applied
unfolding validate_applicability
passes = refl

assesses : assess digest uuid5 (typed (widened applies)) (map typed evidence) ≡ ok assessed
unfolding assess validate_applicability own_records assessment_of decide weigh evidence_fingerprint
    sort
assesses = refl

assess-IsWeighed_example : IsWeighed digest uuid5 applied evidence assessed false true none none
assess-IsWeighed_example =
    assess-IsWeighed digest uuid5 (typed (widened applies)) applied evidence assessed false true
      none none passes assesses

abbrev duty : RawRequirement ℕ
duty = record { id = some 7; requirement_text = typed (codes "Show a permit."); carried = 0 }

filled : is_blank (codes "Show a permit.") ≡ false
unfolding is_blank is_space
filled = refl

assess_build_validate_example : IsAccepted digest uuid5 case_uuid5 applies duty evidence assessed
assess_build_validate_example =
    assess_build_validate digest uuid5 case_uuid5 applies duty (codes "Show a permit.") evidence
      assessed assesses refl refl filled
