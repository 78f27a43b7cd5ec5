-- ===== src/Decision/Assessment.antt =====
-- RequirementAssessmentService (xportra/domain/ingestion.py): an applicable requirement against
-- the evidence of its tenant.
use xportra_ai.Base.{
  ℕ, Bool, Option, none, some, List, [], ◌∷◌, map, Any, Result, ok, ◌>>=◌, leb, if◌then◌else◌,
  filter,
}
use xportra_ai.Base.Text.{Text, codes}
use xportra_ai.Base.Sorting.{sort}
use xportra_ai.Errors.{Uuid, Error}
use xportra_ai.Decision.Cases.{Outcome, satisfied, not_satisfied, unknown, is_applicable}
use xportra_ai.Decision.Records.{
  Status, EvidenceRecord, RawApplicability, Applied, validate_applicability, own_records,
  is_rejected, linked_records, is_supporting,
}

-- What is said of a requirement: the outcome, the reason and the evidence that is named for it.
pub record Verdict : Type 0 where
  pub outcome : Outcome
  pub reason : Text
  pub evidence_id : Option Uuid

-- The chain of cases, from the supporting, the rejected and the linked evidence and all of it.
unfoldable pub weigh :
    {Carried : Type 0}
    → List (EvidenceRecord Carried)
    → List (EvidenceRecord Carried)
    → List (EvidenceRecord Carried)
    → List (EvidenceRecord Carried)
    → Verdict
weigh (s ∷ ss) rs ls es = record {
  outcome = satisfied;
  reason = codes "required evidence present";
  evidence_id = some s.evidence_id;
}
weigh [] (r ∷ rs) ls es = record {
  outcome = not_satisfied;
  reason = codes "evidence rejected";
  evidence_id = some r.evidence_id;
}
weigh [] [] (l ∷ ls) es = record {
  outcome = unknown;
  reason = codes "evidence insufficient";
  evidence_id = some l.evidence_id;
}
weigh [] [] [] (e ∷ es) = record {
  outcome = unknown;
  reason = codes "evidence insufficient";
  evidence_id = some e.evidence_id;
}
weigh [] [] [] [] = record {
  outcome = unknown;
  reason = codes "required evidence absent";
  evidence_id = none;
}

unfoldable pub decide : {Carried : Type 0} → Applied → List (EvidenceRecord Carried) → Verdict
unfolding weigh
decide a evidence =
    let linked = linked_records a.requirement_id evidence in
    if is_applicable a.outcome
    then weigh (filter is_supporting linked) (filter (λ e. is_rejected e.status) linked) linked
        evidence
    else record {
      outcome = unknown;
      reason = codes "requirement cannot yet be assessed";
      evidence_id = none;
    }

-- The assessment. Its identity is a UUID made from the tenant, the requirement, the applicability
-- result and the fingerprint.
pub record Assessment : Type 0 where
  pub id : Uuid
  pub tenant_id : Uuid
  pub requirement_id : Uuid
  pub applicability_result_id : Uuid
  pub evidence_fingerprint : ℕ
  pub evidence_id : Option Uuid
  pub evidence_ids : List Uuid
  pub outcome : Outcome
  pub reason : Text

-- What of a record goes into the fingerprint.
pub record Fingerprinted (Carried : Type 0) : Type 0 where
  pub evidence_id : Uuid
  pub requirement_id : Option Uuid
  pub status : Status
  pub supports_requirement : Bool
  pub metadata : Carried

abbrev pub fingerprinted : {Carried : Type 0} → EvidenceRecord Carried → Fingerprinted Carried
fingerprinted e = record {
  evidence_id = e.evidence_id;
  requirement_id = e.requirement_id;
  status = e.status;
  supports_requirement = e.supports_requirement;
  metadata = e.metadata;
}

-- `key=lambda value: str(value.evidence_id)`: texts of one length, which compare as the numbers.
abbrev pub by_evidence_id :
    {Carried : Type 0} → EvidenceRecord Carried → EvidenceRecord Carried → Bool
by_evidence_id a b = leb a.evidence_id b.evidence_id

-- SHA-256 of the JSON of a list of such entries; and uuid5 of the text of the four identities.
module _ {Carried : Type 0} (digest : List (Fingerprinted Carried) → ℕ)
    (uuid5 : Uuid → Uuid → Uuid → ℕ → Uuid) where
  -- `evidence_fingerprint`
  unfoldable pub evidence_fingerprint : List (EvidenceRecord Carried) → ℕ
  evidence_fingerprint evidence = digest (map fingerprinted (sort by_evidence_id evidence))

  unfoldable pub assessment_of : Applied → List (EvidenceRecord Carried) → Assessment
  unfolding decide evidence_fingerprint
  assessment_of a evidence =
      let v = decide a evidence in
      record {
        id = uuid5 a.tenant_id a.requirement_id a.id (evidence_fingerprint evidence);
        tenant_id = a.tenant_id;
        requirement_id = a.requirement_id;
        applicability_result_id = a.id;
        evidence_fingerprint = evidence_fingerprint evidence;
        evidence_id = v.evidence_id;
        evidence_ids = map (λ e. e.evidence_id) (linked_records a.requirement_id evidence);
        outcome = v.outcome;
        reason = v.reason;
      }

  -- `assess`
  unfoldable pub assess :
      Any (RawApplicability (Any Uuid))
      → List (Any (EvidenceRecord Carried))
      → Result Error Assessment
  unfolding validate_applicability own_records assessment_of
  assess applicability_result evidence = do
    a ← validate_applicability applicability_result
    records ← own_records a.tenant_id evidence
    ok (assessment_of a records)

-- What the service asks of a repository of assessments: the one of four identities, and to keep
-- a new one.
pub record Repository (Store : Type 0) : Type 0 where
  pub get_by_identity : Store → Uuid → Uuid → Uuid → ℕ → Option Assessment
  pub create : Store → Assessment → Store × Assessment

-- `existing if existing is not None else self._repository.create(**result)`
abbrev pub persist :
    {Store : Type 0} → Option (Repository Store) → Store → Assessment → Store × Assessment
persist none store s = (store, s)
persist (some r) store s =
    elim (r.get_by_identity store s.tenant_id s.requirement_id s.applicability_result_id
      s.evidence_fingerprint) [ none ↦ r.create store s | some existing ↦ (store, existing) ]

module _ {Carried Store : Type 0} (digest : List (Fingerprinted Carried) → ℕ)
    (uuid5 : Uuid → Uuid → Uuid → ℕ → Uuid) (repository : Option (Repository Store)) where
  -- `assess_and_persist`
  unfoldable pub assess_and_persist :
      Any (RawApplicability (Any Uuid))
      → List (Any (EvidenceRecord Carried))
      → Store
      → Result Error (Store × Assessment)
  unfolding assess
  assess_and_persist applicability_result evidence store = do
    s ← assess digest uuid5 applicability_result evidence
    ok (persist repository store s)
