-- ===== src/Decision/Records.antt =====
-- Evidence records and applicability results, and the checks on them (xportra/domain/ingestion.py).
use xportra_ai.Base.{
  Bool, true, false, ◌&&◌, ◌||◌, Option, none, some, List, [], ◌∷◌, Any, Result, ok, err, ◌>>=◌,
  ◌>>◌, raise_if, raise_unless, expect, ◌==◌, opt_eq, filter,
}
use xportra_ai.Base.Text.{Text, is_blank}
use xportra_ai.Errors.{
  Uuid, Error, assessment, AssessmentFault, malformed_applicability, malformed_evidence,
  evidence_other_tenant, malformed_identifiers, invalid_outcome,
}
use xportra_ai.Decision.Cases.{Applicability}

-- The statuses of evidence, and `other_status` for any other string.
pub data Status : Type 0 where
  uploaded accepted reviewed rejected archived other_status : Status

-- `EvidenceRecord`. Of the metadata one entry is read, `supports_requirement`: it is false where
-- there is none. The rest is carried.
pub record EvidenceRecord (Carried : Type 0) : Type 0 where
  pub tenant_id : Uuid
  pub evidence_id : Uuid
  pub evidence_type : Text
  pub reference : Text
  pub requirement_id : Option Uuid
  pub status : Status
  pub supports_requirement : Bool
  pub metadata : Carried

-- The constructor's checks.
unfoldable pub evidence_record :
    {Carried : Type 0}
    → Any Uuid
    → Any Uuid
    → Text
    → Text
    → Option Uuid
    → Status
    → Bool
    → Carried
    → Result Error (EvidenceRecord Carried)
evidence_record tenant evidence type reference requirement status supports metadata = do
  t ← expect tenant (assessment malformed_evidence)
  e ← expect evidence (assessment malformed_evidence)
  raise_if (is_blank type || is_blank reference) (assessment malformed_evidence)
  ok (record {
    tenant_id = t;
    evidence_id = e;
    evidence_type = type;
    reference = reference;
    requirement_id = requirement;
    status = status;
    supports_requirement = supports;
    metadata = metadata;
  })

-- The dictionary of an applicability result. A field is `none` if it is missing or false to
-- Python; `untyped` is any outcome that is not one of the three.
pub record RawApplicability (Identity : Type 0) : Type 0 where
  pub id : Option Uuid
  pub tenant_id : Option Identity
  pub requirement_id : Option Identity
  pub outcome : Option (Any Applicability)
  pub reason : Option Text

-- The same result once it has passed the checks.
pub record Applied : Type 0 where
  pub id : Uuid
  pub tenant_id : Uuid
  pub requirement_id : Uuid
  pub outcome : Applicability
  pub reason : Option Text

-- `result.get(field)`, which must be there.
abbrev pub required : {A : Type 0} → Option A → AssessmentFault → Result Error A
required none fault = err (assessment fault)
required (some a) fault = ok a

-- `_validate_applicability`
unfoldable pub validate_applicability : Any (RawApplicability (Any Uuid)) → Result Error Applied
validate_applicability given = do
  r ← expect given (assessment malformed_applicability)
  id ← required r.id malformed_applicability
  t ← required r.tenant_id malformed_applicability
  q ← required r.requirement_id malformed_applicability
  o ← required r.outcome malformed_applicability
  tenant ← expect t (assessment malformed_identifiers)
  requirement ← expect q (assessment malformed_identifiers)
  outcome ← expect o (assessment invalid_outcome)
  ok (record {
    id = id;
    tenant_id = tenant;
    requirement_id = requirement;
    outcome = outcome;
    reason = r.reason;
  })

-- The loop over the evidence: all of it is the tenant's.
unfoldable pub own_records :
    {Carried : Type 0}
    → Uuid
    → List (Any (EvidenceRecord Carried))
    → Result Error (List (EvidenceRecord Carried))
own_records t [] = ok []
own_records t (x ∷ xs) = do
  e ← expect x (assessment malformed_evidence)
  raise_unless (e.tenant_id == t) (assessment evidence_other_tenant)
  rest ← own_records t xs
  ok (e ∷ rest)

abbrev pub is_linked : {Carried : Type 0} → Uuid → EvidenceRecord Carried → Bool
is_linked q e = opt_eq e.requirement_id (some q)

-- `record.status in self.ACCEPTED_STATUSES`
abbrev pub is_accepted : Status → Bool
is_accepted accepted = true
is_accepted reviewed = true
is_accepted _ = false

-- `record.status in {"rejected", "archived"}`
abbrev pub is_rejected : Status → Bool
is_rejected rejected = true
is_rejected archived = true
is_rejected _ = false

abbrev pub linked_records :
    {Carried : Type 0} → Uuid → List (EvidenceRecord Carried) → List (EvidenceRecord Carried)
linked_records q es = filter (is_linked q) es

abbrev pub is_supporting : {Carried : Type 0} → EvidenceRecord Carried → Bool
is_supporting e = is_accepted e.status && e.supports_requirement
