-- ===== src/Decision/Requests.antt =====
-- EvidenceRetrievalRequestService (xportra/domain/ingestion.py): what a retrieval should be asked,
-- from the items of an evidence plan.
use xportra_ai.Base.{
  ℕ, Bool, true, Option, none, some, List, [], ◌∷◌, ◌++◌, Any, typed, untyped, Result, ok, err,
  ◌>>=◌, ◌>>◌, raise_unless, expect, traverse, ◌==◌, opt_eq, list_eq, if◌then◌else◌, length,
}
use xportra_ai.Base.Text.{Text, codes, is_blank, strip}
use xportra_ai.Base.Sorting.{sort}
use xportra_ai.Base.Int.{pos}
use xportra_ai.Base.Keys.{lex_leb}
use xportra_ai.Errors.{
  Uuid, Error, summary, tenant_required, other_tenant, plan_required, malformed_item,
  malformed_identity, malformed_kind, other_tenant_item,
}
use xportra_ai.Decision.Services.{Risk}
use xportra_ai.Decision.Readiness.{
  GapKind, applicability_unknown, assessment_unknown, missing_evidence, risk_unknown, kind_place,
  ReadinessState,
}

-- An item as the service finds it. A missing field is `none`, and so is a false value of the
-- identity that is no text.
pub record RawItem : Type 0 where
  pub tenant_id : Option Uuid
  pub requirement_id : Option Uuid
  pub evidence_requirement_id : Option (Any Text)
  pub gap_kind : Any Text
  pub requirement : Any Text
  pub reason : Option Text
  pub priority : Risk
  pub status : Option Text

pub record RawPlan : Type 0 where
  pub tenant_id : Option Uuid
  pub status : Text
  pub readiness_state : ReadinessState
  pub items : Option (Any (List (Any RawItem)))

pub record Request : Type 0 where
  pub tenant_id : Uuid
  pub evidence_requirement_id : Text
  pub requirement_id : Uuid
  pub gap_kind : GapKind
  pub query : Text
  pub reason : Option Text
  pub priority : Risk
  pub status : Option Text

pub record RequestSet : Type 0 where
  pub tenant_id : Uuid
  pub readiness_state : ReadinessState
  pub request_count : ℕ
  pub requests : List Request

abbrev pub kind_text : GapKind → Text
kind_text applicability_unknown = codes "applicability_unknown"
kind_text assessment_unknown = codes "assessment_unknown"
kind_text missing_evidence = codes "missing_evidence"
kind_text risk_unknown = codes "risk_unknown"

-- `gap_kind not in self.GAP_KINDS`
unfoldable pub known_kind : Text → Result Error GapKind
known_kind name =
    if list_eq name (kind_text applicability_unknown)
    then ok applicability_unknown
    else if list_eq name (kind_text assessment_unknown)
    then ok assessment_unknown
    else if list_eq name (kind_text missing_evidence)
    then ok missing_evidence
    else if list_eq name (kind_text risk_unknown)
    then ok risk_unknown
    else err (summary malformed_kind)

-- `if not requirement_id: raise`
abbrev pub given : Option Uuid → Result Error Uuid
given none = err (summary malformed_item)
given (some q) = ok q

-- `if not evidence_requirement_id: raise`
abbrev pub given_identity : Option (Any Text) → Result Error (Any Text)
given_identity none = err (summary malformed_item)
given_identity (some (typed [])) = err (summary malformed_item)
given_identity (some (typed (c ∷ s))) = ok (typed (c ∷ s))
given_identity (some untyped) = ok untyped

-- `item_tenant is not None and item_tenant != tenant_id`, negated.
abbrev pub is_own : Uuid → Option Uuid → Bool
is_own t none = true
is_own t (some u) = u == t

-- `plan.get("items", [])`
abbrev pub items_or_nil : Option (Any (List (Any RawItem))) → Any (List (Any RawItem))
items_or_nil none = typed []
items_or_nil (some items) = items

-- The key of the sort, whose third component the first two determine.
abbrev pub request_leb : Request → Request → Bool
request_leb a b =
    lex_leb (pos a.requirement_id ∷ pos (kind_place a.gap_kind) ∷ [])
      (pos b.requirement_id ∷ pos (kind_place b.gap_kind) ∷ [])

abbrev pub request_set : Uuid → ReadinessState → List Request → RequestSet
request_set t state ordered = record {
  tenant_id = t;
  readiness_state = state;
  request_count = length ordered;
  requests = ordered;
}

-- `show` is `str` of a UUID.
module _ (show : Uuid → Text) where
  -- `f"{requirement_id}:{gap_kind}"`
  abbrev pub identity_of : Uuid → GapKind → Text
  identity_of q kind = show q ++ (codes ":" ++ kind_text kind)

  abbrev pub fallback_query : Uuid → GapKind → Text
  fallback_query q kind = kind_text kind ++ (codes " evidence for requirement " ++ show q)

  -- `_build_query`
  unfoldable pub build_query : Uuid → GapKind → Any Text → Text
  build_query q kind untyped = fallback_query q kind
  build_query q kind (typed text) = if is_blank text then fallback_query q kind else strip text

  abbrev pub request_of : Uuid → Uuid → Text → GapKind → RawItem → Request
  request_of t q identity kind item = record {
    tenant_id = t;
    evidence_requirement_id = identity;
    requirement_id = q;
    gap_kind = kind;
    query = build_query q kind item.requirement;
    reason = item.reason;
    priority = item.priority;
    status = item.status;
  }

  -- The body of the loop.
  unfoldable pub request : Uuid → Any RawItem → Result Error Request
  request t raw = do
    item ← expect raw (summary malformed_item)
    q ← given item.requirement_id
    named ← given_identity item.evidence_requirement_id
    identity ← expect named (summary malformed_identity)
    name ← expect item.gap_kind (summary malformed_kind)
    kind ← known_kind name
    raise_unless (list_eq identity (identity_of q kind)) (summary malformed_identity)
    raise_unless (is_own t item.tenant_id) (summary other_tenant_item)
    ok (request_of t q identity kind item)

  -- `build`
  unfoldable pub build : Any RawPlan → Any Uuid → Result Error RequestSet
  build plan tenant_id = do
    p ← expect plan (summary plan_required)
    t ← expect tenant_id (summary tenant_required)
    raise_unless (opt_eq p.tenant_id (some t)) (summary other_tenant)
    raise_unless (list_eq p.status (codes "evidence_requirement_plan")) (summary plan_required)
    items ← expect (items_or_nil p.items) (summary plan_required)
    requests ← traverse (request t) items
    ok (request_set t p.readiness_state (sort request_leb requests))
