-- ===== src/Decision/Plan.antt =====
-- EvidenceRequirementPlanService (xportra/domain/ingestion.py): what evidence to obtain, from the
-- gaps of a readiness report.
use xportra_ai.Base.{
  ℕ, Bool, Option, none, some, List, [], ◌∷◌, map, Any, Result, ok, ◌>>=◌, ◌>>◌, raise_unless,
  expect, ◌==◌, if◌then◌else◌, length,
}
use xportra_ai.Base.Text.{Text}
use xportra_ai.Base.Sorting.{sort}
use xportra_ai.Errors.{Uuid, Error}
use xportra_ai.Base.Int.{pos}
use xportra_ai.Base.Keys.{lex_leb}
use xportra_ai.Errors.{summary, tenant_required, report_required, other_tenant}
use xportra_ai.Decision.Services.{Risk, unrated, Action, Recommendation}
use xportra_ai.Decision.Readiness.{
  Gap, GapKind, kind_place, ReadinessState, RequirementView, ReadinessReport,
}

-- `requirements_by_id.get(key, {})`, of which the text and the risk are read: the later of two
-- views with one key is kept.
abbrev pub view_for : Uuid → List RequirementView → Option RequirementView
view_for q [] = none
view_for q (v ∷ vs) = elim (view_for q vs) [
  | none ↦ if v.requirement_id == q then some v else none
  | some later ↦ some later
]

abbrev pub text_of_view : Option RequirementView → Option Text
text_of_view none = none
text_of_view (some v) = v.requirement_text

-- The priority: the risk, or `unrated` for "unknown".
abbrev pub risk_or_unrated : Option Risk → Risk
risk_or_unrated none = unrated
risk_or_unrated (some r) = r

abbrev pub priority_of : Option RequirementView → Risk
priority_of none = unrated
priority_of (some v) = risk_or_unrated v.risk_state

-- `actions_by_id.get(key)`
abbrev pub triggering_action : {C : Type 0} → Uuid → List (Recommendation C) → Option Action
triggering_action q [] = none
triggering_action q (r ∷ rs) = elim (triggering_action q rs) [
  | none ↦ if r.requirement_id == q then some r.action_type else none
  | some later ↦ some later
]

-- An item. Its identity, "<requirement>:<kind>", is the pair of the two.
pub record PlanItem : Type 0 where
  pub tenant_id : Uuid
  pub requirement_id : Uuid
  pub gap_kind : GapKind
  pub requirement : Option Text
  pub reason : Option Text
  pub priority : Risk
  pub triggering_action : Option Action

pub record EvidencePlan : Type 0 where
  pub tenant_id : Uuid
  pub readiness_state : ReadinessState
  pub required_count : ℕ
  pub items : List PlanItem

abbrev pub item_of : {C : Type 0} → Uuid → ReadinessReport C → Gap → PlanItem
item_of t r g = record {
  tenant_id = t;
  requirement_id = g.requirement_id;
  gap_kind = g.kind;
  requirement = text_of_view (view_for g.requirement_id r.requirements);
  reason = g.reason;
  priority = priority_of (view_for g.requirement_id r.requirements);
  triggering_action = triggering_action g.requirement_id r.actions_requiring_evidence;
}

-- The key of the sort, whose third component the first two determine.
abbrev pub item_leb : PlanItem → PlanItem → Bool
item_leb a b =
    lex_leb (pos a.requirement_id ∷ pos (kind_place a.gap_kind) ∷ [])
      (pos b.requirement_id ∷ pos (kind_place b.gap_kind) ∷ [])

-- `plan`, of a report with the fields that the readiness service gives it.
unfoldable pub plan : {C : Type 0} → Any (ReadinessReport C) → Any Uuid → Result Error EvidencePlan
plan readiness_report tenant_id = do
  r ← expect readiness_report (summary report_required)
  t ← expect tenant_id (summary tenant_required)
  raise_unless (r.tenant_id == t) (summary other_tenant)
  let ordered = sort item_leb (map (item_of t r) r.gaps)
  ok (record {
    tenant_id = t;
    readiness_state = r.readiness_state;
    required_count = length ordered;
    items = ordered;
  })
