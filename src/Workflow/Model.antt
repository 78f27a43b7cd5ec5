-- ===== src/Workflow/Model.antt =====
-- The data of the workflow (compliance_workflow.py), with what it reads of a reasoning result
-- (reasoning_application.py, compliance_report.py, decision_trace.py), and its state table.
use xportra_ai.Base.{
  ℕ, Bool, true, false, Option, List, [], ◌∷◌, Any, Result, ok, ◌>>=◌, ◌>>◌, raise_unless, expect,
  ◌==◌, ◌||◌,
}
use xportra_ai.Base.Text.{Text}
use xportra_ai.Errors.{
  Uuid, Error, workflow, workflow_required, other_tenant, malformed_state, state_forbids,
  illegal_move, require_tenant_context,
}

-- WORKFLOW_STATES, and `unlisted` for any other string.
pub data State : Type 0 where
  created information_provided evidence_pending applicability_determined : State
  analysis_available review_required additional_evidence_requested : State
  reanalysis_required assessment_package_ready unlisted : State

-- The place of a state in that list.
abbrev pub place : State → ℕ
place created = 0
place information_provided = 1
place evidence_pending = 2
place applicability_determined = 3
place analysis_available = 4
place review_required = 5
place additional_evidence_requested = 6
place reanalysis_required = 7
place assessment_package_ready = 8
place unlisted = 9

-- `state in (...)`
abbrev pub member : State → List State → Bool
member s [] = false
member s (x ∷ xs) = place s == place x || member s xs

-- `state in WORKFLOW_STATES`
abbrev pub is_listed : State → Bool
is_listed unlisted = false
is_listed _ = true

-- `state in WORKFLOW_TERMINAL_STATES`
abbrev pub is_terminal : State → Bool
is_terminal assessment_package_ready = true
is_terminal _ = false

-- _WORKFLOW_TRANSITIONS
unfoldable pub transitions : State → List State
transitions created = information_provided ∷ evidence_pending ∷ []
transitions information_provided = evidence_pending ∷ applicability_determined ∷ []
transitions evidence_pending = applicability_determined ∷ []
transitions applicability_determined = analysis_available ∷ evidence_pending ∷ []
transitions analysis_available = review_required ∷ additional_evidence_requested ∷ []
transitions review_required = additional_evidence_requested ∷ assessment_package_ready ∷ []
transitions additional_evidence_requested = reanalysis_required ∷ []
transitions reanalysis_required = analysis_available ∷ []
transitions assessment_package_ready = []
transitions unlisted = []

pub record Round : Type 0 where
  pub round_index : ℕ
  pub report_id : Uuid
  pub analysis_ids : List Uuid
  pub trace_ids : List Uuid
  pub input_fingerprints : List Uuid

pub record Workflow : Type 0 where
  pub id : Uuid
  pub tenant_id : Uuid
  pub case_id : Uuid
  pub shipment_id : Option Uuid
  pub state : State
  pub rounds : List Round
  pub supplied_evidence_ids : List Uuid
  pub open_requirements : List Uuid

-- `ComplianceAnalysis`, as far as the workflow reads it.
pub record Analysis : Type 0 where
  pub id : Uuid
  pub tenant_id : Uuid
  pub requirement_id : Uuid
  pub missing_information : List Text

-- `DecisionTrace`, as far as the workflow reads it. A fingerprint is a SHA-256 digest in
-- hexadecimal, here the number that it writes.
pub record Trace : Type 0 where
  pub id : Uuid
  pub tenant_id : Uuid
  pub analysis_id : Uuid
  pub report_id : Option Uuid
  pub input_fingerprint : ℕ

-- `ComplianceAnalysisReport`, as far as the workflow reads it.
pub record Report : Type 0 where
  pub id : Uuid
  pub analyses : List Analysis

-- `ComplianceReasoningResult`. The decision summary is carried by reference and never read: the
-- number names the object.
pub record ReasoningResult : Type 0 where
  pub case_id : Uuid
  pub tenant_id : Uuid
  pub analyses : List Analysis
  pub report : Report
  pub traces : List Trace
  pub decision_summary : Option ℕ

pub record Package : Type 0 where
  pub workflow_id : Uuid
  pub tenant_id : Uuid
  pub case_id : Uuid
  pub shipment_id : Option Uuid
  pub state : State
  pub reasoning_result : ReasoningResult
  pub decision_summary : Option ℕ
  pub rounds : List Round
  pub open_requirements : List Uuid

-- `_checked_workflow`
unfoldable pub checked_workflow : Any Workflow → Any Uuid → Result Error Workflow
checked_workflow w tenant = do
  tenant_uuid ← require_tenant_context tenant
  w' ← expect w (workflow workflow_required)
  raise_unless (w'.tenant_id == tenant_uuid) (workflow other_tenant)
  raise_unless (is_listed w'.state) (workflow malformed_state)
  ok w'

-- `_checked`, with the workflow in place of its tenant.
unfoldable pub checked : Any Workflow → Any Uuid → List State → Result Error Workflow
unfolding checked_workflow
checked w tenant allowed = do
  w' ← checked_workflow w tenant
  raise_unless (member w'.state allowed) (workflow state_forbids)
  ok w'

-- `_advance`
unfoldable pub advance : Any Workflow → Any Uuid → State → Result Error Workflow
unfolding checked_workflow transitions
advance w tenant target = do
  w' ← checked_workflow w tenant
  raise_unless (member target (transitions w'.state)) (workflow illegal_move)
  ok (record w' { state = target })
