-- ===== src/Workflow/Readiness.antt =====
-- The readiness gate before finalization (xportra/domain/assessment_readiness.py).
use xportra_ai.Base.{
  ℕ, Bool, true, false, not, Option, none, some, List, [], ◌∷◌, ◌++◌, Any, Result, ok, ◌>>=◌, ◌>>◌,
  raise_unless, expect, ◌==◌, opt_eq, is_some, if◌then◌else◌, any, contains, list_eq, get_last?,
  is_empty,
}
use xportra_ai.Errors.{
  Uuid, Error, workflow, workflow_required, malformed_state, result_required,
  require_tenant_context,
}
use xportra_ai.Workflow.Model.{
  review_required, place, is_listed, Workflow, Round, Analysis, Trace, ReasoningResult,
}

-- The issue codes, each with its `detail` where a code has several.
pub data Code : Type 0 where
  tenant_mismatch case_mismatch invalid_workflow_state missing_shipment_reference : Code
  no_analysis analysis_stale analysis_integrity_failure : Code

pub data Issue : Type 0 where
  workflow_other_tenant result_other_tenant result_other_case wrong_state : Issue
  no_shipment no_round stale_round : Issue
  analyses_differ report_analyses_differ analysis_other_tenant traces_differ : Issue
  fingerprints_differ trace_other_report trace_other_analysis trace_other_tenant : Issue

-- The `code` of an issue.
pub code : Issue → Code
code workflow_other_tenant = tenant_mismatch
code result_other_tenant = tenant_mismatch
code result_other_case = case_mismatch
code wrong_state = invalid_workflow_state
code no_shipment = missing_shipment_reference
code no_round = no_analysis
code stale_round = analysis_stale
code _ = analysis_integrity_failure

pub record AssessmentReadiness : Type 0 where
  pub ready : Bool
  pub reasons : List Issue

-- `if test: issues.append(issue)`
abbrev pub note_if : Bool → Issue → List Issue
note_if true issue = issue ∷ []
note_if false issue = []

abbrev pub analysis_ids : List Analysis → List Uuid
analysis_ids [] = []
analysis_ids (a ∷ rest) = a.id ∷ analysis_ids rest

abbrev pub trace_ids : List Trace → List Uuid
trace_ids [] = []
trace_ids (t ∷ ts) = t.id ∷ trace_ids ts

abbrev pub input_fingerprints : List Trace → List ℕ
input_fingerprints [] = []
input_fingerprints (t ∷ ts) = t.input_fingerprint ∷ input_fingerprints ts

-- `_check_integrity`: each of the three loops over traces, and the one over analyses, notes its
-- issue once and breaks.
unfoldable pub check_integrity : Workflow → ReasoningResult → Round → List Issue
check_integrity w r latest =
    let ids = analysis_ids r.analyses in
    note_if (not (list_eq ids latest.analysis_ids)) analyses_differ
    ++ (note_if (not (list_eq (analysis_ids r.report.analyses) ids)) report_analyses_differ
        ++ (note_if (any (λ a. not (a.tenant_id == w.tenant_id)) r.analyses) analysis_other_tenant
            ++ (note_if (not (list_eq (trace_ids r.traces) latest.trace_ids)) traces_differ
                ++ (note_if (not (list_eq (input_fingerprints r.traces) latest.input_fingerprints))
                      fingerprints_differ
                    ++ (note_if (any (λ t. not (opt_eq t.report_id (some r.report.id))) r.traces)
                          trace_other_report
                        ++ (note_if (any (λ t. not (contains ids t.analysis_id)) r.traces)
                              trace_other_analysis
                            ++ note_if (any (λ t. not (t.tenant_id == w.tenant_id)) r.traces)
                                trace_other_tenant))))))

-- The issues that `check` notes before it looks at the rounds.
unfoldable pub identity_issues : Workflow → ReasoningResult → Uuid → List Issue
identity_issues w r tenant_uuid =
    note_if (not (w.tenant_id == tenant_uuid)) workflow_other_tenant
    ++ (note_if (not (r.tenant_id == tenant_uuid)) result_other_tenant
        ++ (note_if (not (r.case_id == w.case_id)) result_other_case
            ++ (note_if (not (place w.state == place review_required)) wrong_state
                ++ note_if (not (is_some w.shipment_id)) no_shipment)))

-- What it notes of the latest round, with the two early returns.
unfoldable pub round_issues : Workflow → ReasoningResult → Option Round → List Issue
unfolding check_integrity
round_issues w r none = no_round ∷ []
round_issues w r (some latest) =
    if not (r.report.id == latest.report_id) then stale_round ∷ [] else check_integrity w r latest

-- `AssessmentReadinessService.check`
unfoldable pub check :
    Any Workflow → Any ReasoningResult → Any Uuid → Result Error AssessmentReadiness
unfolding identity_issues round_issues
check w r tenant = do
  tenant_uuid ← require_tenant_context tenant
  w' ← expect w (workflow workflow_required)
  raise_unless (is_listed w'.state) (workflow malformed_state)
  r' ← expect r (workflow result_required)
  let issues = identity_issues w' r' tenant_uuid ++ round_issues w' r' (get_last? w'.rounds)
  ok (record { ready = is_empty issues; reasons = issues })
