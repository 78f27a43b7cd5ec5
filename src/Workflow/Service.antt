-- ===== src/Workflow/Service.antt =====
-- The operations of `ComplianceWorkflowService` (compliance_workflow.py).
use xportra_ai.Base.{
  ◌+◌, Bool, true, not, Option, none, some, List, [], ◌∷◌, ◌++◌, Any, typed, Result, ok, ◌>>=◌,
  ◌>>◌, raise_if, raise_unless, expect, expect_all, ◌==◌, if◌then◌else◌, contains, is_empty, length,
  ◌&&◌,
}
use xportra_ai.Errors.{
  Uuid, Error, workflow, case_required, shipment_not_uuid, result_other_case, result_other_tenant,
  requirements_not_list, no_requirement, malformed_requirement, duplicate_requirement,
  evidence_not_list, no_evidence, malformed_evidence, not_ready, require_tenant_context,
}
use xportra_ai.Workflow.Model.{
  created, information_provided, evidence_pending, applicability_determined, analysis_available,
  review_required, additional_evidence_requested, reanalysis_required, assessment_package_ready,
  is_terminal, Round, Workflow, Analysis, ReasoningResult, Package, checked_workflow, checked,
  advance,
}
use xportra_ai.Workflow.Readiness.{
  AssessmentReadiness, check, analysis_ids, trace_ids, input_fingerprints,
}

-- `begin`. The library's `uuid5` names the workflow from the tenant, the case and the shipment.
module _ (workflow_uuid : Uuid → Uuid → Option Uuid → Uuid) where
  unfoldable pub begin : Any Uuid → Any Uuid → Any (Option Uuid) → Result Error Workflow
  begin tenant case_id shipment_id = do
    tenant_uuid ← require_tenant_context tenant
    cid ← expect case_id (workflow case_required)
    sid ← expect shipment_id (workflow shipment_not_uuid)
    ok (record {
      id = workflow_uuid tenant_uuid cid sid;
      tenant_id = tenant_uuid;
      case_id = cid;
      shipment_id = sid;
      state = created;
      rounds = [];
      supplied_evidence_ids = [];
      open_requirements = [];
    })

unfoldable pub provide_information : Any Workflow → Any Uuid → Result Error Workflow
unfolding advance
provide_information w tenant = advance w tenant information_provided

unfoldable pub note_evidence_pending : Any Workflow → Any Uuid → Result Error Workflow
unfolding advance
note_evidence_pending w tenant = advance w tenant evidence_pending

unfoldable pub record_applicability_determined : Any Workflow → Any Uuid → Result Error Workflow
unfolding advance
record_applicability_determined w tenant = advance w tenant applicability_determined

unfoldable pub submit_for_review : Any Workflow → Any Uuid → Result Error Workflow
unfolding advance
submit_for_review w tenant = advance w tenant review_required

-- The round that a result adds.
unfoldable pub round_of : Workflow → ReasoningResult → Round
round_of w r = record {
  round_index = length w.rounds + 1;
  report_id = r.report.id;
  analysis_ids = analysis_ids r.analyses;
  trace_ids = trace_ids r.traces;
  input_fingerprints = input_fingerprints r.traces;
}

-- `run_analysis`. The injected reasoning application is a function of the call's other arguments,
-- which are passed on untouched, of the tenant and of the case.
module _ {Request : Type 0}
    (analyze_case : Request → Uuid → Uuid → Result Error ReasoningResult) where
  unfoldable pub run_analysis :
      Any Workflow → Request → Any Uuid → Result Error (Workflow × ReasoningResult)
  unfolding checked round_of
  run_analysis w request tenant = do
    w' ← checked w tenant (applicability_determined ∷ reanalysis_required ∷ [])
    r ← analyze_case request w'.tenant_id w'.case_id
    raise_unless (r.case_id == w'.case_id) (workflow result_other_case)
    raise_unless (r.tenant_id == w'.tenant_id) (workflow result_other_tenant)
    ok (
      record w' {
        state = analysis_available;
        rounds = w'.rounds ++ (round_of w' r ∷ []);
        open_requirements = [];
      },
      r,
    )

-- `len(set(ids)) == len(ids)`
abbrev pub all_distinct : List Uuid → Bool
all_distinct [] = true
all_distinct (x ∷ xs) = not (contains xs x) && all_distinct xs

unfoldable pub request_additional_evidence :
    Any Workflow → Any Uuid → Any (List (Any Uuid)) → Result Error Workflow
unfolding checked checked_workflow
request_additional_evidence w tenant requirement_ids = do
  _ ← checked w tenant (analysis_available ∷ review_required ∷ [])
  items ← expect requirement_ids (workflow requirements_not_list)
  raise_if (is_empty items) (workflow no_requirement)
  ids ← expect_all items (workflow malformed_requirement)
  raise_unless (all_distinct ids) (workflow duplicate_requirement)
  w' ← checked_workflow w tenant
  ok (record w' { state = additional_evidence_requested; open_requirements = ids })

-- The loop that appends each identity not known yet.
abbrev pub append_new : List Uuid → List Uuid → List Uuid
append_new known [] = known
append_new known (e ∷ es) = append_new (if contains known e then known else known ++ (e ∷ [])) es

unfoldable pub supply_evidence :
    Any Workflow → Any Uuid → Any (List (Any Uuid)) → Result Error Workflow
unfolding checked checked_workflow
supply_evidence w tenant evidence_ids = do
  w₀ ← checked w tenant (additional_evidence_requested ∷ review_required ∷ [])
  items ← expect evidence_ids (workflow evidence_not_list)
  raise_if (is_empty items) (workflow no_evidence)
  ids ← expect_all items (workflow malformed_evidence)
  w' ← checked_workflow w tenant
  ok (record w' {
    state = reanalysis_required;
    supplied_evidence_ids = append_new w₀.supplied_evidence_ids ids;
  })

unfoldable pub is_closed : Any Workflow → Any Uuid → Result Error Bool
unfolding checked_workflow
is_closed w tenant = do w' ← checked_workflow w tenant; ok (is_terminal w'.state)

-- The requirements of the analyses that still lack information.
abbrev pub lacking : List Analysis → List Uuid
lacking [] = []
lacking (a ∷ more) =
    let found = lacking more in
    if is_empty a.missing_information then found else a.requirement_id ∷ found

abbrev pub Gate : Type 0
Gate = Any Workflow → Any ReasoningResult → Any Uuid → Result Error AssessmentReadiness

-- The injected readiness service, or `AssessmentReadinessService()`.
abbrev pub gate_of : Option Gate → Gate
gate_of none = check
gate_of (some g) = g

-- `finalize`. What passes the gate is a workflow and a result under a tenant context.
unfoldable pub finalize :
    Option Gate → Workflow → ReasoningResult → Any Uuid → Result Error (Workflow × Package)
finalize service w r tenant = do
  readiness ← gate_of service (typed w) (typed r) tenant
  raise_unless readiness.ready (workflow not_ready)
  tenant_uuid ← require_tenant_context tenant
  ok (
    record w { state = assessment_package_ready; open_requirements = lacking r.analyses },
    record {
      workflow_id = w.id;
      tenant_id = tenant_uuid;
      case_id = w.case_id;
      shipment_id = w.shipment_id;
      state = assessment_package_ready;
      reasoning_result = r;
      decision_summary = r.decision_summary;
      rounds = w.rounds;
      open_requirements = lacking r.analyses;
    },
  )
