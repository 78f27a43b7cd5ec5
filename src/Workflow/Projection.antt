-- ===== src/Workflow/Projection.antt =====
-- The history that is read off a workflow (xportra/domain/workflow_history.py).
use xportra_ai.Base.{
  ℕ, suc, Bool, false, Option, none, some, List, [], ◌∷◌, ◌++◌, map, Any, typed, Result, ok, err,
  ◌>>=◌, ◌>>◌, raise_unless, expect, ◌==◌, is_some, length, get_last?,
}
use mathlib.Core.Option
use xportra_ai.Errors.{
  Uuid, Error, history, require_tenant_context, package_required, result_required,
  workflow_required, no_round, malformed_state, other_round, result_other_tenant,
  package_other_workflow, other_tenant, package_other_tenant, result_other_case, package_other_case,
}
use xportra_ai.Workflow.Model.{Workflow, Round, State, ReasoningResult, Package, is_listed}
use xportra_ai.Workflow.Readiness.{AssessmentReadiness, check}

-- The kinds of entry, each with its one `detail`.
pub data Kind : Type 0 where
  workflow_created shipment_bound evidence_supplied analysis_completed final_package_ready : Kind

-- A pair of a label and a value, which is the text of an identity, of a number or of a digest.
pub data Reference : Type 0 where
  workflow_id tenant_id case_id shipment_id evidence_id report_id analysis_id trace_id :
      Uuid → Reference
  supply_position round_index round_count : ℕ → Reference
  input_fingerprint : ℕ → Reference

-- `WorkflowHistoryEntry`
pub record Entry : Type 0 where
  pub sequence : ℕ
  pub kind : Kind
  pub references : List Reference

-- `FinalPackageReference`
pub record PackageReference : Type 0 where
  pub workflow_id : Uuid
  pub report_id : Uuid
  pub round_count : ℕ
  pub decision_summary_present : Bool

-- `WorkflowHistoryView`
pub record View : Type 0 where
  pub workflow_id : Uuid
  pub tenant_id : Uuid
  pub case_id : Uuid
  pub shipment_id : Option Uuid
  pub state : State
  pub entries : List Entry
  pub supplied_evidence_ids : List Uuid
  pub open_requirements : List Uuid
  pub round_count : ℕ
  pub latest_report_id : Option Uuid
  pub decision_summary_present : Bool
  pub readiness : Option AssessmentReadiness
  pub final_package : Option PackageReference

-- What is asked of the latest round.
abbrev pub checked_round : ReasoningResult → Option Round → Result Error (Unit {0})
checked_round r none = err (history no_round)
checked_round r (some latest) = raise_unless (r.report.id == latest.report_id) (history other_round)

-- `_checked_result`
unfoldable pub checked_result : Workflow → Any ReasoningResult → Uuid → Result Error (Unit {0})
checked_result w given tenant_uuid = do
  r ← expect given (history result_required)
  raise_unless (r.tenant_id == tenant_uuid) (history result_other_tenant)
  raise_unless (r.case_id == w.case_id) (history result_other_case)
  checked_round r (get_last? w.rounds)

-- `_checked_package`
unfoldable pub checked_package : Workflow → Any Package → Uuid → Result Error PackageReference
checked_package w given tenant_uuid = do
  p ← expect given (history package_required)
  raise_unless (p.workflow_id == w.id) (history package_other_workflow)
  raise_unless (p.tenant_id == tenant_uuid) (history package_other_tenant)
  raise_unless (p.case_id == w.case_id) (history package_other_case)
  ok (record {
    workflow_id = p.workflow_id;
    report_id = p.reasoning_result.report.id;
    round_count = length p.rounds;
    decision_summary_present = is_some p.decision_summary;
  })

-- `entries.append(...)`, at the position that the length of the list gives.
abbrev pub append_entry : Kind → List Reference → List Entry → List Entry
append_entry kind references entries =
    entries ++ (record { sequence = length entries; kind = kind; references = references } ∷ [])

unfoldable pub append_shipment : Workflow → Option Uuid → List Entry → List Entry
append_shipment w none entries = entries
append_shipment w (some id) entries =
    append_entry shipment_bound (shipment_id id ∷ case_id w.case_id ∷ tenant_id w.tenant_id ∷ [])
      entries

-- The loop over the supplied evidence, at a position.
unfoldable pub append_supplies : ℕ → List Uuid → List Entry → List Entry
append_supplies position [] entries = entries
append_supplies position (id ∷ ids) entries =
    append_supplies (suc position) ids
      (append_entry evidence_supplied (evidence_id id ∷ supply_position position ∷ []) entries)

abbrev pub round_references : Round → List Reference
round_references r =
    round_index r.round_index
    ∷ report_id r.report_id
    ∷ (map analysis_id r.analysis_ids
        ++ (map trace_id r.trace_ids ++ map input_fingerprint r.input_fingerprints))

-- The loop over the rounds.
unfoldable pub append_rounds : List Round → List Entry → List Entry
append_rounds [] entries = entries
append_rounds (r ∷ rs) entries =
    append_rounds rs (append_entry analysis_completed (round_references r) entries)

unfoldable pub append_package : Option PackageReference → List Entry → List Entry
append_package none entries = entries
append_package (some p) entries =
    append_entry final_package_ready
      (workflow_id p.workflow_id ∷ report_id p.report_id ∷ round_count p.round_count ∷ []) entries

-- `_build_entries`
unfoldable pub build_entries : Workflow → Option PackageReference → List Entry
unfolding append_shipment append_supplies append_rounds append_package
build_entries w reference =
    let created =
      append_entry workflow_created
        (workflow_id w.id ∷ tenant_id w.tenant_id ∷ case_id w.case_id ∷ []) [] in
    let bound = append_shipment w w.shipment_id created in
    let supplied = append_supplies 0 w.supplied_evidence_ids bound in
    append_package reference (append_rounds w.rounds supplied)

-- Whether there is a decision summary: that of the result, or else that of the package.
abbrev pub has_summary : Option (Any ReasoningResult) → Option PackageReference → Bool
has_summary (some (typed r)) p = is_some r.decision_summary
has_summary _ (some p) = p.decision_summary_present
has_summary _ none = false

-- The steps that an optional argument asks for.
abbrev pub checked_if_given :
    Workflow → Option (Any ReasoningResult) → Uuid → Result Error (Unit {0})
checked_if_given w none t = ok tt
checked_if_given w (some r) t = checked_result w r t

abbrev pub reference_if_given :
    Workflow → Option (Any Package) → Uuid → Result Error (Option PackageReference)
reference_if_given w none t = ok none
reference_if_given w (some p) t = checked_package w p t >>= λ reference. ok (some reference)

abbrev pub readiness_if_given :
    Workflow → Option (Any ReasoningResult) → Any Uuid → Result Error (Option AssessmentReadiness)
readiness_if_given w none t = ok none
readiness_if_given w (some r) t = check (typed w) r t >>= λ a. ok (some a)

-- `project`, with the readiness service that the service makes itself.
unfoldable pub project :
    Any Workflow
    → Any Uuid
    → Option (Any ReasoningResult)
    → Option (Any Package)
    → Result Error View
unfolding checked_result checked_package build_entries
project given tenant result final = do
  tenant_uuid ← require_tenant_context tenant
  w ← expect given (history workflow_required)
  raise_unless (is_listed w.state) (history malformed_state)
  raise_unless (w.tenant_id == tenant_uuid) (history other_tenant)
  checked_if_given w result tenant_uuid
  reference ← reference_if_given w final tenant_uuid
  readiness ← readiness_if_given w result tenant
  ok (record {
    workflow_id = w.id;
    tenant_id = w.tenant_id;
    case_id = w.case_id;
    shipment_id = w.shipment_id;
    state = w.state;
    entries = build_entries w reference;
    supplied_evidence_ids = w.supplied_evidence_ids;
    open_requirements = w.open_requirements;
    round_count = length w.rounds;
    latest_report_id = Option.map (λ r. r.report_id) (get_last? w.rounds);
    decision_summary_present = has_summary result reference;
    readiness = readiness;
    final_package = reference;
  })
