-- ===== src/Workflow/Calls.antt =====
-- The operations of a workflow as calls, and the steps that they take (xportra/domain/
-- compliance_workflow.py, xportra/domain/shipment_intake.py).
use xportra_ai.Base.{
  ◌≡◌, ◌≢◌, ◌⊎◌, true, none, some, List, [], ◌∷◌, ◌++◌, Any, typed, Result, ok, err, Distinct,
}
use xportra_ai.Errors.{Uuid, Error}
use xportra_ai.Workflow.Model.{
  State, created, information_provided, evidence_pending, applicability_determined,
  analysis_available, review_required, additional_evidence_requested, reanalysis_required,
  assessment_package_ready, Workflow, ReasoningResult, transitions, member,
}
use xportra_ai.Workflow.Service.{
  append_new, provide_information, note_evidence_pending, record_applicability_determined,
  run_analysis, submit_for_review, request_additional_evidence, supply_evidence, finalize, round_of,
}
use xportra_ai.Workflow.Intake.{
  ShipmentReference, SuppliedEvidenceReference, bind_shipment, supply_to_workflow,
}

-- One call on a workflow.
pub data Call (Request : Type 0) : Type 0 where
  provide await determine submit : Call Request
  analyze : Request → Call Request
  request_evidence : Any (List (Any Uuid)) → Call Request
  supply : Any (List (Any Uuid)) → Call Request
  bind : Any ShipmentReference → Call Request
  hand_over : Any SuppliedEvidenceReference → Call Request
  close : ReasoningResult → Call Request

-- The workflow of a call that returns it with something else.
abbrev pub first {ℓ} : {A : Type ℓ} → Result Error (Workflow × A) → Result Error Workflow
first (ok (w, a)) = ok w
first (err e) = err e

module _ {Request : Type 0}
    (analyze_case : Request → Uuid → Uuid → Result Error ReasoningResult) where
  unfoldable pub perform : Call Request → Workflow → Any Uuid → Result Error Workflow
  perform provide w t = provide_information (typed w) t
  perform await w t = note_evidence_pending (typed w) t
  perform determine w t = record_applicability_determined (typed w) t
  perform submit w t = submit_for_review (typed w) t
  perform (analyze q) w t = first (run_analysis analyze_case (typed w) q t)
  perform (request_evidence ids) w t = request_additional_evidence (typed w) t ids
  perform (supply ids) w t = supply_evidence (typed w) t ids
  perform (bind s) w t = bind_shipment (typed w) s t
  perform (hand_over e) w t = supply_to_workflow (typed w) e t
  perform (close r) w t = first (finalize none w r t)

-- The moves that the operations make: those of the table, and the one that `supply_evidence`
-- makes from a review.
abbrev pub Moves : State → State → Type 0
Moves s s' =
    (member s' (transitions s) ≡ true) ⊎ ((s ≡ review_required) × (s' ≡ reanalysis_required))

abbrev pub IsEarly : State → Type 0
IsEarly s = (s ≡ created) ⊎ (s ≡ information_provided) ⊎ (s ≡ evidence_pending)

-- The states that `_advance` is called with.
abbrev pub IsTarget : State → Type 0
IsTarget s = IsEarly s ⊎ (s ≡ applicability_determined) ⊎ (s ≡ review_required)

-- What a successful call does to a workflow, with all that it changes.
pub data Step (w : Workflow) : Workflow → Type 0 where
  advanced :
      {w' : Workflow} (s : State)
      → IsTarget s
      → member s (transitions w.state) ≡ true
      → w' ≡ record w { state = s }
      → Step w w'
  analyzed :
      {w' : Workflow} (r : ReasoningResult)
      → (w.state ≡ applicability_determined) ⊎ (w.state ≡ reanalysis_required)
      → r.case_id ≡ w.case_id
      → r.tenant_id ≡ w.tenant_id
      → w' ≡ record w {
        state = analysis_available;
        rounds = w.rounds ++ (round_of w r ∷ []);
        open_requirements = [];
      }
      → Step w w'
  requested :
      {w' : Workflow} (ids : List Uuid)
      → (w.state ≡ analysis_available) ⊎ (w.state ≡ review_required)
      → ids ≢ []
      → Distinct ids
      → w' ≡ record w { state = additional_evidence_requested; open_requirements = ids }
      → Step w w'
  supplied :
      {w' : Workflow} (ids : List Uuid)
      → (w.state ≡ additional_evidence_requested) ⊎ (w.state ≡ review_required)
      → ids ≢ []
      → w' ≡ record w {
        state = reanalysis_required;
        supplied_evidence_ids = append_new w.supplied_evidence_ids ids;
      }
      → Step w w'
  rebound : {w' : Workflow} → w' ≡ w → w.shipment_id ≢ none → Step w w'
  attached :
      {w' : Workflow} (sid : Uuid)
      → w.shipment_id ≡ none
      → IsEarly w.state
      → w' ≡ record w { shipment_id = some sid }
      → Step w w'
  closed :
      {w' : Workflow} (ids : List Uuid)
      → w.state ≡ review_required
      → w.shipment_id ≢ none
      → w.rounds ≢ []
      → w' ≡ record w { state = assessment_package_ready; open_requirements = ids }
      → Step w w'
