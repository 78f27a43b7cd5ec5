-- ===== src/Workflow/Closing.antt =====
-- What a finalized workflow does with a call.
use xportra_ai.Base.{
  ◌≡◌, refl, inl, inr, none, some, List, Any, typed, untyped, Result, ok, arith, Result-cases,
  Option-cases,
}
use xportra_ai.Errors.{Uuid, Error}
use xportra_ai.Workflow.Model.{
  assessment_package_ready, State, Workflow, ReasoningResult, advance, transitions,
  information_provided, evidence_pending, applicability_determined, review_required,
}
use xportra_ai.Workflow.Service.{
  provide_information, note_evidence_pending, record_applicability_determined, run_analysis,
  submit_for_review, request_additional_evidence, supply_evidence, finalize,
}
use xportra_ai.Workflow.Intake.{ShipmentReference, bind_shipment, supply_to_workflow}
use xportra_ai.Workflow.Finalize.{finalize-ok_inv}
use xportra_ai.Workflow.Calls.{
  Call, provide, await, determine, submit, analyze, request_evidence, supply, bind, hand_over,
  close, first, perform,
}

-- The call binds, under the workflow's tenant, the shipment that the workflow has.
pub data Rebinds {Request : Type 0} (c : Call Request) (w : Workflow) (t : Any Uuid) : Type 0 where
  again :
      (s : ShipmentReference)
      → c ≡ bind (typed s)
      → t ≡ typed w.tenant_id
      → w.shipment_id ≡ some s.shipment_id
      → Rebinds c w t

module _ (w w' : Workflow) (t : Any Uuid) (h : w.state ≡ assessment_package_ready) where
  no_advance : (target : State) → advance (typed w) t target ≡ ok w' → ⊥
  unfolding advance transitions
  no_advance target e = ground arith

  no_request :
      (ids : Any (List (Any Uuid))) → request_additional_evidence (typed w) t ids ≡ ok w' → ⊥
  unfolding request_additional_evidence
  no_request ids e = ground arith

  no_supply : (ids : Any (List (Any Uuid))) → supply_evidence (typed w) t ids ≡ ok w' → ⊥
  unfolding supply_evidence
  no_supply ids e = ground arith

  no_close : (r : ReasoningResult) → first (finalize none w r t) ≡ ok w' → ⊥
  no_close r e = elim (Result-cases (finalize none w r t)) [
    | inr (x, q) ↦ ground arith
    | inl (p, q) ↦ let (own, k, shape) = finalize-ok_inv w r t p q in ground (arith, k.in_review)
  ]

module _ {Request : Type 0}
    (analyze_case : Request → Uuid → Uuid → Result Error ReasoningResult) where
  -- Of the calls on a finalized workflow only the repeated binding returns.
  pub closed_call :
      (c : Call Request) (w w' : Workflow) (t : Any Uuid)
      → w.state ≡ assessment_package_ready
      → perform analyze_case c w t ≡ ok w'
      → Rebinds c w t
  unfolding perform provide_information note_evidence_pending record_applicability_determined
      submit_for_review run_analysis supply_to_workflow bind_shipment
  closed_call provide w w' t h e = absurd (no_advance w w' t h information_provided e)
  closed_call await w w' t h e = absurd (no_advance w w' t h evidence_pending e)
  closed_call determine w w' t h e = absurd (no_advance w w' t h applicability_determined e)
  closed_call submit w w' t h e = absurd (no_advance w w' t h review_required e)
  closed_call (analyze q) w w' t h e = absurd (ground arith)
  closed_call (request_evidence ids) w w' t h e = absurd (no_request w w' t h ids e)
  closed_call (supply ids) w w' t h e = absurd (no_supply w w' t h ids e)
  closed_call (hand_over ev) w w' t h e = absurd (ground arith)
  closed_call (close r) w w' t h e = absurd (no_close w w' t h r e)
  closed_call (bind untyped) w w' t h e = absurd (ground arith)
  closed_call (bind (typed s)) w w' t h e = elim (Option-cases w.shipment_id) [
    | inl free ↦ absurd (ground arith)
    | inr (old, taken) ↦ again s refl (ground arith) (ground arith)
  ]
