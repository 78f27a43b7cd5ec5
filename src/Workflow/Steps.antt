-- ===== src/Workflow/Steps.antt =====
-- Every operation of the workflow as one step: where it moves the state, and what it keeps.
use xportra_ai.Base.{
  ◌≡◌, refl, ◌≢◌, inl, inr, true, false, Option, none, some, List, [], ◌∷◌, Any, typed, untyped,
  Result, ok, arith, Result-cases, Distinct, expect_all, is_empty, >>=-eq-ok, Option-cases,
  get_last?,
}
use xportra_ai.Errors.{Uuid, Error, malformed_requirement, malformed_evidence}
use xportra_ai.Workflow.Model.{
  State, information_provided, evidence_pending, applicability_determined, review_required, Round,
  Workflow, ReasoningResult, advance, transitions, member,
}
use xportra_ai.Workflow.Gate.{HasLatest}
use xportra_ai.Workflow.Finalize.{finalize-ok_inv}
use xportra_ai.Workflow.Service.{
  all_distinct, provide_information, note_evidence_pending, record_applicability_determined,
  run_analysis, submit_for_review, request_additional_evidence, supply_evidence, finalize, lacking,
}
use xportra_ai.Workflow.Intake.{
  ShipmentReference, SuppliedEvidenceReference, bind_shipment, supply_to_workflow,
}
use xportra_ai.Workflow.Calls.{
  Call, provide, await, determine, submit, analyze, request_evidence, supply, bind, hand_over,
  close, first, perform, IsTarget, Step, advanced, analyzed, requested, supplied, rebound, attached,
  closed,
}

module _ (w w' : Workflow) (t : Any Uuid) where
  advance_lem :
      (target : State)
      → advance (typed w) t target ≡ ok w'
      → (t ≡ typed w.tenant_id)
        × (member target (transitions w.state) ≡ true)
        × (w' ≡ record w { state = target })
  unfolding advance
  advance_lem target e = ground arith

all_distinct-Distinct : (ids : List Uuid) → all_distinct ids ≡ true → Distinct ids
all_distinct-Distinct [] h = tt
all_distinct-Distinct (x ∷ xs) h = ground (arith, all_distinct-Distinct xs)

expect_all-ne-nil :
    (items : List (Any Uuid)) (ids : List Uuid) (e : Error)
    → is_empty items ≡ false
    → expect_all items e ≡ ok ids
    → ids ≢ []
expect_all-ne-nil [] ids e h q = cc
expect_all-ne-nil (untyped ∷ items) ids e h q = cc
expect_all-ne-nil (typed a ∷ items) ids e h q =
    let (rest, p, r) = >>=-eq-ok (expect_all items e) (λ l. ok (a ∷ l)) q in λ n. cc

module _ (w w' : Workflow) (t : Any Uuid) where
  advance-Step :
      (target : State)
      → IsTarget target
      → advance (typed w) t target ≡ ok w'
      → (t ≡ typed w.tenant_id) × Step w w'
  advance-Step target k e = let h = advance_lem w w' t target e in (h.0, advanced target k h.1 h.2)

  request-Step :
      (ids : Any (List (Any Uuid)))
      → request_additional_evidence (typed w) t ids ≡ ok w'
      → (t ≡ typed w.tenant_id) × Step w w'
  unfolding request_additional_evidence
  request-Step untyped e = absurd (ground arith)
  request-Step (typed items) e =
      elim (Result-cases (expect_all items (Error.workflow malformed_requirement))) [
        | inr (x, q) ↦ absurd (ground arith)
        | inl (ids, q) ↦ (
          ground arith,
          requested ids (ground arith) (expect_all-ne-nil items ids _ (ground arith) q)
              (all_distinct-Distinct ids (ground arith)) (ground arith),
        )
      ]

  supply-Step :
      (ids : Any (List (Any Uuid)))
      → supply_evidence (typed w) t ids ≡ ok w'
      → (t ≡ typed w.tenant_id) × Step w w'
  unfolding supply_evidence
  supply-Step untyped e = absurd (ground arith)
  supply-Step (typed items) e =
      elim (Result-cases (expect_all items (Error.workflow malformed_evidence))) [
        | inr (x, q) ↦ absurd (ground arith)
        | inl (ids, q) ↦ (
          ground arith,
          supplied ids (ground arith) (expect_all-ne-nil items ids _ (ground arith) q)
              (ground arith),
        )
      ]

  hand_over-Step :
      (ev : Any SuppliedEvidenceReference)
      → supply_to_workflow (typed w) ev t ≡ ok w'
      → (t ≡ typed w.tenant_id) × Step w w'
  unfolding supply_to_workflow
  hand_over-Step untyped e = absurd (ground arith)
  hand_over-Step (typed ev) e =
      (ground arith, supplied (ev.evidence_id ∷ []) (ground arith) (λ n. cc) (ground arith))

  bind-Step :
      (s : Any ShipmentReference)
      → bind_shipment (typed w) s t ≡ ok w'
      → (t ≡ typed w.tenant_id) × Step w w'
  unfolding bind_shipment
  bind-Step untyped e = absurd (ground arith)
  bind-Step (typed s) e = elim (Option-cases w.shipment_id) [
    | inl free ↦ (ground arith, attached s.shipment_id free (ground arith) (ground arith))
    | inr (old, taken) ↦ (ground arith, rebound (ground arith) (ground arith))
  ]

  run_analysis-Step :
      {Request : Type 0} (analyze_case : Request → Uuid → Uuid → Result Error ReasoningResult)
      (q : Request)
      → first (run_analysis analyze_case (typed w) q t) ≡ ok w'
      → (t ≡ typed w.tenant_id) × Step w w'
  unfolding run_analysis
  run_analysis-Step analyze_case q e = elim (Result-cases (analyze_case q w.tenant_id w.case_id)) [
    | inr (x, p) ↦ absurd (ground arith)
    | inl (r, p) ↦
        (ground arith, analyzed r (ground arith) (ground arith) (ground arith) (ground arith))
  ]

last-ne-nil : (rs : List Round) → get_last? rs ≢ none → rs ≢ []
last-ne-nil [] h e = absurd (h refl)
last-ne-nil (x ∷ rs) h e = cc

HasLatest-ne-none :
    (w : Workflow) (r : ReasoningResult) (o : Option Round) → HasLatest w r o → o ≢ none
HasLatest-ne-none w r none h e = h
HasLatest-ne-none w r (some l) h e = cc

close-Step :
    (w w' : Workflow) (t : Any Uuid) (r : ReasoningResult)
    → first (finalize none w r t) ≡ ok w'
    → (t ≡ typed w.tenant_id) × Step w w'
close-Step w w' t r e = elim (Result-cases (finalize none w r t)) [
  | inr (x, q) ↦ absurd (ground arith)
  | inl (p, q) ↦
      let (own, k, shape) = finalize-ok_inv w r t p q in
      (
        own,
        closed (lacking r.analyses) k.in_review (ground (arith, k.has_shipment))
            (last-ne-nil w.rounds (HasLatest-ne-none w r _ k.latest_round)) (ground (arith, shape)),
      )
]

-- Every call that succeeds is made under the workflow's own tenant, and does one of the steps.
pub perform-Step :
    {Request : Type 0} (analyze_case : Request → Uuid → Uuid → Result Error ReasoningResult)
    (c : Call Request) (w w' : Workflow) (t : Any Uuid)
    → perform analyze_case c w t ≡ ok w'
    → (t ≡ typed w.tenant_id) × Step w w'
unfolding perform provide_information note_evidence_pending record_applicability_determined
    submit_for_review
perform-Step f provide w w' t e = advance-Step w w' t information_provided (ground arith) e
perform-Step f await w w' t e = advance-Step w w' t evidence_pending (ground arith) e
perform-Step f determine w w' t e = advance-Step w w' t applicability_determined (ground arith) e
perform-Step f submit w w' t e = advance-Step w w' t review_required (ground arith) e
perform-Step f (analyze q) w w' t e = run_analysis-Step w w' t f q e
perform-Step f (request_evidence ids) w w' t e = request-Step w w' t ids e
perform-Step f (supply ids) w w' t e = supply-Step w w' t ids e
perform-Step f (bind s) w w' t e = bind-Step w w' t s e
perform-Step f (hand_over ev) w w' t e = hand_over-Step w w' t ev e
perform-Step f (close r) w w' t e = close-Step w w' t r e
