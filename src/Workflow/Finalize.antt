-- ===== src/Workflow/Finalize.antt =====
-- Finalization: when it succeeds, and what it hands out (compliance_workflow.py `finalize`).
use xportra_ai.Base.{
  ◌≡◌, refl, ◌↔◌, true, false, Option, none, some, List, [], ◌∷◌, ◌++◌, typed, untyped, ok, err,
  arith, Any, is_empty, get_last?, inl, inr, Bool-cases, ◌==◌, ==_iff, is_some, ap, sym,
  ok-injective, ◌∙◌, subst,
}
use xportra_ai.Errors.{Uuid, Error, malformed_state}
use xportra_ai.Workflow.Model.{
  assessment_package_ready, is_listed, review_required, Round, Workflow, ReasoningResult, Package,
}
use xportra_ai.Workflow.Readiness.{AssessmentReadiness, Issue, check, identity_issues, round_issues}
use xportra_ai.Workflow.Service.{finalize, lacking}
use xportra_ai.Workflow.Gate.{
  IsReady, HasLatest, check_integrity→IsLinked, IsLinked→check_integrity,
}

append-nil_iff : (xs ys : List Issue) → (xs ++ ys ≡ []) ↔ ((xs ≡ []) × (ys ≡ []))
append-nil_iff [] ys = ground arith
append-nil_iff (x ∷ xs) ys = ground arith

module _ (w : Workflow) (r : ReasoningResult) where
  pub round_issues_iff : (o : Option Round) → (round_issues w r o ≡ []) ↔ HasLatest w r o
  unfolding round_issues
  round_issues_iff none = ground arith
  round_issues_iff (some l) = elim (Bool-cases (r.report.id == l.report_id)) [
    | inl same ↦ (
      λ h. check_integrity→IsLinked w r l ((==_iff _ _).0 same) (rw same at h),
      λ k. rw same (IsLinked→check_integrity w r l k),
    )
    | inr other ↦ (λ h. absurd (cc (rw other at h)), λ k. absurd (ground (arith, k.same_report)))
  ]

  identity_issues-nil :
      (t : Uuid)
      → (identity_issues w r t ≡ []) ↔ (
          (w.tenant_id ≡ t)
          × (r.tenant_id ≡ t)
          × (r.case_id ≡ w.case_id)
          × (w.state ≡ review_required)
          × (is_some w.shipment_id ≡ true))
  unfolding identity_issues
  identity_issues-nil t = ground arith

  -- The issues that `check` notes, in its order.
  abbrev issues : Uuid → List Issue
  issues t = identity_issues w r t ++ round_issues w r (get_last? w.rounds)

  no_issues→IsReady : (t : Uuid) → issues t ≡ [] → IsReady w r t
  no_issues→IsReady t h =
      let split = (append-nil_iff (identity_issues w r t) _).0 h in
      let (a, b, c, d, e) = (identity_issues-nil t).0 split.0 in
      record {
        own_workflow = a;
        own_result = b;
        same_case = c;
        in_review = d;
        has_shipment = e;
        latest_round = (round_issues_iff _).0 split.1;
      }

  IsReady→no_issues : (t : Uuid) → IsReady w r t → issues t ≡ []
  IsReady→no_issues t k = (append-nil_iff (identity_issues w r t) _).1 (
    (identity_issues-nil t).1
        (k.own_workflow, k.own_result, k.same_case, k.in_review, k.has_shipment),
    (round_issues_iff _).1 k.latest_round,
  )

  check_lem :
      (t : Uuid)
      → is_listed w.state ≡ true
      → check (typed w) (typed r) (typed t)
        ≡ ok (record { ready = is_empty (issues t); reasons = issues t })
  unfolding check
  check_lem t h = ground arith

check_unlisted :
    (w : Workflow) (r : ReasoningResult) (t : Uuid)
    → is_listed w.state ≡ false
    → check (typed w) (typed r) (typed t) ≡ err (Error.workflow malformed_state)
unfolding check
check_unlisted w r t h = ground arith

is_empty_iff : (xs : List Issue) → (is_empty xs ≡ true) ↔ (xs ≡ [])
is_empty_iff xs = ground arith

-- For a workflow whose state is one of the nine, the gate always answers. Its answer is "ready"
-- exactly when the process facts of `IsReady` hold, and exactly when it lists no reason.
pub check_decides :
    (w : Workflow) (r : ReasoningResult) (t : Uuid)
    → is_listed w.state ≡ true
    → (a : AssessmentReadiness) × (check (typed w) (typed r) (typed t) ≡ ok a)
      × ((a.ready ≡ true) ↔ IsReady w r t)
      × ((a.ready ≡ true) ↔ (a.reasons ≡ []))
check_decides w r t h =
    let found = issues w r t in
    (
      record { ready = is_empty found; reasons = found },
      check_lem w r t h,
      (
        λ e. no_issues→IsReady w r t ((is_empty_iff found).0 e),
        λ k. (is_empty_iff found).1 (IsReady→no_issues w r t k),
      ),
      is_empty_iff found,
    )

-- The workflow and the package that finalization produces: everything by reference, with the
-- requirements that still lack information.
abbrev pub closed_workflow : Workflow → ReasoningResult → Workflow
closed_workflow w r = record w {
  state = assessment_package_ready;
  open_requirements = lacking r.analyses;
}

abbrev pub package_of : Workflow → ReasoningResult → Package
package_of w r = record {
  workflow_id = w.id;
  tenant_id = w.tenant_id;
  case_id = w.case_id;
  shipment_id = w.shipment_id;
  state = assessment_package_ready;
  reasoning_result = r;
  decision_summary = r.decision_summary;
  rounds = w.rounds;
  open_requirements = lacking r.analyses;
}

-- A workflow that is ready is finalized: it closes, and the package carries the result, the
-- decision summary and the rounds by reference.
pub finalize_of_IsReady :
    (w : Workflow) (r : ReasoningResult) (t : Uuid)
    → IsReady w r t
    → finalize none w r (typed t) ≡ ok (closed_workflow w r, package_of w r)
unfolding finalize
finalize_of_IsReady w r t k =
    let listed : is_listed w.state ≡ true = rw k.in_review refl in
    rw (check_lem w r t listed, IsReady→no_issues w r t k, k.own_workflow) refl

finalize-ok→IsReady :
    (w : Workflow) (r : ReasoningResult) (t : Uuid) (p : Workflow × Package)
    → finalize none w r (typed t) ≡ ok p
    → IsReady w r t
unfolding finalize
finalize-ok→IsReady w r t p e = elim (Bool-cases (is_listed w.state)) [
  | inl listed ↦
      no_issues→IsReady w r t
        ((is_empty_iff (issues w r t)).0 (ground (arith, check_lem w r t listed)))
  | inr other ↦ absurd (ground (arith, check_unlisted w r t other))
]

-- `finalize` returns exactly when the workflow is ready with that result under that tenant.
pub finalize_iff :
    (w : Workflow) (r : ReasoningResult) (t : Uuid)
    → ((p : Workflow × Package) × (finalize none w r (typed t) ≡ ok p)) ↔ IsReady w r t
finalize_iff w r t = (
  λ (p, e). finalize-ok→IsReady w r t p e,
  λ k. ((closed_workflow w r, package_of w r), finalize_of_IsReady w r t k),
)

-- The workflow that `finalize` returns is the closed one.
pub finalize-ok_inv :
    (w : Workflow) (r : ReasoningResult) (t : Any Uuid) (p : Workflow × Package)
    → finalize none w r t ≡ ok p
    → (t ≡ typed w.tenant_id)
      × IsReady w r w.tenant_id
      × (p ≡ (closed_workflow w r, package_of w r))
finalize-ok_inv w r untyped p e = absurd (unfold finalize check in cc e)
finalize-ok_inv w r (typed t) p e =
    let k = finalize-ok→IsReady w r t p e in
    let same = k.own_workflow in
    (
      ap typed (sym same),
      subst (IsReady w r) (sym same) k,
      ok-injective (sym e ∙ finalize_of_IsReady w r t k),
    )
