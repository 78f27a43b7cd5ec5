-- ===== src/Workflow/Views.antt =====
-- Which workflows have a history that can be projected, and what it shows.
use xportra_ai.Base.{
  ◌≡◌, refl, sym, ap, subst, false, Option, none, some, [], ◌∷◌, Any, typed, untyped, arith, ok,
  raise_unless, ◌==◌, is_some, length, get_last?,
}
use mathlib.Core.Option
use xportra_ai.Errors.{Uuid, history, malformed_state, other_tenant}
use xportra_ai.Workflow.Model.{Workflow, Round, ReasoningResult, Package, is_listed}
use xportra_ai.Workflow.Readiness.{
  AssessmentReadiness, wrong_state, check, identity_issues, round_issues,
}
use xportra_ai.Workflow.Service.{finalize}
use xportra_ai.Workflow.Gate.{IsReady}
use xportra_ai.Workflow.Finalize.{closed_workflow, package_of, finalize-ok_inv, round_issues_iff}
use xportra_ai.Workflow.Projection.{
  PackageReference, View, checked_round, checked_result, checked_package, build_entries,
  checked_if_given, reference_if_given, readiness_if_given, project,
}
use xportra_ai.Base.{>>=-eq-ok, >>-eq-ok, raise_unless-eq-ok, ok-injective, ==_iff}
use xportra_ai.Workflow.Model.{assessment_package_ready}
use xportra_ai.Workflow.Gate.{HasLatest}
use xportra_ai.Workflow.Narrative.{story, numbered, build_entries_lem}

-- What a view shows of a workflow.
pub record Shows (w : Workflow) (result : Option (Any ReasoningResult))
    (final : Option (Any Package)) (v : View) : Type 0 where
  pub whole_story : v.entries ≡ numbered 0 (story w v.final_package)
  pub same_workflow :
      (v.workflow_id ≡ w.id)
      × (v.tenant_id ≡ w.tenant_id)
      × (v.case_id ≡ w.case_id)
      × (v.state ≡ w.state)
  pub packaged : is_some v.final_package ≡ is_some final
  pub gated : is_some v.readiness ≡ is_some result

reference_if_given_lem :
    (w : Workflow) (o : Option (Any Package)) (t : Uuid) (p : Option PackageReference)
    → reference_if_given w o t ≡ ok p
    → is_some p ≡ is_some o
reference_if_given_lem w none t p e = ap is_some (sym (ok-injective e))
reference_if_given_lem w (some x) t p e =
    let (reference, checked, made) =
      >>=-eq-ok (checked_package w x t) (λ reference. ok (some reference)) e in
    ap is_some (sym (ok-injective made))

readiness_if_given_lem :
    (w : Workflow) (o : Option (Any ReasoningResult)) (t : Any Uuid)
    (a : Option AssessmentReadiness)
    → readiness_if_given w o t ≡ ok a
    → is_some a ≡ is_some o
readiness_if_given_lem w none t a e = ap is_some (sym (ok-injective e))
readiness_if_given_lem w (some x) t a e =
    let (gate, checked, made) = >>=-eq-ok (check (typed w) x t) (λ a. ok (some a)) e in
    ap is_some (sym (ok-injective made))

-- If a projection returns, it is of a workflow under its own tenant, and its entries, numbered
-- from 0 without a gap, are the creation, the shipment if there is one, each supply in its order,
-- each round in its order, and the package if one is given.
pub project-Shows :
    (given : Any Workflow) (tenant : Any Uuid) (result : Option (Any ReasoningResult))
    (final : Option (Any Package)) (v : View)
    → project given tenant result final ≡ ok v
    → (w : Workflow) × (given ≡ typed w) × (tenant ≡ typed w.tenant_id) × Shows w result final v
unfolding project
project-Shows given untyped result final v e = absurd (cc e)
project-Shows untyped (typed t) result final v e = absurd (cc e)
project-Shows (typed w) (typed t) result final v e =
    let (listed, a) = >>-eq-ok (raise_unless (is_listed w.state) (history malformed_state)) _ e in
    let (own, b) = >>-eq-ok (raise_unless (w.tenant_id == t) (history other_tenant)) _ a in
    let (attached, c) = >>-eq-ok (checked_if_given w result t) _ b in
    let (reference, packaged, d) = >>=-eq-ok (reference_if_given w final t) _ c in
    let (readiness, gated, f) = >>=-eq-ok (readiness_if_given w result (typed t)) _ d in
    let same =
      (==_iff w.tenant_id t).0 (raise_unless-eq-ok (w.tenant_id == t) (history other_tenant) own) in
    (
      w,
      refl,
      ap typed (sym same),
      subst (Shows w result final) (ok-injective f) (record {
        whole_story = build_entries_lem w reference;
        same_workflow = (refl, refl, refl, refl);
        packaged = reference_if_given_lem w final t reference packaged;
        gated = readiness_if_given_lem w result (typed t) readiness gated;
      }),
    )

-- The gate on a workflow that is closed with its result: it is no longer in review, and nothing
-- else is amiss.
closed_check :
    (w : Workflow) (r : ReasoningResult)
    → IsReady w r w.tenant_id
    → check (typed (closed_workflow w r)) (typed r) (typed w.tenant_id)
      ≡ ok (record { ready = false; reasons = wrong_state ∷ [] })
unfolding check
closed_check w r k =
    let identity : identity_issues (closed_workflow w r) r w.tenant_id ≡ wrong_state ∷ [] =
      unfold identity_issues in ground (arith, k.own_result, k.same_case, k.has_shipment) in
    let rounds : round_issues (closed_workflow w r) r (get_last? w.rounds) ≡ [] =
      (round_issues_iff w r (get_last? w.rounds)).1 k.latest_round in
    rw (identity, rounds) refl

latest_matches :
    (w : Workflow) (r : ReasoningResult) (o : Option Round)
    → HasLatest w r o
    → checked_round r o ≡ ok tt
latest_matches w r none h = elim h [ ]
latest_matches w r (some l) h =
    let same = (==_iff r.report.id l.report_id).1 h.same_report in rw same refl

closed_result :
    (w : Workflow) (r : ReasoningResult)
    → IsReady w r w.tenant_id
    → checked_result (closed_workflow w r) (typed r) w.tenant_id ≡ ok tt
unfolding checked_result
closed_result w r k =
    let own = (==_iff r.tenant_id w.tenant_id).1 k.own_result in
    let same = (==_iff r.case_id w.case_id).1 k.same_case in
    rw (own, same) (latest_matches w r (get_last? w.rounds) k.latest_round)

-- The reference to the package that `finalize` makes.
abbrev pub reference_of : Workflow → ReasoningResult → PackageReference
reference_of w r = record {
  workflow_id = w.id;
  report_id = r.report.id;
  round_count = length w.rounds;
  decision_summary_present = is_some r.decision_summary;
}

-- The view of a finalized workflow: it refers to the package, says whether there is a decision
-- summary, has the whole story, and shows the gate's answer, which lists the state and nothing
-- else.
abbrev pub IsProjected : Workflow → ReasoningResult → Any Uuid → Workflow × Package → Type 0
IsProjected w r t p =
    (v : View) × (project (typed p.0) t (some (typed r)) (some (typed p.1)) ≡ ok v)
    × (v.final_package ≡ some (reference_of w r))
    × (v.decision_summary_present ≡ is_some r.decision_summary)
    × (v.entries ≡ numbered 0 (story p.0 (some (reference_of w r))))
    × (v.readiness ≡ some (record { ready = false; reasons = wrong_state ∷ [] }))

closed_view : Workflow → ReasoningResult → View
closed_view w r = record {
  workflow_id = w.id;
  tenant_id = w.tenant_id;
  case_id = w.case_id;
  shipment_id = w.shipment_id;
  state = assessment_package_ready;
  entries = build_entries (closed_workflow w r) (some (reference_of w r));
  supplied_evidence_ids = w.supplied_evidence_ids;
  open_requirements = (closed_workflow w r).open_requirements;
  round_count = length w.rounds;
  latest_report_id = Option.map (λ r. r.report_id) (get_last? w.rounds);
  decision_summary_present = is_some r.decision_summary;
  readiness = some (record { ready = false; reasons = wrong_state ∷ [] });
  final_package = some (reference_of w r);
}

closed-IsProjected :
    (w : Workflow) (r : ReasoningResult)
    → IsReady w r w.tenant_id
    → IsProjected w r (typed w.tenant_id) (closed_workflow w r, package_of w r)
unfolding project closed_view
closed-IsProjected w r k =
    let own = (==_iff w.tenant_id w.tenant_id).1 refl in
    let same_id = (==_iff w.id w.id).1 refl in
    let same_case = (==_iff w.case_id w.case_id).1 refl in
    (
      closed_view w r,
      rw (own, same_id, same_case, closed_result w r k, closed_check w r k) refl,
      refl,
      refl,
      build_entries_lem (closed_workflow w r) (some (reference_of w r)),
      refl,
    )

-- If `finalize` returns, the history of the workflow that it returns can be projected with the
-- result and the package, and is as `IsProjected` says: with the whole story, the package and the
-- decision summary, and with the gate's answer, which now lists the state and nothing else.
pub finalize_project :
    (w : Workflow) (r : ReasoningResult) (t : Any Uuid) (p : Workflow × Package)
    → finalize none w r t ≡ ok p
    → IsProjected w r t p
finalize_project w r t p e =
    let (own, k, made) = finalize-ok_inv w r t p e in
    subst (λ p. IsProjected w r t p) (sym made)
      (subst (λ t. IsProjected w r t (closed_workflow w r, package_of w r)) (sym own)
        (closed-IsProjected w r k))
