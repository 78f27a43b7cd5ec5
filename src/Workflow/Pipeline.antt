-- ===== src/Workflow/Pipeline.antt =====
-- The way from an analysis to the package: run, submit, finalize.
use xportra_ai.Base.{
  ◌≡◌, refl, ◌⊎◌, true, none, some, List, [], ◌∷◌, ◌++◌, typed, Result, ok, arith, is_some,
  get_last?, All, contains,
}
use xportra_ai.Errors.{Uuid, Error}
use xportra_ai.Workflow.Model.{
  applicability_determined, analysis_available, review_required, reanalysis_required, Round,
  Workflow, Analysis, Trace, ReasoningResult,
}
use xportra_ai.Workflow.Readiness.{analysis_ids}
use xportra_ai.Workflow.Service.{run_analysis, submit_for_review, finalize, round_of}
use xportra_ai.Workflow.Gate.{IsReady, IsLinked}
use xportra_ai.Workflow.Finalize.{closed_workflow, package_of, finalize_of_IsReady}

-- What the reasoning application promises of a result for a tenant and a case.
pub record IsCoherent (t c : Uuid) (r : ReasoningResult) : Type 0 where
  pub own_tenant : r.tenant_id ≡ t
  pub own_case : r.case_id ≡ c
  pub report_analyses : analysis_ids r.report.analyses ≡ analysis_ids r.analyses
  pub analysis_tenants : All (λ (a : Analysis). a.tenant_id ≡ t) r.analyses
  pub trace_reports : All (λ (x : Trace). x.report_id ≡ some r.report.id) r.traces
  pub trace_analyses :
      All (λ (x : Trace). contains (analysis_ids r.analyses) x.analysis_id ≡ true) r.traces
  pub trace_tenants : All (λ (x : Trace). x.tenant_id ≡ t) r.traces

-- The workflow that an analysis returns, and the one that is then submitted.
abbrev pub analyzed_workflow : Workflow → ReasoningResult → Workflow
analyzed_workflow w r = record w {
  state = analysis_available;
  rounds = w.rounds ++ (round_of w r ∷ []);
  open_requirements = [];
}

abbrev pub submitted_workflow : Workflow → ReasoningResult → Workflow
submitted_workflow w r = record (analyzed_workflow w r) { state = review_required }

get_last?-snoc : (rs : List Round) (x : Round) → get_last? (rs ++ (x ∷ [])) ≡ some x
get_last?-snoc [] x = refl
get_last?-snoc (y ∷ []) x = refl
get_last?-snoc (y ∷ z ∷ rs) x = get_last?-snoc (z ∷ rs) x

module _ (w : Workflow) (r : ReasoningResult) (k : IsCoherent w.tenant_id w.case_id r) where
  round_of-IsLinked : IsLinked (submitted_workflow w r) r (round_of w r)
  unfolding round_of
  round_of-IsLinked = record {
    same_report = refl;
    same_analyses = refl;
    same_report_analyses = k.report_analyses;
    analysis_tenants = k.analysis_tenants;
    same_traces = refl;
    same_fingerprints = refl;
    trace_reports = k.trace_reports;
    trace_analyses = k.trace_analyses;
    trace_tenants = k.trace_tenants;
  }

  submitted-IsReady : is_some w.shipment_id ≡ true → IsReady (submitted_workflow w r) r w.tenant_id
  submitted-IsReady h = record {
    own_workflow = refl;
    own_result = k.own_tenant;
    same_case = k.own_case;
    in_review = refl;
    has_shipment = h;
    latest_round = rw (get_last?-snoc w.rounds (round_of w r)) round_of-IsLinked;
  }

module _ {Request : Type 0} (analyze_case : Request → Uuid → Uuid → Result Error ReasoningResult)
    (w : Workflow) (q : Request) (r : ReasoningResult) where
  -- If the reasoning application answers a workflow that has a shipment and awaits an analysis
  -- with a coherent result, then the analysis, the submission and the finalization with that
  -- result all succeed, and the package holds the result and every round so far.
  pub analyze_submit_finalize :
      (w.state ≡ applicability_determined) ⊎ (w.state ≡ reanalysis_required)
      → is_some w.shipment_id ≡ true
      → analyze_case q w.tenant_id w.case_id ≡ ok r
      → IsCoherent w.tenant_id w.case_id r
      → let t = typed w.tenant_id in
        (run_analysis analyze_case (typed w) q t ≡ ok (analyzed_workflow w r, r))
        × (submit_for_review (typed (analyzed_workflow w r)) t ≡ ok (submitted_workflow w r))
        × (finalize none (submitted_workflow w r) r t
            ≡ ok
                (closed_workflow (submitted_workflow w r) r, package_of (submitted_workflow w r) r))
  unfolding run_analysis submit_for_review
  analyze_submit_finalize s h e k = (
    ground (arith, k.own_tenant, k.own_case),
    ground arith,
    finalize_of_IsReady (submitted_workflow w r) r w.tenant_id (submitted-IsReady w r k h),
  )
