-- ===== src/Workflow/Gate.antt =====
-- The readiness gate against what it promises: process facts, each stated once.
use xportra_ai.Base.{
  ℕ, ◌≡◌, ◌↔◌, Bool, true, false, not, Option, none, some, List, [], ◌++◌, arith, any, contains,
  list_eq, list_eq→eq, list_eq_refl, opt_eq, get_last?, All, All_map, any_false→All, All→any_false,
  ◌==◌, is_some,
}
use xportra_ai.Errors.{Uuid}
use xportra_ai.Workflow.Model.{review_required, Round, Workflow, Analysis, Trace, ReasoningResult}
use xportra_ai.Workflow.Readiness.{
  Issue, note_if, check_integrity, analysis_ids, trace_ids, input_fingerprints,
}

-- The result is that of the round, and its parts belong together and to the workflow's tenant.
pub record IsLinked (w : Workflow) (r : ReasoningResult) (latest : Round) : Type 0 where
  pub same_report : r.report.id ≡ latest.report_id
  pub same_analyses : analysis_ids r.analyses ≡ latest.analysis_ids
  pub same_report_analyses : analysis_ids r.report.analyses ≡ analysis_ids r.analyses
  pub analysis_tenants : All (λ (a : Analysis). a.tenant_id ≡ w.tenant_id) r.analyses
  pub same_traces : trace_ids r.traces ≡ latest.trace_ids
  pub same_fingerprints : input_fingerprints r.traces ≡ latest.input_fingerprints
  pub trace_reports : All (λ (t : Trace). t.report_id ≡ some r.report.id) r.traces
  pub trace_analyses :
      All (λ (t : Trace). contains (analysis_ids r.analyses) t.analysis_id ≡ true) r.traces
  pub trace_tenants : All (λ (t : Trace). t.tenant_id ≡ w.tenant_id) r.traces

-- There is a latest round, and the result is linked to it.
abbrev pub HasLatest : Workflow → ReasoningResult → Option Round → Type 0
HasLatest w r none = ⊥
HasLatest w r (some latest) = IsLinked w r latest

-- What a workflow must be to be finalized with a result, under a tenant.
pub record IsReady (w : Workflow) (r : ReasoningResult) (t : Uuid) : Type 0 where
  pub own_workflow : w.tenant_id ≡ t
  pub own_result : r.tenant_id ≡ t
  pub same_case : r.case_id ≡ w.case_id
  pub in_review : w.state ≡ review_required
  pub has_shipment : is_some w.shipment_id ≡ true
  pub latest_round : HasLatest w r (get_last? w.rounds)

note_if-nil :
    (b : Bool) (i : Issue) (rest : List Issue)
    → (note_if b i ++ rest ≡ []) ↔ ((b ≡ false) × (rest ≡ []))
note_if-nil true i rest = ground arith
note_if-nil false i rest = ground arith

note_if-nil_last : (b : Bool) (i : Issue) → (note_if b i ≡ []) ↔ (b ≡ false)
note_if-nil_last true i = ground arith
note_if-nil_last false i = ground arith

lists_agree : (xs ys : List ℕ) → (not (list_eq xs ys) ≡ false) ↔ (xs ≡ ys)
lists_agree xs ys =
    (λ h. list_eq→eq xs ys (ground arith), λ e. rw e (ground (arith, list_eq_refl ys)))

module _ {A : Type 0} (p : A → Bool) (Q : A → Type 0)
    (agree : (x : A) → (not (p x) ≡ false) ↔ Q x) where
  none_differs : (xs : List A) → (any (λ x. not (p x)) xs ≡ false) ↔ All Q xs
  none_differs xs = (
    λ h. All_map (λ x. (agree x).0) xs (any_false→All (λ x. not (p x)) xs h),
    λ h. All→any_false (λ x. not (p x)) xs (All_map (λ x. (agree x).1) xs h),
  )

same_number : (a b : ℕ) → (not (a == b) ≡ false) ↔ (a ≡ b)
same_number a b = ground arith

same_option : (a b : Option ℕ) → (not (opt_eq a b) ≡ false) ↔ (a ≡ b)
same_option a b = ground arith

holds : (b : Bool) → (not b ≡ false) ↔ (b ≡ true)
holds b = ground arith

module _ (w : Workflow) (r : ReasoningResult) (latest : Round) where
  analyses_tenants_iff :
      (any (λ a. not (a.tenant_id == w.tenant_id)) r.analyses ≡ false)
      ↔ All (λ (a : Analysis). a.tenant_id ≡ w.tenant_id) r.analyses
  analyses_tenants_iff =
      none_differs _ _ (λ (a : Analysis). same_number a.tenant_id w.tenant_id) r.analyses

  trace_reports_iff :
      (any (λ t. not (opt_eq t.report_id (some r.report.id))) r.traces ≡ false)
      ↔ All (λ (t : Trace). t.report_id ≡ some r.report.id) r.traces
  trace_reports_iff =
      none_differs _ _ (λ (t : Trace). same_option t.report_id (some r.report.id)) r.traces

  trace_analyses_iff :
      (any (λ t. not (contains (analysis_ids r.analyses) t.analysis_id)) r.traces ≡ false)
      ↔ All (λ (t : Trace). contains (analysis_ids r.analyses) t.analysis_id ≡ true) r.traces
  trace_analyses_iff =
      none_differs _ _ (λ (t : Trace). holds (contains (analysis_ids r.analyses) t.analysis_id))
        r.traces

  trace_tenants_iff :
      (any (λ t. not (t.tenant_id == w.tenant_id)) r.traces ≡ false)
      ↔ All (λ (t : Trace). t.tenant_id ≡ w.tenant_id) r.traces
  trace_tenants_iff = none_differs _ _ (λ (t : Trace). same_number t.tenant_id w.tenant_id) r.traces

  pub check_integrity→IsLinked :
      r.report.id ≡ latest.report_id → check_integrity w r latest ≡ [] → IsLinked w r latest
  unfolding check_integrity
  check_integrity→IsLinked e h =
      let a = (note_if-nil _ _ _).0 h in
      let b = (note_if-nil _ _ _).0 a.1 in
      let c = (note_if-nil _ _ _).0 b.1 in
      let d = (note_if-nil _ _ _).0 c.1 in
      let f = (note_if-nil _ _ _).0 d.1 in
      let g = (note_if-nil _ _ _).0 f.1 in
      let k = (note_if-nil _ _ _).0 g.1 in
      record {
        same_report = e;
        same_analyses = (lists_agree _ _).0 a.0;
        same_report_analyses = (lists_agree _ _).0 b.0;
        analysis_tenants = analyses_tenants_iff.0 c.0;
        same_traces = (lists_agree _ _).0 d.0;
        same_fingerprints = (lists_agree _ _).0 f.0;
        trace_reports = trace_reports_iff.0 g.0;
        trace_analyses = trace_analyses_iff.0 k.0;
        trace_tenants = trace_tenants_iff.0 ((note_if-nil_last _ _).0 k.1);
      }

  pub IsLinked→check_integrity : IsLinked w r latest → check_integrity w r latest ≡ []
  unfolding check_integrity
  IsLinked→check_integrity l = (note_if-nil _ _ _).1 (
    (lists_agree _ _).1 l.same_analyses,
    (note_if-nil _ _ _).1 (
      (lists_agree _ _).1 l.same_report_analyses,
      (note_if-nil _ _ _).1 (
        analyses_tenants_iff.1 l.analysis_tenants,
        (note_if-nil _ _ _).1 (
          (lists_agree _ _).1 l.same_traces,
          (note_if-nil _ _ _).1 (
            (lists_agree _ _).1 l.same_fingerprints,
            (note_if-nil _ _ _).1 (
              trace_reports_iff.1 l.trace_reports,
              (note_if-nil _ _ _).1 (
                trace_analyses_iff.1 l.trace_analyses,
                (note_if-nil_last _ _).1 (trace_tenants_iff.1 l.trace_tenants),
              ),
            ),
          ),
        ),
      ),
    ),
  )
