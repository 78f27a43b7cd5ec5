-- ===== src/Workflow/Tests.antt =====
-- A case that is analyzed, reviewed and closed, and the theorems at it.
use xportra_ai.Base.{
  ◌⊎◌, ◌≡◌, refl, ◌↔◌, inl, true, none, some, List, [], ◌∷◌, Any, typed, Result, ok, false, err,
}
use xportra_ai.Errors.{Uuid, Error}
use xportra_ai.Workflow.Views.{IsProjected, Shows, finalize_project, project-Shows}
use xportra_ai.Workflow.Projection.{
  View, workflow_created, shipment_bound, evidence_supplied, workflow_id, tenant_id, case_id,
  shipment_id, evidence_id, supply_position, project, build_entries, append_shipment,
  append_supplies, append_rounds, append_package,
}
use xportra_ai.Workflow.Model.{
  reanalysis_required, checked, checked_workflow, created, applicability_determined,
  assessment_package_ready, Workflow, Analysis, Trace, ReasoningResult, Package,
  information_provided, review_required,
}
use xportra_ai.Workflow.Readiness.{check, AssessmentReadiness}
use xportra_ai.Workflow.Service.{
  begin, run_analysis, submit_for_review, finalize, provide_information,
  record_applicability_determined, supply_evidence,
}
use xportra_ai.Workflow.Calls.{
  Moves, Call, provide, determine, analyze, submit, supply, close, perform, Step, bind,
}
use xportra_ai.Workflow.Steps.{perform-Step}
use xportra_ai.Workflow.Invariant.{IsValid, begin-IsValid}
use xportra_ai.Workflow.Closing.{Rebinds}
use xportra_ai.Workflow.History.{perform-Moves, Continues, history, history-IsValid, history_closed}
use xportra_ai.Workflow.Gate.{IsReady}
use xportra_ai.Workflow.Finalize.{check_decides, finalize_iff, closed_workflow, package_of}
use xportra_ai.Workflow.Pipeline.{
  IsCoherent, analyze_submit_finalize, analyzed_workflow, submitted_workflow,
}

abbrev analysis : Analysis
analysis = record { id = 11; tenant_id = 1; requirement_id = 21; missing_information = [] }

abbrev trace : Trace
trace = record {
  id = 31;
  tenant_id = 1;
  analysis_id = 11;
  report_id = some 41;
  input_fingerprint = 51;
}

abbrev result : ReasoningResult
result = record {
  case_id = 2;
  tenant_id = 1;
  analyses = analysis ∷ [];
  report = record { id = 41; analyses = analysis ∷ [] };
  traces = trace ∷ [];
  decision_summary = some 61;
}

-- A reasoning application that always gives this result.
abbrev answer : Unit {0} → Uuid → Uuid → Result Error ReasoningResult
answer q t c = ok result

abbrev fresh : Workflow
fresh = record {
  id = 7;
  tenant_id = 1;
  case_id = 2;
  shipment_id = some 3;
  state = created;
  rounds = [];
  supplied_evidence_ids = [];
  open_requirements = [];
}

abbrev calls : List (Call (Unit {0}) × Any Uuid)
calls =
    (provide, typed 1)
    ∷ (determine, typed 9)
    ∷ (determine, typed 1)
    ∷ (analyze tt, typed 1)
    ∷ (submit, typed 1)
    ∷ (close result, typed 1)
    ∷ (supply (typed (typed 5 ∷ [])), typed 1)
    ∷ []

abbrev awaiting : Workflow
awaiting = record fresh { state = applicability_determined }

coherent : IsCoherent 1 2 result
coherent = record {
  own_tenant = refl;
  own_case = refl;
  report_analyses = refl;
  analysis_tenants = (refl, tt);
  trace_reports = (refl, tt);
  trace_analyses = (refl, tt);
  trace_tenants = (refl, tt);
}

history_runs : (history answer calls fresh).state ≡ assessment_package_ready
unfolding history perform provide_information record_applicability_determined run_analysis
    submit_for_review finalize check supply_evidence
history_runs = refl

perform-Step_example :
    ◌≡◌ {A = Any Uuid} (typed 1) (typed 1)
    × Step fresh (record fresh { state = information_provided })
unfolding perform provide_information
perform-Step_example = perform-Step answer provide fresh _ (typed 1) refl

fresh-IsValid : IsValid fresh
unfolding begin
fresh-IsValid = begin-IsValid (λ t c s. 7) (typed 1) (typed 2) (typed (some 3)) fresh refl

history-IsValid_example :
    IsValid (history answer calls fresh) × Continues fresh (history answer calls fresh)
history-IsValid_example = history-IsValid answer calls fresh fresh-IsValid

abbrev done : Workflow
done = record fresh { state = assessment_package_ready }

-- The shipment of `done`, bound again.
abbrev rebinding : Call (Unit {0})
rebinding = bind (typed (record { tenant_id = 1; shipment_id = 3; case_id = 2 }))

history_closed_example :
    (((x : Error) × (perform answer rebinding done (typed 1) ≡ err x))
      ⊎ (Rebinds rebinding done (typed 1) × (perform answer rebinding done (typed 1) ≡ ok done)))
    × (history answer calls done ≡ done)
history_closed_example = history_closed answer rebinding (typed 1) calls done refl

check_decides_example :
    (a : AssessmentReadiness) × (check (typed fresh) (typed result) (typed 1) ≡ ok a)
    × ((a.ready ≡ true) ↔ IsReady fresh result 1)
    × ((a.ready ≡ true) ↔ (a.reasons ≡ []))
check_decides_example = check_decides fresh result 1 refl

finalize_iff_example :
    ((p : Workflow × Package) × (finalize none fresh result (typed 1) ≡ ok p))
    ↔ IsReady fresh result 1
finalize_iff_example = finalize_iff fresh result 1

analyze_submit_finalize_example :
    (run_analysis answer (typed awaiting) tt (typed 1)
      ≡ ok (analyzed_workflow awaiting result, result))
    × (submit_for_review (typed (analyzed_workflow awaiting result)) (typed 1)
        ≡ ok (submitted_workflow awaiting result))
    × (finalize none (submitted_workflow awaiting result) result (typed 1)
        ≡ ok (
          closed_workflow (submitted_workflow awaiting result) result,
          package_of (submitted_workflow awaiting result) result,
        ))
analyze_submit_finalize_example =
    analyze_submit_finalize answer awaiting tt result (inl refl) refl refl coherent

-- A review that new evidence sends back: not a move of the table.
abbrev reviewed : Workflow
reviewed = record fresh { state = review_required }

abbrev reopened : Workflow
reopened = record fresh { state = reanalysis_required; supplied_evidence_ids = 5 ∷ [] }

supplies : perform answer (supply (typed (typed 5 ∷ []))) reviewed (typed 1) ≡ ok reopened
unfolding perform supply_evidence checked checked_workflow
supplies = refl

perform-Moves_example :
    Moves review_required reanalysis_required
    ⊎ ((reopened.state ≡ reviewed.state) × (reopened.rounds ≡ reviewed.rounds))
perform-Moves_example =
    perform-Moves answer (supply (typed (typed 5 ∷ []))) (typed 1) reviewed reopened supplies

-- A finalized workflow, and its history.
abbrev in_review : Workflow
in_review = submitted_workflow awaiting result

finalizes :
    finalize none in_review result (typed 1)
    ≡ ok (closed_workflow in_review result, package_of in_review result)
finalizes = analyze_submit_finalize_example.2

finalize_project_example :
    IsProjected in_review result
      (typed 1)
      (closed_workflow in_review result, package_of in_review result)
finalize_project_example =
    finalize_project in_review result (typed 1)
      (closed_workflow in_review result, package_of in_review result) finalizes

abbrev view_of_fresh : View
view_of_fresh = record {
  workflow_id = 7;
  tenant_id = 1;
  case_id = 2;
  shipment_id = some 3;
  state = created;
  entries =
      record {
        sequence = 0;
        kind = workflow_created;
        references = workflow_id 7 ∷ tenant_id 1 ∷ case_id 2 ∷ [];
      }
      ∷ record {
        sequence = 1;
        kind = shipment_bound;
        references = shipment_id 3 ∷ case_id 2 ∷ tenant_id 1 ∷ [];
      }
      ∷ record {
        sequence = 2;
        kind = evidence_supplied;
        references = evidence_id 5 ∷ supply_position 0 ∷ [];
      }
      ∷ [];
  supplied_evidence_ids = 5 ∷ [];
  open_requirements = [];
  round_count = 0;
  latest_report_id = none;
  decision_summary_present = false;
  readiness = none;
  final_package = none;
}

abbrev supplied : Workflow
supplied = record fresh { supplied_evidence_ids = 5 ∷ [] }

projects : project (typed supplied) (typed 1) none none ≡ ok view_of_fresh
unfolding project build_entries append_shipment append_supplies append_rounds append_package
projects = refl

project-Shows_example :
    (w : Workflow) × (◌≡◌ {A = Any Workflow} (typed supplied) (typed w))
    × (◌≡◌ {A = Any Uuid} (typed 1) (typed w.tenant_id))
    × Shows w none none view_of_fresh
project-Shows_example = project-Shows (typed supplied) (typed 1) none none view_of_fresh projects
