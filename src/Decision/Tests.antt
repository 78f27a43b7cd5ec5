-- ===== src/Decision/Tests.antt =====
-- Two cases of an exporter, and the theorems at them.
use xportra_ai.Base.{
  length, ℕ, ◌≡◌, refl, none, some, List, [], ◌∷◌, Any, typed, ok, traverse, true,
}
use mathlib.Core.List.{Permᴰ}
use xportra_ai.Base.Text.{codes}
use xportra_ai.Base.Sorting.{sort}
use xportra_ai.Errors.{Uuid}
use xportra_ai.Decision.Readiness.{
  ReadinessReport, not_ready, applicability_unknown, assess_readiness, report_of, tally, add_case,
  ask_applicable, ask, readiness_state,
}
use xportra_ai.Decision.Information.{IsReport, assess_readiness-IsReport}
use xportra_ai.Base.Keys.{lex_leb}
use xportra_ai.Decision.Requesting.{IsRequested, assess_readiness_plan_build}
use xportra_ai.Base.Decimal.{show}
use xportra_ai.Decision.Cases.{
  applicable, unclear, not_satisfied, unknown, Applicability, Outcome, RawCase, Case, validate_case,
  is_missing_evidence,
}
use xportra_ai.Decision.Services.{
  by_requirement, Summary, summarize, summary_of, affected_view, Recommendation, recommend, risk_of,
  action_of, risk_state, review_requirement, address_requirement, high, by_requirement,
}
use xportra_ai.Decision.Counts.{Adds, summarize-Adds, services-perm_eq}
use xportra_ai.Decision.Advice.{Advises, recommend-Agrees}

-- What the services only carry is a number here.
abbrev raw : Uuid → Applicability → Outcome → RawCase ℕ
raw id a o = record {
  tenant_id = typed 1;
  requirement = typed (record { id = some id; text = none });
  applicability = typed (record { outcome = typed a; reason = none });
  assessment = typed (record { outcome = typed o; reason = some (codes "evidence rejected") });
  evidence = 5 ∷ [];
  carried = 0;
}

abbrev checked : Uuid → Applicability → Outcome → Case ℕ
checked id a o = record {
  tenant_id = 1;
  requirement_id = id;
  requirement_text = none;
  applicability = a;
  applicability_reason = none;
  outcome = o;
  reason = some (codes "evidence rejected");
  evidence = 5 ∷ [];
  carried = 0;
}

abbrev rejected : Any (RawCase ℕ)
rejected = typed (raw 8 applicable not_satisfied)

abbrev doubtful : Any (RawCase ℕ)
doubtful = typed (raw 7 unclear unknown)

validates :
    traverse (validate_case 1) (rejected ∷ doubtful ∷ [])
    ≡ ok (checked 8 applicable not_satisfied ∷ checked 7 unclear unknown ∷ [])
unfolding validate_case
validates = refl

abbrev numbers : Summary ℕ
numbers = record {
  tenant_id = 1;
  total_cases = 2;
  total_applicable_requirements = 1;
  satisfied_requirements = 0;
  not_satisfied_requirements = 1;
  unknown_requirements = 1;
  requirements_missing_evidence = 0;
  requirements_requiring_review = 1;
  affected_requirements =
      record {
        requirement_id = 7;
        requirement_text = none;
        state = unknown;
        reason = none;
        carried = 0;
      }
      ∷ record {
        requirement_id = 8;
        requirement_text = none;
        state = not_satisfied;
        reason = some (codes "evidence rejected");
        carried = 0;
      }
      ∷ [];
  missing_evidence_requirements = [];
}

summarizes : summarize (rejected ∷ doubtful ∷ []) (typed 1) ≡ ok numbers
unfolding summarize summary_of affected_view validate_case sort is_missing_evidence
summarizes = refl

summarize-Adds_example :
    (cs : List (Case ℕ)) × (traverse (validate_case 1) (rejected ∷ doubtful ∷ []) ≡ ok cs)
    × (length cs ≡ 2)
    × Adds cs numbers
summarize-Adds_example = summarize-Adds (rejected ∷ doubtful ∷ []) 1 numbers summarizes

services-perm_eq_example :
    (summarize (rejected ∷ doubtful ∷ []) (typed 1)
      ≡ summarize (doubtful ∷ rejected ∷ []) (typed 1))
    × (recommend (rejected ∷ doubtful ∷ []) (typed 1)
        ≡ recommend (doubtful ∷ rejected ∷ []) (typed 1))
services-perm_eq_example =
    services-perm_eq 1 (checked 8 applicable not_satisfied ∷ checked 7 unclear unknown ∷ [])
      (Permᴰ.swap {l = []} refl refl) validates ((refl, tt), (tt, tt))

abbrev advice : List (Recommendation ℕ)
advice =
    record {
      tenant_id = 1;
      requirement_id = 7;
      requirement_text = none;
      action_type = review_requirement;
      risk_state = none;
      carried = 0;
    }
    ∷ record {
      tenant_id = 1;
      requirement_id = 8;
      requirement_text = none;
      action_type = address_requirement;
      risk_state = some high;
      carried = 0;
    }
    ∷ []

recommends : recommend (rejected ∷ doubtful ∷ []) (typed 1) ≡ ok advice
unfolding recommend validate_case sort is_missing_evidence action_of risk_state risk_of
recommends = refl

recommend-Agrees_example :
    (cs : List (Case ℕ)) × (traverse (validate_case 1) (rejected ∷ doubtful ∷ []) ≡ ok cs)
    × Advises (sort by_requirement cs) advice
recommend-Agrees_example = recommend-Agrees (rejected ∷ doubtful ∷ []) 1 advice recommends

-- Of the doubtful case it is not known whether it applies; of the other all is.
abbrev report : ReadinessReport ℕ
report = record {
  tenant_id = 1;
  readiness_state = not_ready;
  required_information = 5;
  known_information = 4;
  missing_information = 1;
  gaps = record { requirement_id = 7; kind = applicability_unknown; reason = none } ∷ [];
  unknown_applicability_requirements = 7 ∷ [];
  unknown_assessment_requirements = [];
  missing_evidence_requirements = [];
  unknown_risk_requirements = [];
  actions_requiring_evidence =
      record {
        tenant_id = 1;
        requirement_id = 7;
        requirement_text = none;
        action_type = review_requirement;
        risk_state = none;
        carried = 0;
      }
      ∷ [];
  requirements =
      record {
        requirement_id = 7;
        requirement_text = none;
        applicability_outcome = unclear;
        assessment_outcome = unknown;
        evidence_present = true;
        risk_state = none;
        action_type = some review_requirement;
      }
      ∷ record {
        requirement_id = 8;
        requirement_text = none;
        applicability_outcome = applicable;
        assessment_outcome = not_satisfied;
        evidence_present = true;
        risk_state = some high;
        action_type = some address_requirement;
      }
      ∷ [];
}

reports : assess_readiness (typed (rejected ∷ doubtful ∷ [])) (typed 1) ≡ ok report
unfolding assess_readiness report_of tally add_case ask_applicable ask readiness_state validate_case
    sort is_missing_evidence risk_of action_of risk_state lex_leb
reports = refl

assess_readiness-IsReport_example :
    (cs : List (Case ℕ)) × (traverse (validate_case 1) (rejected ∷ doubtful ∷ []) ≡ ok cs)
    × IsReport cs report
assess_readiness-IsReport_example =
    assess_readiness-IsReport (rejected ∷ doubtful ∷ []) 1 report reports

assess_readiness_plan_build_example : IsRequested show 1 report
assess_readiness_plan_build_example =
    assess_readiness_plan_build show (rejected ∷ doubtful ∷ []) 1 report reports
