-- ===== src/Decision/Standing.antt =====
-- The standings that a compliance case can have, from what is known of its requirement.
use xportra_ai.Base.{Option, leb, ℕ, Bool, true, false, ◌==◌, List, length, filter, Option, leb}
use xportra_ai.Decision.Cases.{
  Applicability, applicable, not_applicable, unclear, Outcome, satisfied, not_satisfied, unknown,
  Case, is_missing_evidence,
}
use xportra_ai.Base.Text.{Text}
use xportra_ai.Decision.Services.{View}

pub data Standing : Type 0 where
  excluded unsettled met failed lacking undecided : Standing

abbrev pub standing_of : Applicability → Outcome → Bool → Standing
standing_of not_applicable o missing = excluded
standing_of unclear o missing = unsettled
standing_of applicable satisfied missing = met
standing_of applicable not_satisfied missing = failed
standing_of applicable unknown true = lacking
standing_of applicable unknown false = undecided

abbrev pub standing_place : Standing → ℕ
standing_place excluded = 0
standing_place unsettled = 1
standing_place met = 2
standing_place failed = 3
standing_place lacking = 4
standing_place undecided = 5

-- The state that the standing of a case shows.
abbrev pub shown_state : Standing → Outcome
shown_state excluded = unknown
shown_state unsettled = unknown
shown_state met = satisfied
shown_state failed = not_satisfied
shown_state lacking = unknown
shown_state undecided = unknown

-- Not satisfied, or open.
abbrev pub concerns : Standing → Bool
concerns excluded = false
concerns unsettled = true
concerns met = false
concerns failed = true
concerns lacking = true
concerns undecided = true

-- The reason that it shows.
abbrev pub shown_reason : Standing → Option Text → Option Text → Option Text
shown_reason excluded applicability assessment = assessment
shown_reason unsettled applicability assessment = applicability
shown_reason met applicability assessment = assessment
shown_reason failed applicability assessment = assessment
shown_reason lacking applicability assessment = assessment
shown_reason undecided applicability assessment = assessment

module _ {Carried : Type 0} where
  abbrev pub standing : Case Carried → Standing
  standing c = standing_of c.applicability c.outcome (is_missing_evidence c)

  abbrev pub has : Standing → Case Carried → Bool
  has s c = standing_place (standing c) == standing_place s

  abbrev pub number : Standing → List (Case Carried) → ℕ
  number s cs = length (filter (has s) cs)

  abbrev pub is_concerned : Case Carried → Bool
  is_concerned c = concerns (standing c)

  -- The entry that a case has in a list of the summary.
  abbrev pub shown : Case Carried → View Carried
  shown c = record {
    requirement_id = c.requirement_id;
    requirement_text = c.requirement_text;
    state = shown_state (standing c);
    reason = shown_reason (standing c) c.applicability_reason c.reason;
    carried = c.carried;
  }

  abbrev pub view_leb : View Carried → View Carried → Bool
  view_leb a b = leb a.requirement_id b.requirement_id
