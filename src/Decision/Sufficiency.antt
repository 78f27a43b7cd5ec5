-- ===== src/Decision/Sufficiency.antt =====
-- EvidenceSufficiencyService (xportra/domain/evidence_sufficiency.py).
use xportra_ai.Base.{
  ℕ, zero, suc, ◌+◌, Bool, true, false, not, ◌&&◌, Option, none, some, List, [], ◌∷◌, ◌++◌, Any,
  Result, ok, ◌>>=◌, expect,
}
use xportra_ai.Base.Text.{Text, codes}
use xportra_ai.Base.Decimal.{show}
use xportra_ai.Errors.{
  Uuid, Error, assessment, malformed_requirement, malformed_applicability, malformed_assessment,
  malformed_count,
}
use xportra_ai.Decision.Cases.{
  Applicability, applicable, not_applicable, unclear, Outcome, satisfied, not_satisfied, unknown,
}

pub data Sufficiency : Type 0 where
  supported insufficient missing undecided : Sufficiency

pub data Contradiction : Type 0 where
  absent present : Contradiction

pub data MissingKind : Type 0 where
  applicability_undetermined assessment_incomplete evidence_absent evidence_insufficient :
      MissingKind
  knowledge_uncited explanation_absent satisfying_evidence_unestablished : MissingKind

-- `MissingInformationItem`
pub record MissingItem : Type 0 where
  pub requirement_id : Uuid
  pub kind : MissingKind
  pub detail : Text

-- `EvidenceSufficiencyAssessment`
pub record SufficiencyAssessment : Type 0 where
  pub requirement_id : Uuid
  pub sufficiency : Sufficiency
  pub contradiction : Contradiction
  pub missing_items : List MissingItem
  pub sufficiency_explanation : Text

-- `_sufficiency`
unfoldable pub sufficiency_of : Applicability → Outcome → ℕ → Sufficiency
sufficiency_of not_applicable o n = undecided
sufficiency_of unclear o n = undecided
sufficiency_of applicable satisfied n = supported
sufficiency_of applicable not_satisfied n = supported
sufficiency_of applicable unknown zero = missing
sufficiency_of applicable unknown (suc n) = insufficient

abbrev pub contradiction_of : ℕ → Contradiction
contradiction_of zero = absent
contradiction_of (suc n) = present

-- `reason or 'no reason recorded'`
abbrev pub reason_or : Option Text → Text
reason_or none = codes "no reason recorded"
reason_or (some []) = codes "no reason recorded"
reason_or (some (c ∷ t)) = c ∷ t

-- `if test: add(kind, detail)`
abbrev pub add_if : Bool → MissingItem → List MissingItem
add_if true item = item ∷ []
add_if false item = []

abbrev pub is_incomplete : Applicability → Outcome → Bool
is_incomplete applicable unknown = true
is_incomplete _ _ = false

abbrev pub is_unmet : Applicability → Outcome → Bool
is_unmet applicable not_satisfied = true
is_unmet _ _ = false

abbrev pub is_undetermined : Applicability → Bool
is_undetermined unclear = true
is_undetermined _ = false

abbrev pub linked_item : Uuid → ℕ → MissingItem
linked_item q zero = record {
  requirement_id = q;
  kind = evidence_absent;
  detail = codes "no tenant evidence linked to this requirement";
}
linked_item q (suc n) = record {
  requirement_id = q;
  kind = evidence_insufficient;
  detail = codes "linked tenant evidence exists but does not establish the requirement";
}

-- `_missing_items`
unfoldable pub missing_items :
    Uuid → Applicability → Outcome → ℕ → Bool → Bool → Option Text → Option Text → List MissingItem
missing_items q a o linked has_knowledge has_explanation applicability_reason assessment_reason =
    add_if (is_undetermined a) (record {
      requirement_id = q;
      kind = applicability_undetermined;
      detail = codes "applicability undetermined: " ++ reason_or applicability_reason;
    })
    ++ (add_if (is_incomplete a o) (record {
      requirement_id = q;
      kind = assessment_incomplete;
      detail = codes "assessment incomplete: " ++ reason_or assessment_reason;
    })
        ++ (add_if (is_incomplete a o) (linked_item q linked)
            ++ (add_if (is_incomplete a o && not has_knowledge) (record {
              requirement_id = q;
              kind = knowledge_uncited;
              detail = codes "no retrieved knowledge evidence cited";
            })
                ++ (add_if (is_unmet a o) (record {
                  requirement_id = q;
                  kind = satisfying_evidence_unestablished;
                  detail =
                      codes "satisfying evidence not established: " ++ reason_or assessment_reason;
                })
                    ++ add_if (not has_explanation) (record {
                      requirement_id = q;
                      kind = explanation_absent;
                      detail = codes "model produced no explanation";
                    })))))

-- The name of an outcome.
abbrev pub outcome_text : Outcome → Text
outcome_text satisfied = codes "satisfied"
outcome_text not_satisfied = codes "not_satisfied"
outcome_text unknown = codes "unknown"

abbrev pub state_text : Sufficiency → Applicability → Outcome → Text
state_text supported a o =
    codes "supplied evidence materially supports the '"
    ++ (outcome_text o
        ++ codes "' assessment; the deterministic state is unchanged by this explanation")
state_text missing a o =
    codes
      "no tenant evidence linked to this requirement; absence of evidence is not a failure finding — the assessment remains 'unknown'"
state_text insufficient a o =
    codes
      "linked evidence exists but does not establish the requirement; the assessment remains 'unknown' and is not treated as satisfied or not satisfied"
state_text undecided unclear o =
    codes
      "the deterministic machinery is undecided on applicability; evidence sufficiency cannot be determined from the supplied state"
state_text undecided _ o =
    codes
      "the requirement is not applicable, so no assessment was performed; evidence sufficiency is not decidable"

abbrev pub contradiction_text : Contradiction → ℕ → Text
contradiction_text absent n = []
contradiction_text present n =
    codes "; "
    ++ (show n
        ++ codes
            " conflicting evidence item(s) preserved without resolution — no source precedence applied and no document judged authoritative")

-- `_explanation`
unfoldable pub explanation : Sufficiency → Contradiction → Applicability → Outcome → ℕ → Text
explanation s c a o conflicting = state_text s a o ++ contradiction_text c conflicting

-- `assess`. An outcome that is none of the three is `untyped`, as is a count that is no
-- non-negative integer.
unfoldable pub assess_sufficiency :
    Any Uuid
    → Any Applicability
    → Any Outcome
    → Any ℕ
    → Any ℕ
    → Bool
    → Bool
    → Option Text
    → Option Text
    → Result Error SufficiencyAssessment
unfolding sufficiency_of missing_items explanation
assess_sufficiency requirement applicability outcome supporting conflicting has_knowledge
      has_explanation applicability_reason assessment_reason =
    do
      q ← expect requirement (assessment malformed_requirement)
      a ← expect applicability (assessment malformed_applicability)
      o ← expect outcome (assessment malformed_assessment)
      s ← expect supporting (assessment malformed_count)
      c ← expect conflicting (assessment malformed_count)
      let state = sufficiency_of a o (s + c)
      ok (record {
        requirement_id = q;
        sufficiency = state;
        contradiction = contradiction_of c;
        missing_items =
            missing_items q a o (s + c) has_knowledge has_explanation applicability_reason
              assessment_reason;
        sufficiency_explanation = explanation state (contradiction_of c) a o c;
      })
