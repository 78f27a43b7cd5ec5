-- ===== src/Answer/Citations.antt =====
-- The citations in an answer's text (xportra/domain/answer_validation.py).
use xportra_ai.Base.{
  ℕ, zero, suc, ◌-◌, Bool, true, false, ◌&&◌, ◌||◌, Option, none, some, List, [], ◌∷◌, ◌==◌,
  if◌then◌else◌, length, list_eq,
}
use mathlib.Core.Option
use xportra_ai.Base.Text.{Text}

pub record Occurrence : Type 0 where
  pub label : Text
  pub position : ℕ

-- `CitationExtraction`
pub record Extraction : Type 0 where
  pub references : List Text
  pub occurrences : List Occurrence

-- A match is recorded and its other characters are skipped.
abbrev pub after_match : Option Text → ℕ → (ℕ → List Occurrence) → List Occurrence
after_match none position continue = continue 0
after_match (some label) position continue =
    record { label = label; position = position } ∷ continue (length label - 1)

-- What `\d` matches rests on Python's table of decimal digits, of every script.
module _ (is_digit : ℕ → Bool) where
  -- `\d+\]` : the text up to the bracket, from the digits read so far.
  unfoldable pub digits_then_bracket : Text → Bool → Option Text
  digits_then_bracket [] some_digit = none
  digits_then_bracket (c ∷ cs) some_digit =
      let more = Option.map (λ t. c ∷ t) (digits_then_bracket cs true) in
      if is_digit c then more else if some_digit && (c == 93) then some (c ∷ []) else none

  -- `_CITATION_PATTERN` at the start of a text: `[E`, digits, `]`.
  unfoldable pub match_at : Text → Option Text
  unfolding digits_then_bracket
  match_at [] = none
  match_at (c ∷ []) = none
  match_at (c ∷ d ∷ cs) =
      if (c == 91) && (d == 69)
      then Option.map (λ t. c ∷ d ∷ t) (digits_then_bracket cs false)
      else none

  -- `finditer`: the matches from left to right, each search beginning where the match before it
  -- ended; `skip` is what is left of that match.
  unfoldable pub find_from : Text → ℕ → ℕ → List Occurrence
  find_from [] position skip = []
  find_from (c ∷ cs) position (suc skip) = find_from cs (suc position) skip
  find_from (c ∷ cs) position zero =
      after_match (match_at (c ∷ cs)) position (find_from cs (suc position))

  abbrev pub is_seen : List Text → Text → Bool
  is_seen [] t = false
  is_seen (s ∷ ss) t = list_eq t s || is_seen ss t

  -- `references`: each label once, where it first occurs.
  unfoldable pub first_labels : List Text → List Occurrence → List Text
  first_labels seen [] = []
  first_labels seen (o ∷ os) =
      let old = first_labels seen os in
      let new = o.label ∷ first_labels (o.label ∷ seen) os in
      if is_seen seen o.label then old else new

  -- `extract_citation_references`, of a text.
  unfoldable pub extract : Text → Extraction
  extract text =
      let found = find_from text 0 0 in
      record { references = first_labels [] found; occurrences = found }
