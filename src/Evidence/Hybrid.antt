-- ===== src/Evidence/Hybrid.antt =====
-- Hybrid retrieval (xportra/domain/evidence_hybrid.py): candidates, the union of the two paths,
-- the order and the collapse of duplicates.
use xportra_ai.Base.{
  Bool, true, false, not, ◌||◌, Option, none, some, List, [], ◌∷◌, Any, typed, Result, ok, ◌>>=◌,
  ◌>>◌, raise_if, raise_unless, expect, ◌==◌, is_some, if◌then◌else◌, any,
}
use xportra_ai.Base.Int.{ℤ, pos, negate}
use xportra_ai.Base.Sorting.{sort}
use xportra_ai.Base.Keys.{lex_leb}
use xportra_ai.Errors.{
  Uuid, Error, evidence, malformed_evidence, malformed_score, malformed_sources,
  inconsistent_semantic, inconsistent_lexical,
}
use xportra_ai.Evidence.Model.{Float, finite, not_finite, Evidence, same_evidence}

-- A `frozenset[str]` of sources: its two known members, and whether it has any other.
pub record Sources : Type 0 where
  pub semantic : Bool
  pub lexical : Bool
  pub foreign : Bool

pub record Candidate : Type 0 where
  pub evidence : Evidence
  pub semantic_score : Option Float
  pub lexical_score : Option Float
  pub retrieval_sources : Sources

-- `score is None or math.isfinite(score)`
abbrev pub is_finite : Option Float → Bool
is_finite none = true
is_finite (some (finite z)) = true
is_finite (some not_finite) = false

-- `not sources or not sources <= RETRIEVAL_SOURCES`
abbrev pub is_malformed : Sources → Bool
is_malformed s = not (s.semantic || s.lexical) || s.foreign

-- `("semantic" in sources) != (score is not None)`
abbrev pub differs : Bool → Bool → Bool
differs true b = not b
differs false b = b

-- `HybridRetrievalCandidate(...)`, with `__post_init__`.
unfoldable pub candidate :
    Any Evidence → Option Float → Option Float → Any Sources → Result Error Candidate
candidate e sem lex sources = do
  e' ← expect e (evidence malformed_evidence)
  raise_unless (is_finite sem) (evidence malformed_score)
  raise_unless (is_finite lex) (evidence malformed_score)
  s ← expect sources (evidence malformed_sources)
  raise_if (is_malformed s) (evidence malformed_sources)
  raise_if (differs s.semantic (is_some sem)) (evidence inconsistent_semantic)
  raise_if (differs s.lexical (is_some lex)) (evidence inconsistent_lexical)
  ok (record { evidence = e'; semantic_score = sem; lexical_score = lex; retrieval_sources = s })

abbrev pub semantic_only : Sources
semantic_only = record { semantic = true; lexical = false; foreign = false }

abbrev pub lexical_only : Sources
lexical_only = record { semantic = false; lexical = true; foreign = false }

abbrev pub both : Sources
both = record { semantic = true; lexical = true; foreign = false }

-- The dictionary `merged`, in the order of insertion; its keys are the chunk identities.
abbrev pub find : Uuid → List Candidate → Option Candidate
find k [] = none
find k (c ∷ cs) = if c.evidence.chunk_id == k then some c else find k cs

-- `merged[k] = c`
abbrev pub assign : Candidate → List Candidate → List Candidate
assign c [] = c ∷ []
assign c (d ∷ ds) = if d.evidence.chunk_id == c.evidence.chunk_id then c ∷ ds else d ∷ assign c ds

-- The candidate that the lexical loop makes of a result and what is known of its chunk.
unfoldable pub join : Option Candidate → Evidence → Result Error Candidate
join none e = candidate (typed e) none (some e.score) (typed lexical_only)
join (some old) e = candidate (typed old.evidence) old.semantic_score (some e.score) (typed both)

-- The two loops of `_merge_candidates`.
unfoldable pub merge_semantic : List Evidence → List Candidate → Result Error (List Candidate)
merge_semantic [] merged = ok merged
merge_semantic (e ∷ es) merged = do
  c ← candidate (typed e) (some e.score) none (typed semantic_only)
  merge_semantic es (assign c merged)

unfoldable pub merge_lexical : List Evidence → List Candidate → Result Error (List Candidate)
unfolding join
merge_lexical [] merged = ok merged
merge_lexical (e ∷ es) merged = do
  c ← join (find e.chunk_id merged) e
  merge_lexical es (assign c merged)

unfoldable pub merge_candidates : List Evidence → List Evidence → Result Error (List Candidate)
merge_candidates sem lex = do merged ← merge_semantic sem []; merge_lexical lex merged

-- `-(score if score is not None else 0.0)`; no candidate has a score that is not finite.
abbrev pub descending : Option Float → ℤ
descending none = pos 0
descending (some (finite z)) = negate z
descending (some not_finite) = pos 0

abbrev pub absent_last : Option Float → ℤ
absent_last none = pos 1
absent_last (some s) = pos 0

-- `_candidate_order_key`
abbrev pub order_key : Candidate → List ℤ
order_key c =
    absent_last c.semantic_score
    ∷ descending c.semantic_score
    ∷ absent_last c.lexical_score
    ∷ descending c.lexical_score
    ∷ pos c.evidence.chunk_id
    ∷ []

unfoldable pub order_candidates : List Candidate → List Candidate
order_candidates = sort (λ a b. lex_leb (order_key a) (order_key b))

-- `_collapse_duplicate_candidates`, over the evidence seen so far.
unfoldable pub collapse : List Evidence → List Candidate → List Candidate
collapse seen [] = []
collapse seen (c ∷ cs) =
    let skipped = collapse seen cs in
    let kept = c ∷ collapse (c.evidence ∷ seen) cs in
    if any (same_evidence c.evidence) seen then skipped else kept
