-- ===== src/Evidence/Ranking.antt =====
-- The ranking of candidates (xportra/domain/evidence_ranking.py), definitions.
use xportra_ai.Base.{
  ℕ, suc, Bool, true, false, not, ◌&&◌, ◌||◌, Option, List, [], ◌∷◌, Any, Result, ok, err, ◌>>=◌,
  ◌>>◌, raise_if, raise_unless, expect, traverse, is_some, ltb, if◌then◌else◌, is_empty, contains,
  take,
}
use xportra_ai.Base.Int.{ℤ, pos}
use xportra_ai.Base.Sorting.{sort}
use xportra_ai.Base.Keys.{lex_leb}
use xportra_ai.Errors.{
  Uuid, Error, evidence, malformed_score, malformed_sources, inconsistent_semantic,
  inconsistent_lexical, malformed_top_k, malformed_candidates, malformed_candidate, duplicate_chunk,
}
use xportra_ai.Evidence.Model.{Evidence, Float}
use xportra_ai.Evidence.Hybrid.{
  Candidate, Sources, is_finite, is_malformed, differs, both, semantic_only, lexical_only,
  descending,
}

-- `RankedEvidenceResult`
pub record Ranked : Type 0 where
  pub rank_position : ℕ
  pub evidence : Evidence
  pub semantic_score : Option Float
  pub lexical_score : Option Float
  pub retrieval_sources : Sources
  pub ranking_key : List ℤ

-- `_validate_top_k`; an integer that is not positive and any other value are refused alike, so a
-- negative one is `untyped` here.
unfoldable pub validate_top_k : Any ℕ → Result Error ℕ
validate_top_k top_k = do
  k ← expect top_k (evidence malformed_top_k)
  raise_unless (ltb 0 k) (evidence malformed_top_k)
  ok k

-- `_validate_one`: what the constructor of a candidate checks, once more.
unfoldable pub validate_one : Any Candidate → Result Error Candidate
validate_one item = do
  c ← expect item (evidence malformed_candidate)
  raise_unless (is_finite c.semantic_score) (evidence malformed_score)
  raise_unless (is_finite c.lexical_score) (evidence malformed_score)
  raise_if (is_malformed c.retrieval_sources) (evidence malformed_sources)
  raise_if (differs c.retrieval_sources.semantic (is_some c.semantic_score))
      (evidence inconsistent_semantic)
  raise_if (differs c.retrieval_sources.lexical (is_some c.lexical_score))
      (evidence inconsistent_lexical)
  ok c

unfoldable pub validate_candidates : Any (List (Any Candidate)) → Result Error (List Candidate)
unfolding validate_one
validate_candidates candidates = do
  items ← expect candidates (evidence malformed_candidates)
  traverse validate_one items

-- The loop over `seen`.
abbrev pub has_duplicate : List Uuid → List Candidate → Bool
has_duplicate seen [] = false
has_duplicate seen (c ∷ cs) =
    contains seen c.evidence.chunk_id || has_duplicate (c.evidence.chunk_id ∷ seen) cs

-- Equality of sets of sources.
abbrev pub same_flag : Bool → Bool → Bool
same_flag true b = b
same_flag false b = not b

abbrev pub same_sources : Sources → Sources → Bool
same_sources a b =
    same_flag a.semantic b.semantic
    && same_flag a.lexical b.lexical
    && same_flag a.foreign b.foreign

-- `_provenance_tier`
unfoldable pub provenance_tier : Candidate → Result Error ℕ
provenance_tier c =
    if same_sources c.retrieval_sources both
    then ok 0
    else if same_sources c.retrieval_sources semantic_only
    then ok 1
    else if same_sources c.retrieval_sources lexical_only
    then ok 2
    else err (evidence malformed_sources)

-- `_ranking_key`, which is also the key of the sort.
unfoldable pub ranking_key : Candidate → Result Error (List ℤ)
unfolding provenance_tier
ranking_key c = do
  tier ← provenance_tier c
  ok (
      pos tier
      ∷ descending c.semantic_score
      ∷ descending c.lexical_score
      ∷ pos c.evidence.chunk_id
      ∷ [])

-- A candidate beside its key: `sorted` computes every key before it compares any.
pub record Keyed : Type 0 where
  pub candidate : Candidate
  pub key : List ℤ

unfoldable pub keyed : Candidate → Result Error Keyed
unfolding ranking_key
keyed c = do k ← ranking_key c; ok (record { candidate = c; key = k })

abbrev pub key_leb : Keyed → Keyed → Bool
key_leb a b = lex_leb a.key b.key

-- `enumerate(ordered, start=position)`, and the result made of each.
abbrev pub enumerate : ℕ → List Keyed → List Ranked
enumerate position [] = []
enumerate position (x ∷ xs) =
    record {
      rank_position = position;
      evidence = x.candidate.evidence;
      semantic_score = x.candidate.semantic_score;
      lexical_score = x.candidate.lexical_score;
      retrieval_sources = x.candidate.retrieval_sources;
      ranking_key = x.key;
    }
    ∷ enumerate (suc position) xs

-- `_rank_validated`
unfoldable pub rank_validated : List Candidate → Result Error (List Ranked)
unfolding keyed
rank_validated candidates = do
  raise_if (has_duplicate [] candidates) (evidence duplicate_chunk)
  entries ← traverse keyed candidates
  ok (enumerate 1 (sort key_leb entries))

-- `DeterministicEvidenceRanker.rank`
unfoldable pub rank : Any (List (Any Candidate)) → Any ℕ → Result Error (List Ranked)
unfolding validate_top_k validate_candidates rank_validated
rank candidates top_k = do
  k ← validate_top_k top_k
  validated ← validate_candidates candidates
  if is_empty validated then ok [] else do ranked ← rank_validated validated; ok (take k ranked)
