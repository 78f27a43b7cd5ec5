-- ===== src/Evidence/Tests.antt =====
-- Two chunks, one found by both paths, taken from retrieval to a context; and the theorems at
-- them.
use xportra_ai.Base.{
  ℕ, ◌+◌, ◌≤◌, ◌≡◌, refl, none, some, List, [], ◌∷◌, map, Any, typed, Result, ok, ◌>>=◌, take, All,
}
use xportra_ai.Base.Text.{Text}
use xportra_ai.Base.Int.{pos}
use xportra_ai.Base.Sorting.{sort, IsSorted}
use xportra_ai.Base.Keys.{lex_leb}
use xportra_ai.Errors.{Uuid, Error}
use xportra_ai.Evidence.Model.{Evidence, finite, Scope, accepts}
use xportra_ai.Evidence.Hybrid.{
  Candidate, both, semantic_only, candidate, find, join, merge_semantic, merge_lexical,
  merge_candidates, order_candidates, collapse,
}
use mathlib.Core.List.{Permᴰ}
use xportra_ai.Base.Text.{codes}
use xportra_ai.Evidence.Retrieval.{
  hybrid, Query, scope_or_all, validate_each, validate_results, semantic_branch, lexical_branch,
  retrieve_candidates,
}
use xportra_ai.Evidence.Union.{
  IsCandidate, found_semantic, found_lexical, has_chunk, merge_candidates_sources,
}
use xportra_ai.Evidence.Ranking.{Ranked, rank}
use xportra_ai.Evidence.Order.{ranking, rank-perm_eq}
use xportra_ai.Evidence.Policy.{origins, Numbered, HasKey, ranked_leb, rank_policy}
use xportra_ai.Evidence.Context.{
  Budget, Selection, select, visit, visit_all, add_item, remaining_budget,
}
use xportra_ai.Evidence.Selection.{outcome, IsAcceptable, Ascends, total}
use xportra_ai.Evidence.Limits.{select_inv, select_budget, Splits}
use xportra_ai.Evidence.Safety.{IsRetrieved, retrieve_candidates-IsRetrieved}
use xportra_ai.Evidence.Collapse.{Unique, Represented, collapse_exact}
use xportra_ai.Evidence.Flow.{select_of_retrieved}

abbrev first : Evidence
first = record {
  tenant_id = 1;
  chunk_id = 21;
  document_id = 31;
  chunk_index = 0;
  content = codes "sealed";
  content_fingerprint = 41;
  source_id = codes "decree";
  source_type = codes "regulation";
  source_location = none;
  document_version = none;
  embedding_model = codes "e";
  embedding_dimensions = 2;
  score = finite (pos 5);
}

abbrev second : Evidence
second = record first {
  chunk_id = 22;
  document_id = 32;
  content = codes "weighed";
  content_fingerprint = 42;
  score = finite (pos 9);
}

-- What the two paths answer.
abbrev answer_semantic : Query → Uuid → Scope → Result Error (Any (List (Any Evidence)))
answer_semantic q t s = ok (typed (typed first ∷ typed second ∷ []))

abbrev answer_lexical : List Text → Uuid → ℕ → Scope → Result Error (Any (List (Any Evidence)))
answer_lexical terms t k s = ok (typed (typed first ∷ []))

abbrev words : Text → List Text
words t = t ∷ []

abbrev question : Query
question = record { text = codes "seal"; top_k = 3 }

abbrev merged_first : Candidate
merged_first = record {
  evidence = first;
  semantic_score = some (finite (pos 5));
  lexical_score = some (finite (pos 5));
  retrieval_sources = both;
}

abbrev merged_second : Candidate
merged_second = record {
  evidence = second;
  semantic_score = some (finite (pos 9));
  lexical_score = none;
  retrieval_sources = semantic_only;
}

abbrev two : List Candidate
two = merged_first ∷ merged_second ∷ []

-- The higher semantic score comes first.
abbrev found : List Candidate
found = merged_second ∷ merged_first ∷ []

merges : merge_candidates (first ∷ second ∷ []) (first ∷ []) ≡ ok two
unfolding merge_candidates merge_semantic merge_lexical join candidate
merges = refl

merge_candidates_sources_example :
    All IsCandidate two
    × ((k : Uuid) → found_semantic (find k two) ≡ has_chunk (first ∷ second ∷ []) k)
    × ((k : Uuid) → found_lexical (find k two) ≡ has_chunk (first ∷ []) k)
merge_candidates_sources_example =
    merge_candidates_sources (first ∷ second ∷ []) (first ∷ []) two merges

retrieves :
    retrieve_candidates answer_semantic answer_lexical words
      (typed question)
      (typed 1)
      (typed hybrid)
      (typed none)
    ≡ ok found
unfolding retrieve_candidates semantic_branch lexical_branch validate_results validate_each accepts
    merge_candidates merge_semantic merge_lexical join candidate order_candidates sort lex_leb
    collapse
retrieves = refl

retrieve_candidates-IsRetrieved_example : IsRetrieved 1 (scope_or_all none) found
retrieve_candidates-IsRetrieved_example =
    retrieve_candidates-IsRetrieved answer_semantic answer_lexical words question 1 hybrid none
      found retrieves

first-IsCandidate : IsCandidate merged_first
first-IsCandidate = record {
  semantic_finite = refl;
  lexical_finite = refl;
  known_sources = refl;
  semantic_consistent = refl;
  lexical_consistent = refl;
}

second-IsCandidate : IsCandidate merged_second
second-IsCandidate = record {
  semantic_finite = refl;
  lexical_finite = refl;
  known_sources = refl;
  semantic_consistent = refl;
  lexical_consistent = refl;
}

rank-perm_eq_example :
    rank (typed (map typed two)) (typed 2) ≡ rank (typed (map typed found)) (typed 2)
rank-perm_eq_example =
    rank-perm_eq (Permᴰ.swap {l = []} refl refl) (first-IsCandidate, (second-IsCandidate, tt))
      (refl, (refl, tt)) 1

rank_policy_example :
    (all : List Ranked) × (rank (typed (map typed found)) (typed 2) ≡ ok (take 2 all))
    × Permᴰ (origins all) found
    × Numbered 1 all
    × All HasKey all
    × IsSorted ranked_leb all
rank_policy_example =
    rank_policy found 1 (second-IsCandidate, (first-IsCandidate, tt)) (refl, (refl, tt))

abbrev ten : Budget
ten = record { max_characters = 10 }

select_of_retrieved_example :
    (rank (typed (map typed found)) (typed 2) >>= λ rs.
    select (typed (map typed rs)) (typed 1) (typed ten))
    ≡ ok (outcome ten (take 2 (ranking found)))
select_of_retrieved_example =
    select_of_retrieved answer_semantic answer_lexical words question 1 hybrid none found 1 ten
      retrieves ((refl, refl), ((refl, refl), tt))

abbrev listed : List Ranked
listed =
    record {
      rank_position = 1;
      evidence = first;
      semantic_score = some (finite (pos 5));
      lexical_score = some (finite (pos 5));
      retrieval_sources = both;
      ranking_key = [];
    }
    ∷ record {
      rank_position = 2;
      evidence = second;
      semantic_score = some (finite (pos 9));
      lexical_score = none;
      retrieval_sources = semantic_only;
      ranking_key = [];
    }
    ∷ []

-- Of ten characters, the first result uses six; the second needs seven and is skipped.
abbrev choice : Selection
choice = record {
  budget = ten;
  selected_items =
      record {
        rank_position = 1;
        ranked = record {
          rank_position = 1;
          evidence = first;
          semantic_score = some (finite (pos 5));
          lexical_score = some (finite (pos 5));
          retrieval_sources = both;
          ranking_key = [];
        };
        character_count = 6;
      }
      ∷ [];
  used_budget = 6;
  skipped_rank_positions = 2 ∷ [];
}

selects : select (typed (map typed listed)) (typed 1) (typed ten) ≡ ok choice
unfolding select visit_all visit add_item
selects = refl

select_inv_example :
    (rs : List Ranked) × (◌≡◌ {A = List (Any Ranked)} (map typed listed) (map typed rs))
    × All (IsAcceptable 1 10) rs
    × Ascends none [] rs
    × (choice ≡ outcome ten rs)
select_inv_example = select_inv (map typed listed) 1 ten choice selects

select_budget_example :
    (choice.used_budget ≡ total choice.selected_items)
    × (choice.used_budget ≤ 10)
    × (choice.used_budget + remaining_budget choice ≡ 10)
    × ((rs : List Ranked) × (◌≡◌ {A = List (Any Ranked)} (map typed listed) (map typed rs))
        × Splits rs choice.selected_items choice.skipped_rank_positions)
select_budget_example = select_budget (map typed listed) 1 ten choice selects

abbrev twice : List Candidate
twice = merged_first ∷ record merged_first { evidence = record first { chunk_id = 23 } } ∷ []

collapse_exact_example : Unique (collapse [] twice) × All (Represented [] (collapse [] twice)) twice
collapse_exact_example = collapse_exact twice
