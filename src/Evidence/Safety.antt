-- ===== src/Evidence/Safety.antt =====
-- Retrieval as a whole: what callers may rely on of the candidates that it returns.
use xportra_ai.Base.{
  ℕ, suc, ◌≡◌, inl, inr, Bool, true, false, ◌&&◌, Option, List, [], ◌∷◌, map, Any, typed, untyped,
  Result, ok, ◌>>=◌, ◌>>◌, raise_if, ◌==◌, is_empty, take, All, Distinct, Bool-cases, Result-cases,
  Ensures, Ensures-bind, Ensures-ok, ==_iff,
}
use xportra_ai.Base.Text.{Text}
use xportra_ai.Base.Sorting.{IsSorted, sort-IsSorted, sort-perm, All-perm}
use xportra_ai.Base.Keys.{key-IsOrder}
use xportra_ai.Errors.{Uuid, Error, evidence, no_terms}
use xportra_ai.Evidence.Model.{Evidence, Scope, accepts}
use xportra_ai.Evidence.Hybrid.{Candidate, merge_candidates, order_candidates, order_key, collapse}
use mathlib.Core.List.Permᴰ
use xportra_ai.Evidence.Union.{IsCandidate, merge_candidates_sources}
use xportra_ai.Evidence.Order.{ids, Distinct-perm, ranking, rank_lem}
use xportra_ai.Evidence.Ranking.{rank}
use xportra_ai.Evidence.Kept.{AllEvidence, merge_candidates-Kept}
use xportra_ai.Evidence.Collapse.{
  collapse-All, collapse-Distinct, collapse-IsSorted, collapse-Unique, candidate_leb, Unique,
}
use xportra_ai.Evidence.Retrieval.{
  Mode, Query, uses_semantic, uses_lexical, only_if, scope_or_all, as_store_error, validate_each,
  validate_results, semantic_branch, lexical_branch, retrieve_candidates,
}

-- What the tenant may see within the scope.
abbrev pub Visible : Uuid → Scope → Evidence → Type 0
Visible t s e = (e.tenant_id ≡ t) × (accepts s e ≡ true)

validate_each-Visible :
    (t : Uuid) (s : Scope) (items : List (Any Evidence))
    → Ensures (All (Visible t s)) (validate_each t s items)
unfolding validate_each
validate_each-Visible t s [] = tt
validate_each-Visible t s (untyped ∷ items) = tt
validate_each-Visible t s (typed e ∷ items) = elim (Bool-cases (e.tenant_id == t)) [
  | inl p ↦ rw p (elim (Bool-cases (accepts s e)) [
    | inl q ↦ rw q (
        Ensures-bind (All (Visible t s)) (All (Visible t s)) (validate_each t s items)
          (λ rest. ok (e ∷ rest)) (validate_each-Visible t s items)
          (λ rest h. (((==_iff e.tenant_id t).0 p, q), h)))
    | inr q ↦ rw q tt
  ])
  | inr p ↦ rw p tt
]

pub validate_results-Visible :
    (t : Uuid) (s : Scope) (results : Any (List (Any Evidence)))
    → Ensures (All (Visible t s)) (validate_results t s results)
unfolding validate_results
validate_results-Visible t s (typed items) = validate_each-Visible t s items
validate_results-Visible t s untyped = tt

-- What the whole retrieval promises.
pub record IsRetrieved (t : Uuid) (s : Scope) (out : List Candidate) : Type 0 where
  pub visible : AllEvidence (Visible t s) out
  pub well_formed : All IsCandidate out
  pub distinct : Distinct (ids out)
  pub unique : Unique out
  pub sorted : IsSorted candidate_leb out

ordered :
    (t : Uuid) (s : Scope) (cs : List Candidate)
    → AllEvidence (Visible t s) cs
    → All IsCandidate cs
    → Distinct (ids cs)
    → IsRetrieved t s (collapse [] (order_candidates cs))
unfolding order_candidates
ordered t s cs v w d =
    let back = Permᴰ.symm (sort-perm candidate_leb cs) in
    record {
      visible =
          collapse-All (λ c. Visible t s c.evidence) [] (order_candidates cs)
            (All-perm (λ c. Visible t s c.evidence) back v);
      well_formed = collapse-All IsCandidate [] (order_candidates cs) (All-perm IsCandidate back w);
      distinct = collapse-Distinct [] (order_candidates cs) (Distinct-perm back d);
      unique = collapse-Unique [] (order_candidates cs);
      sorted =
          collapse-IsSorted [] (order_candidates cs)
            (sort-IsSorted candidate_leb (key-IsOrder order_key) cs);
    }

merged-IsRetrieved :
    (t : Uuid) (s : Scope) (sem lex : List Evidence)
    → All (Visible t s) sem
    → All (Visible t s) lex
    → Ensures
        (IsRetrieved t s)
        (merge_candidates sem lex >>= λ candidates. ok (collapse [] (order_candidates candidates)))
merged-IsRetrieved t s sem lex p q = elim (Result-cases (merge_candidates sem lex)) [
  | inl (cs, e) ↦
      let kept = merge_candidates-Kept (Visible t s) sem lex cs p q e in
      rw e (ordered t s cs kept.0 (merge_candidates_sources sem lex cs e).0 kept.1)
  | inr (f, e) ↦ rw e tt
]

only_if-Visible :
    (t : Uuid) (s : Scope) (b : Bool) (m : Result Error (List Evidence))
    → Ensures (All (Visible t s)) m
    → Ensures (All (Visible t s)) (only_if b m)
only_if-Visible t s true m h = h
only_if-Visible t s false m h = tt

module _ (retrieve : Query → Uuid → Scope → Result Error (Any (List (Any Evidence))))
    (find_lexical : List Text → Uuid → ℕ → Scope → Result Error (Any (List (Any Evidence))))
    (lexical_terms : Text → List Text) where
  semantic-Visible :
      (q : Query) (t : Uuid) (s : Scope)
      → Ensures (All (Visible t s)) (semantic_branch retrieve find_lexical lexical_terms q t s)
  unfolding semantic_branch
  semantic-Visible q t s = elim (Result-cases (retrieve q t s)) [
    | inl (raw, e) ↦ rw e (validate_results-Visible t s raw)
    | inr (f, e) ↦ rw e tt
  ]

  lexical-Visible :
      (q : Query) (t : Uuid) (s : Scope)
      → Ensures (All (Visible t s)) (lexical_branch retrieve find_lexical lexical_terms q t s)
  unfolding lexical_branch
  lexical-Visible q t s =
      elim (Result-cases (as_store_error (find_lexical (lexical_terms q.text) t q.top_k s))) [
        | inl (raw, e) ↦ rw e (validate_results-Visible t s raw)
        | inr (f, e) ↦ rw e tt
      ]

  abbrev after_checks : Query → Uuid → Mode → Scope → Result Error (List Candidate)
  after_checks q t m s = do
    sem ← only_if (uses_semantic m) (semantic_branch retrieve find_lexical lexical_terms q t s)
    lex ← only_if (uses_lexical m) (lexical_branch retrieve find_lexical lexical_terms q t s)
    candidates ← merge_candidates sem lex
    ok (collapse [] (order_candidates candidates))

  after_checks-IsRetrieved :
      (q : Query) (t : Uuid) (m : Mode) (s : Scope)
      → Ensures (IsRetrieved t s) (after_checks q t m s)
  after_checks-IsRetrieved q t m s =
      Ensures-bind (All (Visible t s)) (IsRetrieved t s)
        (only_if (uses_semantic m) (semantic_branch retrieve find_lexical lexical_terms q t s)) _
        (only_if-Visible t s (uses_semantic m) _ (semantic-Visible q t s))
        (λ sem p.
          Ensures-bind (All (Visible t s)) (IsRetrieved t s)
            (only_if (uses_lexical m) (lexical_branch retrieve find_lexical lexical_terms q t s))
            (λ lex. merge_candidates sem lex >>= λ candidates.
              ok (collapse [] (order_candidates candidates)))
            (only_if-Visible t s (uses_lexical m) _ (lexical-Visible q t s))
            (λ lex r. merged-IsRetrieved t s sem lex p r))

  -- Whatever the two injected paths answer, and in each mode: if retrieval returns, every
  -- candidate is the tenant's and in the scope, satisfies the constructor's checks, no chunk and
  -- no pair of document and fingerprint comes twice, and the candidates are in the order of
  -- their keys.
  pub retrieve_candidates-IsRetrieved :
      (q : Query) (t : Uuid) (m : Mode) (given : Option Scope) (out : List Candidate)
      → retrieve_candidates retrieve find_lexical lexical_terms
          (typed q)
          (typed t)
          (typed m)
          (typed given)
        ≡ ok out
      → IsRetrieved t (scope_or_all given) out
  unfolding retrieve_candidates
  retrieve_candidates-IsRetrieved q t m given out e =
      let s = scope_or_all given in
      let holds : Ensures (IsRetrieved t s) (
          raise_if (uses_lexical m && is_empty (lexical_terms q.text)) (evidence no_terms)
          >> after_checks q t m s) =
        elim (Bool-cases (uses_lexical m && is_empty (lexical_terms q.text))) [
          | inl b ↦ rw b tt
          | inr b ↦ rw b (after_checks-IsRetrieved q t m s)
        ] in
      Ensures-ok (IsRetrieved t s) _ holds e

  -- The ranker accepts whatever retrieval returns, for every positive top-k, and what it returns
  -- is the ranking of all the candidates cut to top-k.
  pub rank_of_retrieved :
      (q : Query) (t : Uuid) (m : Mode) (given : Option Scope) (out : List Candidate) (k : ℕ)
      → retrieve_candidates retrieve find_lexical lexical_terms
          (typed q)
          (typed t)
          (typed m)
          (typed given)
        ≡ ok out
      → rank (typed (map typed out)) (typed (suc k)) ≡ ok (take (suc k) (ranking out))
  rank_of_retrieved q t m given out k e =
      let r = retrieve_candidates-IsRetrieved q t m given out e in
      rank_lem out k r.well_formed r.distinct
