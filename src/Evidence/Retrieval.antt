-- ===== src/Evidence/Retrieval.antt =====
-- `ComposedHybridEvidenceRetriever` (xportra/domain/evidence_hybrid.py) over its two injected
-- paths, with the checks on what they return.
use xportra_ai.Base.{
  ℕ, Bool, true, false, Option, none, some, List, [], ◌∷◌, Any, Result, ok, err, ◌>>=◌, ◌>>◌,
  raise_if, raise_unless, expect, ◌==◌, is_empty, ◌&&◌,
}
use xportra_ai.Base.Text.{Text}
use xportra_ai.Errors.{
  Uuid, Error, evidence, store, malformed_output, malformed_result, cross_tenant, out_of_scope,
  lexical_failed, query_required, unsupported_mode, scope_required, no_terms,
  require_tenant_context,
}
use xportra_ai.Evidence.Model.{Evidence, Scope, accepts}
use xportra_ai.Evidence.Hybrid.{Candidate, merge_candidates, order_candidates, collapse}

-- RETRIEVAL_MODES; any other value of the argument is `untyped`.
pub data Mode : Type 0 where
  semantic lexical hybrid : Mode

abbrev pub uses_semantic : Mode → Bool
uses_semantic lexical = false
uses_semantic _ = true

abbrev pub uses_lexical : Mode → Bool
uses_lexical semantic = false
uses_lexical _ = true

pub record Query : Type 0 where
  pub text : Text
  pub top_k : ℕ

-- `_validate_results`: the loop, then the call.
unfoldable pub validate_each : Uuid → Scope → List (Any Evidence) → Result Error (List Evidence)
validate_each t s [] = ok []
validate_each t s (item ∷ items) = do
  e ← expect item (evidence malformed_result)
  raise_unless (e.tenant_id == t) (store cross_tenant)
  raise_unless (accepts s e) (store out_of_scope)
  rest ← validate_each t s items
  ok (e ∷ rest)

unfoldable pub validate_results :
    Uuid → Scope → Any (List (Any Evidence)) → Result Error (List Evidence)
unfolding validate_each
validate_results t s results = do
  items ← expect results (evidence malformed_output)
  validate_each t s items

-- `except Exception as exc: raise VectorStoreError`
abbrev pub as_store_error : {A : Type 0} → Result Error A → Result Error A
as_store_error (ok a) = ok a
as_store_error (err e) = err (store lexical_failed)

-- A list that a mode does not ask for is empty.
abbrev pub only_if : Bool → Result Error (List Evidence) → Result Error (List Evidence)
only_if true m = m
only_if false m = ok []

-- `EvidenceRetrievalScope()` restricts nothing.
abbrev pub scope_or_all : Option Scope → Scope
scope_or_all (some s) = s
scope_or_all none = record {
  source_id = none;
  source_type = none;
  document_id = none;
  document_version = none;
}

-- The semantic retriever and the lexical index, as they answer; and how a text is split into
-- terms, which rests on Python's tables of letters.
module _ (retrieve : Query → Uuid → Scope → Result Error (Any (List (Any Evidence))))
    (find_lexical : List Text → Uuid → ℕ → Scope → Result Error (Any (List (Any Evidence))))
    (lexical_terms : Text → List Text) where
  -- The semantic branch, then the lexical one.
  unfoldable pub semantic_branch : Query → Uuid → Scope → Result Error (List Evidence)
  unfolding validate_results
  semantic_branch q t s = do raw ← retrieve q t s; validate_results t s raw

  unfoldable pub lexical_branch : Query → Uuid → Scope → Result Error (List Evidence)
  unfolding validate_results
  lexical_branch q t s = do
    raw ← as_store_error (find_lexical (lexical_terms q.text) t q.top_k s)
    validate_results t s raw

  unfoldable pub retrieve_candidates :
      Any Query → Any Uuid → Any Mode → Any (Option Scope) → Result Error (List Candidate)
  unfolding semantic_branch lexical_branch
  retrieve_candidates query tenant mode scope = do
    t ← require_tenant_context tenant
    q ← expect query (evidence query_required)
    m ← expect mode (evidence unsupported_mode)
    given ← expect scope (evidence scope_required)
    let s = scope_or_all given
    raise_if (uses_lexical m && is_empty (lexical_terms q.text)) (evidence no_terms)
    sem ← only_if (uses_semantic m) (semantic_branch q t s)
    lex ← only_if (uses_lexical m) (lexical_branch q t s)
    candidates ← merge_candidates sem lex
    ok (collapse [] (order_candidates candidates))
