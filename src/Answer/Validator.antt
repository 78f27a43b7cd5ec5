-- ===== src/Answer/Validator.antt =====
-- `CitationAwareAnswerValidator` (xportra/domain/answer_validation.py).
use xportra_ai.Base.{
  ℕ, Bool, not, ◌&&◌, Option, none, some, List, [], ◌∷◌, ◌++◌, Any, Result, ok, ◌>>=◌, ◌>>◌,
  raise_if, raise_unless, expect, ◌==◌, ltb, if◌then◌else◌, is_empty, length, list_eq,
}
use xportra_ai.Base.Text.{Text, is_blank}
use xportra_ai.Errors.{
  Uuid, Error, answer, duplicate_label, inconsistent_rank, many_tenants, label_drift,
  invalid_citation, answer_required,
}
use xportra_ai.Answer.Prompt.{
  Prompt, Citation, rank_position, citation_label, add_tenant, has_label,
}
use xportra_ai.Answer.Citations.{Extraction, extract}

-- `GeneratedAnswer`, of which the validator reads the prompt and the text.
pub record GeneratedAnswer : Type 0 where
  pub prompt : Prompt
  pub answer_text : Text

pub data Status : Type 0 where
  valid invalid_citations empty : Status

-- `ValidatedAnswer`
pub record ValidatedAnswer : Type 0 where
  pub answer : GeneratedAnswer
  pub status : Status
  pub extraction : Extraction
  pub validated_citations : List Citation
  pub invalid_references : List Text
  pub tenant_id : Option Uuid

-- The loop over the prompt's citations: `authoritative`, in the order of insertion, and
-- `tenant_ids`. Of a citation, `rank_position` is the property that reads `selected`.
pub record Mapping : Type 0 where
  pub authoritative : List Citation
  pub tenants : List Uuid

unfoldable pub read_citations : List Citation → Mapping → Result Error Mapping
read_citations [] m = ok m
read_citations (c ∷ cs) m = do
  raise_if (has_label c.label m.authoritative) (answer duplicate_label)
  raise_unless (rank_position c == c.selected.rank_position) (answer inconsistent_rank)
  raise_unless (list_eq c.label (citation_label (rank_position c))) (answer label_drift)
  read_citations cs (record {
    authoritative = m.authoritative ++ (c ∷ []);
    tenants = add_tenant c.selected.ranked.evidence.tenant_id m.tenants;
  })

-- `authoritative.get(label)`
abbrev pub lookup : Text → List Citation → Option Citation
lookup l [] = none
lookup l (c ∷ cs) = if list_eq c.label l then some c else lookup l cs

-- The loop over the references: `validated` and `invalid`.
unfoldable pub resolved : List Citation → List Text → List Citation
resolved known [] = []
resolved known (l ∷ ls) = elim (lookup l known) [
  | none ↦ resolved known ls
  | some c ↦ c ∷ resolved known ls
]

unfoldable pub unresolved : List Citation → List Text → List Text
unresolved known [] = []
unresolved known (l ∷ ls) = elim (lookup l known) [
  | none ↦ l ∷ unresolved known ls
  | some c ↦ unresolved known ls
]

-- `next(iter(tenant_ids)) if tenant_ids else prompt.tenant_id`
abbrev pub tenant_or : List Uuid → Option Uuid → Option Uuid
tenant_or [] given = given
tenant_or (t ∷ ts) given = some t

-- The checks on the mapping, before anything is said of the text.
unfoldable pub read_mapping : Prompt → Result Error Mapping
unfolding read_citations
read_mapping p = do
  m ← read_citations p.citations (record { authoritative = []; tenants = [] })
  raise_if (ltb 1 (length m.tenants)) (answer many_tenants)
  ok m

module _ (is_digit : ℕ → Bool) where
  -- What is said of the text of an answer that is not blank.
  unfoldable pub classified : Mapping → GeneratedAnswer → ValidatedAnswer
  classified m a =
      let extraction = extract is_digit a.answer_text in
      let invalid = unresolved m.authoritative extraction.references in
      record {
        answer = a;
        status = if is_empty invalid then valid else invalid_citations;
        extraction = extraction;
        validated_citations = resolved m.authoritative extraction.references;
        invalid_references = invalid;
        tenant_id = tenant_or m.tenants a.prompt.tenant_id;
      }

  -- An answer with no text but white space: nothing is looked up.
  abbrev pub empty_answer : Mapping → GeneratedAnswer → ValidatedAnswer
  empty_answer m a = record {
    answer = a;
    status = empty;
    extraction = extract is_digit a.answer_text;
    validated_citations = [];
    invalid_references = [];
    tenant_id = tenant_or m.tenants a.prompt.tenant_id;
  }

  unfoldable pub conclude : Bool → Mapping → GeneratedAnswer → Result Error ValidatedAnswer
  conclude strict m a =
      let checked =
        raise_if (not (is_empty (classified m a).invalid_references) && strict)
          (answer invalid_citation)
        >> ok (classified m a) in
      if is_blank a.answer_text then ok (empty_answer m a) else checked

  -- `validate`, with `fail_on_invalid_citations`.
  unfoldable pub validate : Bool → Any GeneratedAnswer → Result Error ValidatedAnswer
  unfolding read_mapping conclude
  validate strict given = do
    a ← expect given (answer answer_required)
    m ← read_mapping a.prompt
    conclude strict m a
