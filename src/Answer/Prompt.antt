-- ===== src/Answer/Prompt.antt =====
-- The prompt (xportra/domain/evidence_prompt.py): labels, citations, the evidence as text.
use xportra_ai.Base.{
  ℕ, suc, Bool, false, ◌||◌, Option, none, some, List, [], ◌∷◌, ◌++◌, map, Any, Result, ok, ◌>>=◌,
  ◌>>◌, raise_if, raise_unless, expect, ◌==◌, ltb, if◌then◌else◌, is_empty, contains, length,
  list_eq,
}
use xportra_ai.Base.Text.{join, Text, codes, is_space, is_blank}
use xportra_ai.Base.Decimal.{show}
use xportra_ai.Errors.{
  Uuid, Error, prompt, config_required, selection_required, need_required, duplicate_label,
  inconsistent_rank, many_tenants,
}
use xportra_ai.Evidence.Model.{Evidence}
use xportra_ai.Evidence.Context.{Selected, Selection}
use xportra_ai.Evidence.Chunking.{split_lines}

-- `citation_label`
unfoldable pub citation_label : ℕ → Text
citation_label n = codes "[E" ++ (show n ++ codes "]")

-- `EvidencePromptConfig`
pub record Config : Type 0 where
  pub system_instructions : Text
  pub evidence_heading : Text
  pub question_heading : Text

unfoldable pub config : Any Text → Any Text → Any Text → Result Error Config
config system evidence question = do
  s ← expect system (prompt config_required)
  raise_if (is_blank s) (prompt config_required)
  e ← expect evidence (prompt config_required)
  raise_if (is_blank e) (prompt config_required)
  q ← expect question (prompt config_required)
  raise_if (is_blank q) (prompt config_required)
  ok (record { system_instructions = s; evidence_heading = e; question_heading = q })

-- `PromptCitation`, whose `rank_position` is that of what it selects.
pub record Citation : Type 0 where
  pub label : Text
  pub selected : Selected

abbrev pub rank_position : Citation → ℕ
rank_position c = c.selected.rank_position

-- `EvidencePrompt`
pub record Prompt : Type 0 where
  pub system_instructions : Text
  pub information_need : Text
  pub evidence_context : Text
  pub citations : List Citation
  pub evidence_heading : Text
  pub question_heading : Text
  pub tenant_id : Option Uuid

-- `render`
unfoldable pub render : Prompt → Text
render p = join (10 ∷ []) (
    p.system_instructions
    ∷ []
    ∷ (p.question_heading ++ codes ":")
    ∷ p.information_need
    ∷ []
    ∷ (p.evidence_heading ++ codes ":")
    ∷ (if is_empty p.evidence_context
        then codes "(no evidence matched the information need)"
        else p.evidence_context)
    ∷ [])

-- `text.split()`: the stretches between white space.
abbrev pub add_word : Text → List Text → List Text
add_word [] ws = ws
add_word (c ∷ w) ws = (c ∷ w) ∷ ws

-- From the letters of the word so far.
unfoldable pub words_from : Text → Text → List Text
words_from word [] = add_word word []
words_from word (c ∷ cs) =
    let ended = add_word word (words_from [] cs) in
    let longer = words_from (word ++ (c ∷ [])) cs in if is_space c then ended else longer

-- `" ".join(information_need.split())`
unfoldable pub normalized : Text → Text
normalized need = join (codes " ") (words_from [] need)

-- `evidence.document_version or 'unversioned'`
abbrev pub version_or : Option Text → Text
version_or none = codes "unversioned"
version_or (some []) = codes "unversioned"
version_or (some (c ∷ t)) = c ∷ t

unfoldable pub block : Text → Evidence → Text
block label e = join (10 ∷ []) (
    label
    ∷ (codes "Source: " ++ e.source_id)
    ∷ (codes "Source type: " ++ e.source_type)
    ∷ (codes "Document version: " ++ version_or e.document_version)
    ∷ codes "Evidence:"
    ∷ map (λ line. codes "  " ++ line) (split_lines e.content))

abbrev pub has_label : Text → List Citation → Bool
has_label l [] = false
has_label l (c ∷ cs) = list_eq c.label l || has_label l cs

-- `tenant_ids.add`
abbrev pub add_tenant : Uuid → List Uuid → List Uuid
add_tenant t ts = if contains ts t then ts else ts ++ (t ∷ [])

-- The variables of the loop.
pub record Built : Type 0 where
  pub citations : List Citation
  pub tenants : List Uuid
  pub blocks : List Text

-- The loop of `build`, at the 1-based index of the next item.
unfoldable pub add_items : ℕ → List Selected → Built → Result Error Built
add_items index [] b = ok b
add_items index (item ∷ items) b = do
  let label = citation_label index
  raise_if (has_label label b.citations) (prompt duplicate_label)
  raise_unless (item.rank_position == item.ranked.rank_position) (prompt inconsistent_rank)
  add_items (suc index) items (record {
    citations = b.citations ++ (record { label = label; selected = item } ∷ []);
    tenants = add_tenant item.ranked.evidence.tenant_id b.tenants;
    blocks = b.blocks ++ (block label item.ranked.evidence ∷ []);
  })

abbrev pub first_tenant : List Uuid → Option Uuid
first_tenant [] = none
first_tenant (t ∷ ts) = some t

-- `CitationAwarePromptBuilder.build`
unfoldable pub build : Config → Any Selection → Any Text → Result Error Prompt
unfolding add_items
build c selection information_need = do
  s ← expect selection (prompt selection_required)
  need ← expect information_need (prompt need_required)
  raise_if (is_empty (normalized need)) (prompt need_required)
  b ← add_items 1 s.selected_items (record { citations = []; tenants = []; blocks = [] })
  raise_if (ltb 1 (length b.tenants)) (prompt many_tenants)
  ok (record {
    system_instructions = c.system_instructions;
    information_need = normalized need;
    evidence_context = join (10 ∷ 10 ∷ []) b.blocks;
    citations = b.citations;
    evidence_heading = c.evidence_heading;
    question_heading = c.question_heading;
    tenant_id = first_tenant b.tenants;
  })
