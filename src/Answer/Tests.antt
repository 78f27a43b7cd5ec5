-- ===== src/Answer/Tests.antt =====
-- An answer to a prompt of two items; the theorems at it.
use xportra_ai.Base.{
  ℕ, ◌≡◌, ◌↔◌, refl, Bool, false, not, ◌&&◌, none, some, List, [], ◌∷◌, map, typed, ok, leb,
  if◌then◌else◌, is_empty, drop, Succeeds,
}
use xportra_ai.Base.Text.{join, Text, codes, is_space, is_blank}
use xportra_ai.Base.Decimal.{show, digits_of}
use xportra_ai.Evidence.Model.{Evidence, finite}
use xportra_ai.Evidence.Ranking.{Ranked}
use xportra_ai.Evidence.Context.{Budget, Selection, select, visit_all, visit, add_item}
use xportra_ai.Answer.Prompt.{Prompt, Config, build, normalized, words_from, citation_label}
use xportra_ai.Answer.Validator.{
  GeneratedAnswer, ValidatedAnswer, valid, invalid_citations, validate, read_mapping,
  read_citations, conclude, classified, resolved, unresolved,
}
use xportra_ai.Answer.Citations.{extract, find_from, first_labels, match_at}
use xportra_ai.Answer.Partition.{Sorts}
use xportra_ai.Answer.Composition.{Consecutive}
use xportra_ai.Answer.Extraction.{found_at, extract_exact}
use xportra_ai.Answer.Gaps.{select-build-validate}
use xportra_ai.Answer.Classified.{validate-Sorts}
use xportra_ai.Base.Int.{pos}
use xportra_ai.Evidence.Hybrid.{both}

abbrev is_ascii_digit : ℕ → Bool
is_ascii_digit c = leb 48 c && leb c 57

abbrev permit : Evidence
permit = record {
  tenant_id = 1;
  chunk_id = 21;
  document_id = 31;
  chunk_index = 0;
  content = codes "permit";
  content_fingerprint = 41;
  source_id = codes "decree";
  source_type = codes "regulation";
  source_location = none;
  document_version = none;
  embedding_model = codes "e";
  embedding_dimensions = 2;
  score = finite (pos 5);
}

abbrev listing : ℕ → Evidence → Ranked
listing n e = record {
  rank_position = n;
  evidence = e;
  semantic_score = some (finite (pos 5));
  lexical_score = some (finite (pos 5));
  retrieval_sources = both;
  ranking_key = [];
}

abbrev weighing : Evidence
weighing = record permit { chunk_id = 22; content = codes "weighing" }

abbrev tax : Evidence
tax = record permit { chunk_id = 23; content = codes "tax" }

-- The second result does not fit into the budget behind the first.
abbrev three : List Ranked
three = listing 1 permit ∷ listing 2 weighing ∷ listing 3 tax ∷ []

abbrev ten : Budget
ten = record { max_characters = 10 }

abbrev gap : Selection
gap = record {
  budget = ten;
  selected_items =
      record { rank_position = 1; ranked = listing 1 permit; character_count = 6 }
      ∷ record { rank_position = 3; ranked = listing 3 tax; character_count = 3 }
      ∷ [];
  used_budget = 9;
  skipped_rank_positions = 2 ∷ [];
}

selects : select (typed (map typed three)) (typed 1) (typed ten) ≡ ok gap
unfolding select visit_all visit add_item
selects = refl

abbrev headings : Config
headings = record {
  system_instructions = codes "Cite.";
  evidence_heading = codes "Evidence";
  question_heading = codes "Question";
}

question : is_empty (normalized (codes "which permit")) ≡ false
unfolding normalized words_from join is_space
question = refl

select-build-validate_example :
    (p : Prompt) × (build headings (typed gap) (typed (codes "which permit")) ≡ ok p)
    × ((text : Text)
        → Succeeds
            (validate is_ascii_digit false (typed (record { prompt = p; answer_text = text })))
          ↔ Consecutive 1 gap.selected_items)
select-build-validate_example =
    select-build-validate is_ascii_digit (map typed three) 1 ten gap headings (codes "which permit")
      selects question

-- The same prompt with one citation, and an answer with a reference that it has and one that it
-- has not.
abbrev shown : Prompt
shown = record {
  system_instructions = codes "Cite.";
  information_need = codes "which permit";
  evidence_context = codes "permit";
  citations =
      record {
        label = codes "[E1]";
        selected = record { rank_position = 1; ranked = listing 1 permit; character_count = 6 };
      }
      ∷ [];
  evidence_heading = codes "Evidence";
  question_heading = codes "Question";
  tenant_id = some 1;
}

abbrev reply : GeneratedAnswer
reply = record { prompt = shown; answer_text = codes "See [E1] and [E7], [E1]." }

abbrev checked_reply : ValidatedAnswer
checked_reply = record {
  answer = reply;
  status = invalid_citations;
  extraction = record {
    references = codes "[E1]" ∷ codes "[E7]" ∷ [];
    occurrences =
        record { label = codes "[E1]"; position = 4 }
        ∷ record { label = codes "[E7]"; position = 13 }
        ∷ record { label = codes "[E1]"; position = 19 }
        ∷ [];
  };
  validated_citations = shown.citations;
  invalid_references = codes "[E7]" ∷ [];
  tenant_id = some 1;
}

validates : validate is_ascii_digit false (typed reply) ≡ ok checked_reply
unfolding validate read_mapping read_citations conclude classified resolved unresolved extract
    find_from first_labels citation_label match_at show digits_of is_blank is_space
validates = refl

filled : is_blank reply.answer_text ≡ false
unfolding is_blank is_space
filled = refl

validate-Sorts_example :
    Sorts shown.citations
      (extract is_ascii_digit reply.answer_text).references
      shown.citations
      (codes "[E7]" ∷ [])
    × (invalid_citations
        ≡ (if is_empty checked_reply.invalid_references then valid else invalid_citations))
    × ((false && not (is_empty checked_reply.invalid_references)) ≡ false)
validate-Sorts_example = validate-Sorts is_ascii_digit false reply checked_reply validates filled

extract_exact_example :
    found_at (extract is_ascii_digit reply.answer_text).occurrences 13
    ≡ match_at is_ascii_digit (drop 13 reply.answer_text)
extract_exact_example = extract_exact is_ascii_digit refl reply.answer_text 13
