-- ===== src/Evidence/ChunkTests.antt =====
-- A document of two paragraphs, and a paragraph that is too long; and the theorems at them.
use xportra_ai.Base.{
  ℕ, zero, suc, ◌+◌, ◌≡◌, refl, true, false, none, some, List, [], ◌∷◌, ◌++◌, typed, ok, length,
  get_elem?,
}
use xportra_ai.Base.Text.{Text, codes, is_space, is_blank}
use xportra_ai.Errors.{Uuid}
use xportra_ai.Evidence.Chunking.{
  Source, Chunk, chunk_document, split_oversized, split_from, last_space, segment_paragraphs,
  segment, split_lines, is_source_type, chunk_pieces, evidence_chunk, all_bounds, bounds_of,
}
use xportra_ai.Evidence.Segments.{Covered, Ordered}
use xportra_ai.Evidence.Paragraphs.{segment_paragraphs_exact}
use xportra_ai.Evidence.Pieces.{Splits, split_oversized-Splits}
use xportra_ai.Evidence.Refusals.{IsChunkable, chunk_document-ok_inv}
use xportra_ai.Evidence.Coverage.{IsChunked}
use xportra_ai.Evidence.Chunked.{document_of, chunk_document-IsChunked}

-- Two lines, a blank line, a line.
abbrev paper : Text
paper = codes "Seal" ++ (10 ∷ (codes "it." ++ (10 ∷ 32 ∷ 10 ∷ codes "Weigh.")))

paragraphs :
    segment_paragraphs paper ≡ record { start = 0; end = 8 } ∷ record { start = 11; end = 17 } ∷ []
unfolding segment_paragraphs segment split_lines is_blank is_space
paragraphs = refl

segment_paragraphs_exact_example :
    Ordered 0 17 (segment_paragraphs paper)
    × ((i c : ℕ)
        → get_elem? paper i ≡ some c
        → is_space c ≡ false
        → Covered i (segment_paragraphs paper))
segment_paragraphs_exact_example = segment_paragraphs_exact paper

unfoldable repeat : ℕ → ℕ → Text
repeat zero c = []
repeat (suc n) c = c ∷ repeat n c

-- A word of 1000 letters, a space, and a word of 500.
abbrev long : Text
long = repeat 1000 97 ++ (32 ∷ repeat 500 98)

cut :
    split_oversized long 0 1501
    ≡ record { start = 0; end = 1000 } ∷ record { start = 1001; end = 1501 } ∷ []
unfolding split_oversized split_from last_space is_space repeat
cut = refl

split_oversized-Splits_example : Splits long 0 1501 (split_oversized long 0 1501)
split_oversized-Splits_example = split_oversized-Splits long 0 1501

abbrev decree : Source
decree = record {
  tenant = 1;
  document = 31;
  source = codes "d";
  type = codes "regulation";
  location = none;
  version = none;
}

-- A digest and identities for this example.
abbrev weight : Text → ℕ
weight t = length t

abbrev name_of : Uuid → Uuid → ℕ → ℕ → Uuid
name_of t d index digest = index + 100

regulation : is_source_type decree.type ≡ true
unfolding is_source_type
regulation = refl

named : is_blank decree.source ≡ false
unfolding is_blank is_space
named = refl

written : is_blank paper ≡ false
unfolding is_blank is_space
written = refl

chunk_document-IsChunked_example :
    (out : List Chunk) × (chunk_document weight name_of (typed (document_of decree paper)) (typed 1)
      ≡ ok out)
    × IsChunked weight name_of decree paper out
chunk_document-IsChunked_example =
    chunk_document-IsChunked weight name_of decree paper regulation named written

abbrev made : List Chunk
made =
    record {
      tenant_id = 1;
      chunk_id = 100;
      document_id = 31;
      chunk_index = 0;
      content = codes "Seal" ++ (10 ∷ codes "it.");
      content_fingerprint = 8;
      source_id = codes "d";
      source_type = codes "regulation";
      source_location = none;
      document_version = none;
      start_offset = 0;
      end_offset = 8;
    }
    ∷ record {
      tenant_id = 1;
      chunk_id = 101;
      document_id = 31;
      chunk_index = 1;
      content = codes "Weigh.";
      content_fingerprint = 6;
      source_id = codes "d";
      source_type = codes "regulation";
      source_location = none;
      document_version = none;
      start_offset = 11;
      end_offset = 17;
    }
    ∷ []

makes : chunk_document weight name_of (typed (document_of decree paper)) (typed 1) ≡ ok made
unfolding chunk_document chunk_pieces evidence_chunk all_bounds bounds_of segment_paragraphs segment
    split_lines is_blank is_space is_source_type
makes = refl

chunk_document-ok_inv_example : IsChunkable 1 (document_of decree paper)
chunk_document-ok_inv_example =
    chunk_document-ok_inv weight name_of (document_of decree paper) 1 made makes
