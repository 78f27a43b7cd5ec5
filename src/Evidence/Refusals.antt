-- ===== src/Evidence/Refusals.antt =====
-- Which documents are chunked: all others are refused.
use xportra_ai.Base.{ℕ, Option, ◌≡◌, refl, true, false, Any, typed, untyped, ok, List, arith}
use xportra_ai.Base.Text.{Text, is_blank}
use xportra_ai.Errors.{Uuid}
use xportra_ai.Evidence.Chunking.{Document, Source, Chunk, chunk_document, is_source_type}
use xportra_ai.Evidence.Chunked.{document_of}

-- The document is one of a known source, of the tenant, that names its source and has content.
pub record IsChunkable (t : Uuid) (d : Document) : Type 0 where
  pub source : Source
  pub content : Text
  pub is_document : d ≡ document_of source content
  pub own : source.tenant ≡ t
  pub known : is_source_type source.type ≡ true
  pub named : is_blank source.source ≡ false
  pub filled : is_blank content ≡ false

abbrev document_with :
    Any Uuid
    → Any Uuid
    → Any Text
    → Any Text
    → Any Text
    → Option Text
    → Any (Option Text)
    → Document
document_with u i c s k l v = record {
  tenant_id = u;
  id = i;
  content = c;
  source_id = s;
  source_type = k;
  source_location = l;
  document_version = v;
}

-- The checks, one field at a time.
by_fields :
    (f : Text → ℕ) (g : Uuid → Uuid → ℕ → ℕ → Uuid) (l : Option Text) (t : Uuid) (out : List Chunk)
    (u i : Any Uuid) (c s k : Any Text) (v : Any (Option Text))
    → chunk_document f g (typed (document_with u i c s k l v)) (typed t) ≡ ok out
    → IsChunkable t (document_with u i c s k l v)
unfolding chunk_document
by_fields f g l t out (typed u) (typed i) (typed c) (typed s) (typed k) (typed v) e = record {
  source = record { tenant = u; document = i; source = s; type = k; location = l; version = v };
  content = c;
  is_document = refl;
  own = ground arith;
  known = ground arith;
  named = ground arith;
  filled = ground arith;
}
by_fields f g l t out untyped i c s k v e = absurd (ground arith)
by_fields f g l t out (typed u) untyped c s k v e = absurd (ground arith)
by_fields f g l t out (typed u) (typed i) untyped s k v e = absurd (ground arith)
by_fields f g l t out (typed u) (typed i) (typed c) untyped k v e = absurd (ground arith)
by_fields f g l t out (typed u) (typed i) (typed c) (typed s) untyped v e = absurd (ground arith)
by_fields f g l t out (typed u) (typed i) (typed c) (typed s) (typed k) untyped e =
    absurd (ground arith)

-- If chunking returns, the document is the caller's tenant's, its fields have their types, its
-- source type is known, and neither its content nor the identity of its source is blank.
pub chunk_document-ok_inv :
    (fingerprint : Text → ℕ) (stable_chunk_id : Uuid → Uuid → ℕ → ℕ → Uuid) (d : Document)
    (t : Uuid) (out : List Chunk)
    → chunk_document fingerprint stable_chunk_id (typed d) (typed t) ≡ ok out
    → IsChunkable t d
chunk_document-ok_inv f g d t out e =
    by_fields f g d.source_location t out d.tenant_id d.id d.content d.source_id d.source_type
      d.document_version e
