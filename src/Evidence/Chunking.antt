-- ===== src/Evidence/Chunking.antt =====
-- The chunks of a document (xportra/domain/evidence_chunking.py): paragraphs, the split of an
-- oversized paragraph, and the chunk records.
use xportra_ai.Base.{
  ℕ, zero, suc, ◌+◌, ◌-◌, Bool, false, Option, none, some, List, [], ◌∷◌, ◌++◌, Any, typed, untyped,
  Result, ok, ◌>>=◌, ◌>>◌, raise_if, raise_unless, expect, ◌==◌, leb, if◌then◌else◌, length, slice,
  get_elem?, list_eq, any,
}
use xportra_ai.Base.Text.{Text, codes, is_space, is_blank}
use xportra_ai.Errors.{
  Uuid, Error, chunk, other_tenant, malformed_document, content_required, source_required,
  unsupported_source_type, malformed_version, malformed_chunk, require_tenant_context,
}

-- Offsets into the content: from the first, up to but without the second.
pub record Span : Type 0 where
  pub start : ℕ
  pub end : ℕ

abbrev pub push : ℕ → List Text → List Text
push c [] = (c ∷ []) ∷ []
push c (l ∷ ls) = (c ∷ l) ∷ ls

-- `content.split("\n")`
unfoldable pub split_lines : Text → List Text
split_lines [] = [] ∷ []
split_lines (c ∷ cs) = let rest = split_lines cs in if c == 10 then [] ∷ rest else push c rest

-- `bounds.append((start, end))`, if a paragraph is open.
abbrev pub flush : Option ℕ → ℕ → List Span → List Span
flush none end rest = rest
flush (some start) end rest = record { start = start; end = end } ∷ rest

-- `if start is None: start = line_start`
abbrev pub or_start : Option ℕ → ℕ → ℕ
or_start none pos = pos
or_start (some start) pos = start

-- The loop of `_segment_paragraphs`, from its variables `start`, `end` and `pos`.
unfoldable pub segment : List Text → Option ℕ → ℕ → ℕ → List Span
segment [] start end pos = flush start end []
segment (line ∷ lines) start end pos =
    let next = pos + length line + 1 in
    let closed = segment lines none end next in
    let continued = segment lines (some (or_start start pos)) (pos + length line) next in
    if is_blank line then flush start end closed else continued

unfoldable pub segment_paragraphs : Text → List Span
segment_paragraphs content = segment (split_lines content) none 0 0

-- `MAX_CHUNK_CHARACTERS`
abbrev pub max_chunk_characters : ℕ
max_chunk_characters = 1200

abbrev pub is_space_at : Text → ℕ → Bool
is_space_at window offset = elim (get_elem? window offset) [ none ↦ false | some c ↦ is_space c ]

-- The loop over the offsets from the given one down to 1.
unfoldable pub last_space : Text → ℕ → Option ℕ
last_space window zero = none
last_space window (suc offset) =
    let rest = last_space window offset in
    if is_space_at window (suc offset) then some (suc offset) else rest

-- Where the slice that begins at `cursor` ends, and where the next one begins.
abbrev pub slice_end : ℕ → Option ℕ → ℕ
slice_end cursor none = cursor + max_chunk_characters
slice_end cursor (some cut) = cursor + cut

abbrev pub next_cursor : ℕ → Option ℕ → ℕ
next_cursor cursor none = cursor + max_chunk_characters
next_cursor cursor (some cut) = cursor + cut + 1

abbrev pub cut_at : Text → ℕ → Option ℕ
cut_at content cursor =
    let window = slice content cursor (cursor + max_chunk_characters) in
    last_space window (length window - 1)

-- The loop of `_split_oversized`, on fuel.
unfoldable pub split_from : ℕ → Text → ℕ → ℕ → List Span
split_from zero content cursor end = []
split_from (suc fuel) content cursor end =
    let cut = cut_at content cursor in
    let rest = split_from fuel content (next_cursor cursor cut) end in
    if leb end cursor
    then []
    else if leb (end - cursor) max_chunk_characters
    then record { start = cursor; end = end } ∷ []
    else record { start = cursor; end = slice_end cursor cut } ∷ rest

-- Every pass moves the cursor, so the length of the paragraph is enough fuel.
unfoldable pub split_oversized : Text → ℕ → ℕ → List Span
split_oversized content start end = split_from (end - start) content start end

-- The bounds of one paragraph's pieces, and of all.
unfoldable pub bounds_of : Text → Span → List Span
bounds_of content s =
    if leb (s.end - s.start) max_chunk_characters
    then s ∷ []
    else split_oversized content s.start s.end

unfoldable pub all_bounds : Text → List Span → List Span
all_bounds content [] = []
all_bounds content (s ∷ ss) = bounds_of content s ++ all_bounds content ss

-- What `chunk` reads of a document or its dictionary.
pub record Document : Type 0 where
  pub tenant_id : Any Uuid
  pub id : Any Uuid
  pub content : Any Text
  pub source_id : Any Text
  pub source_type : Any Text
  pub source_location : Option Text
  pub document_version : Any (Option Text)

-- `EvidenceChunk`
pub record Chunk : Type 0 where
  pub tenant_id : Uuid
  pub chunk_id : Uuid
  pub document_id : Uuid
  pub chunk_index : ℕ
  pub content : Text
  pub content_fingerprint : ℕ
  pub source_id : Text
  pub source_type : Text
  pub source_location : Option Text
  pub document_version : Option Text
  pub start_offset : ℕ
  pub end_offset : ℕ

-- `source_type in SOURCE_TYPES`
unfoldable pub is_source_type : Text → Bool
is_source_type t = any (list_eq t) (
    codes "regulation"
    ∷ codes "guidance"
    ∷ codes "certificate"
    ∷ codes "policy"
    ∷ codes "other"
    ∷ [])

-- `document.get("tenant_id") != tenant_id.tenant_id`
abbrev pub is_tenant : Any Uuid → Uuid → Bool
is_tenant untyped t = false
is_tenant (typed u) t = u == t

-- What a document's chunks have in common.
pub record Source : Type 0 where
  pub tenant : Uuid
  pub document : Uuid
  pub source : Text
  pub type : Text
  pub location : Option Text
  pub version : Option Text

-- The digest of a text, and the identity that it gives a chunk.
module _ (fingerprint : Text → ℕ) (stable_chunk_id : Uuid → Uuid → ℕ → ℕ → Uuid) where
  abbrev pub chunk_of : Source → Text → Span → ℕ → Chunk
  chunk_of s content b index =
      let piece = slice content b.start b.end in
      record {
        tenant_id = s.tenant;
        chunk_id = stable_chunk_id s.tenant s.document index (fingerprint piece);
        document_id = s.document;
        chunk_index = index;
        content = piece;
        content_fingerprint = fingerprint piece;
        source_id = s.source;
        source_type = s.type;
        source_location = s.location;
        document_version = s.version;
        start_offset = b.start;
        end_offset = b.end;
      }

  -- `EvidenceChunk.__post_init__`, of fields that have their types.
  unfoldable pub evidence_chunk : Chunk → Result Error Chunk
  evidence_chunk c = do
    raise_if (is_blank c.content) (chunk malformed_chunk)
    raise_unless (c.content_fingerprint == fingerprint c.content) (chunk malformed_chunk)
    raise_unless (is_source_type c.source_type) (chunk malformed_chunk)
    raise_if (is_blank c.source_id) (chunk malformed_chunk)
    raise_if (leb c.end_offset c.start_offset) (chunk malformed_chunk)
    ok c

  -- The loop over the pieces; `index` is the number of chunks so far.
  unfoldable pub chunk_pieces : Source → Text → List Span → ℕ → Result Error (List Chunk)
  chunk_pieces s content [] index = ok []
  chunk_pieces s content (b ∷ bs) index =
      if is_blank (slice content b.start b.end) then chunk_pieces s content bs index else do
        c ← evidence_chunk (chunk_of s content b index)
        rest ← chunk_pieces s content bs (suc index)
        ok (c ∷ rest)

  -- `EvidenceChunkingService.chunk`
  unfoldable pub chunk_document : Any Document → Any Uuid → Result Error (List Chunk)
  unfolding chunk_pieces
  chunk_document document tenant_id = do
    t ← require_tenant_context tenant_id
    d ← expect document (chunk malformed_document)
    raise_unless (is_tenant d.tenant_id t) (chunk other_tenant)
    id ← expect d.id (chunk malformed_document)
    content ← expect d.content (chunk content_required)
    raise_if (is_blank content) (chunk content_required)
    source ← expect d.source_id (chunk source_required)
    raise_if (is_blank source) (chunk source_required)
    type ← expect d.source_type (chunk unsupported_source_type)
    raise_unless (is_source_type type) (chunk unsupported_source_type)
    version ← expect d.document_version (chunk malformed_version)
    let s : Source = record {
      tenant = t;
      document = id;
      source = source;
      type = type;
      location = d.source_location;
      version = version;
    }
    chunk_pieces s content (all_bounds content (segment_paragraphs content)) 0
