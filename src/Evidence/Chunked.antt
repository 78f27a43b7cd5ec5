-- ===== src/Evidence/Chunked.antt =====
-- The loop that makes the chunks: it raises nothing, and what it makes.
use xportra_ai.Base.{
  typed, ok, ◌>>=◌, length-take, take, drop, ltb, ltb→lt, ℕ, suc, ◌+◌, ◌-◌, ◌<◌, ◌≡◌, refl, sym, ap,
  ◌∙◌, subst, inl, inr, true, false, some, List, [], ◌∷◌, arith, ◌==◌, leb, length, slice,
  get_elem?, Bool-cases, All,
}
use xportra_ai.Base.Text.{Text, is_space, is_blank}
use xportra_ai.Errors.{Uuid}
use xportra_ai.Evidence.Chunking.{
  Span, Document, Source, Chunk, chunk_of, evidence_chunk, chunk_pieces, chunk_document,
  is_source_type, all_bounds, segment_paragraphs,
}
use xportra_ai.Evidence.Segments.{Covers, Covered, Ordered, is_blank-get}
use xportra_ai.Evidence.Paragraphs.{segment_paragraphs_exact}
use xportra_ai.Evidence.Pieces.{Short, Ordered-weaken, get-slice}
use xportra_ai.Evidence.Coverage.{all_bounds-Pieced, spans, Indexed, IsPiece, IsChunked, chunks}

visible-lt : (content : Text) (a b : ℕ) → is_blank (slice content a b) ≡ false → a < b
unfolding is_blank
visible-lt content a b h = elim (Bool-cases (ltb a b)) [
  | inl e ↦ ltb→lt a b e
  | inr e ↦
      let none_left : b - a ≡ 0 = ground arith in
      let empty : is_blank (slice content a b) ≡ true =
        ap (λ n. is_blank (take n (drop a content))) none_left in
      absurd (ground (arith, h, empty))
]

same : (a : ℕ) → (a == a) ≡ true
same a = ground arith

module _ (fingerprint : Text → ℕ) (stable_chunk_id : Uuid → Uuid → ℕ → ℕ → Uuid) (s : Source)
    (content : Text) where
  abbrev made : Span → ℕ → Chunk
  made b index = chunk_of fingerprint stable_chunk_id s content b index

  abbrev all : List Span → ℕ → List Chunk
  all bs index = chunks fingerprint stable_chunk_id s content bs index

  chunks_skip :
      (b : Span) (bs : List Span) (index : ℕ)
      → is_blank (slice content b.start b.end) ≡ true
      → all (b ∷ bs) index ≡ all bs index
  unfolding chunks
  chunks_skip b bs index h = rw h refl

  chunks_keep :
      (b : Span) (bs : List Span) (index : ℕ)
      → is_blank (slice content b.start b.end) ≡ false
      → all (b ∷ bs) index ≡ made b index ∷ all bs (suc index)
  unfolding chunks
  chunks_keep b bs index h = rw h refl

  abbrev Kept : Span → Type 0
  Kept b = is_blank (slice content b.start b.end) ≡ false

  -- What the constructor checks of a source.
  abbrev IsSource : Type 0
  IsSource = (is_source_type s.type ≡ true) × (is_blank s.source ≡ false)

  evidence_chunk_lem :
      (b : Span) (index : ℕ)
      → IsSource
      → Kept b
      → evidence_chunk fingerprint stable_chunk_id (made b index) ≡ ok (made b index)
  unfolding evidence_chunk
  evidence_chunk_lem b index good h =
      let apart : leb b.end b.start ≡ false = ground (arith, visible-lt content b.start b.end h) in
      rw (h, same (fingerprint (slice content b.start b.end)), good.0, good.1, apart) refl

  chunk_pieces_keep :
      (b : Span) (bs : List Span) (index : ℕ)
      → Kept b
      → chunk_pieces fingerprint stable_chunk_id s content (b ∷ bs) index ≡ (
          evidence_chunk fingerprint stable_chunk_id (made b index) >>= λ c.
          (chunk_pieces fingerprint stable_chunk_id s content bs (suc index) >>= λ rest.
          ok (c ∷ rest)))
  unfolding chunk_pieces
  chunk_pieces_keep b bs index h = ground (arith, h)

  chunk_pieces_skip :
      (b : Span) (bs : List Span) (index : ℕ)
      → is_blank (slice content b.start b.end) ≡ true
      → chunk_pieces fingerprint stable_chunk_id s content (b ∷ bs) index
        ≡ chunk_pieces fingerprint stable_chunk_id s content bs index
  unfolding chunk_pieces
  chunk_pieces_skip b bs index h = rw h refl

  chunk_pieces_lem :
      (bs : List Span) (index : ℕ)
      → IsSource
      → chunk_pieces fingerprint stable_chunk_id s content bs index ≡ ok (all bs index)
  unfolding chunk_pieces chunks
  chunk_pieces_lem [] index good = refl
  chunk_pieces_lem (b ∷ bs) index good =
      elim (Bool-cases (is_blank (slice content b.start b.end))) [
        | inl e ↦
            chunk_pieces_skip b bs index e
            ∙ (chunk_pieces_lem bs index good ∙ ap ok (sym (chunks_skip b bs index e)))
        | inr e ↦
            chunk_pieces_keep b bs index e
            ∙ rw
                (
                  chunks_keep b bs index e,
                  evidence_chunk_lem b index good e,
                  chunk_pieces_lem bs (suc index) good,
                )
                refl
      ]

  Indexed-chunks : (bs : List Span) (index : ℕ) → Indexed index (all bs index)
  unfolding chunks
  Indexed-chunks [] index = tt
  Indexed-chunks (b ∷ bs) index = elim (Bool-cases (is_blank (slice content b.start b.end))) [
    | inl e ↦ subst (Indexed index) (sym (chunks_skip b bs index e)) (Indexed-chunks bs index)
    | inr e ↦
        subst (Indexed index) (sym (chunks_keep b bs index e)) (refl, Indexed-chunks bs (suc index))
  ]

  abbrev Piece : Chunk → Type 0
  Piece c = IsPiece fingerprint stable_chunk_id s content c

  made-Piece : (b : Span) (index : ℕ) → Short b → Kept b → Piece (made b index)
  made-Piece b index short h = record {
    exact = refl;
    short = omega (arith, length-take (b.end - b.start) (drop b.start content));
    visible = h;
    digest = refl;
    identity = refl;
    tenant = refl;
    document = refl;
  }

  pieces-chunks : (bs : List Span) (index : ℕ) → All Short bs → All Piece (all bs index)
  unfolding chunks
  pieces-chunks [] index h = tt
  pieces-chunks (b ∷ bs) index h = elim (Bool-cases (is_blank (slice content b.start b.end))) [
    | inl e ↦ subst (All Piece) (sym (chunks_skip b bs index e)) (pieces-chunks bs index h.1)
    | inr e ↦
        subst (All Piece) (sym (chunks_keep b bs index e))
          (made-Piece b index h.0 e, pieces-chunks bs (suc index) h.1)
  ]

  Ordered-chunks :
      (low high : ℕ) (bs : List Span) (index : ℕ)
      → Ordered low high bs
      → Ordered low high (spans (all bs index))
  unfolding chunks
  Ordered-chunks low high [] index o = tt
  Ordered-chunks low high (b ∷ bs) index o =
      elim (Bool-cases (is_blank (slice content b.start b.end))) [
        | inl e ↦
            subst (λ l. Ordered low high (spans l)) (sym (chunks_skip b bs index e))
              (Ordered-weaken low b.end high (spans (all bs index)) (omega arith)
                (Ordered-chunks b.end high bs index o.3))
        | inr e ↦
            subst (λ l. Ordered low high (spans l)) (sym (chunks_keep b bs index e))
              (o.0, o.1, o.2, Ordered-chunks b.end high bs (suc index) o.3)
      ]

  -- A piece with a visible character is not blank.
  visible-Kept :
      (b : Span) (i c : ℕ) → Covers i b → get_elem? content i ≡ some c → is_space c ≡ false → Kept b
  visible-Kept b i c at g v =
      let place : b.start + (i - b.start) ≡ i = omega arith in
      let inside =
        get-slice content b.start b.end (i - b.start) c (omega arith)
          (ap (get_elem? content) place ∙ g) in
      elim (Bool-cases (is_blank (slice content b.start b.end))) [
        | inl e ↦
            let space = is_blank-get (slice content b.start b.end) (i - b.start) c e inside in
            absurd (ground arith)
        | inr e ↦ e
      ]

  Covered-chunks :
      (i c : ℕ) (bs : List Span) (index : ℕ)
      → get_elem? content i ≡ some c
      → is_space c ≡ false
      → Covered i bs
      → Covered i (spans (all bs index))
  unfolding chunks
  Covered-chunks i c [] index g v h = h
  Covered-chunks i c (b ∷ bs) index g v (inl at) =
      subst (λ l. Covered i (spans l)) (sym (chunks_keep b bs index (visible-Kept b i c at g v)))
        (inl at)
  Covered-chunks i c (b ∷ bs) index g v (inr at) =
      elim (Bool-cases (is_blank (slice content b.start b.end))) [
        | inl e ↦
            subst (λ l. Covered i (spans l)) (sym (chunks_skip b bs index e))
              (Covered-chunks i c bs index g v at)
        | inr e ↦
            subst (λ l. Covered i (spans l)) (sym (chunks_keep b bs index e))
              (inr (Covered-chunks i c bs (suc index) g v at))
      ]

  all-IsChunked :
      IsChunked fingerprint stable_chunk_id s content
        (all (all_bounds content (segment_paragraphs content)) 0)
  all-IsChunked =
      let (o, cover) = segment_paragraphs_exact content in
      let p = all_bounds-Pieced content 0 (length content) (segment_paragraphs content) o in
      let bs = all_bounds content (segment_paragraphs content) in
      record {
        numbered = Indexed-chunks bs 0;
        pieces = pieces-chunks bs 0 p.short;
        ordered = Ordered-chunks 0 (length content) bs 0 p.ordered;
        complete = λ i c g v. Covered-chunks i c bs 0 g v (p.complete i c g v (cover i c g v));
      }

-- A document whose fields have their types, of a known source type, with an identity of its
-- source and a content that are not blank.
abbrev pub document_of : Source → Text → Document
document_of s content = record {
  tenant_id = typed s.tenant;
  id = typed s.document;
  content = typed content;
  source_id = typed s.source;
  source_type = typed s.type;
  source_location = s.location;
  document_version = typed s.version;
}

-- Whatever the digest and the identities are: chunking a document of the caller's tenant that has
-- a known source type, and whose content and source identity are not blank, succeeds. Its chunks
-- are numbered from 0, lie one after the other within the content, are exact pieces of it of at
-- most 1200 characters and not blank, and every character that is not white space is in one.
pub chunk_document-IsChunked :
    (fingerprint : Text → ℕ) (stable_chunk_id : Uuid → Uuid → ℕ → ℕ → Uuid) (s : Source)
    (content : Text)
    → is_source_type s.type ≡ true
    → is_blank s.source ≡ false
    → is_blank content ≡ false
    → (out : List Chunk) × (chunk_document fingerprint stable_chunk_id
          (typed (document_of s content))
          (typed s.tenant)
        ≡ ok out)
      × IsChunked fingerprint stable_chunk_id s content out
unfolding chunk_document
chunk_document-IsChunked fingerprint stable_chunk_id s content known source filled =
    let bs = all_bounds content (segment_paragraphs content) in
    (
      chunks fingerprint stable_chunk_id s content bs 0,
      rw (same s.tenant, filled, source, known)
          (chunk_pieces_lem fingerprint stable_chunk_id s content bs 0 (known, source)),
      all-IsChunked fingerprint stable_chunk_id s content,
    )
