-- ===== src/Evidence/Coverage.antt =====
-- The chunks of a document: they are numbered, exact, short and in order, and lose no visible
-- character.
use xportra_ai.Base.{
  map, leb→le, ℕ, suc, ◌-◌, ◌≤◌, ◌≡◌, inl, inr, false, some, List, [], ◌∷◌, ◌++◌, arith, leb,
  if◌then◌else◌, length, slice, get_elem?, Bool-cases, All,
}
use xportra_ai.Base.Text.{Text, is_space, is_blank}
use xportra_ai.Errors.{Uuid}
use xportra_ai.Evidence.Chunking.{
  Span, Source, Chunk, chunk_of, max_chunk_characters, bounds_of, all_bounds,
}
use xportra_ai.Evidence.Segments.{Covered, Ordered}
use xportra_ai.Evidence.Pieces.{Short, Splits, one-Splits, split_oversized-Splits, Ordered-weaken}

bounds_of-Splits :
    (content : Text) (s : Span)
    → s.start ≤ s.end
    → Splits content s.start s.end (bounds_of content s)
unfolding bounds_of
bounds_of-Splits content s h = elim (Bool-cases (leb (s.end - s.start) max_chunk_characters)) [
  | inl e ↦
      rw e (one-Splits content s.start s.end h (leb→le (s.end - s.start) max_chunk_characters e))
  | inr e ↦ rw e (split_oversized-Splits content s.start s.end)
]

Ordered-append :
    (a b c : ℕ) (xs ys : List Span)
    → a ≤ b
    → b ≤ c
    → Ordered a b xs
    → Ordered b c ys
    → Ordered a c (xs ++ ys)
Ordered-append a b c [] ys h k o p = Ordered-weaken a b c ys h p
Ordered-append a b c (x ∷ xs) ys h k o p =
    (o.0, o.1, omega arith, Ordered-append x.end b c xs ys o.2 k o.3 p)

Covered-left : (i : ℕ) (xs ys : List Span) → Covered i xs → Covered i (xs ++ ys)
Covered-left i [] ys h = elim h [ ]
Covered-left i (x ∷ xs) ys (inl h) = inl h
Covered-left i (x ∷ xs) ys (inr h) = inr (Covered-left i xs ys h)

Covered-right : (i : ℕ) (xs ys : List Span) → Covered i ys → Covered i (xs ++ ys)
Covered-right i [] ys h = h
Covered-right i (x ∷ xs) ys h = inr (Covered-right i xs ys h)

All-append : (xs ys : List Span) → All Short xs → All Short ys → All Short (xs ++ ys)
All-append [] ys h k = k
All-append (x ∷ xs) ys h k = (h.0, All-append xs ys h.1 k)

-- What the pieces of all the paragraphs are.
pub record Pieced (content : Text) (low high : ℕ) (ss out : List Span) : Type 0 where
  pub ordered : Ordered low high out
  pub short : All Short out
  pub complete :
      (i c : ℕ) → get_elem? content i ≡ some c → is_space c ≡ false → Covered i ss → Covered i out

pub all_bounds-Pieced :
    (content : Text) (low high : ℕ) (ss : List Span)
    → Ordered low high ss
    → Pieced content low high ss (all_bounds content ss)
unfolding all_bounds
all_bounds-Pieced content low high [] o = record {
  ordered = tt;
  short = tt;
  complete = λ i c g v h. h;
}
all_bounds-Pieced content low high (s ∷ ss) o =
    let one = bounds_of-Splits content s o.1 in
    let more = all_bounds-Pieced content s.end high ss o.3 in
    let here = bounds_of content s in
    let later = all_bounds content ss in
    record {
      ordered =
          Ordered-append low s.end high here later (omega arith) o.2
            (Ordered-weaken low s.start s.end here o.0 one.ordered) more.ordered;
      short = All-append here later one.short more.short;
      complete = λ i c g v h. elim h [
        | inl at ↦ Covered-left i here later (one.complete i c at.0 at.1 g v)
        | inr at ↦ Covered-right i here later (more.complete i c g v at)
      ];
    }

abbrev pub span_of : Chunk → Span
span_of c = record { start = c.start_offset; end = c.end_offset }

abbrev pub spans : List Chunk → List Span
spans cs = map span_of cs

-- Indices that count up from `n`.
abbrev pub Indexed : ℕ → List Chunk → Type 0
Indexed n [] = Unit
Indexed n (c ∷ cs) = (c.chunk_index ≡ n) × Indexed (suc n) cs

module _ (fingerprint : Text → ℕ) (stable_chunk_id : Uuid → Uuid → ℕ → ℕ → Uuid) (s : Source)
    (content : Text) where
  -- A chunk is an exact piece of the content, short and not blank, and carries what its document
  -- says and the identity that its place and its digest give it.
  pub record IsPiece (c : Chunk) : Type 0 where
    pub exact : c.content ≡ slice content c.start_offset c.end_offset
    pub short : length c.content ≤ max_chunk_characters
    pub visible : is_blank c.content ≡ false
    pub digest : c.content_fingerprint ≡ fingerprint c.content
    pub identity :
        c.chunk_id ≡ stable_chunk_id s.tenant s.document c.chunk_index (fingerprint c.content)
    pub tenant : c.tenant_id ≡ s.tenant
    pub document : c.document_id ≡ s.document

  pub record IsChunked (out : List Chunk) : Type 0 where
    pub numbered : Indexed 0 out
    pub pieces : All IsPiece out
    pub ordered : Ordered 0 (length content) (spans out)
    pub complete :
        (i c : ℕ) → get_elem? content i ≡ some c → is_space c ≡ false → Covered i (spans out)

  -- The chunks of pieces, without the checks that they pass.
  unfoldable pub chunks : List Span → ℕ → List Chunk
  chunks [] index = []
  chunks (b ∷ bs) index =
      let skipped = chunks bs index in
      let kept = chunk_of fingerprint stable_chunk_id s content b index ∷ chunks bs (suc index) in
      if is_blank (slice content b.start b.end) then skipped else kept
