-- ===== src/Evidence/Union.antt =====
-- The union of the two retrieval paths: every candidate says exactly which paths found its chunk.
use xportra_ai.Base.{
  ◌≡◌, refl, Bool, true, false, ◌||◌, Option, none, some, List, [], ◌∷◌, typed, ok, arith, ◌==◌,
  if◌then◌else◌, is_some, >>=-eq-ok, Bool-cases, inl, inr, All, ==_iff, ok-injective, subst, ◌∙◌,
  ap, sym,
}
use xportra_ai.Errors.{Uuid}
use xportra_ai.Evidence.Model.{Evidence, Float}
use xportra_ai.Evidence.Hybrid.{
  Candidate, Sources, candidate, find, assign, join, merge_semantic, merge_lexical,
  merge_candidates, is_finite, is_malformed, differs, semantic_only,
}

-- A chunk is among the results of a path.
abbrev pub has_chunk : List Evidence → Uuid → Bool
has_chunk [] k = false
has_chunk (e ∷ es) k = e.chunk_id == k || has_chunk es k

abbrev pub found_semantic : Option Candidate → Bool
found_semantic none = false
found_semantic (some c) = c.retrieval_sources.semantic

abbrev pub found_lexical : Option Candidate → Bool
found_lexical none = false
found_lexical (some c) = c.retrieval_sources.lexical

-- What the constructor checks of a candidate.
pub record IsCandidate (c : Candidate) : Type 0 where
  pub semantic_finite : is_finite c.semantic_score ≡ true
  pub lexical_finite : is_finite c.lexical_score ≡ true
  pub known_sources : is_malformed c.retrieval_sources ≡ false
  pub semantic_consistent : differs c.retrieval_sources.semantic (is_some c.semantic_score) ≡ false
  pub lexical_consistent : differs c.retrieval_sources.lexical (is_some c.lexical_score) ≡ false

pub candidate-IsCandidate :
    (e : Evidence) (sem lex : Option Float) (s : Sources) (c : Candidate)
    → candidate (typed e) sem lex (typed s) ≡ ok c
    → IsCandidate c × (c.evidence ≡ e) × (c.retrieval_sources ≡ s)
unfolding candidate
candidate-IsCandidate e sem lex s c h = ground arith

find-assign :
    (k : Uuid) (c : Candidate) (d : List Candidate)
    → find k (assign c d) ≡ (if c.evidence.chunk_id == k then some c else find k d)
find-assign k c [] = refl
find-assign k c (x ∷ d) = ground (arith, find-assign k c d)

-- What holds of the candidate found, if there is one.
abbrev Found : Uuid → Option Candidate → Type 0
Found k none = Unit
Found k (some c) = IsCandidate c × (c.evidence.chunk_id ≡ k)

find-Found : (k : Uuid) (d : List Candidate) → All IsCandidate d → Found k (find k d)
find-Found k [] h = tt
find-Found k (c ∷ d) h = elim (Bool-cases (c.evidence.chunk_id == k)) [
  | inl e ↦ rw e (h.0, (==_iff _ k).0 e)
  | inr e ↦ rw e (find-Found k d h.1)
]

assign-IsCandidate :
    (c : Candidate) (d : List Candidate)
    → IsCandidate c
    → All IsCandidate d
    → All IsCandidate (assign c d)
assign-IsCandidate c [] h k = (h, tt)
assign-IsCandidate c (x ∷ d) h k = elim (Bool-cases (x.evidence.chunk_id == c.evidence.chunk_id)) [
  | inl e ↦ rw e (h, k.1)
  | inr e ↦ rw e (k.0, assign-IsCandidate c d h k.1)
]

join-IsCandidate :
    (old : Option Candidate) (e : Evidence) (c : Candidate)
    → Found e.chunk_id old
    → join old e ≡ ok c
    → IsCandidate c
      × (c.evidence.chunk_id ≡ e.chunk_id)
      × (c.retrieval_sources.semantic ≡ found_semantic old)
      × (c.retrieval_sources.lexical ≡ true)
unfolding join candidate
join-IsCandidate none e c f h = ground arith
join-IsCandidate (some old) e c f h = ground (arith, f.0.semantic_consistent, f.1)

-- The flags of every chunk after a candidate is stored.
module _ (k : Uuid) (c : Candidate) (d : List Candidate) where
  semantic-assign : found_semantic (find k (assign c d)) ≡ (
      if c.evidence.chunk_id == k then c.retrieval_sources.semantic else found_semantic (find k d))
  semantic-assign = ground (arith, find-assign k c d)

  lexical-assign :
      found_lexical (find k (assign c d))
      ≡ (if c.evidence.chunk_id == k then c.retrieval_sources.lexical else found_lexical (find k d))
  lexical-assign = ground (arith, find-assign k c d)

-- Storing what `join` makes of a lexical result changes only the lexical flag of its chunk.
module _ (x : Evidence) (c : Candidate) (d : List Candidate)
    (id : c.evidence.chunk_id ≡ x.chunk_id) where
  semantic_kept :
      (k : Uuid)
      → c.retrieval_sources.semantic ≡ found_semantic (find x.chunk_id d)
      → found_semantic (find k (assign c d)) ≡ found_semantic (find k d)
  semantic_kept k h = elim (Bool-cases (c.evidence.chunk_id == k)) [
    | inl e ↦
        let at : x.chunk_id ≡ k = sym id ∙ (==_iff _ k).0 e in
        semantic-assign k c d ∙ rw e (h ∙ ap (λ u. found_semantic (find u d)) at)
    | inr e ↦ semantic-assign k c d ∙ rw e refl
  ]

  lexical_added :
      (k : Uuid)
      → c.retrieval_sources.lexical ≡ true
      → found_lexical (find k (assign c d)) ≡ (x.chunk_id == k || found_lexical (find k d))
  lexical_added k h = ground (arith, lexical-assign k c d, h, id)

semantic_added :
    (x : Evidence) (c : Candidate) (d : List Candidate)
    → c.evidence ≡ x
    → c.retrieval_sources ≡ semantic_only
    → (k : Uuid)
    → found_semantic (find k (assign c d)) ≡ (x.chunk_id == k || found_semantic (find k d))
semantic_added x c d h s k = ground (arith, semantic-assign k c d, h, s)

lexical_cleared :
    (x : Evidence) (c : Candidate) (d : List Candidate)
    → c.evidence ≡ x
    → c.retrieval_sources ≡ semantic_only
    → (k : Uuid) → found_lexical (find k d) ≡ false
    → found_lexical (find k (assign c d)) ≡ false
lexical_cleared x c d h s k f = ground (arith, lexical-assign k c d, h, s, f)

or_false : (a : Bool) → (a || false) ≡ a
or_false a = ground arith

or_swap : (a b c : Bool) → (a || (b || c)) ≡ ((b || a) || c)
or_swap a b c = ground arith

-- How the flags of a chunk change from one dictionary to another.
abbrev Joins : List Evidence → List Candidate → List Candidate → Type 0
Joins es d out =
    All IsCandidate out
    × ((k : Uuid) → found_semantic (find k out) ≡ found_semantic (find k d))
    × ((k : Uuid) → found_lexical (find k out) ≡ (has_chunk es k || found_lexical (find k d)))

merge_lexical-Joins :
    (es : List Evidence) (d out : List Candidate)
    → All IsCandidate d
    → merge_lexical es d ≡ ok out
    → Joins es d out
unfolding merge_lexical
merge_lexical-Joins [] d out h e =
    let same = ok-injective e in
    (subst (All IsCandidate) same h, λ k. rw (← same) refl, λ k. rw (← same) refl)
merge_lexical-Joins (x ∷ es) d out h e =
    let old = find x.chunk_id d in
    let (c, j, rest) = >>=-eq-ok (join old x) (λ c. merge_lexical es (assign c d)) e in
    let (good, id, sem, lex) = join-IsCandidate old x c (find-Found x.chunk_id d h) j in
    let (last, ss, ls) =
      merge_lexical-Joins es (assign c d) out (assign-IsCandidate c d good h) rest in
    (
      last,
      λ k. ss k ∙ semantic_kept x c d id k sem,
      λ k.
          ls k
          ∙ (ap (λ b. has_chunk es k || b) (lexical_added x c d id k lex)
              ∙ or_swap (has_chunk es k) (x.chunk_id == k) (found_lexical (find k d))),
    )

-- While only semantic results are stored, no chunk is found lexically.
abbrev Stores : List Evidence → List Candidate → List Candidate → Type 0
Stores es d out =
    All IsCandidate out
    × ((k : Uuid) → found_semantic (find k out) ≡ (has_chunk es k || found_semantic (find k d)))
    × ((k : Uuid) → found_lexical (find k d) ≡ false → found_lexical (find k out) ≡ false)

merge_semantic-Stores :
    (es : List Evidence) (d out : List Candidate)
    → All IsCandidate d
    → merge_semantic es d ≡ ok out
    → Stores es d out
unfolding merge_semantic
merge_semantic-Stores [] d out h e =
    let same = ok-injective e in
    (subst (All IsCandidate) same h, λ k. rw (← same) refl, λ k f. rw (← same) f)
merge_semantic-Stores (x ∷ es) d out h e =
    let (c, j, rest) =
      >>=-eq-ok (candidate (typed x) (some x.score) none (typed semantic_only))
        (λ c. merge_semantic es (assign c d)) e in
    let (good, same, sources) = candidate-IsCandidate x (some x.score) none semantic_only c j in
    let (last, ss, ls) =
      merge_semantic-Stores es (assign c d) out (assign-IsCandidate c d good h) rest in
    (
      last,
      λ k.
          ss k
          ∙ (ap (λ b. has_chunk es k || b) (semantic_added x c d same sources k)
              ∙ or_swap (has_chunk es k) (x.chunk_id == k) (found_semantic (find k d))),
      λ k f. ls k (lexical_cleared x c d same sources k f),
    )

-- If the union returns, every candidate in it satisfies the constructor's checks, and for every
-- chunk it says exactly whether the semantic path and whether the lexical path found it; a chunk
-- that neither found has no candidate.
pub merge_candidates_sources :
    (sem lex : List Evidence) (out : List Candidate)
    → merge_candidates sem lex ≡ ok out
    → All IsCandidate out
      × ((k : Uuid) → found_semantic (find k out) ≡ has_chunk sem k)
      × ((k : Uuid) → found_lexical (find k out) ≡ has_chunk lex k)
unfolding merge_candidates
merge_candidates_sources sem lex out e =
    let (d, first, second) = >>=-eq-ok (merge_semantic sem []) (merge_lexical lex) e in
    let (good, ss, ls) = merge_semantic-Stores sem [] d tt first in
    let (last, st, lt) = merge_lexical-Joins lex d out good second in
    (
      last,
      λ k. st k ∙ (ss k ∙ or_false (has_chunk sem k)),
      λ k. lt k ∙ (ap (λ b. has_chunk lex k || b) (ls k refl) ∙ or_false (has_chunk lex k)),
    )
