-- ===== src/Evidence/Kept.antt =====
-- What the union of the two paths keeps of every result, and that no chunk comes twice.
use xportra_ai.Base.{
  ◌≡◌, refl, sym, subst, inl, inr, false, ◌||◌, Option, none, some, List, [], ◌∷◌, typed, arith, ok,
  ◌==◌, contains, All, Distinct, Bool-cases, >>=-eq-ok, ok-injective, ==_iff,
}
use xportra_ai.Errors.{Uuid}
use xportra_ai.Evidence.Model.{Evidence}
use xportra_ai.Evidence.Hybrid.{
  Candidate, both, semantic_only, lexical_only, candidate, find, assign, join, merge_semantic,
  merge_lexical, merge_candidates,
}
use xportra_ai.Evidence.Union.{candidate-IsCandidate}
use xportra_ai.Evidence.Order.{ids}

-- A property of the evidence of every candidate.
abbrev pub AllEvidence : (Evidence → Type 0) → List Candidate → Type 0
AllEvidence P cs = All (λ c. P c.evidence) cs

contains-assign :
    (c : Candidate) (d : List Candidate) (k : Uuid)
    → contains (ids (assign c d)) k ≡ (k == c.evidence.chunk_id || contains (ids d) k)
contains-assign c [] k = refl
contains-assign c (x ∷ d) k = ground (arith, contains-assign c d k)

Distinct-assign :
    (c : Candidate) (d : List Candidate) → Distinct (ids d) → Distinct (ids (assign c d))
Distinct-assign c [] h = (refl, tt)
Distinct-assign c (x ∷ d) h = elim (Bool-cases (x.evidence.chunk_id == c.evidence.chunk_id)) [
  | inl e ↦ rw e (subst (λ k. contains (ids d) k ≡ false) ((==_iff _ _).0 e) h.0, h.1)
  | inr e ↦ rw e (ground (arith, contains-assign c d x.evidence.chunk_id), Distinct-assign c d h.1)
]

module _ (P : Evidence → Type 0) where
  AllEvidence-assign :
      (c : Candidate) (d : List Candidate)
      → P c.evidence
      → AllEvidence P d
      → AllEvidence P (assign c d)
  AllEvidence-assign c [] p h = (p, tt)
  AllEvidence-assign c (x ∷ d) p h =
      elim (Bool-cases (x.evidence.chunk_id == c.evidence.chunk_id)) [
        | inl e ↦ rw e (p, h.1)
        | inr e ↦ rw e (h.0, AllEvidence-assign c d p h.1)
      ]

  -- What every stored candidate, and every new result, has.
  abbrev Kept : List Candidate → Type 0
  Kept d = AllEvidence P d × Distinct (ids d)

  Kept-assign : (c : Candidate) (d : List Candidate) → P c.evidence → Kept d → Kept (assign c d)
  Kept-assign c d p h = (AllEvidence-assign c d p h.0, Distinct-assign c d h.1)

  merge_semantic-Kept :
      (es : List Evidence) (d out : List Candidate)
      → All P es
      → Kept d
      → merge_semantic es d ≡ ok out
      → Kept out
  unfolding merge_semantic
  merge_semantic-Kept [] d out p h e = subst Kept (ok-injective e) h
  merge_semantic-Kept (x ∷ es) d out p h e =
      let (c, j, rest) =
        >>=-eq-ok (candidate (typed x) (some x.score) none (typed semantic_only))
          (λ c. merge_semantic es (assign c d)) e in
      let (good, same, sources) = candidate-IsCandidate x (some x.score) none semantic_only c j in
      merge_semantic-Kept es (assign c d) out p.1 (Kept-assign c d (subst P (sym same) p.0) h) rest

  -- The evidence of what a lexical result joins to.
  find-Kept :
      (k : Uuid) (d : List Candidate)
      → AllEvidence P d
      → (c : Candidate) → find k d ≡ some c
      → P c.evidence
  find-Kept k [] h c e = cc
  find-Kept k (x ∷ d) h c e = elim (Bool-cases (x.evidence.chunk_id == k)) [
    | inl t ↦ let same : x ≡ c = ground (arith, e, t) in subst (λ y. P y.evidence) same h.0
    | inr f ↦ find-Kept k d h.1 c (ground (arith, e, f))
  ]

  join_evidence :
      (old : Option Candidate) (x : Evidence) (c : Candidate)
      → P x
      → ((o : Candidate) → old ≡ some o → P o.evidence)
      → join old x ≡ ok c
      → P c.evidence
  unfolding join
  join_evidence none x c p h e =
      subst P (sym (candidate-IsCandidate x none (some x.score) lexical_only c e).1) p
  join_evidence (some o) x c p h e =
      subst P (sym (candidate-IsCandidate o.evidence o.semantic_score (some x.score) both c e).1)
        (h o refl)

  merge_lexical-Kept :
      (es : List Evidence) (d out : List Candidate)
      → All P es
      → Kept d
      → merge_lexical es d ≡ ok out
      → Kept out
  unfolding merge_lexical
  merge_lexical-Kept [] d out p h e = subst Kept (ok-injective e) h
  merge_lexical-Kept (x ∷ es) d out p h e =
      let (c, j, rest) =
        >>=-eq-ok (join (find x.chunk_id d) x) (λ c. merge_lexical es (assign c d)) e in
      let q = join_evidence (find x.chunk_id d) x c p.0 (find-Kept x.chunk_id d h.0) j in
      merge_lexical-Kept es (assign c d) out p.1 (Kept-assign c d q h) rest

  pub merge_candidates-Kept :
      (sem lex : List Evidence) (out : List Candidate)
      → All P sem
      → All P lex
      → merge_candidates sem lex ≡ ok out
      → Kept out
  unfolding merge_candidates
  merge_candidates-Kept sem lex out p q e =
      let (d, first, second) = >>=-eq-ok (merge_semantic sem []) (merge_lexical lex) e in
      merge_lexical-Kept lex d out q (merge_semantic-Kept sem [] d p (tt, tt) first) second
