-- ===== src/Evidence/Collapse.antt =====
-- The collapse of duplicates: what it keeps and removes.
use xportra_ai.Base.{
  ◌≡◌, refl, sym, subst, inl, inr, Bool, true, false, ◌||◌, List, [], ◌∷◌, arith, contains, All,
  Distinct, Bool-cases, All_map, any,
}
use xportra_ai.Base.Sorting.{IsSorted}
use xportra_ai.Base.Keys.{lex_leb}
use xportra_ai.Errors.{Uuid}
use xportra_ai.Evidence.Model.{Evidence, same_evidence}
use xportra_ai.Evidence.Hybrid.{Candidate, order_key, collapse}
use xportra_ai.Evidence.Order.{ids}

-- What holds of every element holds after the collapse.
pub collapse-All :
    (P : Candidate → Type 0) (seen : List Evidence) (cs : List Candidate)
    → All P cs
    → All P (collapse seen cs)
unfolding collapse
collapse-All P seen [] h = tt
collapse-All P seen (c ∷ cs) h = elim (Bool-cases (any (same_evidence c.evidence) seen)) [
  | inl e ↦ rw e (collapse-All P seen cs h.1)
  | inr e ↦ rw e (h.0, collapse-All P (c.evidence ∷ seen) cs h.1)
]

collapse_fresh :
    (k : Uuid) (seen : List Evidence) (cs : List Candidate)
    → contains (ids cs) k ≡ false
    → contains (ids (collapse seen cs)) k ≡ false
unfolding collapse
collapse_fresh k seen [] h = refl
collapse_fresh k seen (c ∷ cs) h =
    ground (arith, collapse_fresh k seen cs, collapse_fresh k (c.evidence ∷ seen) cs)

pub collapse-Distinct :
    (seen : List Evidence) (cs : List Candidate)
    → Distinct (ids cs)
    → Distinct (ids (collapse seen cs))
unfolding collapse
collapse-Distinct seen [] h = tt
collapse-Distinct seen (c ∷ cs) h = elim (Bool-cases (any (same_evidence c.evidence) seen)) [
  | inl e ↦ rw e (collapse-Distinct seen cs h.1)
  | inr e ↦ rw e (
    collapse_fresh c.evidence.chunk_id (c.evidence ∷ seen) cs h.0,
    collapse-Distinct (c.evidence ∷ seen) cs h.1,
  )
]

abbrev pub candidate_leb : Candidate → Candidate → Bool
candidate_leb a b = lex_leb (order_key a) (order_key b)

pub collapse-IsSorted :
    (seen : List Evidence) (cs : List Candidate)
    → IsSorted candidate_leb cs
    → IsSorted candidate_leb (collapse seen cs)
unfolding collapse
collapse-IsSorted seen [] h = tt
collapse-IsSorted seen (c ∷ cs) h = elim (Bool-cases (any (same_evidence c.evidence) seen)) [
  | inl e ↦ rw e (collapse-IsSorted seen cs h.1)
  | inr e ↦ rw e (
    collapse-All (λ d. candidate_leb c d ≡ true) (c.evidence ∷ seen) cs h.0,
    collapse-IsSorted (c.evidence ∷ seen) cs h.1,
  )
]

-- No later candidate duplicates an earlier one.
abbrev pub Unique : List Candidate → Type 0
Unique [] = Unit
Unique (c ∷ cs) = All (λ d. same_evidence d.evidence c.evidence ≡ false) cs × Unique cs

-- A duplicate of the evidence has been seen, or is kept.
abbrev pub Represented : List Evidence → List Candidate → Candidate → Type 0
Represented seen out c =
    (any (same_evidence c.evidence) seen || any (λ d. same_evidence c.evidence d.evidence) out)
    ≡ true

collapse_unseen :
    (e : Evidence) (seen : List Evidence) (cs : List Candidate)
    → ((a : Evidence) → any (same_evidence a) seen ≡ false → same_evidence a e ≡ false)
    → All (λ d. same_evidence d.evidence e ≡ false) (collapse seen cs)
unfolding collapse
collapse_unseen e seen [] h = tt
collapse_unseen e seen (c ∷ cs) h = elim (Bool-cases (any (same_evidence c.evidence) seen)) [
  | inl t ↦ rw t (collapse_unseen e seen cs h)
  | inr f ↦
      rw f (h c.evidence f, collapse_unseen e (c.evidence ∷ seen) cs (λ a g. h a (ground arith)))
]

pub collapse-Unique : (seen : List Evidence) (cs : List Candidate) → Unique (collapse seen cs)
unfolding collapse
collapse-Unique seen [] = tt
collapse-Unique seen (c ∷ cs) = elim (Bool-cases (any (same_evidence c.evidence) seen)) [
  | inl t ↦ rw t (collapse-Unique seen cs)
  | inr f ↦ rw f (
    collapse_unseen c.evidence (c.evidence ∷ seen) cs (λ a g. ground arith),
    collapse-Unique (c.evidence ∷ seen) cs,
  )
]

same_evidence_refl : (e : Evidence) → same_evidence e e ≡ true
same_evidence_refl e = ground arith

-- What stood for a candidate before the head was kept still does.
Represented-kept :
    (c : Candidate) (seen : List Evidence) (out : List Candidate) (d : Candidate)
    → Represented (c.evidence ∷ seen) out d
    → Represented seen (c ∷ out) d
Represented-kept c seen out d h = ground arith

collapse_skip :
    (c : Candidate) (seen : List Evidence) (cs : List Candidate)
    → any (same_evidence c.evidence) seen ≡ true
    → collapse seen (c ∷ cs) ≡ collapse seen cs
unfolding collapse
collapse_skip c seen cs h = rw h refl

collapse_keep :
    (c : Candidate) (seen : List Evidence) (cs : List Candidate)
    → any (same_evidence c.evidence) seen ≡ false
    → collapse seen (c ∷ cs) ≡ c ∷ collapse (c.evidence ∷ seen) cs
unfolding collapse
collapse_keep c seen cs h = rw h refl

abbrev AllRepresented : List Evidence → List Candidate → List Candidate → Type 0
AllRepresented seen cs out = All (Represented seen out) cs

collapse-Represented :
    (seen : List Evidence) (cs : List Candidate) → AllRepresented seen cs (collapse seen cs)
collapse-Represented seen [] = tt
collapse-Represented seen (c ∷ cs) = elim (Bool-cases (any (same_evidence c.evidence) seen)) [
  | inl t ↦
      subst (AllRepresented seen (c ∷ cs)) (sym (collapse_skip c seen cs t))
        (ground (arith, t), collapse-Represented seen cs)
  | inr f ↦
      let rest = collapse (c.evidence ∷ seen) cs in
      subst (AllRepresented seen (c ∷ cs)) (sym (collapse_keep c seen cs f)) (
        ground (arith, same_evidence_refl c.evidence),
        All_map (Represented-kept c seen rest) cs (collapse-Represented (c.evidence ∷ seen) cs),
      )
]

-- The collapse keeps no two candidates with the same document and fingerprint, and drops a
-- candidate only if one with the same document and fingerprint is kept.
pub collapse_exact :
    (cs : List Candidate) → Unique (collapse [] cs) × All (Represented [] (collapse [] cs)) cs
collapse_exact cs = (collapse-Unique [] cs, collapse-Represented [] cs)
