-- ===== src/Evidence/Order.antt =====
-- The ranking answers whatever the order of the candidates, and the order it chooses.
use xportra_ai.Base.{
  ℕ, suc, ◌≡◌, refl, sym, ap, ◌∙◌, inl, inr, Bool, true, false, ◌&&◌, List, [], ◌∷◌, map, typed,
  arith, ok, traverse, ◌==◌, ltb, if◌then◌else◌, contains, take, All, Distinct, Bool-cases,
}
use xportra_ai.Base.Int.{pos}
use xportra_ai.Base.Sorting.{sort, sort-perm_unique, All-perm, AllApart, Apart, AllApart-perm}
use xportra_ai.Base.Keys.{key-IsOrder, lex_leb_antisymm}
use xportra_ai.Errors.{Uuid}
use xportra_ai.Evidence.Hybrid.{Candidate, Sources, descending}
use mathlib.Core.List.{Permᴰ}
use mathlib.Core.List.Permᴰ
use xportra_ai.Evidence.Union.{IsCandidate}
use xportra_ai.Evidence.Ranking.{
  Ranked, Keyed, keyed, key_leb, enumerate, has_duplicate, rank, rank_validated, validate_one,
}

abbrev pub ids : List Candidate → List Uuid
ids cs = map (λ c. c.evidence.chunk_id) cs

-- The precedence of a well-formed set of sources.
abbrev pub tier : Sources → ℕ
tier s = if s.semantic then (if s.lexical then 0 else 1) else 2

abbrev pub entry : Candidate → Keyed
entry c = record {
  candidate = c;
  key =
      pos (tier c.retrieval_sources)
      ∷ descending c.semantic_score
      ∷ descending c.lexical_score
      ∷ pos c.evidence.chunk_id
      ∷ [];
}

-- What the ranker makes of candidates whose keys are known.
abbrev pub ranking : List Candidate → List Ranked
ranking cs = enumerate 1 (sort key_leb (map entry cs))

keyed_lem : (c : Candidate) → IsCandidate c → keyed c ≡ ok (entry c)
unfolding keyed
keyed_lem c h = ground (arith, h.known_sources)

validate_one_lem : (c : Candidate) → IsCandidate c → validate_one (typed c) ≡ ok c
unfolding validate_one
validate_one_lem c h = rw h.semantic_finite (
    rw h.lexical_finite
      (rw h.known_sources (rw h.semantic_consistent (rw h.lexical_consistent refl))))

traverse-keyed : (cs : List Candidate) → All IsCandidate cs → traverse keyed cs ≡ ok (map entry cs)
traverse-keyed [] h = refl
traverse-keyed (c ∷ cs) h = rw (keyed_lem c h.0) (rw (traverse-keyed cs h.1) refl)

traverse-validate_one :
    (cs : List Candidate) → All IsCandidate cs → traverse validate_one (map typed cs) ≡ ok cs
traverse-validate_one [] h = refl
traverse-validate_one (c ∷ cs) h =
    rw (validate_one_lem c h.0) (rw (traverse-validate_one cs h.1) refl)

-- Identities that differ, as a relation between candidates.
abbrev pub same_chunk : Candidate → Candidate → Bool
same_chunk c d = c.evidence.chunk_id == d.evidence.chunk_id

same_comm : (a b : ℕ) → (a == b) ≡ (b == a)
same_comm a b = ground arith

fresh :
    (c : Candidate) (cs : List Candidate)
    → contains (ids cs) c.evidence.chunk_id ≡ false
    → All (Apart same_chunk c) cs
fresh c [] h = tt
fresh c (d ∷ cs) h = (ground arith, fresh c cs (ground arith))

fresh_inv :
    (c : Candidate) (cs : List Candidate)
    → All (Apart same_chunk c) cs
    → contains (ids cs) c.evidence.chunk_id ≡ false
fresh_inv c [] h = refl
fresh_inv c (d ∷ cs) h =
    ground (arith, fresh_inv c cs h.1, h.0, same_comm c.evidence.chunk_id d.evidence.chunk_id)

pub Distinct→AllApart : (cs : List Candidate) → Distinct (ids cs) → AllApart same_chunk cs
Distinct→AllApart [] h = tt
Distinct→AllApart (c ∷ cs) h = (fresh c cs h.0, Distinct→AllApart cs h.1)

pub AllApart→Distinct : (cs : List Candidate) → AllApart same_chunk cs → Distinct (ids cs)
AllApart→Distinct [] h = tt
AllApart→Distinct (c ∷ cs) h = (fresh_inv c cs h.0, AllApart→Distinct cs h.1)

pub Distinct-perm : {cs ds : List Candidate} → Permᴰ cs ds → Distinct (ids cs) → Distinct (ids ds)
Distinct-perm {ds = ds} p h =
    AllApart→Distinct ds (AllApart-perm same_chunk p (Distinct→AllApart _ h))

-- Candidates of two chunks have two keys.
id_of_key :
    (c d : Candidate) → (entry c).key ≡ (entry d).key → c.evidence.chunk_id ≡ d.evidence.chunk_id
id_of_key c d h = cc

Apart_of_ids : (c d : Candidate) → Apart same_chunk c d → Apart key_leb (entry c) (entry d)
Apart_of_ids c d h =
    elim (Bool-cases (key_leb (entry c) (entry d) && key_leb (entry d) (entry c))) [
      | inl e ↦
          let same =
            id_of_key c d
              (lex_leb_antisymm (entry c).key (entry d).key (ground arith) (ground arith)) in
          ground (arith, same)
      | inr e ↦ e
    ]

All_entries :
    (c : Candidate) (cs : List Candidate)
    → All (Apart same_chunk c) cs
    → All (Apart key_leb (entry c)) (map entry cs)
All_entries c [] h = tt
All_entries c (d ∷ cs) h = (Apart_of_ids c d h.0, All_entries c cs h.1)

AllApart-entries : (cs : List Candidate) → AllApart same_chunk cs → AllApart key_leb (map entry cs)
AllApart-entries [] h = tt
AllApart-entries (c ∷ cs) h = (All_entries c cs h.0, AllApart-entries cs h.1)

-- Nothing in the set `seen` comes again.
pub not_seen :
    (seen : List Uuid) (a : Uuid) (cs : List Candidate)
    → All (λ c. contains seen c.evidence.chunk_id ≡ false) cs
    → contains (ids cs) a ≡ false
    → All (λ c. contains (a ∷ seen) c.evidence.chunk_id ≡ false) cs
not_seen seen a [] h k = tt
not_seen seen a (c ∷ cs) h k =
    (ground (arith, h.0, same_comm a c.evidence.chunk_id), not_seen seen a cs h.1 (ground arith))

has_duplicate_lem :
    (seen : List Uuid) (cs : List Candidate)
    → All (λ c. contains seen c.evidence.chunk_id ≡ false) cs
    → Distinct (ids cs)
    → has_duplicate seen cs ≡ false
has_duplicate_lem seen [] h d = refl
has_duplicate_lem seen (c ∷ cs) h d = rw h.0 (
    has_duplicate_lem (c.evidence.chunk_id ∷ seen) cs (not_seen seen c.evidence.chunk_id cs h.1 d.0)
      d.1)

pub none_seen : (cs : List Candidate) → All (λ c. contains [] c.evidence.chunk_id ≡ false) cs
none_seen [] = tt
none_seen (c ∷ cs) = (refl, none_seen cs)

pub rank_validated_lem :
    (cs : List Candidate)
    → All IsCandidate cs
    → Distinct (ids cs)
    → rank_validated cs ≡ ok (ranking cs)
unfolding rank_validated
rank_validated_lem cs h d =
    rw (has_duplicate_lem [] cs (none_seen cs) d) (rw (traverse-keyed cs h) refl)

positive : (k : ℕ) → ltb 0 (suc k) ≡ true
positive k = ground arith

pub rank_lem :
    (cs : List Candidate) (k : ℕ)
    → All IsCandidate cs
    → Distinct (ids cs)
    → rank (typed (map typed cs)) (typed (suc k)) ≡ ok (take (suc k) (ranking cs))
unfolding rank sort
rank_lem [] k h d = rw (positive k) refl
rank_lem (c ∷ cs) k h d =
    rw (positive k)
      (rw (traverse-validate_one (c ∷ cs) h) (rw (rank_validated_lem (c ∷ cs) h d) refl))

-- Two lists of the same well-formed candidates, no chunk twice, get the same ranking whatever
-- their order: the same results in the same places with the same positions and keys.
pub rank-perm_eq :
    {cs ds : List Candidate}
    → Permᴰ cs ds
    → All IsCandidate cs
    → Distinct (ids cs)
    → (k : ℕ)
    → rank (typed (map typed cs)) (typed (suc k)) ≡ rank (typed (map typed ds)) (typed (suc k))
rank-perm_eq {cs = cs} {ds = ds} p h d k =
    let same : ranking cs ≡ ranking ds = ap (enumerate 1) (
      sort-perm_unique key_leb (key-IsOrder (λ x. x.key)) (Permᴰ.map entry p)
        (AllApart-entries cs (Distinct→AllApart cs d))) in
    rank_lem cs k h d
    ∙ (ap (λ r. ok (take (suc k) r)) same
        ∙ sym (rank_lem ds k (All-perm IsCandidate p h) (Distinct-perm p d)))
