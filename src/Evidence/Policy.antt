-- ===== src/Evidence/Policy.antt =====
-- What the ranking of well-formed candidates contains, and in which order.
use xportra_ai.Base.{
  ℕ, suc, ◌≡◌, refl, sym, ap, subst, Bool, true, List, [], ◌∷◌, map, typed, arith, ok, take, All,
  Distinct,
}
use xportra_ai.Base.Int.{ℤ}
use xportra_ai.Base.Sorting.{sort, IsSorted, sort-IsSorted, sort-perm, All-perm}
use xportra_ai.Base.Keys.{lex_leb, key-IsOrder}
use xportra_ai.Evidence.Hybrid.{Candidate}
use mathlib.Core.List.{Permᴰ}
use mathlib.Core.List.Permᴰ
use xportra_ai.Evidence.Union.{IsCandidate}
use xportra_ai.Evidence.Ranking.{Ranked, Keyed, ranking_key, key_leb, enumerate, rank}
use xportra_ai.Evidence.Order.{ids, entry, ranking, rank_lem}

-- The candidate that a result was made of.
abbrev pub origin : Ranked → Candidate
origin r = record {
  evidence = r.evidence;
  semantic_score = r.semantic_score;
  lexical_score = r.lexical_score;
  retrieval_sources = r.retrieval_sources;
}

abbrev pub origins : List Ranked → List Candidate
origins rs = map origin rs

-- Positions that count up from `n`.
abbrev pub Numbered : ℕ → List Ranked → Type 0
Numbered n [] = Unit
Numbered n (r ∷ rs) = (r.rank_position ≡ n) × Numbered (suc n) rs

abbrev pub ranked_leb : Ranked → Ranked → Bool
ranked_leb a b = lex_leb a.ranking_key b.ranking_key

-- The key of a result is the one that the policy gives its candidate.
abbrev pub HasKey : Ranked → Type 0
HasKey r = ranking_key (origin r) ≡ ok r.ranking_key

origins-enumerate : (n : ℕ) (xs : List Keyed) → origins (enumerate n xs) ≡ map (λ x. x.candidate) xs
origins-enumerate n [] = refl
origins-enumerate n (x ∷ xs) = ap (λ l. x.candidate ∷ l) (origins-enumerate (suc n) xs)

pub Numbered-enumerate : (n : ℕ) (xs : List Keyed) → Numbered n (enumerate n xs)
Numbered-enumerate n [] = tt
Numbered-enumerate n (x ∷ xs) = (refl, Numbered-enumerate (suc n) xs)

All-enumerate :
    (k : List ℤ) (n : ℕ) (xs : List Keyed)
    → All (λ x. lex_leb k x.key ≡ true) xs
    → All (λ r. lex_leb k r.ranking_key ≡ true) (enumerate n xs)
All-enumerate k n [] h = tt
All-enumerate k n (x ∷ xs) h = (h.0, All-enumerate k (suc n) xs h.1)

IsSorted-enumerate :
    (n : ℕ) (xs : List Keyed) → IsSorted key_leb xs → IsSorted ranked_leb (enumerate n xs)
IsSorted-enumerate n [] h = tt
IsSorted-enumerate n (x ∷ xs) h =
    (All-enumerate x.key (suc n) xs h.0, IsSorted-enumerate (suc n) xs h.1)

abbrev Fits : Keyed → Type 0
Fits x = ranking_key x.candidate ≡ ok x.key

HasKey-enumerate : (n : ℕ) (xs : List Keyed) → All Fits xs → All HasKey (enumerate n xs)
HasKey-enumerate n [] h = tt
HasKey-enumerate n (x ∷ xs) h = (h.0, HasKey-enumerate (suc n) xs h.1)

entry-Fits : (c : Candidate) → IsCandidate c → Fits (entry c)
unfolding ranking_key
entry-Fits c h = ground (arith, h.known_sources)

entries-Fits : (cs : List Candidate) → All IsCandidate cs → All Fits (map entry cs)
entries-Fits [] h = tt
entries-Fits (c ∷ cs) h = (entry-Fits c h.0, entries-Fits cs h.1)

candidates-entries : (cs : List Candidate) → map (λ x. x.candidate) (map entry cs) ≡ cs
candidates-entries [] = refl
candidates-entries (c ∷ cs) = ap (λ l. c ∷ l) (candidates-entries cs)

pub origins-ranking : (cs : List Candidate) → Permᴰ (origins (ranking cs)) cs
origins-ranking cs =
    let sorted = sort key_leb (map entry cs) in
    let permuted = Permᴰ.map (λ x. x.candidate) (sort-perm key_leb (map entry cs)) in
    subst (λ l. Permᴰ l cs) (sym (origins-enumerate 1 sorted))
      (subst (λ l. Permᴰ (map (λ x. x.candidate) sorted) l) (candidates-entries cs) permuted)

-- Ranking well-formed candidates, no chunk twice, with a positive top-k returns the first top-k of
-- a list that has exactly those candidates, each once, with positions counting up from 1, each
-- with the key that the policy gives it, and with the keys in ascending order.
pub rank_policy :
    (cs : List Candidate) (k : ℕ)
    → All IsCandidate cs
    → Distinct (ids cs)
    → (all : List Ranked) × (rank (typed (map typed cs)) (typed (suc k)) ≡ ok (take (suc k) all))
      × Permᴰ (origins all) cs
      × Numbered 1 all
      × All HasKey all
      × IsSorted ranked_leb all
rank_policy cs k h d =
    let sorted = sort key_leb (map entry cs) in
    (
      ranking cs,
      rank_lem cs k h d,
      origins-ranking cs,
      Numbered-enumerate 1 sorted,
      HasKey-enumerate 1 sorted
          (All-perm Fits (Permᴰ.symm (sort-perm key_leb (map entry cs))) (entries-Fits cs h)),
      IsSorted-enumerate 1 sorted (sort-IsSorted key_leb (key-IsOrder (λ x. x.key)) (map entry cs)),
    )
