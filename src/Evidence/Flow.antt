-- ===== src/Evidence/Flow.antt =====
-- From retrieval to the context: each step accepts what the step before it returns.
use xportra_ai.Base.{
  ℕ, zero, suc, ◌<◌, ◌≡◌, refl, sym, ap, ◌∙◌, subst, false, Option, none, some, List, [], ◌∷◌, map,
  Any, typed, arith, Result, ok, ◌>>=◌, ltb, leb, is_empty, contains, length, take, All, Distinct,
  ==_iff,
}
use xportra_ai.Base.Text.{Text}
use xportra_ai.Base.Sorting.{sort, All-perm}
use xportra_ai.Errors.{Uuid, Error}
use xportra_ai.Evidence.Model.{Evidence, Scope}
use xportra_ai.Evidence.Hybrid.{Candidate}
use mathlib.Core.List.Permᴰ
use xportra_ai.Evidence.Retrieval.{Mode, Query, scope_or_all, retrieve_candidates}
use xportra_ai.Evidence.Ranking.{Ranked, rank, key_leb}
use xportra_ai.Evidence.Order.{ids, ranking, entry, Distinct-perm, not_seen, none_seen}
use xportra_ai.Evidence.Policy.{origins, Numbered, Numbered-enumerate, origins-ranking}
use xportra_ai.Evidence.Context.{Budget, select}
use xportra_ai.Evidence.Selection.{IsAcceptable, Above, Ascends, outcome, select_accepts}
use xportra_ai.Evidence.Safety.{retrieve_candidates-IsRetrieved, rank_of_retrieved, Visible}

Ascends-of_Numbered :
    (p : Option ℕ) (n : ℕ) (seen : List Uuid) (rs : List Ranked)
    → Above p n
    → Numbered n rs
    → All (λ c. contains seen c.evidence.chunk_id ≡ false) (origins rs)
    → Distinct (ids (origins rs))
    → Ascends p seen rs
Ascends-of_Numbered p n seen [] a h s d = tt
Ascends-of_Numbered p n seen (r ∷ rs) a h s d =
    let next : leb (suc n) r.rank_position ≡ false = ground (arith, h.0) in
    (
      subst (Above p) (sym h.0) a,
      s.0,
      Ascends-of_Numbered (some r.rank_position) (suc n) (r.evidence.chunk_id ∷ seen) rs next h.1
          (not_seen seen r.evidence.chunk_id (origins rs) s.1 d.0) d.1,
    )

Ascends-take :
    (k : ℕ) (p : Option ℕ) (seen : List Uuid) (rs : List Ranked)
    → Ascends p seen rs
    → Ascends p seen (take k rs)
Ascends-take zero p seen rs h = tt
Ascends-take (suc k) p seen [] h = tt
Ascends-take (suc k) p seen (r ∷ rs) h =
    (h.0, h.1, Ascends-take k (some r.rank_position) (r.evidence.chunk_id ∷ seen) rs h.2)

All-take : (P : Ranked → Type 0) (k : ℕ) (rs : List Ranked) → All P rs → All P (take k rs)
All-take P zero rs h = tt
All-take P (suc k) [] h = tt
All-take P (suc k) (r ∷ rs) h = (h.0, All-take P k rs h.1)

-- What a candidate needs so that its result can be selected.
abbrev pub IsSelectable : Uuid → ℕ → Candidate → Type 0
IsSelectable t m c =
    (c.evidence.tenant_id ≡ t)
    × (is_empty c.evidence.content ≡ false)
    × (ltb m (length c.evidence.content) ≡ false)

acceptable :
    (t m n : ℕ) (rs : List Ranked)
    → 0 < n
    → Numbered n rs
    → All (IsSelectable t m) (origins rs)
    → All (IsAcceptable t m) rs
acceptable t m n [] p h s = tt
acceptable t m n (r ∷ rs) p h s = (
  record {
    nonempty = s.0.1;
    own = (==_iff r.evidence.tenant_id t).1 s.0.0;
    positive = ground (arith, h.0);
    fits = s.0.2;
  },
  acceptable t m (suc n) rs (omega arith) h.1 s.1,
)

-- The parts of a candidate that a document's chunk guarantees.
abbrev pub HasContent : ℕ → Candidate → Type 0
HasContent m c = (is_empty c.evidence.content ≡ false) × (ltb m (length c.evidence.content) ≡ false)

selectable :
    (t m : ℕ) (s : Scope) (cs : List Candidate)
    → All (λ c. Visible t s c.evidence) cs
    → All (HasContent m) cs
    → All (IsSelectable t m) cs
selectable t m s [] h k = tt
selectable t m s (c ∷ cs) h k = ((h.0.0, k.0.0, k.0.1), selectable t m s cs h.1 k.1)

ranking-select :
    (t : Uuid) (b : Budget) (k : ℕ) (cs : List Candidate)
    → Distinct (ids cs)
    → All (IsSelectable t b.max_characters) cs
    → select (typed (map typed (take k (ranking cs)))) (typed t) (typed b)
      ≡ ok (outcome b (take k (ranking cs)))
ranking-select t b k cs d h =
    let rs = ranking cs in
    let back = Permᴰ.symm (origins-ranking cs) in
    let numbered = Numbered-enumerate 1 (sort key_leb (map entry cs)) in
    let fine =
      acceptable t b.max_characters 1 rs (omega arith) numbered
        (All-perm (IsSelectable t b.max_characters) back h) in
    let up =
      Ascends-of_Numbered none 1 [] rs refl numbered (none_seen (origins rs))
        (Distinct-perm back d) in
    select_accepts (take k rs) t b (All-take (IsAcceptable t b.max_characters) k rs fine)
      (Ascends-take k none [] rs up)

module _ (retrieve : Query → Uuid → Scope → Result Error (Any (List (Any Evidence))))
    (find_lexical : List Text → Uuid → ℕ → Scope → Result Error (Any (List (Any Evidence))))
    (lexical_terms : Text → List Text) where
  -- If retrieval returns candidates whose contents are not empty and fit the budget, then ranking
  -- them with a positive top-k and selecting from the result for the same tenant succeeds, and the
  -- outcome is the documented choice from the ranking cut to top-k.
  pub select_of_retrieved :
      (q : Query) (t : Uuid) (m : Mode) (given : Option Scope) (out : List Candidate) (k : ℕ)
      (b : Budget)
      → retrieve_candidates retrieve find_lexical lexical_terms
          (typed q)
          (typed t)
          (typed m)
          (typed given)
        ≡ ok out
      → All (HasContent b.max_characters) out
      → (rank (typed (map typed out)) (typed (suc k)) >>= λ rs.
          select (typed (map typed rs)) (typed t) (typed b))
        ≡ ok (outcome b (take (suc k) (ranking out)))
  select_of_retrieved q t m given out k b e h =
      let r =
        retrieve_candidates-IsRetrieved retrieve find_lexical lexical_terms q t m given out e in
      let ranks = rank_of_retrieved retrieve find_lexical lexical_terms q t m given out k e in
      ap (λ x. x >>= λ rs. select (typed (map typed rs)) (typed t) (typed b)) ranks
      ∙ ranking-select t b (suc k) out r.distinct
          (selectable t b.max_characters (scope_or_all given) out r.visible h)
