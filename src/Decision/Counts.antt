-- ===== src/Decision/Counts.antt =====
-- The numbers of a summary, and its independence of the order of the cases.
use xportra_ai.Base.{
  ◌+◌, ◌≡◌, refl, sym, ap, ◌∙◌, subst, List, [], ◌∷◌, ◌++◌, map, Any, typed, Result, ok, ◌>>=◌,
  traverse, filter, length, >>=-eq-ok, ok-injective, length-append, arith, suc,
}
use mathlib.Core.List.{Permᴰ}
use mathlib.Core.List.Permᴰ
use xportra_ai.Base.Sorting.{
  sort, sort-perm, sort-perm_unique, AllApart, IsOrder, IsSorted, sort-IsSorted,
}
use xportra_ai.Base.Filters.{length-perm, map-perm, filter-perm}
use xportra_ai.Errors.{Uuid, Error}
use xportra_ai.Decision.Cases.{
  RawCase, Case, validate_case, is_not_satisfied, is_unknown, is_missing_evidence,
}
use xportra_ai.Decision.Standing.{
  unsettled, met, failed, lacking, undecided, number, has, is_concerned, shown, view_leb, Standing,
}
use xportra_ai.Decision.Services.{
  Summary, affected_view, by_requirement, unclear_cases, with_outcome, summary_of, summarize,
  recommend, recommendations,
}
use xportra_ai.Decision.Listing.{
  count_applied, count_met, count_failed, count_unsettled, count_unknown, missing_cases,
  affected-perm, concerned_views, lacking_views, views-IsSorted,
}

-- A traversal that returned, one element at a time.
module _ {A B : Type 0} (f : A → Result Error B) where
  traverse_inv :
      (x : A) (xs : List A) (zs : List B)
      → traverse f (x ∷ xs) ≡ ok zs
      → (y : B) × (ys : List B) × (f x ≡ ok y) × (traverse f xs ≡ ok ys) × (zs ≡ y ∷ ys)
  traverse_inv x xs zs e =
      let (y, first, more) = >>=-eq-ok (f x) (λ y. (traverse f xs >>= λ ys. ok (y ∷ ys))) e in
      let (ys, later, whole) = >>=-eq-ok (traverse f xs) (λ ys. ok (y ∷ ys)) more in
      (y, ys, first, later, sym (ok-injective whole))

  traverse_made :
      (x : A) (xs : List A) (y : B) (ys : List B)
      → f x ≡ ok y
      → traverse f xs ≡ ok ys
      → traverse f (x ∷ xs) ≡ ok (y ∷ ys)
  traverse_made x xs y ys first later = rw first (rw later refl)

  length-traverse : (xs : List A) (zs : List B) → traverse f xs ≡ ok zs → length zs ≡ length xs
  length-traverse [] zs e = ap length (sym (ok-injective e))
  length-traverse (x ∷ xs) zs e =
      let (y, ys, first, later, whole) = traverse_inv x xs zs e in
      ap length whole ∙ ap (λ n. suc n) (length-traverse xs ys later)

  -- A traversal of a permuted list gives the permuted results.
  pub traverse-perm :
      {xs ys : List A}
      → Permᴰ xs ys
      → (zs : List B) → traverse f xs ≡ ok zs
      → (ws : List B) × (traverse f ys ≡ ok ws) × Permᴰ zs ws
  traverse-perm Permᴰ.nil zs e = (zs, e, Permᴰ.refl zs)
  traverse-perm (Permᴰ.cons {a = x} {b = x'} {l₁ = xs} {l₂ = xs'} p d) zs e =
      let (y, ys, first, later, whole) = traverse_inv x xs zs e in
      let (ws, good, perm) = traverse-perm d ys later in
      (
        y ∷ ws,
        traverse_made x' xs' y ws (ap f (sym p) ∙ first) good,
        subst (λ l. Permᴰ l (y ∷ ws)) (sym whole) (Permᴰ.cons refl perm),
      )
  traverse-perm (Permᴰ.swap {a = a} {b = b} {a' = a'} {b' = b'} {l = l} p d) zs e =
      let (y, ys, first, more, whole) = traverse_inv a (b ∷ l) zs e in
      let (z, rest, second, later, tail) = traverse_inv b l ys more in
      (
        z ∷ y ∷ rest,
        traverse_made a' (b' ∷ l) z (y ∷ rest) (ap f (sym d) ∙ second)
            (traverse_made b' l y rest (ap f (sym p) ∙ first) later),
        subst (λ l. Permᴰ l (z ∷ y ∷ rest)) (sym (whole ∙ ap (λ l. y ∷ l) tail))
            (Permᴰ.swap refl refl),
      )
  traverse-perm (Permᴰ.trans d d') zs e =
      let (ws, good, perm) = traverse-perm d zs e in
      let (vs, best, more) = traverse-perm d' ws good in (vs, best, Permᴰ.trans perm more)

module _ {Carried : Type 0} where
  by_requirement-IsOrder : IsOrder (by_requirement {Carried = Carried})
  by_requirement-IsOrder = record {
    total = λ x y h. ground arith;
    transitive = λ x y z h k. ground arith;
  }

  -- The summary has the numbers of the validated cases, and lists those that it is about.
  pub record Adds (cs : List (Case Carried)) (out : Summary Carried) : Type 0 where
    pub total : out.total_cases ≡ length cs
    pub applied :
        out.total_applicable_requirements
        ≡ number met cs + number failed cs + number lacking cs + number undecided cs
    pub are_met : out.satisfied_requirements ≡ number met cs
    pub are_failed : out.not_satisfied_requirements ≡ number failed cs
    pub are_open :
        out.requirements_requiring_review
        ≡ number unsettled cs + number lacking cs + number undecided cs
    pub are_unknown : out.unknown_requirements ≡ out.requirements_requiring_review
    pub are_lacking : out.requirements_missing_evidence ≡ number lacking cs
    pub affected : Permᴰ out.affected_requirements (map shown (filter is_concerned cs))
    pub in_order : IsSorted view_leb out.affected_requirements
    pub missing : Permᴰ out.missing_evidence_requirements (map shown (filter (has lacking) cs))

  summary_of-Adds : (t : Uuid) (cs : List (Case Carried)) → Adds cs (summary_of t cs)
  unfolding summary_of
  summary_of-Adds t cs =
      let review = unclear_cases cs ++ with_outcome is_unknown cs in
      let failed_cases = with_outcome is_not_satisfied cs in
      let listed = sort by_requirement (failed_cases ++ review) in
      record {
        total = refl;
        applied = count_applied cs;
        are_met = count_met cs;
        are_failed = count_failed cs;
        are_open = omega (
          arith,
          length-append (unclear_cases cs) (with_outcome is_unknown cs),
          count_unsettled cs,
          count_unknown cs,
        );
        are_unknown = refl;
        are_lacking = ap length (missing_cases cs);
        affected = subst (Permᴰ (map affected_view listed)) (concerned_views cs) (
            map-perm affected_view
              (Permᴰ.trans (sort-perm by_requirement (failed_cases ++ review)) (affected-perm cs)));
        in_order =
            views-IsSorted listed
              (sort-IsSorted by_requirement by_requirement-IsOrder (failed_cases ++ review));
        missing =
            subst
              (Permᴰ (map affected_view (filter is_missing_evidence (with_outcome is_unknown cs))))
              (ap (map affected_view) (missing_cases cs) ∙ lacking_views cs) (Permᴰ.refl _);
      }

  number-perm :
      (s : Standing) {cs ds : List (Case Carried)} → Permᴰ cs ds → number s cs ≡ number s ds
  number-perm s d = length-perm (filter-perm (has s) d)

  -- Neither depends on the order of the cases.
  Adds-perm :
      {cs ds : List (Case Carried)} (out : Summary Carried)
      → Permᴰ cs ds
      → Adds cs out
      → Adds ds out
  Adds-perm out d a =
      let nm = number-perm met d in
      let nf = number-perm failed d in
      let nl = number-perm lacking d in
      let nu = number-perm undecided d in
      let ns = number-perm unsettled d in
      record {
        total = a.total ∙ length-perm d;
        applied = omega (arith, a.applied);
        are_met = a.are_met ∙ nm;
        are_failed = a.are_failed ∙ nf;
        are_open = omega (arith, a.are_open);
        are_unknown = a.are_unknown;
        are_lacking = a.are_lacking ∙ nl;
        affected = Permᴰ.trans a.affected (map-perm shown (filter-perm is_concerned d));
        in_order = a.in_order;
        missing = Permᴰ.trans a.missing (map-perm shown (filter-perm (has lacking) d));
      }

  -- If a summary returns, every case has passed its checks, and its numbers are those of the cases:
  -- of all, of those that apply, of those that apply and are satisfied, not satisfied, or unknown
  -- for missing evidence, and, for review and as unknown, of those of which it is unclear whether
  -- they apply and of those that apply and are unknown. The affected list has, in the order of
  -- the requirements, those not satisfied and those for review, each with its state and reason;
  -- the missing list has those that miss evidence.
  pub summarize-Adds :
      (cases : List (Any (RawCase Carried))) (t : Uuid) (out : Summary Carried)
      → summarize cases (typed t) ≡ ok out
      → (cs : List (Case Carried)) × (traverse (validate_case t) cases ≡ ok cs)
        × (length cs ≡ length cases)
        × Adds cs out
  unfolding summarize
  summarize-Adds cases t out e =
      let (cs, checked, made) =
        >>=-eq-ok (traverse (validate_case t) cases)
          (λ cs. ok (summary_of t (sort by_requirement cs))) e in
      (
        cs,
        checked,
        length-traverse (validate_case t) cases cs checked,
        Adds-perm out (sort-perm by_requirement cs) (
            subst (Adds (sort by_requirement cs)) (ok-injective made)
              (summary_of-Adds t (sort by_requirement cs))),
      )

  -- If the cases pass their checks and no two have the same requirement, neither the summary nor
  -- the recommendations depend on the order in which the cases come.
  pub services-perm_eq :
      {cases cases' : List (Any (RawCase Carried))} (t : Uuid) (cs : List (Case Carried))
      → Permᴰ cases cases'
      → traverse (validate_case t) cases ≡ ok cs
      → AllApart by_requirement cs
      → (summarize cases (typed t) ≡ summarize cases' (typed t))
        × (recommend cases (typed t) ≡ recommend cases' (typed t))
  unfolding summarize recommend
  services-perm_eq t cs p e apart =
      let (ds, f, q) = traverse-perm (validate_case t) p cs e in
      let same = sort-perm_unique by_requirement by_requirement-IsOrder q apart in
      (
        rw (e, f) (ap (λ l. ok (summary_of t l)) same),
        rw (e, f) (ap (λ l. ok (recommendations l)) same),
      )
