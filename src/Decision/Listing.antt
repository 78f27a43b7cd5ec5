-- ===== src/Decision/Listing.antt =====
-- The lists of a summary, by the standing of their cases.
use xportra_ai.Base.{
  ◌+◌, ◌≡◌, refl, ap, inl, inr, Bool, true, false, ◌&&◌, List, [], ◌∷◌, ◌++◌, map, filter, length,
  All, Bool-cases, arith,
}
use mathlib.Core.List.{Permᴰ}
use xportra_ai.Base.Filters.{filter-filter, filter_parts, Parts}
use xportra_ai.Base.Sorting.{IsSorted}
use xportra_ai.Decision.Cases.{
  Applicability, applicable, not_applicable, unclear, Outcome, satisfied, not_satisfied, unknown,
  Case, is_applicable, is_unclear, is_satisfied, is_not_satisfied, is_unknown, is_missing_evidence,
}
use xportra_ai.Decision.Standing.{
  standing_of, unsettled, met, failed, lacking, undecided, number, has, is_concerned, concerns,
  shown, view_leb,
}
use xportra_ai.Decision.Services.{
  affected_view, by_requirement, applicable_cases, unclear_cases, with_outcome,
}

-- The three lists of the affected ones, by standing.
parts :
    (a : Applicability) (o : Outcome) (m : Bool)
    → Parts
        (is_applicable a && is_not_satisfied o)
        (is_unclear a)
        (is_applicable a && is_unknown o)
        (concerns (standing_of a o m))
parts not_applicable o m = inr (inr (inr (refl, refl, refl, refl)))
parts unclear o m = inr (inl (refl, refl, refl, refl))
parts applicable satisfied m = inr (inr (inr (refl, refl, refl, refl)))
parts applicable not_satisfied m = inl (refl, refl, refl, refl)
parts applicable unknown true = inr (inr (inl (refl, refl, refl, refl)))
parts applicable unknown false = inr (inr (inl (refl, refl, refl, refl)))

module _ {Carried : Type 0} where
  pub count_applied :
      (cs : List (Case Carried))
      → length (applicable_cases cs)
        ≡ number met cs + number failed cs + number lacking cs + number undecided cs
  count_applied [] = omega arith
  count_applied (c ∷ cs) = ground (arith, count_applied cs)

  pub count_met : (cs : List (Case Carried)) → length (with_outcome is_satisfied cs) ≡ number met cs
  count_met [] = refl
  count_met (c ∷ cs) = ground (arith, count_met cs)

  pub count_failed :
      (cs : List (Case Carried)) → length (with_outcome is_not_satisfied cs) ≡ number failed cs
  count_failed [] = refl
  count_failed (c ∷ cs) = ground (arith, count_failed cs)

  pub count_unsettled : (cs : List (Case Carried)) → length (unclear_cases cs) ≡ number unsettled cs
  count_unsettled [] = refl
  count_unsettled (c ∷ cs) = ground (arith, count_unsettled cs)

  pub count_unknown :
      (cs : List (Case Carried))
      → length (with_outcome is_unknown cs) ≡ number lacking cs + number undecided cs
  count_unknown [] = omega arith
  count_unknown (c ∷ cs) = ground (arith, count_unknown cs)

  pub missing_cases :
      (cs : List (Case Carried))
      → filter is_missing_evidence (with_outcome is_unknown cs) ≡ filter (has lacking) cs
  missing_cases [] = refl
  missing_cases (c ∷ cs) = ground (arith, missing_cases cs)

  pub affected-perm :
      (cs : List (Case Carried))
      → Permᴰ
          (with_outcome is_not_satisfied cs ++ (unclear_cases cs ++ with_outcome is_unknown cs))
          (filter is_concerned cs)
  affected-perm cs =
      let applies = λ (c : Case Carried). is_applicable c.applicability in
      let whole =
        filter_parts
          (λ (c : Case Carried). is_applicable c.applicability && is_not_satisfied c.outcome)
          (λ (c : Case Carried). is_unclear c.applicability)
          (λ (c : Case Carried). is_applicable c.applicability && is_unknown c.outcome) is_concerned
          (λ c. parts c.applicability c.outcome (is_missing_evidence c)) cs in
      rw
        (
          filter-filter applies (λ (c : Case Carried). is_not_satisfied c.outcome) cs,
          filter-filter applies (λ (c : Case Carried). is_unknown c.outcome) cs,
        )
        whole

  -- A case that is listed is shown by its standing.
  view_of_concerned : (c : Case Carried) → is_concerned c ≡ true → affected_view c ≡ shown c
  unfolding affected_view
  view_of_concerned c h = ground arith

  pub concerned_views :
      (cs : List (Case Carried))
      → map affected_view (filter is_concerned cs) ≡ map shown (filter is_concerned cs)
  concerned_views [] = refl
  concerned_views (c ∷ cs) = elim (Bool-cases (is_concerned c)) [
    | inl h ↦ rw h (rw (view_of_concerned c h) (ap (λ l. shown c ∷ l) (concerned_views cs)))
    | inr h ↦ rw h (concerned_views cs)
  ]

  pub lacking_views :
      (cs : List (Case Carried))
      → map affected_view (filter (has lacking) cs) ≡ map shown (filter (has lacking) cs)
  lacking_views [] = refl
  lacking_views (c ∷ cs) = elim (Bool-cases (has lacking c)) [
    | inl h ↦
        rw h (rw (view_of_concerned c (ground arith)) (ap (λ l. shown c ∷ l) (lacking_views cs)))
    | inr h ↦ rw h (lacking_views cs)
  ]

  pub views-IsSorted :
      (cs : List (Case Carried))
      → IsSorted by_requirement cs
      → IsSorted view_leb (map affected_view cs)
  unfolding affected_view
  views-IsSorted [] h = tt
  views-IsSorted (c ∷ cs) h = (above cs h.0, views-IsSorted cs h.1)
    where
      above :
          (ds : List (Case Carried))
          → All (λ d. by_requirement c d ≡ true) ds
          → All (λ v. view_leb (affected_view c) v ≡ true) (map affected_view ds)
      above [] k = tt
      above (d ∷ ds) k = (k.0, above ds k.1)
