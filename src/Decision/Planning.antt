-- ===== src/Decision/Planning.antt =====
-- A plan has one item for each gap of the report.
use xportra_ai.Base.{
  suc, ◌≡◌, refl, sym, ap, ◌∙◌, subst, Bool, true, List, [], ◌∷◌, map, Any, typed, arith, ok,
  traverse, length, All, >>=-eq-ok, ok-injective, ==_iff,
}
use xportra_ai.Base.Sorting.{sort}
use xportra_ai.Errors.{Uuid}
use xportra_ai.Decision.Cases.{RawCase, Case, validate_case}
use xportra_ai.Base.Int.{pos}
use xportra_ai.Base.Sorting.{insert, IsSorted, sort-IsSorted}
use xportra_ai.Base.Keys.{key-IsOrder}
use xportra_ai.Decision.Services.{by_requirement}
use xportra_ai.Decision.Readiness.{
  Gap, gap_leb, kind_place, ReadinessReport, ready, report_of, assess_readiness,
}
use xportra_ai.Decision.Information.{IsReport, report_of-IsReport}
use xportra_ai.Decision.Plan.{EvidencePlan, item_of, item_leb, plan}

-- Sorting what is sorted leaves it.
module _ {A : Type 0} (le : A → A → Bool) where
  insert_of_least : (x : A) (xs : List A) → All (λ y. le x y ≡ true) xs → insert le x xs ≡ x ∷ xs
  unfolding insert
  insert_of_least x [] h = refl
  insert_of_least x (y ∷ ys) h = rw (h.0) refl

  pub sort_of_IsSorted : (xs : List A) → IsSorted le xs → sort le xs ≡ xs
  unfolding sort
  sort_of_IsSorted [] h = refl
  sort_of_IsSorted (x ∷ xs) h =
      ap (insert le x) (sort_of_IsSorted xs h.1) ∙ insert_of_least x xs h.0

-- Items stand in the order of their gaps.
module _ {C : Type 0} (t : Uuid) (r : ReadinessReport C) where
  items_above :
      (g : Gap) (gs : List Gap)
      → All (λ h. gap_leb g h ≡ true) gs
      → All (λ i. item_leb (item_of t r g) i ≡ true) (map (item_of t r) gs)
  items_above g [] h = tt
  items_above g (x ∷ gs) h = (h.0, items_above g gs h.1)

  pub items-IsSorted :
      (gs : List Gap) → IsSorted gap_leb gs → IsSorted item_leb (map (item_of t r) gs)
  items-IsSorted [] h = tt
  items-IsSorted (g ∷ gs) h = (items_above g gs h.0, items-IsSorted gs h.1)

pub length-map : {A B : Type 0} (f : A → B) (xs : List A) → length (map f xs) ≡ length xs
length-map f [] = refl
length-map f (x ∷ xs) = ap suc (length-map f xs)

-- The plan has an item for each gap of the report, in its order, and counts them.
abbrev pub IsPlanned : {C : Type 0} → Uuid → ReadinessReport C → Type 0
IsPlanned t r =
    (p : EvidencePlan) × (plan (typed r) (typed t) ≡ ok p)
    × (p.tenant_id ≡ t)
    × (p.items ≡ map (item_of t r) r.gaps)
    × (p.required_count ≡ length p.items)
    × (p.required_count ≡ r.missing_information)
    × (p.readiness_state ≡ r.readiness_state)
    × (r.readiness_state ≡ ready → p.items ≡ [])

pub nil_of_zero : {A : Type 0} (xs : List A) → length xs ≡ 0 → xs ≡ []
nil_of_zero [] h = refl
nil_of_zero (x ∷ xs) h = absurd (omega (arith, h))

report_gaps-IsSorted :
    {C : Type 0} (t : Uuid) (cs : List (Case C)) → IsSorted gap_leb (report_of t cs).gaps
unfolding report_of
report_gaps-IsSorted t cs =
    sort-IsSorted gap_leb
      (key-IsOrder (λ (g : Gap). pos g.requirement_id ∷ pos (kind_place g.kind) ∷ [])) _

report-IsPlanned :
    {C : Type 0} (cs : List (Case C)) (t : Uuid) (r : ReadinessReport C)
    → r.tenant_id ≡ t
    → IsSorted gap_leb r.gaps
    → IsReport cs r
    → IsPlanned t r
unfolding plan
report-IsPlanned cs t r own sorted said =
    let same = (==_iff r.tenant_id t).1 own in
    let kept =
      sort_of_IsSorted item_leb (map (item_of t r) r.gaps) (items-IsSorted t r r.gaps sorted) in
    let size : length (sort item_leb (map (item_of t r) r.gaps)) ≡ r.missing_information =
      ap length kept ∙ (length-map (item_of t r) r.gaps ∙ sym (said.1)) in
    (
      record {
        tenant_id = t;
        readiness_state = r.readiness_state;
        required_count = length (sort item_leb (map (item_of t r) r.gaps));
        items = sort item_leb (map (item_of t r) r.gaps);
      },
      rw same refl,
      refl,
      kept,
      refl,
      size,
      refl,
      λ done. nil_of_zero (sort item_leb (map (item_of t r) r.gaps)) (size ∙ (said.3.0 done).1),
    )

-- If a report on the readiness of cases returns, a plan is made of it for the same tenant: it has
-- an item for each gap of the report, in its order, and counts what is missing; and of a report
-- that says "ready" it is empty.
pub assess_readiness_plan :
    {C : Type 0} (cases : List (Any (RawCase C))) (t : Uuid) (r : ReadinessReport C)
    → assess_readiness (typed cases) (typed t) ≡ ok r
    → IsPlanned t r
unfolding assess_readiness
assess_readiness_plan cases t r e =
    let (cs, valid, made) =
      >>=-eq-ok (traverse (validate_case t) cases)
        (λ validated. ok (report_of t (sort by_requirement validated))) e in
    let ordered = sort by_requirement cs in
    subst (IsPlanned t) (ok-injective made) (
      report-IsPlanned cs t (report_of t ordered) (unfold report_of in refl)
        (report_gaps-IsSorted t ordered) (report_of-IsReport t cs))

pub gaps_of_report-IsSorted :
    {C : Type 0} (cases : List (Any (RawCase C))) (t : Uuid) (r : ReadinessReport C)
    → assess_readiness (typed cases) (typed t) ≡ ok r
    → IsSorted gap_leb r.gaps
unfolding assess_readiness
gaps_of_report-IsSorted cases t r e =
    let (cs, valid, made) =
      >>=-eq-ok (traverse (validate_case t) cases)
        (λ validated. ok (report_of t (sort by_requirement validated))) e in
    subst (λ (made : ReadinessReport _). IsSorted gap_leb made.gaps) (ok-injective made)
      (report_gaps-IsSorted t (sort by_requirement cs))
