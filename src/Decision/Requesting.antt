-- ===== src/Decision/Requesting.antt =====
-- Of a plan of the service before it, a set of requests is built: one for each item.
use xportra_ai.Base.{
  ◌≡◌, refl, sym, ap, ◌∙◌, subst, true, false, Option, none, some, List, [], ◌∷◌, ◌++◌, map, Any,
  typed, untyped, arith, ok, traverse, All, ==_iff, list_eq, Bool-cases, inl, inr, ℕ, ℕ,
}
use xportra_ai.Base.Text.{Text, codes, is_blank, is_blank-strip, is_space}
use xportra_ai.Base.Sorting.{IsSorted}
use xportra_ai.Errors.{Uuid}
use xportra_ai.Decision.Cases.{RawCase}
use xportra_ai.Decision.Readiness.{
  Gap, GapKind, applicability_unknown, assessment_unknown, missing_evidence, risk_unknown,
  ReadinessReport, ready, assess_readiness,
}
use xportra_ai.Decision.Plan.{EvidencePlan, PlanItem, item_of, item_leb, plan}
use xportra_ai.Decision.Planning.{
  sort_of_IsSorted, length-map, items-IsSorted, assess_readiness_plan, gaps_of_report-IsSorted,
}
use xportra_ai.Decision.Requests.{
  RawItem, RawPlan, Request, RequestSet, kind_text, known_kind, request_leb, given_identity,
  identity_of, build_query, request_of, request, request_set, build,
}

list_eq_refl : (xs : List ℕ) → list_eq xs xs ≡ true
list_eq_refl [] = refl
list_eq_refl (x ∷ xs) = ground (arith, list_eq_refl xs)

known_kind-kind_text : (k : GapKind) → known_kind (kind_text k) ≡ ok k
unfolding known_kind
known_kind-kind_text applicability_unknown = refl
known_kind-kind_text assessment_unknown = refl
known_kind-kind_text missing_evidence = refl
known_kind-kind_text risk_unknown = refl

kind_text-is_blank : (k : GapKind) (s : Text) → is_blank (kind_text k ++ s) ≡ false
unfolding is_blank is_space
kind_text-is_blank applicability_unknown s = refl
kind_text-is_blank assessment_unknown s = refl
kind_text-is_blank missing_evidence s = refl
kind_text-is_blank risk_unknown s = refl

-- A text that has a character is given.
given_of_cons :
    (s : Text) (c : ℕ) (u : Text)
    → given_identity (some (typed (s ++ (c ∷ u)))) ≡ ok (typed (s ++ (c ∷ u)))
given_of_cons [] c u = refl
given_of_cons (x ∷ s) c u = refl

-- The dictionaries of the plan, as the next service reads them.
abbrev pub read_text : Option Text → Any Text
read_text none = untyped
read_text (some text) = typed text

module _ (show : Uuid → Text) where
  abbrev pub raw_item : PlanItem → RawItem
  raw_item i = record {
    tenant_id = some i.tenant_id;
    requirement_id = some i.requirement_id;
    evidence_requirement_id = some (typed (identity_of show i.requirement_id i.gap_kind));
    gap_kind = typed (kind_text i.gap_kind);
    requirement = read_text i.requirement;
    reason = i.reason;
    priority = i.priority;
    status = some (codes "required");
  }

  abbrev pub raw_plan : EvidencePlan → RawPlan
  raw_plan p = record {
    tenant_id = some p.tenant_id;
    status = codes "evidence_requirement_plan";
    readiness_state = p.readiness_state;
    items = some (typed (map (λ i. typed (raw_item i)) p.items));
  }

  -- The request that an item asks for.
  abbrev pub request_for : PlanItem → Request
  request_for i =
      request_of show i.tenant_id i.requirement_id (identity_of show i.requirement_id i.gap_kind)
        i.gap_kind (raw_item i)

  build_query-is_blank :
      (q : Uuid) (k : GapKind) (x : Any Text) → is_blank (build_query show q k x) ≡ false
  unfolding build_query
  build_query-is_blank q k untyped =
      kind_text-is_blank k (codes " evidence for requirement " ++ show q)
  build_query-is_blank q k (typed text) = elim (Bool-cases (is_blank text)) [
    | inl blank ↦ rw blank (kind_text-is_blank k (codes " evidence for requirement " ++ show q))
    | inr filled ↦ rw filled (is_blank-strip text ∙ filled)
  ]

  request_lem : (i : PlanItem) → request show i.tenant_id (typed (raw_item i)) ≡ ok (request_for i)
  unfolding request
  request_lem i =
      rw
        (
          given_of_cons (show i.requirement_id) 58 (kind_text i.gap_kind),
          known_kind-kind_text i.gap_kind,
          list_eq_refl (identity_of show i.requirement_id i.gap_kind),
          (==_iff i.tenant_id i.tenant_id).1 refl,
        )
        refl

  -- Requests stand in the order of their items.
  requests_above :
      (i : PlanItem) (is : List PlanItem)
      → All (λ j. item_leb i j ≡ true) is
      → All (λ s. request_leb (request_for i) s ≡ true) (map request_for is)
  requests_above i [] h = tt
  requests_above i (j ∷ is) h = (h.0, requests_above i is h.1)

  requests-IsSorted :
      (is : List PlanItem) → IsSorted item_leb is → IsSorted request_leb (map request_for is)
  requests-IsSorted [] h = tt
  requests-IsSorted (i ∷ is) h = (requests_above i is h.0, requests-IsSorted is h.1)

  traverse_items :
      (t : Uuid) (is : List PlanItem)
      → All (λ i. i.tenant_id ≡ t) is
      → traverse (request show t) (map (λ i. typed (raw_item i)) is) ≡ ok (map request_for is)
  traverse_items t [] h = refl
  traverse_items t (i ∷ is) h =
      rw
        (
          subst (λ u. request show u (typed (raw_item i)) ≡ ok (request_for i)) (h.0)
              (request_lem i),
          traverse_items t is h.1,
        )
        refl

  abbrev Asks : Request → Type 0
  Asks s = is_blank s.query ≡ false

  requests-Asks : (is : List PlanItem) → All Asks (map request_for is)
  requests-Asks [] = tt
  requests-Asks (i ∷ is) =
      (build_query-is_blank i.requirement_id i.gap_kind (raw_item i).requirement, requests-Asks is)

  build_lem :
      (p : EvidencePlan)
      → All (λ i. i.tenant_id ≡ p.tenant_id) p.items
      → IsSorted item_leb p.items
      → build show (typed (raw_plan p)) (typed p.tenant_id)
        ≡ ok (request_set p.tenant_id p.readiness_state (map request_for p.items))
  unfolding build
  build_lem p own sorted =
      rw
        (
          (==_iff p.tenant_id p.tenant_id).1 refl,
          traverse_items p.tenant_id p.items own,
          sort_of_IsSorted request_leb (map request_for p.items) (requests-IsSorted p.items sorted),
        )
        refl

  -- A plan is made of the report, and of the plan a set of requests.
  abbrev pub IsRequested : {C : Type 0} → Uuid → ReadinessReport C → Type 0
  IsRequested t r =
      (p : EvidencePlan) × (s : RequestSet) × (plan (typed r) (typed t) ≡ ok p)
      × (build show (typed (raw_plan p)) (typed t) ≡ ok s)
      × (p.items ≡ map (item_of t r) r.gaps)
      × (s.requests ≡ map request_for p.items)
      × (p.required_count ≡ r.missing_information)
      × (s.request_count ≡ r.missing_information)
      × (s.readiness_state ≡ r.readiness_state)
      × All Asks s.requests
      × (r.readiness_state ≡ ready → s.requests ≡ [])

  items-own :
      {C : Type 0} (t : Uuid) (r : ReadinessReport C) (gs : List Gap)
      → All (λ i. i.tenant_id ≡ t) (map (item_of t r) gs)
  items-own t r [] = tt
  items-own t r (g ∷ gs) = (refl, items-own t r gs)

  -- If a report on the readiness of cases returns, a plan is made of it for the same tenant, and of
  -- the plan, as the dictionaries that it is, a set of requests. The plan has an item for each gap of the report,
  -- in its order, and the set has a request for each item, in that order; both count what is
  -- missing; no request has a blank query; and of a report that says "ready" there is no request.
  pub assess_readiness_plan_build :
      {C : Type 0} (cases : List (Any (RawCase C))) (t : Uuid) (r : ReadinessReport C)
      → assess_readiness (typed cases) (typed t) ≡ ok r
      → IsRequested t r
  assess_readiness_plan_build cases t r e =
      let (p, planned, same, kept, listed, counted, state, done) =
        assess_readiness_plan cases t r e in
      let own = subst (All (λ i. i.tenant_id ≡ t)) (sym kept) (items-own t r r.gaps) in
      let sorted =
        subst (IsSorted item_leb) (sym kept)
          (items-IsSorted t r r.gaps (gaps_of_report-IsSorted cases t r e)) in
      let built =
        subst
          (λ u.
            All (λ i. i.tenant_id ≡ u) p.items
            → build show (typed (raw_plan p)) (typed u)
              ≡ ok (request_set u p.readiness_state (map request_for p.items)))
          same (λ h. build_lem p h sorted) own in
      (
        p,
        request_set t p.readiness_state (map request_for p.items),
        planned,
        built,
        kept,
        refl,
        counted,
        length-map request_for p.items ∙ (sym listed ∙ counted),
        state,
        requests-Asks p.items,
        λ finished. ap (map request_for) (done finished),
      )
