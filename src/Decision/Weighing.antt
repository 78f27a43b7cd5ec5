-- ===== src/Decision/Weighing.antt =====
-- From evidence to an assessment, and from it to the state of the evidence.
use xportra_ai.Base.{
  ℕ, ◌+◌, ◌≡◌, refl, sym, ap, ◌∙◌, subst, inl, inr, Bool, true, false, not, ◌&&◌, Option, List, [],
  ◌∷◌, map, Any, typed, arith, ok, raise_unless, ◌==◌, if◌then◌else◌, is_empty, length, All,
  Bool-cases, >>=-eq-ok, >>-eq-ok, raise_unless-eq-ok, ok-injective, ==_iff, any, filter,
}
use xportra_ai.Base.Text.{Text}
use xportra_ai.Errors.{Uuid, assessment, evidence_other_tenant}
use xportra_ai.Decision.Cases.{
  Applicability, applicable, not_applicable, unclear, Outcome, satisfied, not_satisfied, unknown,
  is_applicable,
}
use xportra_ai.Decision.Records.{
  EvidenceRecord, RawApplicability, Applied, validate_applicability, own_records, is_rejected,
  is_supporting, linked_records, is_accepted,
}
use xportra_ai.Decision.Assessment.{
  Fingerprinted, Verdict, Assessment, weigh, decide, assessment_of, assess,
}
use xportra_ai.Decision.Sufficiency.{
  Sufficiency, supported, insufficient, missing, undecided, absent, present, SufficiencyAssessment,
  sufficiency_of, contradiction_of, missing_items, assess_sufficiency,
}

-- What the outcome should be, from whether there is evidence that speaks for the requirement, and
-- evidence that was turned down.
abbrev pub expected_outcome : Applicability → Bool → Bool → Outcome
expected_outcome applicable true rejected = satisfied
expected_outcome applicable false true = not_satisfied
expected_outcome applicable false false = unknown
expected_outcome _ _ _ = unknown

-- What the state of the evidence should be; last, whether none is linked.
abbrev pub expected_state : Applicability → Bool → Bool → Bool → Sufficiency
expected_state applicable true rejected unlinked = supported
expected_state applicable false true unlinked = supported
expected_state applicable false false true = missing
expected_state applicable false false false = insufficient
expected_state _ _ _ _ = undecided

state_lem :
    {M : Type 0}
    → (a : Applicability) (sup rej : Bool) (ls : List (EvidenceRecord M))
    → sufficiency_of a (expected_outcome a sup rej) (length ls)
      ≡ expected_state a sup rej (is_empty ls)
unfolding sufficiency_of
state_lem applicable true rej ls = refl
state_lem applicable false true ls = refl
state_lem applicable false false [] = refl
state_lem applicable false false (l ∷ ls) = refl
state_lem not_applicable sup rej ls = refl
state_lem unclear sup rej ls = refl

module _ {M : Type 0} where
  -- Evidence that speaks for the requirement, and evidence that was turned down.
  abbrev pub has_support : Uuid → List (EvidenceRecord M) → Bool
  has_support q es = any (λ e. is_accepted e.status && e.supports_requirement) (linked_records q es)

  abbrev pub has_rejected : Uuid → List (EvidenceRecord M) → Bool
  has_rejected q es = any (λ e. is_rejected e.status) (linked_records q es)

  is_empty-filter :
      (p : EvidenceRecord M → Bool) (es : List (EvidenceRecord M))
      → is_empty (filter p es) ≡ not (any p es)
  is_empty-filter p [] = refl
  is_empty-filter p (e ∷ es) = ground (arith, is_empty-filter p es)

  weigh_lem :
      (ss rs ls es : List (EvidenceRecord M))
      → (weigh ss rs ls es).outcome
        ≡ expected_outcome applicable (not (is_empty ss)) (not (is_empty rs))
  unfolding weigh
  weigh_lem (s ∷ ss) rs ls es = refl
  weigh_lem [] (r ∷ rs) ls es = refl
  weigh_lem [] [] (l ∷ ls) es = refl
  weigh_lem [] [] [] (e ∷ es) = refl
  weigh_lem [] [] [] [] = refl

  decide_at :
      (o : Applicability) (ss rs ls es : List (EvidenceRecord M)) (v : Verdict)
      → v.outcome ≡ unknown
      → (if is_applicable o then weigh ss rs ls es else v).outcome
        ≡ expected_outcome o (not (is_empty ss)) (not (is_empty rs))
  decide_at applicable ss rs ls es v h = weigh_lem ss rs ls es
  decide_at not_applicable ss rs ls es v h = h
  decide_at unclear ss rs ls es v h = h

  pub decide_lem :
      (a : Applied) (es : List (EvidenceRecord M))
      → (decide a es).outcome
        ≡ expected_outcome a.outcome
            (has_support a.requirement_id es)
            (has_rejected a.requirement_id es)
  unfolding decide
  decide_lem a es =
      let linked = linked_records a.requirement_id es in
      let sup : not (is_empty (filter is_supporting linked)) ≡ any is_supporting linked =
        ground (arith, is_empty-filter is_supporting linked) in
      let turned_down : EvidenceRecord M → Bool = λ e. is_rejected e.status in
      let rej : not (is_empty (filter turned_down linked)) ≡ any turned_down linked =
        ground (arith, is_empty-filter turned_down linked) in
      decide_at a.outcome _ _ _ _ _ refl
      ∙ (ap (λ b. expected_outcome a.outcome b (not (is_empty (filter turned_down linked)))) sup
          ∙ ap (λ b. expected_outcome a.outcome (any is_supporting linked) b) rej)

  -- The linked evidence, as the analysis splits it.
  abbrev pub conflicting : Uuid → List (EvidenceRecord M) → List (EvidenceRecord M)
  conflicting q es = filter (λ e. is_rejected e.status) (linked_records q es)

  abbrev pub not_conflicting : Uuid → List (EvidenceRecord M) → List (EvidenceRecord M)
  not_conflicting q es = filter (λ e. not (is_rejected e.status)) (linked_records q es)

  split_length :
      (p : EvidenceRecord M → Bool) (es : List (EvidenceRecord M))
      → length (filter (λ e. not (p e)) es) + length (filter p es) ≡ length es
  split_length p [] = omega arith
  split_length p (e ∷ es) = ground (arith, split_length p es)

  conflict_lem :
      (p : EvidenceRecord M → Bool) (es : List (EvidenceRecord M))
      → contradiction_of (length (filter p es)) ≡ (if any p es then present else absent)
  conflict_lem p [] = refl
  conflict_lem p (e ∷ es) = elim (Bool-cases (p e)) [
    | inl h ↦ rw h refl
    | inr h ↦ rw h (conflict_lem p es)
  ]

  -- All the evidence is the tenant's, and is handed on as it is.
  pub own_records-inv :
      (t : Uuid) (es rs : List (EvidenceRecord M))
      → own_records t (map typed es) ≡ ok rs
      → (rs ≡ es) × All (λ e. e.tenant_id ≡ t) es
  unfolding own_records
  own_records-inv t [] rs e = (sym (ok-injective e), tt)
  own_records-inv t (x ∷ xs) rs e =
      let (own, a) =
        >>-eq-ok (raise_unless (x.tenant_id == t) (assessment evidence_other_tenant)) _ e in
      let (rest, read, b) = >>=-eq-ok (own_records t (map typed xs)) (λ rest. ok (x ∷ rest)) a in
      let (same, later) = own_records-inv t xs rest read in
      (
        sym (ok-injective b) ∙ ap (λ l. x ∷ l) same,
        (
          (==_iff x.tenant_id t).0
              (raise_unless-eq-ok (x.tenant_id == t) (assessment evidence_other_tenant) own),
          later,
        ),
      )

-- No gap is left if the requirement is excluded, or applies and is satisfied.
abbrev pub is_settled : Applicability → Bool → Bool
is_settled not_applicable sup = true
is_settled unclear sup = false
is_settled applicable sup = sup

gaps_lem :
    (q : Uuid) (a : Applicability) (sup rej k e : Bool) (n : ℕ) (r r' : Option Text)
    → is_empty (missing_items q a (expected_outcome a sup rej) n k e r r') ≡ (e && is_settled a sup)
unfolding missing_items
gaps_lem q not_applicable sup rej k true n r r' = refl
gaps_lem q not_applicable sup rej k false n r r' = refl
gaps_lem q unclear sup rej k true n r r' = refl
gaps_lem q unclear sup rej k false n r r' = refl
gaps_lem q applicable true rej k true n r r' = refl
gaps_lem q applicable true rej k false n r r' = refl
gaps_lem q applicable false true k true n r r' = refl
gaps_lem q applicable false true k false n r r' = refl
gaps_lem q applicable false false k true n r r' = refl
gaps_lem q applicable false false k false n r r' = refl

module _ {M : Type 0} (digest : List (Fingerprinted M) → ℕ)
    (uuid5 : Uuid → Uuid → Uuid → ℕ → Uuid) where
  pub assess-inv :
      (raw : Any (RawApplicability (Any Uuid))) (a : Applied) (es : List (EvidenceRecord M))
      (s : Assessment)
      → validate_applicability raw ≡ ok a
      → assess digest uuid5 raw (map typed es) ≡ ok s
      → (s ≡ assessment_of digest uuid5 a es) × All (λ e. e.tenant_id ≡ a.tenant_id) es
  unfolding assess
  assess-inv raw a es s valid e =
      let (b, valid', f) = >>=-eq-ok (validate_applicability raw) _ e in
      let same : b ≡ a = ok-injective (sym valid' ∙ valid) in
      let (rs, read, g) = >>=-eq-ok (own_records b.tenant_id (map typed es)) _ f in
      let (all, own) = own_records-inv b.tenant_id es rs read in
      (
        sym (ok-injective g)
            ∙ (ap (assessment_of digest uuid5 b) all
                ∙ ap (λ b. assessment_of digest uuid5 b es) same),
        subst (λ b. All (λ e. e.tenant_id ≡ b.tenant_id) es) same own,
      )

  -- What is said of an assessment and of its evidence.
  abbrev pub IsWeighed :
      Applied
      → List (EvidenceRecord M)
      → Assessment
      → Bool
      → Bool
      → Option Text
      → Option Text
      → Type 0
  IsWeighed a es s k e r r' =
      let q = a.requirement_id in
      (s.outcome ≡ expected_outcome a.outcome (has_support q es) (has_rejected q es))
      × ((x : SufficiencyAssessment) × (assess_sufficiency (typed q) (typed a.outcome)
              (typed s.outcome) (typed (length (not_conflicting q es)))
              (typed (length (conflicting q es))) k e r r'
            ≡ ok x)
          × (x.sufficiency
              ≡ expected_state a.outcome (has_support q es) (has_rejected q es)
                  (is_empty (linked_records q es)))
          × (x.contradiction ≡ (if has_rejected q es then present else absent))
          × (is_empty x.missing_items ≡ (e && is_settled a.outcome (has_support q es))))

  weighed :
      (a : Applied) (es : List (EvidenceRecord M)) (k e : Bool) (r r' : Option Text)
      → IsWeighed a es (assessment_of digest uuid5 a es) k e r r'
  unfolding assess_sufficiency assessment_of
  weighed a es k e r r' =
      let q = a.requirement_id in
      let outcome = decide_lem a es in
      let linked = linked_records q es in
      let turned_down : EvidenceRecord M → Bool = λ e. is_rejected e.status in
      let count = split_length turned_down linked in
      let o = expected_outcome a.outcome (has_support q es) (has_rejected q es) in
      (
        outcome,
        (
          _,
          refl,
          ap
                (λ o.
                  sufficiency_of a.outcome o
                    (length (not_conflicting q es) + length (conflicting q es)))
                outcome
              ∙ (ap (sufficiency_of a.outcome o) count
                  ∙ state_lem a.outcome (has_support q es) (has_rejected q es) linked),
          conflict_lem turned_down linked,
          ap
                (λ o. is_empty (
                  missing_items q a.outcome o
                    (length (not_conflicting q es) + length (conflicting q es)) k e r r'))
                outcome
              ∙ gaps_lem q a.outcome (has_support q es) (has_rejected q es) k e _ r r',
        ),
      )

  -- If the assessment of an applicability result that passes its checks returns, its outcome is
  -- as the linked evidence says: satisfied with accepted evidence that supports the requirement,
  -- else not satisfied with rejected evidence, else unknown, as always where the requirement is
  -- not known to apply. And the state of the same evidence can be derived: supported exactly if
  -- there is such evidence, missing if none is linked, insufficient otherwise, undecided where
  -- the requirement is not known to apply; a contradiction exactly with rejected evidence; and no
  -- gap exactly with an explanation and a requirement that is excluded or satisfied.
  pub assess-IsWeighed :
      (raw : Any (RawApplicability (Any Uuid))) (a : Applied) (es : List (EvidenceRecord M))
      (s : Assessment) (k e : Bool) (r r' : Option Text)
      → validate_applicability raw ≡ ok a
      → assess digest uuid5 raw (map typed es) ≡ ok s
      → IsWeighed a es s k e r r'
  assess-IsWeighed raw a es s k e r r' valid returned =
      subst (λ s. IsWeighed a es s k e r r') (sym (assess-inv raw a es s valid returned).0)
        (weighed a es k e r r')
