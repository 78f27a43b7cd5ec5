-- ===== src/Decision/Assembly.antt =====
-- From an assessment to a case that the services over cases accept.
use xportra_ai.Base.{
  ℕ, ◌≡◌, refl, sym, ap, ◌∙◌, subst, inl, inr, Bool, true, false, Option, none, some, List, [], ◌∷◌,
  map, Any, typed, untyped, arith, ok, opt_eq, All, Bool-cases, >>=-eq-ok, ok-injective, ==_iff,
}
use xportra_ai.Base.Text.{Text, is_blank}
use xportra_ai.Errors.{Uuid}
use xportra_ai.Decision.Cases.{
  Applicability, applicable, not_applicable, unclear, Outcome, Case, validate_case,
}
use mathlib.Core.Option
use xportra_ai.Decision.Records.{
  EvidenceRecord, RawApplicability, Applied, validate_applicability, is_linked, linked_records,
}
use xportra_ai.Decision.Assessment.{Fingerprinted, Assessment, assessment_of, assess}
use xportra_ai.Decision.Building.{
  RawRequirement, RawAssessment, EvidenceView, evidence_view, BuiltCase, case_applicability,
  validate_assessment, linked_views, assessment_view, checked_requirement, build, as_raw, as_case,
}
use xportra_ai.Decision.Weighing.{
  expected_outcome, assess-inv, has_support, has_rejected, decide_lem,
}

-- An applicability result, as the assessment service reads it.
abbrev pub widened : RawApplicability Uuid → RawApplicability (Any Uuid)
widened r = record {
  id = r.id;
  tenant_id = Option.map typed r.tenant_id;
  requirement_id = Option.map typed r.requirement_id;
  outcome = r.outcome;
  reason = r.reason;
}

raw_of :
    Option Uuid
    → Option Uuid
    → Option Uuid
    → Option (Any Applicability)
    → Option Text
    → RawApplicability Uuid
raw_of i t q o r = record { id = i; tenant_id = t; requirement_id = q; outcome = o; reason = r }

-- Both services check such a result alike.
checks_agree_at :
    (i t q : Option Uuid) (o : Option (Any Applicability)) (r : Option Text)
    → validate_applicability (typed (widened (raw_of i t q o r)))
      ≡ case_applicability (typed (raw_of i t q o r))
unfolding validate_applicability case_applicability raw_of
checks_agree_at none t q o r = refl
checks_agree_at (some i) none q o r = refl
checks_agree_at (some i) (some t) none o r = refl
checks_agree_at (some i) (some t) (some q) none r = refl
checks_agree_at (some i) (some t) (some q) (some untyped) r = refl
checks_agree_at (some i) (some t) (some q) (some (typed o)) r = refl

checks_agree :
    (raw : RawApplicability Uuid)
    → validate_applicability (typed (widened raw)) ≡ case_applicability (typed raw)
unfolding raw_of
checks_agree raw = checks_agree_at raw.id raw.tenant_id raw.requirement_id raw.outcome raw.reason

linked_views_lem :
    {M : Type 0}
    → (t q : Uuid) (es : List (EvidenceRecord M)) → All (λ e. e.tenant_id ≡ t) es
    → linked_views t q (map typed es) ≡ ok (map evidence_view (linked_records q es))
unfolding linked_views
linked_views_lem t q [] h = refl
linked_views_lem t q (e ∷ es) h =
    let own = (==_iff e.tenant_id t).1 h.0 in
    elim (Bool-cases (is_linked q e)) [
      | inl k ↦ rw (own, linked_views_lem t q es h.1, k) refl
      | inr k ↦ rw (own, linked_views_lem t q es h.1, k) refl
    ]

view_ids :
    {M : Type 0}
    → (es : List (EvidenceRecord M))
    → map (λ (v : EvidenceView M). v.evidence_id) (map evidence_view es)
      ≡ map (λ e. e.evidence_id) es
view_ids [] = refl
view_ids (e ∷ es) = ap (λ l. e.evidence_id ∷ l) (view_ids es)

same_id : (u : Uuid) → opt_eq (some u) (some u) ≡ true
same_id u = ground arith

-- The requirement that a checked result names.
names_requirement_at :
    (i t q : Option Uuid) (o : Option (Any Applicability)) (r : Option Text) (a : Applied)
    → case_applicability (typed (raw_of i t q o r)) ≡ ok a
    → q ≡ some a.requirement_id
unfolding case_applicability raw_of
names_requirement_at none t q o r a e = absurd (cc e)
names_requirement_at (some i) none q o r a e = absurd (cc e)
names_requirement_at (some i) (some t) none o r a e = absurd (cc e)
names_requirement_at (some i) (some t) (some q) none r a e = absurd (cc e)
names_requirement_at (some i) (some t) (some q) (some untyped) r a e = absurd (cc e)
names_requirement_at (some i) (some t) (some q) (some (typed o)) r a e =
    ap (λ a. some a.requirement_id) (ok-injective e)

checked_requirement_lem :
    {C : Type 0}
    → (req : RawRequirement C) (q : Uuid) (text : Text) → req.id ≡ some q
    → req.requirement_text ≡ typed text
    → is_blank text ≡ false
    → checked_requirement (typed req) q ≡ ok (req, text)
unfolding checked_requirement
checked_requirement_lem req q text same wrote filled = rw (same, wrote, same_id q, filled) refl

-- The view has the outcome of the assessment: where the requirement is not known to apply, both
-- are unknown.
view_at :
    (o : Applicability) (s : RawAssessment × Outcome) (sup rej : Bool)
    → s.1 ≡ expected_outcome o sup rej
    → (assessment_view o (some s)).outcome ≡ s.1
unfolding assessment_view
view_at applicable s sup rej h = refl
view_at not_applicable s sup rej h = sym h
view_at unclear s sup rej h = sym h

module _ {M : Type 0} (digest : List (Fingerprinted M) → ℕ)
    (uuid5 : Uuid → Uuid → Uuid → ℕ → Uuid) where
  validate_assessment_lem :
      (a : Applied) (es : List (EvidenceRecord M))
      → let s = assessment_of digest uuid5 a es in
        validate_assessment (some (as_raw s)) a.tenant_id a.requirement_id a.id
        ≡ ok (some (as_raw s, s.outcome))
  unfolding validate_assessment assessment_of
  validate_assessment_lem a es =
      rw (same_id a.tenant_id, same_id a.requirement_id, same_id a.id) refl

  view_outcome :
      (a : Applied) (es : List (EvidenceRecord M))
      → let s = assessment_of digest uuid5 a es in
        (assessment_view a.outcome (some (as_raw s, s.outcome))).outcome ≡ s.outcome
  unfolding assessment_of
  view_outcome a es =
      view_at a.outcome _ (has_support a.requirement_id es) (has_rejected a.requirement_id es)
        (decide_lem a es)

module _ {M C : Type 0} (digest : List (Fingerprinted M) → ℕ)
    (uuid5 : Uuid → Uuid → Uuid → ℕ → Uuid)
    (case_uuid5 : Uuid → Uuid → Option Uuid → List Uuid → Uuid) where
  -- The case that an assessment leads to.
  abbrev pub IsAccepted :
      RawApplicability Uuid → RawRequirement C → List (EvidenceRecord M) → Assessment → Type 0
  IsAccepted raw req es s =
      (c : BuiltCase C M) × (build case_uuid5 (typed raw) (typed req) (some (as_raw s))
          (map typed es)
        ≡ ok c)
      × (map (λ (v : EvidenceView M). v.evidence_id) c.evidence ≡ s.evidence_ids)
      × (k : Case C) × (validate_case s.tenant_id (typed (as_case c)) ≡ ok k)
      × (k.outcome ≡ s.outcome)
      × (k.requirement_id ≡ s.requirement_id)

  IsAccepted-case :
      (raw : RawApplicability Uuid) (req : RawRequirement C) (text : Text) (a : Applied)
      (es : List (EvidenceRecord M))
      → case_applicability (typed raw) ≡ ok a
      → checked_requirement (typed req) a.requirement_id ≡ ok (req, text)
      → All (λ e. e.tenant_id ≡ a.tenant_id) es
      → IsAccepted raw req es (assessment_of digest uuid5 a es)
  unfolding build validate_case
  IsAccepted-case raw req text a es valid fits own =
      let s = assessment_of digest uuid5 a es in
      let view = assessment_view a.outcome (some (as_raw s, s.outcome)) in
      let itself = (==_iff a.tenant_id a.tenant_id).1 refl in
      let c : BuiltCase C M = record {
        id = case_uuid5 a.tenant_id a.id view.id (
            map (λ (v : EvidenceView M). v.evidence_id)
              (map evidence_view (linked_records a.requirement_id es)));
        tenant_id = a.tenant_id;
        requirement_id = a.requirement_id;
        requirement_text = text;
        applicability_id = a.id;
        applicability = a.outcome;
        applicability_reason = a.reason;
        assessment = view;
        evidence = map evidence_view (linked_records a.requirement_id es);
        carried = req.carried;
      } in
      let k : Case C = record {
        tenant_id = a.tenant_id;
        requirement_id = a.requirement_id;
        requirement_text = some text;
        applicability = a.outcome;
        applicability_reason = a.reason;
        outcome = view.outcome;
        reason = view.reason;
        evidence = map (λ (v : EvidenceView M). v.evidence_id) c.evidence;
        carried = req.carried;
      } in
      (
        c,
        rw
            (
              valid,
              fits,
              validate_assessment_lem digest uuid5 a es,
              linked_views_lem a.tenant_id a.requirement_id es own,
            )
            refl,
        unfold assessment_of in view_ids (linked_records a.requirement_id es),
        k,
        unfold assessment_of in rw itself refl,
        view_outcome digest uuid5 a es,
        unfold assessment_of in refl,
      )

  -- If the assessment of an applicability result returns, and the requirement is the result's and
  -- has a text that is not blank, then a case is built from these and the same evidence; it shows
  -- the evidence that the assessment names, and the services over cases accept it as the tenant's,
  -- with the outcome and the requirement of the assessment.
  pub assess_build_validate :
      (raw : RawApplicability Uuid) (req : RawRequirement C) (text : Text)
      (es : List (EvidenceRecord M)) (s : Assessment)
      → assess digest uuid5 (typed (widened raw)) (map typed es) ≡ ok s
      → req.id ≡ raw.requirement_id
      → req.requirement_text ≡ typed text
      → is_blank text ≡ false
      → IsAccepted raw req es s
  unfolding assess
  assess_build_validate raw req text es s e same wrote filled =
      let (a, valid, rest) = >>=-eq-ok (validate_applicability (typed (widened raw))) _ e in
      let (made, own) = assess-inv digest uuid5 (typed (widened raw)) a es s valid e in
      let valid' = sym (checks_agree raw) ∙ valid in
      let fits =
        checked_requirement_lem req a.requirement_id text
          (same
            ∙ names_requirement_at raw.id raw.tenant_id raw.requirement_id raw.outcome raw.reason a
                (unfold raw_of in valid'))
          wrote filled in
      subst (IsAccepted raw req es) (sym made) (IsAccepted-case raw req text a es valid' fits own)
