-- ===== src/Decision/Balance.antt =====
-- What readiness says of the cases.
use xportra_ai.Base.{
  ℕ, suc, ◌+◌, ◌≡◌, refl, sym, ap, ◌∙◌, inl, inr, Bool, true, false, not, ◌&&◌, ◌||◌, List, [], ◌∷◌,
  ◌++◌, arith, length, All, Bool-cases, any,
}
use xportra_ai.Decision.Cases.{Case, is_applicable}
use xportra_ai.Decision.Cases.{is_unclear, is_unknown}
use xportra_ai.Decision.Services.{Review}
use xportra_ai.Decision.Readiness.{
  Gap, Tally, ask, require, risk_for, is_rated, applicability_gap, assessment_gap, evidence_gap,
  risk_gap, lacks_evidence, ask_applicable, add_case, tally, is_applicability_gap,
}

-- After `n` questions more are asked than answered.
abbrev pub Owes : ℕ → Tally → Type 0
Owes n t = n + (t.known + length t.gaps) ≡ t.required

length-snoc : (gs : List Gap) (g : Gap) → length (gs ++ (g ∷ [])) ≡ suc (length gs)
length-snoc [] g = refl
length-snoc (x ∷ gs) g = ap suc (length-snoc gs g)

ask-Owes : (b : Bool) (g : Gap) (n : ℕ) (t : Tally) → Owes (suc n) t → Owes n (ask b g t)
unfolding ask
ask-Owes true g n t h = omega (arith, h)
ask-Owes false g n t h = let k = length-snoc t.gaps g in omega (arith, h, k)

any-snoc :
    (gs : List Gap) (g : Gap)
    → any is_applicability_gap (gs ++ (g ∷ []))
      ≡ (any is_applicability_gap gs || is_applicability_gap g)
any-snoc [] g = ground arith
any-snoc (x ∷ gs) g = ground (arith, any-snoc gs g)

-- No gap is taken back, and one is left by what is not known.
ask-nil : (b : Bool) (g : Gap) (t : Tally) → (ask b g t).gaps ≡ [] → (b ≡ true) × (t.gaps ≡ [])
unfolding ask
ask-nil true g t h = (refl, h)
ask-nil false g t h = absurd (ground (arith, length-snoc t.gaps g, h))

ask-any :
    (b : Bool) (g : Gap) (t : Tally)
    → any is_applicability_gap (ask b g t).gaps
      ≡ (any is_applicability_gap t.gaps || (not b && is_applicability_gap g))
unfolding ask
ask-any true g t = ground arith
ask-any false g t = any-snoc t.gaps g

-- Whether the requirement applies is known; and where it does, the outcome is.
abbrev pub IsClear : {C : Type 0} → Case C → Type 0
IsClear c = is_unclear c.applicability ≡ false

abbrev pub IsDecided : {C : Type 0} → Case C → Type 0
IsDecided c =
    (is_unclear c.applicability ≡ false)
    × (is_applicable c.applicability ≡ true → is_unknown c.outcome ≡ false)

module _ {C : Type 0} (risks : List (Review C)) where
  ask_applicable-Owes : (c : Case C) (t : Tally) → Owes 0 t → Owes 0 (ask_applicable risks c t)
  unfolding ask_applicable
  ask_applicable-Owes c t h =
      let three : Owes 3 (require 3 t) = omega (arith, h) in
      let assessed = ask (not (is_unknown c.outcome)) (assessment_gap c) (require 3 t) in
      let evident = ask (not (lacks_evidence c)) (evidence_gap c) assessed in
      let two = ask-Owes (not (is_unknown c.outcome)) (assessment_gap c) 2 (require 3 t) three in
      let one = ask-Owes (not (lacks_evidence c)) (evidence_gap c) 1 assessed two in
      ask-Owes (is_rated (risk_for c.requirement_id risks)) (risk_gap risks c) 0 evident one

  add_case-Owes : (c : Case C) (t : Tally) → Owes 0 t → Owes 0 (add_case risks c t)
  unfolding add_case
  add_case-Owes c t h =
      let one : Owes 1 (require 1 t) = omega (arith, h) in
      let asked =
        ask-Owes (not (is_unclear c.applicability)) (applicability_gap c) 0 (require 1 t) one in
      elim (Bool-cases (is_applicable c.applicability)) [
        | inl e ↦ rw e (ask_applicable-Owes c _ asked)
        | inr e ↦ rw e asked
      ]

  pub tally-Owes : (cs : List (Case C)) (t : Tally) → Owes 0 t → Owes 0 (tally risks cs t)
  unfolding tally
  tally-Owes [] t h = h
  tally-Owes (c ∷ cs) t h = tally-Owes cs (add_case risks c t) (add_case-Owes c t h)

  ask_applicable-nil :
      (c : Case C) (t : Tally)
      → (ask_applicable risks c t).gaps ≡ []
      → (is_unknown c.outcome ≡ false) × (t.gaps ≡ [])
  unfolding ask_applicable
  ask_applicable-nil c t h =
      let assessed = ask (not (is_unknown c.outcome)) (assessment_gap c) (require 3 t) in
      let evident = ask (not (lacks_evidence c)) (evidence_gap c) assessed in
      let (rated, g) =
        ask-nil (is_rated (risk_for c.requirement_id risks)) (risk_gap risks c) evident h in
      let (has, f) = ask-nil (not (lacks_evidence c)) (evidence_gap c) assessed g in
      let (known, e) = ask-nil (not (is_unknown c.outcome)) (assessment_gap c) (require 3 t) f in
      (ground (arith, known), e)

  add_case-nil :
      (c : Case C) (t : Tally) → (add_case risks c t).gaps ≡ [] → IsDecided c × (t.gaps ≡ [])
  unfolding add_case ask_applicable
  add_case-nil c t h =
      let first = ask (not (is_unclear c.applicability)) (applicability_gap c) (require 1 t) in
      elim (Bool-cases (is_applicable c.applicability)) [
        | inl e ↦
            let (known, before) = ask_applicable-nil c first (rw e at h) in
            let (clear, start) =
              ask-nil (not (is_unclear c.applicability)) (applicability_gap c) (require 1 t)
                before in
            ((ground (arith, clear), λ _. known), start)
        | inr e ↦
            let (clear, start) =
              ask-nil (not (is_unclear c.applicability)) (applicability_gap c) (require 1 t)
                (rw e at h) in
            ((ground (arith, clear), λ a. absurd (cc (sym a ∙ e))), start)
      ]

  pub tally-nil :
      (cs : List (Case C)) (t : Tally)
      → (tally risks cs t).gaps ≡ []
      → All IsDecided cs × (t.gaps ≡ [])
  unfolding tally
  tally-nil [] t h = (tt, h)
  tally-nil (c ∷ cs) t h =
      let (later, before) = tally-nil cs (add_case risks c t) h in
      let (this, start) = add_case-nil c t before in ((this, later), start)

  ask_applicable-any :
      (c : Case C) (t : Tally)
      → any is_applicability_gap (ask_applicable risks c t).gaps ≡ any is_applicability_gap t.gaps
  unfolding ask_applicable
  ask_applicable-any c t =
      let assessed = ask (not (is_unknown c.outcome)) (assessment_gap c) (require 3 t) in
      let evident = ask (not (lacks_evidence c)) (evidence_gap c) assessed in
      let a = ask-any (is_rated (risk_for c.requirement_id risks)) (risk_gap risks c) evident in
      let b = ask-any (not (lacks_evidence c)) (evidence_gap c) assessed in
      let d = ask-any (not (is_unknown c.outcome)) (assessment_gap c) (require 3 t) in
      ground (arith, a, b, d)

  add_case-any :
      (c : Case C) (t : Tally)
      → any is_applicability_gap (add_case risks c t).gaps
        ≡ (any is_applicability_gap t.gaps || is_unclear c.applicability)
  unfolding add_case ask_applicable
  add_case-any c t =
      let first = ask (not (is_unclear c.applicability)) (applicability_gap c) (require 1 t) in
      let k = ask-any (not (is_unclear c.applicability)) (applicability_gap c) (require 1 t) in
      elim (Bool-cases (is_applicable c.applicability)) [
        | inl e ↦ rw e (ask_applicable-any c first ∙ ground (arith, k))
        | inr e ↦ rw e (ground (arith, k))
      ]

  pub tally-any :
      (cs : List (Case C)) (t : Tally)
      → any is_applicability_gap (tally risks cs t).gaps
        ≡ (any is_applicability_gap t.gaps || any (λ c. is_unclear c.applicability) cs)
  unfolding tally
  tally-any [] t = ground arith
  tally-any (c ∷ cs) t = tally-any cs (add_case risks c t) ∙ ground (arith, add_case-any c t)
