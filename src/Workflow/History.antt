-- ===== src/Workflow/History.antt =====
-- Histories of a workflow: what every reachable workflow satisfies.
use xportra_ai.Base.{
  ◌≡◌, refl, ◌≢◌, ◌⊎◌, inl, inr, none, List, [], ◌∷◌, Any, Result, ok, err, arith, Grows,
  Grows-refl, Grows-trans, Result-cases, subst, ap, ◌∙◌, sym,
}
use xportra_ai.Errors.{Uuid, Error}
use xportra_ai.Workflow.Model.{assessment_package_ready, Workflow, ReasoningResult, transitions}
use xportra_ai.Workflow.Service.{round_of}
use xportra_ai.Workflow.Calls.{
  Call, perform, Step, advanced, analyzed, requested, supplied, rebound, attached, closed, Moves,
}
use xportra_ai.Workflow.Closing.{Rebinds, closed_call}
use xportra_ai.Workflow.Steps.{perform-Step}
use xportra_ai.Workflow.Invariant.{IsValid, Step-IsValid, Grows-append_new}

-- What no call ever undoes.
pub record Continues (w w' : Workflow) : Type 0 where
  pub same_id : w'.id ≡ w.id
  pub same_tenant : w'.tenant_id ≡ w.tenant_id
  pub same_case : w'.case_id ≡ w.case_id
  pub same_shipment : w.shipment_id ≢ none → w'.shipment_id ≡ w.shipment_id
  pub rounds_grow : Grows w.rounds w'.rounds
  pub evidence_grows : Grows w.supplied_evidence_ids w'.supplied_evidence_ids

Continues-refl : (w : Workflow) → Continues w w
Continues-refl w = record {
  same_id = refl;
  same_tenant = refl;
  same_case = refl;
  same_shipment = λ h. refl;
  rounds_grow = Grows-refl _;
  evidence_grows = Grows-refl _;
}

Continues-trans : (u v w : Workflow) → Continues u v → Continues v w → Continues u w
Continues-trans u v w a b = record {
  same_id = b.same_id ∙ a.same_id;
  same_tenant = b.same_tenant ∙ a.same_tenant;
  same_case = b.same_case ∙ a.same_case;
  same_shipment = λ h. b.same_shipment (λ n. h (sym (a.same_shipment h) ∙ n)) ∙ a.same_shipment h;
  rounds_grow = Grows-trans _ _ _ a.rounds_grow b.rounds_grow;
  evidence_grows = Grows-trans _ _ _ a.evidence_grows b.evidence_grows;
}

-- A step that leaves identity and shipment alone.
continue :
    {w w' : Workflow}
    → w'.id ≡ w.id
    → w'.tenant_id ≡ w.tenant_id
    → w'.case_id ≡ w.case_id
    → w'.shipment_id ≡ w.shipment_id
    → Grows w.rounds w'.rounds
    → Grows w.supplied_evidence_ids w'.supplied_evidence_ids
    → Continues w w'
continue a b c d e f = record {
  same_id = a;
  same_tenant = b;
  same_case = c;
  same_shipment = λ h. d;
  rounds_grow = e;
  evidence_grows = f;
}

Step-Continues : {w w' : Workflow} → Step w w' → Continues w w'
Step-Continues {w} (advanced s k m e) =
    subst (Continues w) (sym e) (continue refl refl refl refl (Grows-refl _) (Grows-refl _))
Step-Continues {w} (analyzed r s c t e) =
    subst (Continues w) (sym e)
      (continue refl refl refl refl (round_of w r ∷ [], refl) (Grows-refl _))
Step-Continues {w} (requested ids s n d e) =
    subst (Continues w) (sym e) (continue refl refl refl refl (Grows-refl _) (Grows-refl _))
Step-Continues {w} (supplied ids s n e) =
    subst (Continues w) (sym e)
      (continue refl refl refl refl (Grows-refl _) (Grows-append_new w.supplied_evidence_ids ids))
Step-Continues {w} (rebound e n) = subst (Continues w) (sym e) (Continues-refl w)
Step-Continues {w} (attached sid n s e) = subst (Continues w) (sym e) (record {
  same_id = refl;
  same_tenant = refl;
  same_case = refl;
  same_shipment = λ h. absurd (h n);
  rounds_grow = Grows-refl _;
  evidence_grows = Grows-refl _;
})
Step-Continues {w} (closed ids s n r e) =
    subst (Continues w) (sym e) (continue refl refl refl refl (Grows-refl _) (Grows-refl _))

Step-Moves :
    {w w' : Workflow}
    → Step w w'
    → Moves w.state w'.state ⊎ ((w'.state ≡ w.state) × (w'.rounds ≡ w.rounds))
unfolding transitions
Step-Moves (advanced s k m e) = ground arith
Step-Moves (analyzed r s c t e) = ground arith
Step-Moves (requested ids s n d e) = ground arith
Step-Moves (supplied ids s n e) = ground arith
Step-Moves (rebound e n) = ground arith
Step-Moves (attached sid n s e) = ground arith
Step-Moves (closed ids s n r e) = ground arith

Step-closed : {w w' : Workflow} → Step w w' → w.state ≡ assessment_package_ready → w' ≡ w
unfolding transitions
Step-closed (advanced s k m e) h = absurd (ground arith)
Step-closed (analyzed r s c t e) h = absurd (ground arith)
Step-closed (requested ids s n d e) h = absurd (ground arith)
Step-closed (supplied ids s n e) h = absurd (ground arith)
Step-closed (rebound e n) h = e
Step-closed (attached sid n s e) h = absurd (ground arith)
Step-closed (closed ids s n r e) h = absurd (ground arith)

-- The workflow after a call: the returned one, or the old one if the call raised.
abbrev pub after : Result Error Workflow → Workflow → Workflow
after (ok w') w = w'
after (err e) w = w

module _ {Request : Type 0}
    (analyze_case : Request → Uuid → Uuid → Result Error ReasoningResult) where
  unfoldable pub history : List (Call Request × Any Uuid) → Workflow → Workflow
  history [] w = w
  history ((c, t) ∷ cs) w = history cs (after (perform analyze_case c w t) w)

  after-IsValid :
      (c : Call Request) (t : Any Uuid) (w : Workflow)
      → IsValid w
      → let w' = after (perform analyze_case c w t) w in IsValid w' × Continues w w'
  after-IsValid c t w v = elim (Result-cases (perform analyze_case c w t)) [
    | inl (w', e) ↦
        let st = (perform-Step analyze_case c w w' t e).1 in
        rw e (Step-IsValid st v, Step-Continues st)
    | inr (x, e) ↦ rw e (v, Continues-refl w)
  ]

  -- Whatever calls are made, under whatever tenants and with whatever results of the reasoning
  -- application, a valid workflow stays valid; its identity never changes, nor its shipment once
  -- it has one; and its rounds and its evidence are only added to.
  pub history-IsValid :
      (cs : List (Call Request × Any Uuid)) (w : Workflow)
      → IsValid w
      → IsValid (history cs w) × Continues w (history cs w)
  unfolding history
  history-IsValid [] w v = (v, Continues-refl w)
  history-IsValid ((c, t) ∷ cs) w v =
      let w' = after (perform analyze_case c w t) w in
      let (v', k) = after-IsValid c t w v in
      let (last, more) = history-IsValid cs w' v' in (last, Continues-trans w w' _ k more)

  unchanged :
      (cs : List (Call Request × Any Uuid)) (w : Workflow)
      → w.state ≡ assessment_package_ready
      → history cs w ≡ w
  unfolding history
  unchanged [] w h = refl
  unchanged ((c, t) ∷ cs) w h = elim (Result-cases (perform analyze_case c w t)) [
    | inl (w', e) ↦
        rw (e, Step-closed (perform-Step analyze_case c w w' t e).1 h) (unchanged cs w h)
    | inr (x, e) ↦ rw e (unchanged cs w h)
  ]

  -- A finalized workflow is closed: a call on it raises, or it is the binding, under its tenant,
  -- of the shipment that it has, and returns it as it is. So no history of calls changes it.
  pub history_closed :
      (c : Call Request) (t : Any Uuid) (cs : List (Call Request × Any Uuid)) (w : Workflow)
      → w.state ≡ assessment_package_ready
      → (((x : Error) × (perform analyze_case c w t ≡ err x))
          ⊎ (Rebinds c w t × (perform analyze_case c w t ≡ ok w)))
        × (history cs w ≡ w)
  history_closed c t cs w h = (
    elim (Result-cases (perform analyze_case c w t)) [
      | inr (x, e) ↦ inl (x, e)
      | inl (w', e) ↦ inr (
        closed_call analyze_case c w w' t h e,
        e ∙ ap ok (Step-closed (perform-Step analyze_case c w w' t e).1 h),
      )
    ],
    unchanged cs w h,
  )

  -- A call that succeeds moves the state along the transition table, or from a review straight to
  -- a re-analysis, or leaves the state and the rounds as they are.
  pub perform-Moves :
      (c : Call Request) (t : Any Uuid) (w w' : Workflow)
      → perform analyze_case c w t ≡ ok w'
      → Moves w.state w'.state ⊎ ((w'.state ≡ w.state) × (w'.rounds ≡ w.rounds))
  perform-Moves c t w w' e = Step-Moves (perform-Step analyze_case c w w' t e).1
