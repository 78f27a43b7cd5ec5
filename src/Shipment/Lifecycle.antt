-- ===== src/Shipment/Lifecycle.antt =====
-- The lifecycle of a shipment: draft, bound, locked, and what each status still permits.
use xportra_ai.Base.{
  ◌≡◌, ◌≤◌, List, [], ◌∷◌, Any, typed, untyped, Result, ok, err, arith, ◌⊎◌, inl, inr, ℕ, ◌≢◌,
  Result-cases, subst, sym,
}
use xportra_ai.Errors.{Uuid, Error}
use xportra_ai.Shipment.{
  Shipment, Status, draft, bound, locked, unlisted, Patch, update_profile, mark_bound, mark_locked,
}
use xportra_ai.Shipment.Facts.{IsValid, update_profile-IsValid}

-- One call of the service on a shipment.
pub data Call : Type 0 where
  update : Patch → Call
  bind lock : Call

unfoldable pub perform : Call → Shipment → Any Uuid → Result Error Shipment
perform (update p) s t = update_profile (typed s) t p
perform bind s t = mark_bound (typed s) t
perform lock s t = mark_locked (typed s) t

-- A shipment and what has become of it, with failed calls leaving it as it is.
unfoldable pub after : Result Error Shipment → Shipment → Shipment
after (ok r) s = r
after (err e) s = s

unfoldable pub history : List Call → Any Uuid → Shipment → Shipment
history [] t s = s
history (c ∷ cs) t s = history cs t (after (perform c s t) s)

-- The commercial facts are those of `s`.
abbrev pub SameFacts : Shipment → Shipment → Type 0
SameFacts s r =
    (r.product ≡ s.product)
    × (r.origin_country ≡ s.origin_country)
    × (r.destination_country ≡ s.destination_country)
    × (r.quantity ≡ s.quantity)
    × (r.unit ≡ s.unit)
    × (r.shipment_date ≡ s.shipment_date)

abbrev pub stage : Status → ℕ
stage draft = 0
stage bound = 1
stage locked = 2
stage (unlisted s) = 3

-- What one call can do to a valid shipment: nothing; or it is the tenant's own and was a draft
-- that stays a draft; or it moves to the next stage with its facts as they were.
abbrev pub Evolves : Shipment → Shipment → Type 0
Evolves s r =
    (r.tenant_id ≡ s.tenant_id)
    × (r.shipment_id ≡ s.shipment_id)
    × (r.case_id ≡ s.case_id)
    × (stage s.status ≤ stage r.status)
    × ((s.status ≡ draft) ⊎ SameFacts s r)

update-Evolves :
    (s r : Shipment) (c : Patch) (t : Any Uuid)
    → IsValid s
    → update_profile (typed s) t c ≡ ok r
    → IsValid r × Evolves s r
update-Evolves s r c t v e = ground (arith, update_profile-IsValid s t c {r = r} v e)

bind-Evolves :
    (s r : Shipment) (t : Any Uuid)
    → IsValid s
    → mark_bound (typed s) t ≡ ok r
    → IsValid r × Evolves s r × (s.status ≡ draft) × (r.status ≡ bound) × SameFacts s r
unfolding mark_bound
bind-Evolves s r untyped v e = absurd cc
bind-Evolves s r (typed t) v e = ground arith

lock-Evolves :
    (s r : Shipment) (t : Any Uuid)
    → IsValid s
    → mark_locked (typed s) t ≡ ok r
    → IsValid r × Evolves s r × (s.status ≡ bound) × (r.status ≡ locked) × SameFacts s r
unfolding mark_locked
lock-Evolves s r untyped v e = absurd cc
lock-Evolves s r (typed t) v e = ground arith

perform-Evolves :
    (c : Call) (s r : Shipment) (t : Any Uuid)
    → IsValid s
    → perform c s t ≡ ok r
    → IsValid r × Evolves s r
unfolding perform
perform-Evolves (update c) s r t v e = update-Evolves s r c t v e
perform-Evolves bind s r t v e = let h = bind-Evolves s r t v e in (h.0, h.1)
perform-Evolves lock s r t v e = let h = lock-Evolves s r t v e in (h.0, h.1)

after-Evolves :
    (c : Call) (s : Shipment) (t : Any Uuid)
    → IsValid s
    → IsValid (after (perform c s t) s) × Evolves s (after (perform c s t) s)
unfolding after
after-Evolves c s t v = elim (Result-cases (perform c s t)) [
  | inl (r, e) ↦ rw e (perform-Evolves c s r t v e)
  | inr (x, e) ↦ rw e (v, ground arith)
]

-- Whatever calls are made, under whatever tenant, a valid shipment stays valid, keeps its tenant
-- and identities and never goes back a stage; and if it was no longer a draft, its facts are
-- those that it had.
pub history-Evolves :
    (cs : List Call) (t : Any Uuid) (s : Shipment)
    → IsValid s
    → IsValid (history cs t s) × Evolves s (history cs t s)
unfolding history
history-Evolves [] t s v = (v, ground arith)
history-Evolves (c ∷ cs) t s v =
    let h = after-Evolves c s t v in
    ground (arith, h, history-Evolves cs t (after (perform c s t) s) h.0)

-- A locked shipment rejects every call, by every tenant.
locked_rejects :
    (c : Call) (t : Any Uuid) (s r : Shipment) → s.status ≡ locked → perform c s t ≢ ok r
unfolding perform update_profile mark_bound mark_locked
locked_rejects c untyped s r h e = ground arith
locked_rejects c (typed t) s r h e = ground arith

-- No call by another tenant changes a shipment.
other_tenant_rejected :
    (c : Call) (t : Uuid) (s r : Shipment) → s.tenant_id ≢ t → perform c s (typed t) ≢ ok r
unfolding perform update_profile mark_bound mark_locked
other_tenant_rejected c t s r h e = ground arith

-- A call raises if the shipment is locked, whoever makes it, and if it is made by another tenant
-- than the shipment's.
pub refused_calls :
    (c : Call) (t : Any Uuid) (s r : Shipment)
    → (s.status ≡ locked) ⊎ ((u : Uuid) × (t ≡ typed u) × (s.tenant_id ≢ u))
    → perform c s t ≢ ok r
refused_calls c t s r (inl h) = locked_rejects c t s r h
refused_calls c t s r (inr (u, same, other)) =
    subst (λ t. perform c s t ≢ ok r) (sym same) (other_tenant_rejected c u s r other)
