-- ===== src/Workflow/Invariant.antt =====
-- The invariant of a workflow, and that every step keeps it.
use xportra_ai.Base.{
  ℕ, suc, ◌+◌, ◌≡◌, refl, ◌≢◌, inl, inr, Bool, true, Option, none, List, [], ◌∷◌, ◌++◌, Any, typed,
  untyped, ok, arith, length, contains, Distinct, Distinct-snoc, Grows, Grows-refl, Grows-trans,
  ltb, Bool-cases, subst, ok-injective, sym,
}
use xportra_ai.Errors.{Uuid}
use xportra_ai.Workflow.Model.{
  State, place, assessment_package_ready, Round, Workflow, member, transitions,
  additional_evidence_requested, created,
}
use xportra_ai.Workflow.Service.{begin, append_new, round_of}
use xportra_ai.Workflow.Calls.{
  Step, advanced, analyzed, requested, supplied, rebound, attached, closed, IsTarget,
}

-- The rounds are numbered from `n` on.
abbrev pub Numbered : ℕ → List Round → Type 0
Numbered n [] = Unit
Numbered n (r ∷ rs) = (r.round_index ≡ n) × Numbered (suc n) rs

Numbered-snoc :
    (n : ℕ) (rs : List Round) (r : Round)
    → Numbered n rs
    → r.round_index ≡ n + length rs
    → Numbered n (rs ++ (r ∷ []))
Numbered-snoc n [] r h e = (omega arith, tt)
Numbered-snoc n (x ∷ rs) r h e = (h.0, Numbered-snoc (suc n) rs r h.1 (omega arith))

Distinct-append_new : (known es : List Uuid) → Distinct known → Distinct (append_new known es)
Distinct-append_new known [] h = h
Distinct-append_new known (e ∷ es) h = elim (Bool-cases (contains known e)) [
  | inl old ↦ rw old (Distinct-append_new known es h)
  | inr new ↦ rw new (Distinct-append_new (known ++ (e ∷ [])) es (Distinct-snoc known e h new))
]

pub Grows-append_new : (known es : List Uuid) → Grows known (append_new known es)
Grows-append_new known [] = Grows-refl known
Grows-append_new known (e ∷ es) = elim (Bool-cases (contains known e)) [
  | inl old ↦ rw old (Grows-append_new known es)
  | inr new ↦ rw new (Grows-trans _ _ _ (e ∷ [], refl) (Grows-append_new (known ++ (e ∷ [])) es))
]

-- The states from `analysis_available` on, which only an analysis leads to.
abbrev pub is_late : State → Bool
is_late s = ltb 3 (place s)

-- What every workflow satisfies that the service produces.
pub record IsValid (w : Workflow) : Type 0 where
  pub numbered : Numbered 1 w.rounds
  pub no_repeats : Distinct w.supplied_evidence_ids
  pub late_analyzed : is_late w.state ≡ true → w.rounds ≢ []
  pub closed_shipment : w.state ≡ assessment_package_ready → w.shipment_id ≢ none
  pub requested_open : w.state ≡ additional_evidence_requested → w.open_requirements ≢ []

pub snoc-ne-nil : (rs : List Round) (r : Round) → rs ++ (r ∷ []) ≢ []
snoc-ne-nil [] r e = cc
snoc-ne-nil (x ∷ rs) r e = cc

pub begin-IsValid :
    (name : Uuid → Uuid → Option Uuid → Uuid) (t c : Any Uuid) (s : Any (Option Uuid))
    (w : Workflow)
    → begin name t c s ≡ ok w
    → IsValid w
unfolding begin
begin-IsValid name untyped c s w e = absurd (ground arith)
begin-IsValid name (typed t) untyped s w e = absurd (ground arith)
begin-IsValid name (typed t) (typed c) untyped w e = absurd (ground arith)
begin-IsValid name (typed t) (typed c) (typed s) w e = subst IsValid (ok-injective e) fresh
  where
    fresh : IsValid (record {
      id = name t c s;
      tenant_id = t;
      case_id = c;
      shipment_id = s;
      state = created;
      rounds = [];
      supplied_evidence_ids = [];
      open_requirements = [];
    })
    fresh = record {
      numbered = tt;
      no_repeats = tt;
      late_analyzed = λ h. absurd (cc h);
      closed_shipment = λ h. absurd (cc h);
      requested_open = λ h. absurd (cc h);
    }

table_late :
    (s s' : State)
    → member s' (transitions s) ≡ true
    → IsTarget s'
    → is_late s' ≡ true
    → is_late s ≡ true
unfolding transitions
table_late s s' m k h = ground arith

pub Step-IsValid : {w w' : Workflow} → Step w w' → IsValid w → IsValid w'
Step-IsValid {w} (advanced s k m e) v = subst IsValid (sym e) (record {
  numbered = v.numbered;
  no_repeats = v.no_repeats;
  late_analyzed = λ h. v.late_analyzed (table_late w.state s m k h);
  closed_shipment = λ h. absurd (ground arith);
  requested_open = λ h. absurd (ground arith);
})
Step-IsValid {w} (analyzed r s c t e) v = subst IsValid (sym e) (record {
  numbered = Numbered-snoc 1 w.rounds (round_of w r) v.numbered (unfold round_of in omega arith);
  no_repeats = v.no_repeats;
  late_analyzed = λ h. snoc-ne-nil w.rounds _;
  closed_shipment = λ h. absurd (cc h);
  requested_open = λ h. absurd (cc h);
})
Step-IsValid {w} (requested ids s n d e) v = subst IsValid (sym e) (record {
  numbered = v.numbered;
  no_repeats = v.no_repeats;
  late_analyzed = λ h. v.late_analyzed (ground arith);
  closed_shipment = λ h. absurd (cc h);
  requested_open = λ h. n;
})
Step-IsValid {w} (supplied ids s n e) v = subst IsValid (sym e) (record {
  numbered = v.numbered;
  no_repeats = Distinct-append_new w.supplied_evidence_ids ids v.no_repeats;
  late_analyzed = λ h. v.late_analyzed (ground arith);
  closed_shipment = λ h. absurd (cc h);
  requested_open = λ h. absurd (cc h);
})
Step-IsValid (rebound e n) v = subst IsValid (sym e) v
Step-IsValid {w} (attached sid n s e) v = subst IsValid (sym e) (record {
  numbered = v.numbered;
  no_repeats = v.no_repeats;
  late_analyzed = v.late_analyzed;
  closed_shipment = λ h. absurd (ground arith);
  requested_open = v.requested_open;
})
Step-IsValid {w} (closed ids s n r e) v = subst IsValid (sym e) (record {
  numbered = v.numbered;
  no_repeats = v.no_repeats;
  late_analyzed = λ h. r;
  closed_shipment = λ h. n;
  requested_open = λ h. absurd (cc h);
})
