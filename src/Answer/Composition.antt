-- ===== src/Answer/Composition.antt =====
-- A selection becomes a prompt, and whether answers to it can be validated.
use mathlib.Core.List.{append-nil, append_assoc}
use xportra_ai.Base.{
  ℕ, suc, ◌≤◌, ◌≡◌, ◌≢◌, refl, sym, ap, ◌∙◌, inl, inr, ◌⊎◌, true, false, ◌||◌, List, [], ◌∷◌, ◌++◌,
  arith, ok, err, ◌==◌, ltb, length, All, Bool-cases, ==_iff, list_eq, list_eq_refl,
}
use xportra_ai.Base.Text.{Text}
use xportra_ai.Errors.{Uuid, Error, answer, duplicate_label, label_drift}
use xportra_ai.Evidence.Context.{Selected}
use xportra_ai.Answer.Prompt.{
  Citation, Built, citation_label, has_label, add_tenant, add_items, block,
}
use xportra_ai.Answer.Validator.{Mapping, read_citations}
use xportra_ai.Answer.Labels.{label_differs}

-- The citations of items, labelled from `n` on.
abbrev pub cite : ℕ → List Selected → List Citation
cite n [] = []
cite n (i ∷ is) = record { label = citation_label n; selected = i } ∷ cite (suc n) is

-- The rank positions count up from `n`, without a gap.
abbrev pub Consecutive : ℕ → List Selected → Type 0
Consecutive n [] = Unit
Consecutive n (i ∷ is) = (i.rank_position ≡ n) × Consecutive (suc n) is

-- Items of one tenant whose position is that of what they select.
abbrev pub Proper : Uuid → List Selected → Type 0
Proper t is =
    All (λ i. (i.rank_position ≡ i.ranked.rank_position) × (i.ranked.evidence.tenant_id ≡ t)) is

-- No label from `n` on is taken.
abbrev Free : ℕ → List Citation → Type 0
Free n cs = (k : ℕ) → n ≤ k → has_label (citation_label k) cs ≡ false

has_label-snoc :
    (l : Text) (cs : List Citation) (c : Citation)
    → has_label l (cs ++ (c ∷ [])) ≡ (has_label l cs || list_eq c.label l)
has_label-snoc l [] c = ground arith
has_label-snoc l (d ∷ cs) c = ground (arith, has_label-snoc l cs c)

Free-snoc :
    (n : ℕ) (cs : List Citation) (i : Selected)
    → Free n cs
    → Free (suc n) (cs ++ (record { label = citation_label n; selected = i } ∷ []))
Free-snoc n cs i h k b =
    let c : Citation = record { label = citation_label n; selected = i } in
    ground (
      arith,
      has_label-snoc (citation_label k) cs c,
      h k (omega arith),
      label_differs n k (λ e. omega arith),
    )

-- The tenants met are none, or the one.
abbrev pub Single : Uuid → List Uuid → Type 0
Single t ts = (ts ≡ []) ⊎ (ts ≡ t ∷ [])

Single-add :
    (t : Uuid) (ts : List Uuid) (u : Uuid) → u ≡ t → Single t ts → Single t (add_tenant u ts)
Single-add t ts u e (inl h) = inr (rw h (ap (λ x. x ∷ []) e))
Single-add t ts u e (inr h) = let same : (u == t) ≡ true = ground arith in inr (rw h (rw same refl))

pub Single-length : (t : Uuid) (ts : List Uuid) → Single t ts → ltb 1 (length ts) ≡ false
Single-length t ts (inl h) = rw h refl
Single-length t ts (inr h) = rw h refl

-- The loop of the builder, on proper items whose labels are free.
abbrev pub Adds : ℕ → List Selected → Built → Uuid → Type 0
Adds n is b t =
    (out : Built) × (add_items n is b ≡ ok out)
    × (out.citations ≡ b.citations ++ cite n is)
    × Single t out.tenants

next_built : ℕ → Selected → Built → Built
next_built n i b = record {
  citations = b.citations ++ (record { label = citation_label n; selected = i } ∷ []);
  tenants = add_tenant i.ranked.evidence.tenant_id b.tenants;
  blocks = b.blocks ++ (block (citation_label n) i.ranked.evidence ∷ []);
}

add_items_step :
    (n : ℕ) (i : Selected) (is : List Selected) (b : Built)
    → has_label (citation_label n) b.citations ≡ false
    → i.rank_position ≡ i.ranked.rank_position
    → add_items n (i ∷ is) b ≡ add_items (suc n) is (next_built n i b)
unfolding add_items next_built
add_items_step n i is b f e =
    let same : (i.rank_position == i.ranked.rank_position) ≡ true =
      (==_iff i.rank_position i.ranked.rank_position).1 e in
    rw (f, same) refl

pub add_items-Adds :
    (n : ℕ) (is : List Selected) (b : Built) (t : Uuid)
    → Proper t is
    → Free n b.citations
    → Single t b.tenants
    → Adds n is b t
unfolding add_items next_built
add_items-Adds n [] b t p f s = (b, refl, sym (append-nil b.citations), s)
add_items-Adds n (i ∷ is) b t p f s =
    let next = next_built n i b in
    let (out, made, all, one) =
      add_items-Adds (suc n) is next t p.1 (Free-snoc n b.citations i f)
        (Single-add t b.tenants i.ranked.evidence.tenant_id p.0.1 s) in
    (
      out,
      add_items_step n i is b (f n (omega arith)) p.0.0 ∙ made,
      all
          ∙ append_assoc b.citations (record { label = citation_label n; selected = i } ∷ [])
              (cite (suc n) is),
      one,
    )

next_mapping : ℕ → Selected → Mapping → Mapping
next_mapping n i m = record {
  authoritative = m.authoritative ++ (record { label = citation_label n; selected = i } ∷ []);
  tenants = add_tenant i.ranked.evidence.tenant_id m.tenants;
}

-- The loop of the validator, on citations that the builder made.
read_step :
    (n : ℕ) (i : Selected) (is : List Selected) (m : Mapping)
    → has_label (citation_label n) m.authoritative ≡ false
    → i.rank_position ≡ n
    → read_citations (cite n (i ∷ is)) m ≡ read_citations (cite (suc n) is) (next_mapping n i m)
unfolding read_citations next_mapping
read_step n i is m f e =
    let itself : (i.rank_position == i.rank_position) ≡ true = ground arith in
    let label : list_eq (citation_label n) (citation_label i.rank_position) ≡ true =
      ap (λ k. list_eq (citation_label n) (citation_label k)) e ∙ list_eq_refl (citation_label n) in
    rw (f, itself, label) refl

read_drift :
    (n : ℕ) (i : Selected) (is : List Selected) (m : Mapping)
    → i.rank_position ≢ n
    → (e : Error) × (read_citations (cite n (i ∷ is)) m ≡ err e)
unfolding read_citations
read_drift n i is m d = elim (Bool-cases (has_label (citation_label n) m.authoritative)) [
  | inl h ↦ rw h (answer duplicate_label, refl)
  | inr h ↦
      let itself : (i.rank_position == i.rank_position) ≡ true = ground arith in
      let label : list_eq (citation_label n) (citation_label i.rank_position) ≡ false =
        label_differs n i.rank_position (λ e. d (sym e)) in
      rw (h, itself, label) (answer label_drift, refl)
]

-- It ends well exactly if the positions have no gap.
abbrev pub Reads : ℕ → List Selected → Mapping → Uuid → Type 0
Reads n is m t =
    (Consecutive n is
      × ((out : Mapping) × (read_citations (cite n is) m ≡ ok out) × Single t out.tenants))
    ⊎ ((Consecutive n is → ⊥) × ((e : Error) × (read_citations (cite n is) m ≡ err e)))

pub read_citations-Reads :
    (n : ℕ) (is : List Selected) (m : Mapping) (t : Uuid)
    → Proper t is
    → Free n m.authoritative
    → Single t m.tenants
    → Reads n is m t
unfolding read_citations next_mapping
read_citations-Reads n [] m t p f s = inl (tt, (m, refl, s))
read_citations-Reads n (i ∷ is) m t p f s = elim (Bool-cases (i.rank_position == n)) [
  | inl e ↦
      let same = (==_iff i.rank_position n).0 e in
      let step = read_step n i is m (f n (omega arith)) same in
      elim (read_citations-Reads (suc n) is (next_mapping n i m) t p.1
        (Free-snoc n m.authoritative i f)
        (Single-add t m.tenants i.ranked.evidence.tenant_id p.0.1 s)) [
          | inl (c, (out, made, one)) ↦ inl ((same, c), (out, step ∙ made, one))
          | inr (c, (x, made)) ↦ inr (λ k. c k.1, (x, step ∙ made))
        ]
  | inr e ↦
      let differs : i.rank_position ≢ n = λ h. ground (arith, e, h) in
      inr (λ k. differs k.0, read_drift n i is m differs)
]
