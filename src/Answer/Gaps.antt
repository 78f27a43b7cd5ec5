-- ===== src/Answer/Gaps.antt =====
-- From a selection to an answer: which selections can have an answer that passes.

use xportra_ai.Base.{
  ℕ, ◌+◌, ◌≡◌, ◌↔◌, refl, sym, ap, subst, inl, inr, ◌⊎◌, Bool, false, List, [], ◌∷◌, Any, typed, ok,
  err, ◌>>=◌, leb, is_empty, All, Bool-cases, ==_iff, Succeeds,
}
use xportra_ai.Base.Text.{join, Text, is_blank}
use xportra_ai.Errors.{Uuid, Error}
use xportra_ai.Evidence.Ranking.{Ranked}
use xportra_ai.Evidence.Context.{Budget, Selection, select}
use xportra_ai.Answer.Prompt.{Prompt, Config, Built, build, normalized, first_tenant}
use xportra_ai.Answer.Validator.{
  GeneratedAnswer, Mapping, read_mapping, validate, conclude, classified,
}
use xportra_ai.Answer.Composition.{
  cite, Consecutive, Proper, Single-length, add_items-Adds, read_citations-Reads,
}
use xportra_ai.Evidence.Selection.{chosen, items, size, IsAcceptable, chosen_taken, chosen_left}
use xportra_ai.Evidence.Limits.{select_inv}

-- What the selector chooses is proper.
chosen-Proper :
    (t m u : ℕ) (rs : List Ranked) → All (IsAcceptable t m) rs → Proper t (items (chosen m u rs))
unfolding chosen
chosen-Proper t m u [] h = tt
chosen-Proper t m u (r ∷ rs) h = elim (Bool-cases (leb (u + size r) m)) [
  | inl e ↦
      subst (λ l. Proper t (items l)) (sym (chosen_taken m u r rs e))
        ((refl, (==_iff r.evidence.tenant_id t).0 h.0.own), chosen-Proper t m (u + size r) rs h.1)
  | inr e ↦
      subst (λ l. Proper t (items l)) (sym (chosen_left m u r rs e)) (chosen-Proper t m u rs h.1)
]

-- The prompt of what the builder's loop leaves.
abbrev prompt_of : Config → Text → Built → Prompt
prompt_of c need b = record {
  system_instructions = c.system_instructions;
  information_need = normalized need;
  evidence_context = join (10 ∷ 10 ∷ []) b.blocks;
  citations = b.citations;
  evidence_heading = c.evidence_heading;
  question_heading = c.question_heading;
  tenant_id = first_tenant b.tenants;
}

build_lem :
    (c : Config) (s : Selection) (need : Text) (t : Uuid)
    → Proper t s.selected_items
    → is_empty (normalized need) ≡ false
    → (p : Prompt) × (build c (typed s) (typed need) ≡ ok p)
      × (p.citations ≡ cite 1 s.selected_items)
unfolding build
build_lem c s need t p n =
    let (b, made, all, one) =
      add_items-Adds 1 s.selected_items (record { citations = []; tenants = []; blocks = [] }) t p
        (λ k h. refl) (inl refl) in
    (prompt_of c need b, rw (n, made) (rw (Single-length t b.tenants one) refl), all)

read_mapping_lem :
    (t : Uuid) (s : Selection) (p : Prompt)
    → Proper t s.selected_items
    → p.citations ≡ cite 1 s.selected_items
    → (Consecutive 1 s.selected_items × ((m : Mapping) × (read_mapping p ≡ ok m)))
      ⊎ ((Consecutive 1 s.selected_items → ⊥) × ((e : Error) × (read_mapping p ≡ err e)))
unfolding read_mapping
read_mapping_lem t s p good cites =
    elim (read_citations-Reads 1 s.selected_items (record { authoritative = []; tenants = [] }) t
      good (λ k h. refl) (inl refl)) [
        | inl (c, (m, e, one)) ↦
            inl (c, (m, rw (cites, e) (rw (Single-length t m.tenants one) refl)))
        | inr (c, (x, e)) ↦ inr (c, (x, rw (cites, e) refl))
      ]

module _ (is_digit : ℕ → Bool) where
  conclude_lem : (m : Mapping) (a : GeneratedAnswer) → Succeeds (conclude is_digit false m a)
  unfolding conclude
  conclude_lem m a = elim (Bool-cases (is_blank a.answer_text)) [
    | inl e ↦ rw e tt
    | inr e ↦ rw e (elim (Bool-cases (is_empty (classified is_digit m a).invalid_references)) [
      | inl f ↦ rw f tt
      | inr f ↦ rw f tt
    ])
  ]

  -- Whatever a selector returns: with an information need that is not blank, the builder makes a
  -- prompt of it; and the validator, on any text and even where invalid citations are let pass,
  -- accepts an answer to that prompt exactly if the rank positions selected are 1, 2, 3 and so on
  -- without a gap.
  pub select-build-validate :
      (raws : List (Any Ranked)) (t : Uuid) (b : Budget) (s : Selection) (c : Config) (need : Text)
      → select (typed raws) (typed t) (typed b) ≡ ok s
      → is_empty (normalized need) ≡ false
      → (p : Prompt) × (build c (typed s) (typed need) ≡ ok p)
        × ((text : Text)
            → Succeeds (validate is_digit false (typed (record { prompt = p; answer_text = text })))
              ↔ Consecutive 1 s.selected_items)
  unfolding validate
  select-build-validate raws t b s c need e n =
      let (rs, same, good, up, is) = select_inv raws t b s e in
      let proper =
        subst (λ l. Proper t l) (sym (ap (λ o. o.selected_items) is))
          (chosen-Proper t b.max_characters 0 rs good) in
      let (p, made, cites) = build_lem c s need t proper n in
      (
        p,
        made,
        λ text. elim (read_mapping_lem t s p proper cites) [
          | inl (k, (m, f)) ↦
              (λ h. k, λ h. rw f (conclude_lem m (record { prompt = p; answer_text = text })))
          | inr (k, (x, f)) ↦ (
            λ h. absurd (
                subst Succeeds
                  (ap
                    (λ r. r >>= λ m.
                      conclude is_digit false m (record { prompt = p; answer_text = text }))
                    f)
                  h),
            λ h. absurd (k h),
          )
        ],
      )
