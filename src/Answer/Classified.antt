-- ===== src/Answer/Classified.antt =====
-- What validation makes of the references in an answer.
use xportra_ai.Base.{
  ℕ, ◌≡◌, refl, sym, subst, Bool, false, not, ◌&&◌, List, [], ◌∷◌, ◌++◌, typed, arith, Result, ok,
  ◌>>◌, raise_if, raise_unless, ◌==◌, ltb, if◌then◌else◌, is_empty, length, >>=-eq-ok, ok-injective,
  Ensures, Ensures-bind, Ensures-ok, list_eq, >>-eq-ok, Ensures-after, raise_if-eq-ok,
}
use xportra_ai.Base.Text.{is_blank}
use xportra_ai.Errors.{
  Error, answer, duplicate_label, inconsistent_rank, many_tenants, label_drift, invalid_citation,
}
use mathlib.Core.List.{append-nil, append_assoc}
use xportra_ai.Errors.{
  Error, answer, duplicate_label, inconsistent_rank, many_tenants, label_drift, invalid_citation,
}
use xportra_ai.Answer.Partition.{Sorts, resolved-Sorts}
use xportra_ai.Answer.Prompt.{
  Prompt, Citation, add_tenant, citation_label, rank_position, has_label,
}
use xportra_ai.Answer.Validator.{
  GeneratedAnswer, ValidatedAnswer, Mapping, valid, invalid_citations, read_citations, read_mapping,
  validate, conclude, classified, empty_answer,
}
use xportra_ai.Answer.Citations.{extract}

-- The loop of the validator keeps every citation.
read_citations_all :
    (cs : List Citation) (m : Mapping)
    → Ensures (λ out. out.authoritative ≡ m.authoritative ++ cs) (read_citations cs m)
unfolding read_citations
read_citations_all [] m = sym (append-nil m.authoritative)
read_citations_all (c ∷ cs) m =
    let next : Mapping = record {
      authoritative = m.authoritative ++ (c ∷ []);
      tenants = add_tenant c.selected.ranked.evidence.tenant_id m.tenants;
    } in
    let rest =
      subst (λ l. Ensures (λ out. out.authoritative ≡ l) (read_citations cs next))
        (append_assoc m.authoritative (c ∷ []) cs) (read_citations_all cs next) in
    let P : Mapping → Type 0 = λ out. out.authoritative ≡ m.authoritative ++ c ∷ cs in
    let drift : Result Error Unit =
      raise_unless (list_eq c.label (citation_label (rank_position c))) (answer label_drift) in
    let differs : Result Error Unit =
      raise_unless (rank_position c == c.selected.rank_position) (answer inconsistent_rank) in
    let twice : Result Error Unit =
      raise_if (has_label c.label m.authoritative) (answer duplicate_label) in
    let last = read_citations cs next in
    Ensures-after P twice (differs >> (drift >> last))
      (Ensures-after P differs (drift >> last) (Ensures-after P drift last rest))

read_mapping_all :
    (p : Prompt) (m : Mapping) → read_mapping p ≡ ok m → m.authoritative ≡ p.citations
unfolding read_mapping
read_mapping_all p m e =
    Ensures-ok (λ out. out.authoritative ≡ p.citations) (read_mapping p)
      (Ensures-bind (λ out. out.authoritative ≡ p.citations)
        (λ out. out.authoritative ≡ p.citations)
        (read_citations p.citations (record { authoritative = []; tenants = [] })) _
        (read_citations_all p.citations (record { authoritative = []; tenants = [] }))
        (λ out h.
          Ensures-after (λ (out : Mapping). out.authoritative ≡ p.citations)
            (raise_if (ltb 1 (length out.tenants)) (answer many_tenants)) (ok out) h))
      e

module _ (is_digit : ℕ → Bool) where
  conclude-Sorts :
      (strict : Bool) (m : Mapping) (a : GeneratedAnswer) (v : ValidatedAnswer)
      → conclude is_digit strict m a ≡ ok v
      → is_blank a.answer_text ≡ false
      → Sorts m.authoritative
          (extract is_digit a.answer_text).references
          v.validated_citations
          v.invalid_references
        × (v.status ≡ (if is_empty v.invalid_references then valid else invalid_citations))
        × ((strict && not (is_empty v.invalid_references)) ≡ false)
  unfolding conclude classified
  conclude-Sorts strict m a v e filled =
      let c = classified is_digit m a in
      let after : (raise_if (not (is_empty c.invalid_references) && strict)
              (answer invalid_citation)
            >> ok c)
          ≡ ok v =
        subst
          (λ b.
            (if b
              then ok (empty_answer is_digit m a)
              else (raise_if (not (is_empty c.invalid_references) && strict)
                    (answer invalid_citation)
                  >> ok c))
            ≡ ok v)
          filled e in
      let (passed, same) =
        >>-eq-ok
          (raise_if (not (is_empty c.invalid_references) && strict) (answer invalid_citation))
          (ok c) after in
      let no : (not (is_empty c.invalid_references) && strict) ≡ false =
        raise_if-eq-ok _ (answer invalid_citation) passed in
      subst
        (λ v.
          Sorts m.authoritative (extract is_digit a.answer_text).references v.validated_citations
            v.invalid_references
          × (v.status ≡ (if is_empty v.invalid_references then valid else invalid_citations))
          × ((strict && not (is_empty v.invalid_references)) ≡ false))
        (ok-injective same)
        (
          resolved-Sorts m.authoritative (extract is_digit a.answer_text).references,
          refl,
          ground (arith, no),
        )

  -- If validation returns for an answer that is not blank, the labels of its citations are the
  -- references that the prompt has, in order, and its invalid references are those that the prompt
  -- has not; each citation is the one that the prompt gives its label; the status is valid exactly
  -- if there is no invalid reference; and where invalid citations are not let pass there is none.
  pub validate-Sorts :
      (strict : Bool) (a : GeneratedAnswer) (v : ValidatedAnswer)
      → validate is_digit strict (typed a) ≡ ok v
      → is_blank a.answer_text ≡ false
      → Sorts a.prompt.citations
          (extract is_digit a.answer_text).references
          v.validated_citations
          v.invalid_references
        × (v.status ≡ (if is_empty v.invalid_references then valid else invalid_citations))
        × ((strict && not (is_empty v.invalid_references)) ≡ false)
  unfolding validate
  validate-Sorts strict a v e filled =
      let (m, read, done) =
        >>=-eq-ok (read_mapping a.prompt) (λ m. conclude is_digit strict m a) e in
      subst
        (λ cs.
          Sorts cs (extract is_digit a.answer_text).references v.validated_citations
            v.invalid_references
          × (v.status ≡ (if is_empty v.invalid_references then valid else invalid_citations))
          × ((strict && not (is_empty v.invalid_references)) ≡ false))
        (read_mapping_all a.prompt m read) (conclude-Sorts strict m a v done filled)
