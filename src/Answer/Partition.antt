-- ===== src/Answer/Partition.antt =====
-- What validation says of every reference.
use xportra_ai.Base.{
  ◌≡◌, refl, sym, ap, ◌∙◌, subst, inl, inr, true, false, not, Option, none, some, List, [], ◌∷◌,
  map, arith, All, Bool-cases, list_eq, list_eq→eq, filter,
}
use xportra_ai.Base.Text.{Text}
use xportra_ai.Answer.Prompt.{Citation, has_label}
use xportra_ai.Answer.Validator.{lookup, resolved, unresolved}

abbrev pub labels : List Citation → List Text
labels cs = map (λ c. c.label) cs

-- Looking a label up finds a citation exactly if one has it.
lookup-none : (l : Text) (cs : List Citation) → has_label l cs ≡ false → lookup l cs ≡ none
lookup-none l [] h = refl
lookup-none l (c ∷ cs) h = ground (arith, lookup-none l cs)

lookup-some :
    (l : Text) (cs : List Citation)
    → has_label l cs ≡ true
    → (c : Citation) × (lookup l cs ≡ some c) × (c.label ≡ l)
lookup-some l [] h = cc
lookup-some l (c ∷ cs) h = elim (Bool-cases (list_eq c.label l)) [
  | inl e ↦ rw e (c, refl, list_eq→eq c.label l e)
  | inr e ↦ rw e (lookup-some l cs (ground (arith, h, e)))
]

-- Both lists of the loop, one reference at a time.
module _ (cs : List Citation) (l : Text) (ls : List Text) where
  resolved_as :
      (o : Option Citation)
      → lookup l cs ≡ o
      → resolved cs (l ∷ ls) ≡ elim o [ none ↦ resolved cs ls | some c ↦ c ∷ resolved cs ls ]
  unfolding resolved
  resolved_as o e =
      ap
        (λ o. elim o as (λ _. List Citation) [
          | none ↦ resolved cs ls
          | some c ↦ c ∷ resolved cs ls
        ])
        e

  unresolved_as :
      (o : Option Citation)
      → lookup l cs ≡ o
      → unresolved cs (l ∷ ls) ≡ elim o [ none ↦ l ∷ unresolved cs ls | some c ↦ unresolved cs ls ]
  unfolding unresolved
  unresolved_as o e =
      ap
        (λ o. elim o as (λ _. List Text) [
          | none ↦ l ∷ unresolved cs ls
          | some c ↦ unresolved cs ls
        ])
        e

abbrev known_labels : List Citation → List Text → List Text
known_labels cs ls = filter (λ l. has_label l cs) ls

abbrev unknown_labels : List Citation → List Text → List Text
unknown_labels cs ls = filter (λ l. not (has_label l cs)) ls

-- The references with a citation and those without, and that each citation is its label's.
abbrev pub Sorts : List Citation → List Text → List Citation → List Text → Type 0
Sorts cs refs good bad =
    (labels good ≡ filter (λ l. has_label l cs) refs)
    × (bad ≡ filter (λ l. not (has_label l cs)) refs)
    × All (λ c. lookup c.label cs ≡ some c) good

pub resolved-Sorts :
    (cs : List Citation) (ls : List Text) → Sorts cs ls (resolved cs ls) (unresolved cs ls)
unfolding resolved unresolved
resolved-Sorts cs [] = (refl, refl, tt)
resolved-Sorts cs (l ∷ ls) =
    let (good, bad, own) = resolved-Sorts cs ls in
    elim (Bool-cases (has_label l cs)) [
      | inl h ↦
          let (c, e, same) = lookup-some l cs h in
          rw h (
            ap labels (resolved_as cs l ls (some c) e)
                ∙ (ap (λ x. x ∷ labels (resolved cs ls)) same ∙ ap (λ x. l ∷ x) good),
            unresolved_as cs l ls (some c) e ∙ bad,
            subst (All (λ c. lookup c.label cs ≡ some c)) (sym (resolved_as cs l ls (some c) e))
                (ap (λ x. lookup x cs) same ∙ e, own),
          )
      | inr h ↦
          let e = lookup-none l cs h in
          rw h (
            ap labels (resolved_as cs l ls none e) ∙ good,
            unresolved_as cs l ls none e ∙ ap (λ x. l ∷ x) bad,
            subst (All (λ c. lookup c.label cs ≡ some c)) (sym (resolved_as cs l ls none e)) own,
          )
    ]
