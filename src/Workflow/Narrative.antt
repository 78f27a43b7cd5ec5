-- ===== src/Workflow/Narrative.antt =====
-- What a projected history says.
use xportra_ai.Base.{
  ℕ, suc, ◌+◌, ◌≡◌, refl, sym, ap, ◌∙◌, Option, none, some, List, [], ◌∷◌, ◌++◌, arith, length,
}
use xportra_ai.Errors.{Uuid}
use xportra_ai.Workflow.Model.{Workflow, Round}
use mathlib.Core.List.{append_assoc, append-nil}
use xportra_ai.Workflow.Projection.{
  Kind, workflow_created, shipment_bound, evidence_supplied, analysis_completed,
  final_package_ready, Reference, workflow_id, tenant_id, case_id, shipment_id, evidence_id,
  report_id, supply_position, round_count, Entry, PackageReference, append_entry, append_shipment,
  append_supplies, round_references, append_rounds, append_package, build_entries,
}

-- An entry without its place.
abbrev pub Item : Type 0
Item = Kind × List Reference

abbrev pub shipment_items : Workflow → Option Uuid → List Item
shipment_items w none = []
shipment_items w (some id) =
    (shipment_bound, shipment_id id ∷ case_id w.case_id ∷ tenant_id w.tenant_id ∷ []) ∷ []

abbrev pub supply_items : ℕ → List Uuid → List Item
supply_items n [] = []
supply_items n (id ∷ ids) =
    (evidence_supplied, evidence_id id ∷ supply_position n ∷ []) ∷ supply_items (suc n) ids

abbrev pub round_items : List Round → List Item
round_items [] = []
round_items (r ∷ rs) = (analysis_completed, round_references r) ∷ round_items rs

abbrev pub package_items : Option PackageReference → List Item
package_items none = []
package_items (some p) =
    (
      final_package_ready,
      workflow_id p.workflow_id ∷ report_id p.report_id ∷ round_count p.round_count ∷ [],
    )
    ∷ []

-- The story of a workflow: its creation, its shipment, each supply, each round, the package.
abbrev pub story : Workflow → Option PackageReference → List Item
story w p =
    (workflow_created, workflow_id w.id ∷ tenant_id w.tenant_id ∷ case_id w.case_id ∷ [])
    ∷ (shipment_items w w.shipment_id
        ++ (supply_items 0 w.supplied_evidence_ids ++ (round_items w.rounds ++ package_items p)))

-- Items in their places.
abbrev pub numbered : ℕ → List Item → List Entry
numbered n [] = []
numbered n (i ∷ is) = record { sequence = n; kind = i.0; references = i.1 } ∷ numbered (suc n) is

length-numbered : (n : ℕ) (is : List Item) → length (numbered n is) ≡ length is
length-numbered n [] = refl
length-numbered n (i ∷ is) = ap suc (length-numbered (suc n) is)

numbered-snoc :
    (n : ℕ) (is : List Item) (k : Kind) (rs : List Reference)
    → numbered n is ++ (record { sequence = n + length is; kind = k; references = rs } ∷ [])
      ≡ numbered n (is ++ ((k, rs) ∷ []))
numbered-snoc n [] k rs =
    let z : n + 0 ≡ n = omega arith in
    ap (λ m. record { sequence = m; kind = k; references = rs } ∷ []) z
numbered-snoc n (i ∷ is) k rs =
    let z : n + suc (length is) ≡ suc n + length is = omega arith in
    let e : Entry = record { sequence = n; kind = i.0; references = i.1 } in
    ap (λ m. e ∷ (numbered (suc n) is ++ (record { sequence = m; kind = k; references = rs } ∷ [])))
      z
    ∙ ap (λ es. e ∷ es) (numbered-snoc (suc n) is k rs)

append_entry-numbered :
    (is : List Item) (k : Kind) (rs : List Reference)
    → append_entry k rs (numbered 0 is) ≡ numbered 0 (is ++ ((k, rs) ∷ []))
append_entry-numbered is k rs =
    let z : length (numbered 0 is) ≡ 0 + length is = length-numbered 0 is ∙ omega arith in
    ap (λ m. numbered 0 is ++ (record { sequence = m; kind = k; references = rs } ∷ [])) z
    ∙ numbered-snoc 0 is k rs

append_shipment-numbered :
    (w : Workflow) (o : Option Uuid) (is : List Item)
    → append_shipment w o (numbered 0 is) ≡ numbered 0 (is ++ shipment_items w o)
unfolding append_shipment
append_shipment-numbered w none is = ap (numbered 0) (sym (append-nil is))
append_shipment-numbered w (some id) is = append_entry-numbered is shipment_bound _

append_supplies-numbered :
    (n : ℕ) (ids : List Uuid) (is : List Item)
    → append_supplies n ids (numbered 0 is) ≡ numbered 0 (is ++ supply_items n ids)
unfolding append_supplies
append_supplies-numbered n [] is = ap (numbered 0) (sym (append-nil is))
append_supplies-numbered n (id ∷ ids) is =
    let item : Item = (evidence_supplied, evidence_id id ∷ supply_position n ∷ []) in
    ap (append_supplies (suc n) ids) (append_entry-numbered is item.0 item.1)
    ∙ (append_supplies-numbered (suc n) ids (is ++ (item ∷ []))
        ∙ ap (numbered 0) (append_assoc is (item ∷ []) (supply_items (suc n) ids)))

append_rounds-numbered :
    (rs : List Round) (is : List Item)
    → append_rounds rs (numbered 0 is) ≡ numbered 0 (is ++ round_items rs)
unfolding append_rounds
append_rounds-numbered [] is = ap (numbered 0) (sym (append-nil is))
append_rounds-numbered (r ∷ rs) is =
    let item : Item = (analysis_completed, round_references r) in
    ap (append_rounds rs) (append_entry-numbered is item.0 item.1)
    ∙ (append_rounds-numbered rs (is ++ (item ∷ []))
        ∙ ap (numbered 0) (append_assoc is (item ∷ []) (round_items rs)))

append_package-numbered :
    (p : Option PackageReference) (is : List Item)
    → append_package p (numbered 0 is) ≡ numbered 0 (is ++ package_items p)
unfolding append_package
append_package-numbered none is = ap (numbered 0) (sym (append-nil is))
append_package-numbered (some p) is = append_entry-numbered is final_package_ready _

pub build_entries_lem :
    (w : Workflow) (p : Option PackageReference) → build_entries w p ≡ numbered 0 (story w p)
unfolding build_entries
build_entries_lem w p =
    let start : List Item =
      (workflow_created, workflow_id w.id ∷ tenant_id w.tenant_id ∷ case_id w.case_id ∷ []) ∷ [] in
    let a = shipment_items w w.shipment_id in
    let b = supply_items 0 w.supplied_evidence_ids in
    let c = round_items w.rounds in
    ap
      (λ es.
        append_package p (append_rounds w.rounds (append_supplies 0 w.supplied_evidence_ids es)))
      (append_shipment-numbered w w.shipment_id start)
    ∙ (ap (λ es. append_package p (append_rounds w.rounds es))
          (append_supplies-numbered 0 w.supplied_evidence_ids (start ++ a))
        ∙ (ap (append_package p) (append_rounds-numbered w.rounds ((start ++ a) ++ b))
            ∙ (append_package-numbered p (((start ++ a) ++ b) ++ c)
                ∙ ap (numbered 0) (
                    append_assoc ((start ++ a) ++ b) c (package_items p)
                    ∙ (append_assoc (start ++ a) b (c ++ package_items p)
                        ∙ append_assoc start a (b ++ (c ++ package_items p)))))))
