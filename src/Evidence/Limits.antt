-- ===== src/Evidence/Limits.antt =====
-- The selection's bounds, and what it refuses.
use xportra_ai.Base.{
  ℕ, ◌+◌, ◌-◌, ◌≤◌, ◌≡◌, refl, sym, ap, ◌∙◌, subst, inl, inr, false, none, some, List, [], ◌∷◌, map,
  Any, typed, untyped, arith, ok, leb, contains, All, Bool-cases, >>=-eq-ok, ok-injective, leb→le,
}
use xportra_ai.Errors.{Uuid}
use xportra_ai.Evidence.Ranking.{Ranked}
use xportra_ai.Evidence.Context.{
  Budget, Selection, Selected, Loop, remaining_budget, add_item, visit, visit_all, start, select,
}
use xportra_ai.Evidence.Selection.{
  size, total, chosen, omitted, items, IsAcceptable, Above, Ascends, outcome, select_accepts,
  selected_item, chosen_taken, chosen_left, seen_add, previous_add,
}

-- Taking items as documented stays within the budget.
pub total-chosen : (m u : ℕ) (rs : List Ranked) → u ≤ m → u + total (items (chosen m u rs)) ≤ m
unfolding chosen
total-chosen m u [] h = omega arith
total-chosen m u (r ∷ rs) h = elim (Bool-cases (leb (u + size r) m)) [
  | inl e ↦
      let rest = total-chosen m (u + size r) rs (leb→le (u + size r) m e) in
      subst (λ l. u + total (items l) ≤ m) (sym (chosen_taken m u r rs e)) (omega arith)
  | inr e ↦
      subst (λ l. u + total (items l) ≤ m) (sym (chosen_left m u r rs e)) (total-chosen m u rs h)
]

-- Every item, in order, is selected or has its position recorded.
pub data Splits : List Ranked → List Selected → List ℕ → Type 0 where
  none_left : Splits [] [] []
  kept :
      (r : Ranked) {rs : List Ranked} {ss : List Selected} {ks : List ℕ}
      → Splits rs ss ks
      → Splits (r ∷ rs) (selected_item r ∷ ss) ks
  skipped :
      (r : Ranked) {rs : List Ranked} {ss : List Selected} {ks : List ℕ}
      → Splits rs ss ks
      → Splits (r ∷ rs) ss (r.rank_position ∷ ks)

chosen-Splits : (m u : ℕ) (rs : List Ranked) → Splits rs (items (chosen m u rs)) (omitted m u rs)
unfolding chosen omitted
chosen-Splits m u [] = none_left
chosen-Splits m u (r ∷ rs) = elim (Bool-cases (leb (u + size r) m)) [
  | inl e ↦ rw e (kept r (chosen-Splits m (u + size r) rs))
  | inr e ↦ rw e (skipped r (chosen-Splits m u rs))
]

-- What a pass of the loop has checked.
record Visited (t m : ℕ) (raw : Any Ranked) (l next : Loop) : Type 0 where
  item : Ranked
  is_item : raw ≡ typed item
  acceptable : IsAcceptable t m item
  above : Above l.previous_position item.rank_position
  unseen : contains l.seen_chunks item.evidence.chunk_id ≡ false
  is_next : add_item m item l ≡ next

visit_inv :
    (t m : ℕ) (raw : Any Ranked) (l next : Loop)
    → visit t m raw l ≡ ok next
    → Visited t m raw l next
unfolding visit
visit_inv t m untyped l next e = cc
visit_inv t m (typed r) l next e = record {
  item = r;
  is_item = refl;
  acceptable = record {
    nonempty = ground arith;
    own = ground arith;
    positive = ground arith;
    fits = ground arith;
  };
  above = ground arith;
  unseen = ground arith;
  is_next = ground arith;
}

-- What the whole loop has checked.
abbrev pub Checked : ℕ → ℕ → List (Any Ranked) → Loop → Type 0
Checked t m raws l =
    (rs : List Ranked) × (raws ≡ map typed rs)
    × All (IsAcceptable t m) rs
    × Ascends l.previous_position l.seen_chunks rs

visit_all_inv :
    (t m : ℕ) (raws : List (Any Ranked)) (l last : Loop)
    → visit_all t m raws l ≡ ok last
    → Checked t m raws l
unfolding visit_all
visit_all_inv t m [] l last e = ([], refl, tt, tt)
visit_all_inv t m (raw ∷ raws) l last e =
    let (next, first, rest) = >>=-eq-ok (visit t m raw l) (visit_all t m raws) e in
    let v = visit_inv t m raw l next first in
    let (rs, same, good, up) = visit_all_inv t m raws next last rest in
    let state = v.is_next in
    let prev : some v.item.rank_position ≡ next.previous_position =
      sym (previous_add m v.item l) ∙ ap (λ n. n.previous_position) state in
    let seen : v.item.evidence.chunk_id ∷ l.seen_chunks ≡ next.seen_chunks =
      sym (seen_add m v.item l) ∙ ap (λ n. n.seen_chunks) state in
    (
      v.item ∷ rs,
      ap (λ a. a ∷ raws) v.is_item ∙ ap (λ l. typed v.item ∷ l) same,
      (v.acceptable, good),
      (
        v.above,
        v.unseen,
        subst (λ p. Ascends p (v.item.evidence.chunk_id ∷ l.seen_chunks) rs) (sym prev)
            (subst (λ q. Ascends next.previous_position q rs) (sym seen) up),
      ),
    )

checked :
    (raws : List (Any Ranked)) (t : Uuid) (b : Budget) (out : Selection)
    → select (typed raws) (typed t) (typed b) ≡ ok out
    → Checked t b.max_characters raws start
unfolding select
checked raws t b out e =
    let (last, loop, made) = >>=-eq-ok (visit_all t b.max_characters raws start) _ e in
    visit_all_inv t b.max_characters raws start last loop

-- If selection returns, every item was a ranked result of the tenant, not empty, no larger than
-- the budget, with ascending positive positions and no chunk twice; and the outcome is the
-- documented choice from these items.
pub select_inv :
    (raws : List (Any Ranked)) (t : Uuid) (b : Budget) (out : Selection)
    → select (typed raws) (typed t) (typed b) ≡ ok out
    → (rs : List Ranked) × (raws ≡ map typed rs)
      × All (IsAcceptable t b.max_characters) rs
      × Ascends none [] rs
      × (out ≡ outcome b rs)
select_inv raws t b out e =
    let (rs, same, good, up) = checked raws t b out e in
    (
      rs,
      same,
      good,
      up,
      ok-injective (
          sym e
          ∙ (ap (λ x. select (typed x) (typed t) (typed b)) same ∙ select_accepts rs t b good up)),
    )

-- If selection returns, the used budget is the sum of the sizes of the selected items and at most
-- the budget, used and remaining make up the budget, and every item, in order, is either selected,
-- with its position and size, or has its position recorded as skipped.
pub select_budget :
    (raws : List (Any Ranked)) (t : Uuid) (b : Budget) (out : Selection)
    → select (typed raws) (typed t) (typed b) ≡ ok out
    → (out.used_budget ≡ total out.selected_items)
      × (out.used_budget ≤ b.max_characters)
      × (out.used_budget + remaining_budget out ≡ b.max_characters)
      × ((rs : List Ranked) × (raws ≡ map typed rs)
          × Splits rs out.selected_items out.skipped_rank_positions)
unfolding remaining_budget
select_budget raws t b out e =
    let (rs, same, good, up, is) = select_inv raws t b out e in
    let m = b.max_characters in
    let bound : total (items (chosen m 0 rs)) ≤ m = omega (arith, total-chosen m 0 rs) in
    subst
      (λ o.
        (o.used_budget ≡ total o.selected_items)
        × (o.used_budget ≤ m)
        × (o.used_budget + (o.budget.max_characters - o.used_budget) ≡ m)
        × ((rs : List Ranked) × (raws ≡ map typed rs)
            × Splits rs o.selected_items o.skipped_rank_positions))
      (sym is) (refl, bound, omega arith, (rs, same, chosen-Splits m 0 rs))
