-- ===== src/Evidence/Selection.antt =====
-- The selection within its budget: what is used, what is kept and skipped, and in which order.
use xportra_ai.Base.{
  ℕ, ◌+◌, ◌≡◌, refl, sym, ap, ◌∙◌, inl, inr, Bool, true, false, Option, none, some, List, [], ◌∷◌,
  ◌++◌, map, typed, arith, ok, ◌==◌, ltb, leb, if◌then◌else◌, is_empty, contains, length, All,
  Bool-cases,
}
use xportra_ai.Errors.{Uuid}
use mathlib.Core.List.{append-nil, append_assoc}
use xportra_ai.Evidence.Ranking.{Ranked}
use xportra_ai.Evidence.Context.{
  Budget, Selected, Selection, Loop, is_not_above, add_item, visit, visit_all, start, select,
}

abbrev pub size : Ranked → ℕ
size r = length r.evidence.content

abbrev pub total : List Selected → ℕ
total [] = 0
total (s ∷ ss) = s.character_count + total ss

-- The greedy choice as its documentation says it: an item is taken if it fits what the items
-- taken before it leave, and is left out otherwise.
unfoldable pub chosen : ℕ → ℕ → List Ranked → List Ranked
chosen max_chars used [] = []
chosen max_chars used (r ∷ rs) =
    let taken = r ∷ chosen max_chars (used + size r) rs in
    let left = chosen max_chars used rs in if leb (used + size r) max_chars then taken else left

unfoldable pub omitted : ℕ → ℕ → List Ranked → List ℕ
omitted max_chars used [] = []
omitted max_chars used (r ∷ rs) =
    let taken = omitted max_chars (used + size r) rs in
    let left = r.rank_position ∷ omitted max_chars used rs in
    if leb (used + size r) max_chars then taken else left

abbrev pub selected_item : Ranked → Selected
selected_item r = record { rank_position = r.rank_position; ranked = r; character_count = size r }

abbrev pub items : List Ranked → List Selected
items rs = map selected_item rs

-- A ranked list that `select` accepts.
abbrev pub Above : Option ℕ → ℕ → Type 0
Above p n = is_not_above p n ≡ false

pub record IsAcceptable (tenant max_chars : ℕ) (r : Ranked) : Type 0 where
  pub nonempty : is_empty r.evidence.content ≡ false
  pub own : (r.evidence.tenant_id == tenant) ≡ true
  pub positive : ltb 0 r.rank_position ≡ true
  pub fits : ltb max_chars (size r) ≡ false

-- Positions ascend from the one before, and no chunk has been seen.
abbrev pub Ascends : Option ℕ → List Uuid → List Ranked → Type 0
Ascends p seen [] = Unit
Ascends p seen (r ∷ rs) =
    Above p r.rank_position
    × (contains seen r.evidence.chunk_id ≡ false)
    × Ascends (some r.rank_position) (r.evidence.chunk_id ∷ seen) rs

visit_lem :
    (t m : ℕ) (r : Ranked) (l : Loop)
    → IsAcceptable t m r
    → Above l.previous_position r.rank_position
    → contains l.seen_chunks r.evidence.chunk_id ≡ false
    → visit t m (typed r) l ≡ ok (add_item m r l)
unfolding visit
visit_lem t m r l h a f = rw h.nonempty (rw h.own (rw f (rw h.positive (rw a (rw h.fits refl)))))

-- The state in which the loop ends.
abbrev ends : ℕ → List Ranked → Loop → Loop
ends m [] l = l
ends m (r ∷ rs) l = ends m rs (add_item m r l)

pub seen_add :
    (m : ℕ) (r : Ranked) (l : Loop)
    → (add_item m r l).seen_chunks ≡ r.evidence.chunk_id ∷ l.seen_chunks
unfolding add_item
seen_add m r l = ground arith

pub previous_add :
    (m : ℕ) (r : Ranked) (l : Loop) → (add_item m r l).previous_position ≡ some r.rank_position
unfolding add_item
previous_add m r l = ground arith

visit_all_lem :
    (t m : ℕ) (rs : List Ranked) (l : Loop)
    → All (IsAcceptable t m) rs
    → Ascends l.previous_position l.seen_chunks rs
    → visit_all t m (map typed rs) l ≡ ok (ends m rs l)
unfolding visit_all
visit_all_lem t m [] l h a = refl
visit_all_lem t m (r ∷ rs) l h a =
    let next = add_item m r l in
    let go : Ascends next.previous_position next.seen_chunks rs =
      rw (previous_add m r l) (rw (seen_add m r l) a.2) in
    rw (visit_lem t m r l h.0 a.0 a.1) (visit_all_lem t m rs next h.1 go)

-- Both branches of the loop's body.
module _ (m : ℕ) (r : Ranked) (l : Loop) where
  abbrev room : Bool
  room = leb (l.used + size r) m

  abbrev Taken : Type 0
  Taken =
      ((add_item m r l).selected ≡ l.selected ++ (selected_item r ∷ []))
      × ((add_item m r l).used ≡ l.used + size r)
      × ((add_item m r l).skipped ≡ l.skipped)

  abbrev Left : Type 0
  Left =
      ((add_item m r l).selected ≡ l.selected)
      × ((add_item m r l).used ≡ l.used)
      × ((add_item m r l).skipped ≡ l.skipped ++ (r.rank_position ∷ []))

  add_taken : room ≡ true → Taken
  unfolding add_item
  add_taken h = let f : ltb m (l.used + size r) ≡ false = ground arith in rw f (refl, refl, refl)

  add_left : room ≡ false → Left
  unfolding add_item
  add_left h = let f : ltb m (l.used + size r) ≡ true = ground arith in rw f (refl, refl, refl)

-- The choice, one item at a time.
module _ (m u : ℕ) (r : Ranked) (rs : List Ranked) where
  pub chosen_taken : leb (u + size r) m ≡ true → chosen m u (r ∷ rs) ≡ r ∷ chosen m (u + size r) rs
  unfolding chosen
  chosen_taken h = rw h refl

  pub chosen_left : leb (u + size r) m ≡ false → chosen m u (r ∷ rs) ≡ chosen m u rs
  unfolding chosen
  chosen_left h = rw h refl

  pub omitted_taken : leb (u + size r) m ≡ true → omitted m u (r ∷ rs) ≡ omitted m (u + size r) rs
  unfolding omitted
  omitted_taken h = rw h refl

  pub omitted_left :
      leb (u + size r) m ≡ false → omitted m u (r ∷ rs) ≡ r.rank_position ∷ omitted m u rs
  unfolding omitted
  omitted_left h = rw h refl

-- The loop makes the documented choice.
abbrev Chooses : ℕ → List Ranked → Loop → Type 0
Chooses m rs l =
    ((ends m rs l).selected ≡ l.selected ++ items (chosen m l.used rs))
    × ((ends m rs l).skipped ≡ l.skipped ++ omitted m l.used rs)
    × ((ends m rs l).used ≡ l.used + total (items (chosen m l.used rs)))

Chooses-taken :
    (m : ℕ) (r : Ranked) (rs : List Ranked) (l : Loop)
    → leb (l.used + size r) m ≡ true
    → Chooses m rs (add_item m r l)
    → Chooses m (r ∷ rs) l
Chooses-taken m r rs l h k =
    let (s1, u1, k1) = add_taken m r l h in
    let c = chosen_taken m l.used r rs h in
    let o = omitted_taken m l.used r rs h in
    let assoc =
      append_assoc l.selected (selected_item r ∷ []) (items (chosen m (l.used + size r) rs)) in
    (
      k.0
          ∙ (ap (λ u. (add_item m r l).selected ++ items (chosen m u rs)) u1
              ∙ (ap (λ x. x ++ items (chosen m (l.used + size r) rs)) s1
                  ∙ (assoc ∙ ap (λ x. l.selected ++ items x) (sym c)))),
      k.1
          ∙ (ap (λ u. (add_item m r l).skipped ++ omitted m u rs) u1
              ∙ (ap (λ x. x ++ omitted m (l.used + size r) rs) k1
                  ∙ ap (λ x. l.skipped ++ x) (sym o))),
      k.2
          ∙ (ap (λ u. u + total (items (chosen m u rs))) u1
              ∙ (omega arith ∙ ap (λ x. l.used + total (items x)) (sym c))),
    )

Chooses-left :
    (m : ℕ) (r : Ranked) (rs : List Ranked) (l : Loop)
    → leb (l.used + size r) m ≡ false
    → Chooses m rs (add_item m r l)
    → Chooses m (r ∷ rs) l
Chooses-left m r rs l h k =
    let (s1, u1, k1) = add_left m r l h in
    let c = chosen_left m l.used r rs h in
    let o = omitted_left m l.used r rs h in
    let assoc = append_assoc l.skipped (r.rank_position ∷ []) (omitted m l.used rs) in
    (
      k.0
          ∙ (ap (λ u. (add_item m r l).selected ++ items (chosen m u rs)) u1
              ∙ (ap (λ x. x ++ items (chosen m l.used rs)) s1
                  ∙ ap (λ x. l.selected ++ items x) (sym c))),
      k.1
          ∙ (ap (λ u. (add_item m r l).skipped ++ omitted m u rs) u1
              ∙ (ap (λ x. x ++ omitted m l.used rs) k1
                  ∙ (assoc ∙ ap (λ x. l.skipped ++ x) (sym o)))),
      k.2
          ∙ (ap (λ u. u + total (items (chosen m u rs))) u1
              ∙ ap (λ x. l.used + total (items x)) (sym c)),
    )

ends-Chooses : (m : ℕ) (rs : List Ranked) (l : Loop) → Chooses m rs l
unfolding chosen omitted
ends-Chooses m [] l = (sym (append-nil l.selected), sym (append-nil l.skipped), omega arith)
ends-Chooses m (r ∷ rs) l = elim (Bool-cases (leb (l.used + size r) m)) [
  | inl h ↦ Chooses-taken m r rs l h (ends-Chooses m rs (add_item m r l))
  | inr h ↦ Chooses-left m r rs l h (ends-Chooses m rs (add_item m r l))
]

-- The documented outcome.
abbrev pub outcome : Budget → List Ranked → Selection
outcome b rs =
    let taken = items (chosen b.max_characters 0 rs) in
    record {
      budget = b;
      selected_items = taken;
      used_budget = total taken;
      skipped_rank_positions = omitted b.max_characters 0 rs;
    }

-- A list whose items are acceptable, with ascending positions and no chunk twice, is selected
-- from exactly as documented.
pub select_accepts :
    (rs : List Ranked) (t : Uuid) (b : Budget)
    → All (IsAcceptable t b.max_characters) rs
    → Ascends none [] rs
    → select (typed (map typed rs)) (typed t) (typed b) ≡ ok (outcome b rs)
unfolding select
select_accepts rs t b h a =
    let (ss, ks, us) = ends-Chooses b.max_characters rs start in
    let sum : (ends b.max_characters rs start).used ≡ total (items (chosen b.max_characters 0 rs)) =
      us ∙ omega arith in
    rw (visit_all_lem t b.max_characters rs start h a) (rw (ss, ks, sum) refl)
