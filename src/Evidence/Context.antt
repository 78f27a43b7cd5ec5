-- ===== src/Evidence/Context.antt =====
-- The selection of ranked evidence under a budget (xportra/domain/evidence_context.py).
use xportra_ai.Base.{
  ℕ, ◌+◌, ◌-◌, Bool, false, Option, none, some, List, [], ◌∷◌, ◌++◌, Any, Result, ok, ◌>>=◌, ◌>>◌,
  raise_if, raise_unless, expect, ◌==◌, ltb, leb, if◌then◌else◌, is_empty, contains, length,
}
use xportra_ai.Errors.{
  Uuid, Error, evidence, duplicate_chunk, budget_required, malformed_budget, malformed_ranked,
  malformed_content, other_tenant, malformed_position, not_ascending, over_budget,
  require_tenant_context,
}
use xportra_ai.Evidence.Ranking.{Ranked}

-- `EvidenceContextBudget(...)`; a negative integer is refused like a value of another type, and is
-- `untyped` here.
pub record Budget : Type 0 where
  pub max_characters : ℕ

unfoldable pub budget : Any ℕ → Result Error Budget
budget max_characters = do
  m ← expect max_characters (evidence malformed_budget)
  raise_unless (ltb 0 m) (evidence malformed_budget)
  ok (record { max_characters = m })

-- `SelectedEvidence`
pub record Selected : Type 0 where
  pub rank_position : ℕ
  pub ranked : Ranked
  pub character_count : ℕ

-- `EvidenceContextSelection`
pub record Selection : Type 0 where
  pub budget : Budget
  pub selected_items : List Selected
  pub used_budget : ℕ
  pub skipped_rank_positions : List ℕ

-- `remaining_budget`
unfoldable pub remaining_budget : Selection → ℕ
remaining_budget s = s.budget.max_characters - s.used_budget

-- The variables of the loop.
pub record Loop : Type 0 where
  pub seen_chunks : List Uuid
  pub previous_position : Option ℕ
  pub selected : List Selected
  pub skipped : List ℕ
  pub used : ℕ

-- `previous_position is not None and position <= previous_position`
abbrev pub is_not_above : Option ℕ → ℕ → Bool
is_not_above none p = false
is_not_above (some q) p = leb p q

-- The loop's body for an item that passed every check.
unfoldable pub add_item : ℕ → Ranked → Loop → Loop
add_item max_chars item l =
    let size = length item.evidence.content in
    let seen = item.evidence.chunk_id ∷ l.seen_chunks in
    if ltb max_chars (l.used + size)
    then record {
      seen_chunks = seen;
      previous_position = some item.rank_position;
      selected = l.selected;
      skipped = l.skipped ++ (item.rank_position ∷ []);
      used = l.used;
    }
    else record {
      seen_chunks = seen;
      previous_position = some item.rank_position;
      selected =
          l.selected
          ++ (record { rank_position = item.rank_position; ranked = item; character_count = size }
              ∷ []);
      skipped = l.skipped;
      used = l.used + size;
    }

unfoldable pub visit : Uuid → ℕ → Any Ranked → Loop → Result Error Loop
unfolding add_item
visit tenant max_chars raw l = do
  item ← expect raw (evidence malformed_ranked)
  raise_if (is_empty item.evidence.content) (evidence malformed_content)
  raise_unless (item.evidence.tenant_id == tenant) (evidence other_tenant)
  raise_if (contains l.seen_chunks item.evidence.chunk_id) (evidence duplicate_chunk)
  raise_unless (ltb 0 item.rank_position) (evidence malformed_position)
  raise_if (is_not_above l.previous_position item.rank_position) (evidence not_ascending)
  raise_if (ltb max_chars (length item.evidence.content)) (evidence over_budget)
  ok (add_item max_chars item l)

unfoldable pub visit_all : Uuid → ℕ → List (Any Ranked) → Loop → Result Error Loop
unfolding visit
visit_all tenant max_chars [] l = ok l
visit_all tenant max_chars (raw ∷ rest) l = do
  next ← visit tenant max_chars raw l
  visit_all tenant max_chars rest next

abbrev pub start : Loop
start = record { seen_chunks = []; previous_position = none; selected = []; skipped = []; used = 0 }

-- `DeterministicContextSelector.select`; on an empty list the loop returns what the early return
-- does.
unfoldable pub select : Any (List (Any Ranked)) → Any Uuid → Any Budget → Result Error Selection
unfolding visit_all
select ranked tenant_id given = do
  tenant ← require_tenant_context tenant_id
  b ← expect given (evidence budget_required)
  items ← expect ranked (evidence malformed_ranked)
  last ← visit_all tenant b.max_characters items start
  ok (record {
    budget = b;
    selected_items = last.selected;
    used_budget = last.used;
    skipped_rank_positions = last.skipped;
  })
