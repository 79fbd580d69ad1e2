-- ===== src/Replica.antt =====
-- src/domain/crdt/CRDTStockResolver.ts: counters of stock that replicas keep apart and merge. Amounts
-- are whole numbers.
pub mod Counts
pub mod Merge
pub mod View
mod Tests
use gql_ddd_inventory.Prelude.{
  ℕ, ◌+◌, ◌-◌, ◌≡◌, max, sum_by, List, [], ◌∷◌, Option, none, some, if◌then◌else◌, ltb,
}
use gql_ddd_inventory.Prelude.Maps.{Map, lookup, insert, get_or, values}

-- A count for each node.
abbrev pub NodeCounts : Type 0
NodeCounts = Map ℕ

-- `counts[nodeId] || 0`
abbrev pub count_of : ℕ → NodeCounts → ℕ
count_of node counts = get_or (lookup node counts) 0

pub record PnCounterState : Type 0 where
  pub sku : ℕ
  pub increments : NodeCounts
  pub decrements : NodeCounts

unfoldable pub create_stock_counter : (sku : ℕ) → PnCounterState
create_stock_counter sku = record { sku = sku; increments = []; decrements = [] }

unfoldable pub increment : PnCounterState → (node amount : ℕ) → PnCounterState
increment state node amount = record state {
  increments = insert node (count_of node state.increments + amount) state.increments;
}

unfoldable pub decrement : PnCounterState → (node amount : ℕ) → PnCounterState
decrement state node amount = record state {
  decrements = insert node (count_of node state.decrements + amount) state.decrements;
}

abbrev pub total : NodeCounts → ℕ
total counts = sum_by (λ n. n) (values counts)

unfoldable pub get_value : PnCounterState → ℕ
get_value state = total state.increments - total state.decrements

-- The loop over the nodes of the first state.
unfoldable pub merge_first : NodeCounts → NodeCounts → (nodes merged : NodeCounts) → NodeCounts
merge_first a b [] merged = merged
merge_first a b ((node, n) ∷ nodes) merged =
    merge_first a b nodes (insert node (max (count_of node a) (count_of node b)) merged)

abbrev pub add_missing : (node n : ℕ) → Option ℕ → NodeCounts → NodeCounts
add_missing node n none merged = insert node n merged
add_missing node n (some _) merged = merged

-- The loop over the nodes of the second, which passes over the nodes that are there.
unfoldable pub merge_second : NodeCounts → NodeCounts → (nodes merged : NodeCounts) → NodeCounts
merge_second a b [] merged = merged
merge_second a b ((node, n) ∷ nodes) merged =
    merge_second a b nodes
      (add_missing node (max (count_of node a) (count_of node b)) (lookup node merged) merged)

unfoldable pub merge_counts : NodeCounts → NodeCounts → NodeCounts
merge_counts a b = merge_second a b b (merge_first a b a [])

unfoldable pub merge : PnCounterState → PnCounterState → PnCounterState
merge a b = record {
  sku = a.sku;
  increments = merge_counts a.increments b.increments;
  decrements = merge_counts a.decrements b.decrements;
}
