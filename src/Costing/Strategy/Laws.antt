-- ===== src/Costing/Strategy/Laws.antt =====
-- What the costing strategies promise.
use mathlib.Core.List.{Perm}
use gql_ddd_inventory.Prelude.{
  ℕ, suc, ◌+◌, ◌≤◌, ◌≡◌, refl, Bool, List, Result, ok, err, arith, ltb, sum_by, All, ◌⊎◌, inl, inr,
  Bool-cases, ltb→lt, ap,
}
use gql_ddd_inventory.Costing.Layer.{
  InventoryCostLayer, IsValid, remaining_quantity, remaining_cost_cents, CostBreakdown,
}
use gql_ddd_inventory.Costing.Sort.{
  sort, sort-perm, sort-IsSorted, IsSorted, IsOrder, sum_by-sort, All-sort, received_before,
  received_after, expires_before,
}
use gql_ddd_inventory.Costing.Strategy.{
  CostingError, CostingMethod, fifo, lifo, fefo, weighted_average_cost, specific_identification,
  insufficient_layers, insufficient_inventory, consume_loop, ordered_calculate_cost,
  ordered_consume_layers, weighted_calculate_cost, weighted_consume_layers, calculate_cost,
  consume_layers, priced,
}
use gql_ddd_inventory.Costing.Strategy.Loop.{
  calculate_loop-eq-consume_loop, consume_loop-Leaves, Leaves, UsedInOrder,
  consume_loop-UsedInOrder,
}

-- Quoting a cost and consuming the layers agree: for every costing method, on every list of layers,
-- `calculateCost` gives the breakdown or the error that `consumeLayers` gives.
pub calculate_cost-eq-consume_layers :
    (average : ℕ → ℕ → ℕ → ℕ) (method : CostingMethod) (layers : List InventoryCostLayer)
    (quantity : ℕ)
    → calculate_cost average method layers quantity
      ≡ (consume_layers average method layers quantity).0
unfolding calculate_cost consume_layers ordered_calculate_cost ordered_consume_layers
    weighted_consume_layers
calculate_cost-eq-consume_layers average fifo layers q =
    ap (λ x. priced q x.0 x.1) (calculate_loop-eq-consume_loop (sort received_before layers) q 0)
calculate_cost-eq-consume_layers average lifo layers q =
    ap (λ x. priced q x.0 x.1) (calculate_loop-eq-consume_loop (sort received_after layers) q 0)
calculate_cost-eq-consume_layers average fefo layers q =
    ap (λ x. priced q x.0 x.1) (calculate_loop-eq-consume_loop (sort expires_before layers) q 0)
calculate_cost-eq-consume_layers average weighted_average_cost layers q = ground arith
calculate_cost-eq-consume_layers average specific_identification layers q = refl

-- What a consumption of some layers does, as a whole.
abbrev pub Conserves :
    List InventoryCostLayer
    → ℕ
    → Result CostingError CostBreakdown × List InventoryCostLayer
    → Type 0
Conserves layers q (ok b, after) =
    (b.quantity ≡ q)
    × (sum_by remaining_quantity after + q ≡ sum_by remaining_quantity layers)
    × (sum_by remaining_cost_cents after + b.total_cost_cents ≡ sum_by remaining_cost_cents layers)
Conserves layers q (err e, after) =
    (e ≡ insufficient_layers)
    × (suc (sum_by remaining_quantity layers) ≤ q)
    × (sum_by remaining_quantity after ≡ 0)

Conserves-of :
    (layers sorted after : List InventoryCostLayer) (q r c : ℕ)
    → Leaves sorted q 0 r c after
    → sum_by remaining_quantity sorted ≡ sum_by remaining_quantity layers
    → sum_by remaining_cost_cents sorted ≡ sum_by remaining_cost_cents layers
    → Conserves layers q (priced q r c, after)
Conserves-of layers sorted after q r c h stock value = elim (Bool-cases (ltb 0 r)) [
  | inl e ↦
      let some_left : suc 0 ≤ r = ltb→lt 0 r e in
      let empty : sum_by remaining_quantity after ≡ 0 = elim h.used_up [
        | inl z ↦ absurd (omega arith)
        | inr z ↦ z
      ] in
      rw e (refl, omega (arith, h.stock), empty)
  | inr e ↦
      let done : r ≡ 0 = ground arith in rw e (refl, omega (arith, h.stock), omega (arith, h.value))
]

-- In whatever order layers are taken: where they hold the quantity wanted, consuming returns, takes
-- exactly that quantity out of them, and its cost is exactly the value that they lose. Where they
-- hold less, it throws `insufficient`, and has by then used up every layer in memory. The layers
-- must not be overdrawn at the start.
pub ordered_consume_layers-Conserves :
    (before : InventoryCostLayer → InventoryCostLayer → Bool) (layers : List InventoryCostLayer)
    (q : ℕ)
    → All IsValid layers
    → Conserves layers q (ordered_consume_layers before layers q)
unfolding ordered_consume_layers
ordered_consume_layers-Conserves before layers q v =
    Conserves-of layers (sort before layers) _ q _ _
      (consume_loop-Leaves (sort before layers) q 0 (All-sort before IsValid layers v))
      (sum_by-sort before remaining_quantity layers)
      (sum_by-sort before remaining_cost_cents layers)

-- Where the comparator is an order, the layers are taken as a sorted rearrangement of those given, and
-- each is used up before the next one is touched.
pub ordered_consume_layers-UsedInOrder :
    (before : InventoryCostLayer → InventoryCostLayer → Bool)
    → IsOrder before
    → (layers : List InventoryCostLayer) (q : ℕ)
    → (taken : List InventoryCostLayer) × Perm taken layers
      × IsSorted before taken
      × UsedInOrder taken (ordered_consume_layers before layers q).1
unfolding ordered_consume_layers
ordered_consume_layers-UsedInOrder before o layers q = (
  sort before layers,
  sort-perm before layers,
  sort-IsSorted before o layers,
  consume_loop-UsedInOrder (sort before layers) q 0,
)

enough-cases : (u q : ℕ) → ((suc 0 ≤ u) × (q ≤ u)) ⊎ ((u ≡ 0) ⊎ (suc u ≤ q))
enough-cases u q = ground arith

fifo_stock :
    (layers : List InventoryCostLayer) (q : ℕ)
    → All IsValid layers
    → q ≤ sum_by remaining_quantity layers
    → sum_by remaining_quantity (consume_loop (sort received_before layers) q 0).2 + q
      ≡ sum_by remaining_quantity layers
fifo_stock layers q v c =
    let h =
      consume_loop-Leaves (sort received_before layers) q 0
        (All-sort received_before IsValid layers v) in
    let stock = sum_by-sort received_before remaining_quantity layers in
    elim h.used_up [
      | inl z ↦ omega (arith, h.stock, stock, z)
      | inr z ↦ omega (arith, h.stock, stock, z)
    ]

-- The weighted average: it returns exactly where there is stock and it covers the quantity, and then
-- leaves the layers as FIFO does, with that quantity taken out of them; otherwise it throws and has
-- changed no layer. Whatever the double arithmetic gives is the cost. The layers must not be
-- overdrawn at the start.
weighted_consume_layers_lem :
    (average : ℕ → ℕ → ℕ → ℕ) (layers : List InventoryCostLayer) (q : ℕ)
    → All IsValid layers
    → let units = sum_by remaining_quantity layers in
      let (r, after) = weighted_consume_layers average layers q in
      ((suc 0 ≤ units)
        × (q ≤ units)
        × (r
            ≡ ok (record {
              quantity = q;
              total_cost_cents = average q (sum_by remaining_cost_cents layers) units;
            }))
        × (after ≡ (ordered_consume_layers received_before layers q).1)
        × (sum_by remaining_quantity after + q ≡ units))
      ⊎ (((units ≡ 0) ⊎ (suc units ≤ q)) × (r ≡ err insufficient_inventory) × (after ≡ layers))
unfolding weighted_consume_layers weighted_calculate_cost ordered_consume_layers
weighted_consume_layers_lem average layers q v =
    elim (enough-cases (sum_by remaining_quantity layers) q) [
      | inl (p, c) ↦ inl (p, c, ground arith, ground arith, ground (arith, fifo_stock layers q v c))
      | inr n ↦ inr (n, ground arith, ground arith)
    ]
