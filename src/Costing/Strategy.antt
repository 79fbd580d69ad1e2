-- ===== src/Costing/Strategy.antt =====
-- src/domain/strategies: FifoCostingStrategy, LifoCostingStrategy, FefoCostingStrategy and
-- WeightedAverageCostingStrategy, and CostingStrategyRegistry. A call that consumes layers returns them in
-- the order that it took them, as they are after it, also when it throws: they are objects that the
-- caller shares.
pub mod Loop
pub mod Laws
use gql_ddd_inventory.Prelude.{
  ℕ, ◌+◌, ◌-◌, ◌*◌, ◌<◌, ◌≡◌, Bool, Option, none, some, List, [], ◌∷◌, Result, ok, err, ◌==◌, ltb,
  min, ◌||◌, if◌then◌else◌, sum_by,
}
use gql_ddd_inventory.Costing.Layer.{
  InventoryCostLayer, remaining_quantity, remaining_cost_cents, consume, CostBreakdown,
}
use gql_ddd_inventory.Costing.Sort.{sort, received_before, received_after, expires_before}

pub data CostingMethod : Type 0 where
  fifo lifo weighted_average_cost specific_identification fefo : CostingMethod

pub data CostingError : Type 0 where
  insufficient_layers insufficient_inventory : CostingError
  unsupported_method : CostingMethod → CostingError
  requires_serial_numbers : CostingError

-- The loop of `calculateCost`: what remains to be priced, and the cost so far.
unfoldable pub calculate_loop : List InventoryCostLayer → (remaining total_cost : ℕ) → ℕ × ℕ
calculate_loop [] remaining total = (remaining, total)
calculate_loop (layer ∷ layers) remaining total =
    let consumed = min remaining (remaining_quantity layer) in
    let rest =
      calculate_loop layers (remaining - consumed) (total + consumed * layer.unit_cost_cents) in
    if remaining == 0 then (remaining, total) else rest

-- The loop of `consumeLayers`, which changes the layers that it takes from.
unfoldable pub consume_loop :
    List InventoryCostLayer → (remaining total_cost : ℕ) → ℕ × ℕ × List InventoryCostLayer
consume_loop [] remaining total = (remaining, total, [])
consume_loop (layer ∷ layers) remaining total =
    let (consumed, layer') = consume remaining layer in
    let (r, c, rest) =
      consume_loop layers (remaining - consumed) (total + consumed * layer.unit_cost_cents) in
    if remaining == 0 then (remaining, total, layer ∷ layers) else (r, c, layer' ∷ rest)

-- The end of both calls.
abbrev pub priced : (quantity remaining total_cost : ℕ) → Result CostingError CostBreakdown
priced quantity remaining total =
    if ltb 0 remaining
    then err insufficient_layers
    else ok (record { quantity = quantity; total_cost_cents = total })

-- The three strategies that take the layers in an order.
module _ (before : InventoryCostLayer → InventoryCostLayer → Bool) where
  unfoldable pub ordered_calculate_cost :
      List InventoryCostLayer → ℕ → Result CostingError CostBreakdown
  ordered_calculate_cost layers quantity =
      let (remaining, total) = calculate_loop (sort before layers) quantity 0 in
      priced quantity remaining total

  unfoldable pub ordered_consume_layers :
      List InventoryCostLayer → ℕ → Result CostingError CostBreakdown × List InventoryCostLayer
  ordered_consume_layers layers quantity =
      let (remaining, total, sorted) = consume_loop (sort before layers) quantity 0 in
      (priced quantity remaining total, sorted)

-- The methods of `LifoCostingStrategy` and `FefoCostingStrategy`, whose loops are those of FIFO.
abbrev pub lifo_calculate_cost : List InventoryCostLayer → ℕ → Result CostingError CostBreakdown
lifo_calculate_cost = ordered_calculate_cost received_after

abbrev pub lifo_consume_layers :
    List InventoryCostLayer → ℕ → Result CostingError CostBreakdown × List InventoryCostLayer
lifo_consume_layers = ordered_consume_layers received_after

abbrev pub fefo_calculate_cost : List InventoryCostLayer → ℕ → Result CostingError CostBreakdown
fefo_calculate_cost = ordered_calculate_cost expires_before

abbrev pub fefo_consume_layers :
    List InventoryCostLayer → ℕ → Result CostingError CostBreakdown × List InventoryCostLayer
fefo_consume_layers = ordered_consume_layers expires_before

-- `Math.round(quantity * (totalValue / totalUnits))`, in double arithmetic.
module _ (average : (quantity total_value total_units : ℕ) → ℕ) where
  -- `WeightedAverageCostingStrategy.calculateCost`
  unfoldable pub weighted_calculate_cost :
      List InventoryCostLayer → ℕ → Result CostingError CostBreakdown
  weighted_calculate_cost layers quantity =
      let units = sum_by remaining_quantity layers in
      let value = sum_by remaining_cost_cents layers in
      if units == 0 || ltb units quantity
      then err insufficient_inventory
      else ok (record { quantity = quantity; total_cost_cents = average quantity value units })

  -- `WeightedAverageCostingStrategy.consumeLayers`: its cost is the average, its loop that of FIFO.
  unfoldable pub weighted_consume_layers :
      List InventoryCostLayer → ℕ → Result CostingError CostBreakdown × List InventoryCostLayer
  weighted_consume_layers layers quantity =
      let (remaining, total, sorted) = consume_loop (sort received_before layers) quantity 0 in
      elim (weighted_calculate_cost layers quantity) [
        | err e ↦ (err e, layers)
        | ok breakdown ↦ (ok breakdown, sorted)
      ]

  -- `CostingStrategyRegistry.get(method)`, with the two methods of what it returns.
  unfoldable pub calculate_cost :
      CostingMethod → List InventoryCostLayer → ℕ → Result CostingError CostBreakdown
  calculate_cost fifo = ordered_calculate_cost received_before
  calculate_cost lifo = lifo_calculate_cost
  calculate_cost fefo = fefo_calculate_cost
  calculate_cost weighted_average_cost = weighted_calculate_cost
  calculate_cost specific_identification = λ _ _. err (unsupported_method specific_identification)

  unfoldable pub consume_layers :
      CostingMethod
      → List InventoryCostLayer
      → ℕ
      → Result CostingError CostBreakdown × List InventoryCostLayer
  consume_layers fifo = ordered_consume_layers received_before
  consume_layers lifo = lifo_consume_layers
  consume_layers fefo = fefo_consume_layers
  consume_layers weighted_average_cost = weighted_consume_layers
  consume_layers specific_identification =
      λ layers _. (err (unsupported_method specific_identification), layers)
