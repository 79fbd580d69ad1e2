-- ===== src/Costing/Service.antt =====
-- src/domain/services/CostLayerService.ts over the rows of its repository.
pub mod Conservation
pub mod Batch
mod Tests
use gql_ddd_inventory.Prelude.{
  ℕ, ◌+◌, ◌-◌, ◌*◌, ◌≡◌, Bool, true, false, ◌||◌, ◌&&◌, Option, none, some, List, [], ◌∷◌, ◌++◌,
  Result, ok, err, ◌==◌, sum_by, if◌then◌else◌, length,
}
use gql_ddd_inventory.Prelude.Maps.{Map, lookup, insert, get_or}
use gql_ddd_inventory.Costing.Layer.{
  InventoryCostLayer, CostBreakdown, remaining_quantity, remaining_cost_cents,
}
use gql_ddd_inventory.Costing.Strategy
use gql_ddd_inventory.Costing.Strategy.{
  CostingMethod, fifo, lifo, fefo, weighted_average_cost, specific_identification, CostingError,
  insufficient_inventory, requires_serial_numbers,
}
use gql_ddd_inventory.Costing.Repository.{
  Rows, OrderBy, received_ascending, received_descending, expiration_ascending, get_active_layers,
  save_batch,
}

abbrev pub order_of : CostingMethod → OrderBy
order_of fefo = expiration_ascending
order_of lifo = received_descending
order_of _ = received_ascending

module _ (average : (quantity total_value total_units : ℕ) → ℕ) where
  -- `calculateWeightedAverageCostSync`
  unfoldable pub calculate_weighted_average :
      List InventoryCostLayer → ℕ → Result CostingError CostBreakdown
  calculate_weighted_average layers quantity =
      let units = sum_by remaining_quantity layers in
      let value = sum_by remaining_cost_cents layers in
      if units == 0
      then err insufficient_inventory
      else ok (record { quantity = quantity; total_cost_cents = average quantity value units })

  -- `calculateCost`
  unfoldable pub quote_cost :
      (variant quantity : ℕ) → CostingMethod → Rows → Result CostingError CostBreakdown
  quote_cost variant quantity specific_identification rows = err requires_serial_numbers
  quote_cost variant quantity weighted_average_cost rows =
      calculate_weighted_average (get_active_layers variant received_ascending rows) quantity
  quote_cost variant quantity fifo rows =
      Strategy.calculate_cost average fifo (get_active_layers variant received_ascending rows)
        quantity
  quote_cost variant quantity lifo rows =
      Strategy.calculate_cost average lifo (get_active_layers variant received_descending rows)
        quantity
  quote_cost variant quantity fefo rows =
      Strategy.calculate_cost average fefo (get_active_layers variant expiration_ascending rows)
        quantity

  abbrev pub saved :
      Rows
      → Result CostingError CostBreakdown × List InventoryCostLayer
      → Result CostingError CostBreakdown × Rows
  saved rows (ok b, layers) = (ok b, save_batch layers rows)
  saved rows (err e, layers) = (err e, rows)

  abbrev consume_with :
      (variant quantity : ℕ) → CostingMethod → Rows → Result CostingError CostBreakdown × Rows
  consume_with variant quantity method rows = saved rows (
      Strategy.consume_layers average method (get_active_layers variant (order_of method) rows)
        quantity)

  -- `consumeLayers`: at the weighted average it consumes, and charges, as FIFO does.
  unfoldable pub consume_layers :
      (variant quantity : ℕ) → CostingMethod → Rows → Result CostingError CostBreakdown × Rows
  consume_layers variant quantity specific_identification rows = (err requires_serial_numbers, rows)
  consume_layers variant quantity weighted_average_cost rows =
      consume_with variant quantity fifo rows
  consume_layers variant quantity fifo rows = consume_with variant quantity fifo rows
  consume_layers variant quantity lifo rows = consume_with variant quantity lifo rows
  consume_layers variant quantity fefo rows = consume_with variant quantity fefo rows
