-- ===== src/Costing/Tests.antt =====
-- Costing on two layers.
use mathlib.Core.List.{Perm}
use gql_ddd_inventory.Prelude.{ℕ, ◌*◌, ◌/◌, ◌≡◌, refl, none, List, [], ◌∷◌, ok, err, arith, All}
use gql_ddd_inventory.Costing.Layer.{InventoryCostLayer, IsValid}
use gql_ddd_inventory.Costing.Sort.{
  received_before, received_after, received_before-IsOrder, IsSorted, sort, insert_sorted,
}
use gql_ddd_inventory.Costing.Strategy.{
  fifo, insufficient_layers, calculate_cost, consume_layers, ordered_calculate_cost,
  ordered_consume_layers, calculate_loop,
}
use gql_ddd_inventory.Costing.Strategy.Loop.{UsedInOrder}
use gql_ddd_inventory.Costing.Strategy.Laws.{
  calculate_cost-eq-consume_layers, Conserves, ordered_consume_layers-Conserves,
  ordered_consume_layers-UsedInOrder,
}

abbrev layer : (id quantity cost received_at : ℕ) → InventoryCostLayer
layer i q c at = record {
  id = i;
  variant_id = 1;
  initial_quantity = q;
  unit_cost_cents = c;
  received_at = at;
  expiration_date = none;
  consumed_quantity = 0;
}

abbrev two_layers : List InventoryCostLayer
two_layers = layer 1 10 200 50 ∷ layer 2 6 150 20 ∷ []

-- Rounding down, in place of the double arithmetic.
abbrev whole_average : (quantity total_value total_units : ℕ) → ℕ
whole_average q v u = q * v / u

two_layers-IsValid : All IsValid two_layers
two_layers-IsValid = (ground arith, (ground arith, tt))

fifo_test :
    ordered_calculate_cost received_before two_layers 8
    ≡ ok (record { quantity = 8; total_cost_cents = 1300 })
unfolding ordered_calculate_cost calculate_loop sort insert_sorted
fifo_test = refl

lifo_test :
    ordered_calculate_cost received_after two_layers 8
    ≡ ok (record { quantity = 8; total_cost_cents = 1600 })
unfolding ordered_calculate_cost calculate_loop sort insert_sorted
lifo_test = refl

too_many_test : ordered_calculate_cost received_before two_layers 17 ≡ err insufficient_layers
unfolding ordered_calculate_cost calculate_loop sort insert_sorted
too_many_test = refl

calculate_cost-eq-consume_layers_example :
    calculate_cost whole_average fifo two_layers 8
    ≡ (consume_layers whole_average fifo two_layers 8).0
calculate_cost-eq-consume_layers_example =
    calculate_cost-eq-consume_layers whole_average fifo two_layers 8

ordered_consume_layers-Conserves_example :
    Conserves two_layers 8 (ordered_consume_layers received_before two_layers 8)
ordered_consume_layers-Conserves_example =
    ordered_consume_layers-Conserves received_before two_layers 8 two_layers-IsValid

ordered_consume_layers-UsedInOrder_example :
    (taken : List InventoryCostLayer) × Perm taken two_layers
    × IsSorted received_before taken
    × UsedInOrder taken (ordered_consume_layers received_before two_layers 8).1
ordered_consume_layers-UsedInOrder_example =
    ordered_consume_layers-UsedInOrder received_before received_before-IsOrder two_layers 8
