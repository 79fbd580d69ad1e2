-- ===== src/Costing/Service/Tests.antt =====
-- The service on three rows, two of them of one variant.
use gql_ddd_inventory.Prelude.{ℕ, ◌/◌, ◌*◌, ◌≡◌, refl, none, [], ◌∷◌, ok, err, arith, All}
use gql_ddd_inventory.Prelude.Maps.{lookup, values}
use gql_ddd_inventory.Costing.Layer.{InventoryCostLayer, IsValid, consume}
use gql_ddd_inventory.Costing.Sort.{sort, insert_sorted}
use gql_ddd_inventory.Costing.Strategy
use gql_ddd_inventory.Costing.Strategy.{
  fifo, weighted_average_cost, ordered_consume_layers, consume_loop, insufficient_layers,
}
use gql_ddd_inventory.Costing.Repository.{Rows, select, get_active_layers}
use gql_ddd_inventory.Costing.Repository.Loaded.{AreKeyed}
use gql_ddd_inventory.Costing.Service.{consume_layers, quote_cost, calculate_weighted_average}
use gql_ddd_inventory.Costing.Service.Conservation.{Charges, consume_layers-Charges}

abbrev row : (id variant quantity cost received_at : ℕ) → InventoryCostLayer
row i v q c at = record {
  id = i;
  variant_id = v;
  initial_quantity = q;
  unit_cost_cents = c;
  received_at = at;
  expiration_date = none;
  consumed_quantity = 0;
}

abbrev rows : Rows
rows = (1, row 1 1 10 200 50) ∷ (2, row 2 2 4 999 30) ∷ (3, row 3 1 6 150 20) ∷ []

-- Rounding down, in place of the double arithmetic.
abbrev whole_average : (quantity total_value total_units : ℕ) → ℕ
whole_average q v u = q * v / u

rows-AreKeyed : AreKeyed rows
unfolding lookup
rows-AreKeyed = (refl, refl, (refl, refl, (refl, refl, tt)))

rows-IsValid : All IsValid (values rows)
rows-IsValid = (ground arith, (ground arith, (ground arith, tt)))

-- Six at 150 and two at 200.
fifo_test :
    (consume_layers whole_average 1 8 weighted_average_cost rows).0
    ≡ ok (record { quantity = 8; total_cost_cents = 1300 })
unfolding consume_layers Strategy.consume_layers get_active_layers select sort insert_sorted
    ordered_consume_layers consume_loop consume
fifo_test = refl

-- The quote at the weighted average is 8 * 2900 / 16.
quote_test :
    quote_cost whole_average 1 8 weighted_average_cost rows
    ≡ ok (record { quantity = 8; total_cost_cents = 1450 })
unfolding quote_cost calculate_weighted_average get_active_layers select sort insert_sorted
quote_test = refl

too_many_test : (consume_layers whole_average 1 17 fifo rows).0 ≡ err insufficient_layers
unfolding consume_layers Strategy.consume_layers get_active_layers select sort insert_sorted
    ordered_consume_layers consume_loop consume
too_many_test = refl

consume_layers-Charges_example : Charges 1 8 rows (consume_layers whole_average 1 8 fifo rows)
consume_layers-Charges_example =
    consume_layers-Charges 1 8 rows rows-AreKeyed rows-IsValid whole_average fifo
