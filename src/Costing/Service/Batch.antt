-- ===== src/Costing/Service/Batch.antt =====
-- consumeLayersBatch and consumeFifoLayersBatch of src/domain/services/CostLayerService.ts, as the latter
-- calls the former: with no map of methods, so that all lines are one group. The layers that several
-- lines of a variant took from are saved once for each, as the last of them left them.
use gql_ddd_inventory.Prelude.{ℕ, ◌+◌, List, [], ◌∷◌, ◌++◌, Result, ok, err, ◌==◌, if◌then◌else◌}
use gql_ddd_inventory.Costing.Layer.{InventoryCostLayer, CostBreakdown}
use gql_ddd_inventory.Costing.Sort.{received_before}
use gql_ddd_inventory.Costing.Strategy.{CostingError, ordered_consume_layers}
use gql_ddd_inventory.Costing.Repository.{Rows, received_ascending, get_active_layers, save_batch}

-- What follows a line that is consumed.
abbrev after_line :
    {A : Type 0}
    → Result CostingError CostBreakdown × List InventoryCostLayer
    → (CostBreakdown → List InventoryCostLayer → Result CostingError A)
    → Result CostingError A
after_line (ok b, sorted) rest = rest b sorted
after_line (err e, sorted) rest = err e

-- The loop over the lines, with the layers of each variant as the lines so far left them, the cost, and
-- the layers to save. The layers come in the order by which the strategy sorts them.
unfoldable pub consume_each :
    (active : (variant : ℕ) → List InventoryCostLayer)
    → (total_cost_cents : ℕ) → (to_save : List InventoryCostLayer) → List (ℕ × ℕ)
    → Result CostingError (ℕ × List InventoryCostLayer)
consume_each active total to_save [] = ok (total, to_save)
consume_each active total to_save ((variant, quantity) ∷ lines) =
    after_line (ordered_consume_layers received_before (active variant) quantity) (λ b sorted.
      consume_each (λ v. if v == variant then sorted else active v) (total + b.total_cost_cents)
        (to_save ++ sorted) lines)

abbrev pub saved_batch :
    Rows → Result CostingError (ℕ × List InventoryCostLayer) → Result CostingError ℕ × Rows
saved_batch rows (ok (total, layers)) = (ok total, save_batch layers rows)
saved_batch rows (err e) = (err e, rows)

-- The batch query gives each variant the layers that its own query does.
unfoldable pub consume_fifo_layers_batch : List (ℕ × ℕ) → Rows → Result CostingError ℕ × Rows
consume_fifo_layers_batch lines rows =
    saved_batch rows (consume_each (λ v. get_active_layers v received_ascending rows) 0 [] lines)
