-- ===== src/Returns/UseCases/ReceiveRma.antt =====
-- ReceiveRmaUseCase.execute of src/application/useCases/ManageReturns.ts, around its loop.
use gql_ddd_inventory.Prelude.{ℕ, List, [], ◌∷◌, ◌++◌, Result, ok, err, or_throw}
use gql_ddd_inventory.Prelude.Int.{pos_part}
use gql_ddd_inventory.Prelude.Maps.{Map, lookup, insert}
use gql_ddd_inventory.Prelude.Methods.{◌>>=◌, ◌>>◌, this, assign, lift}
use gql_ddd_inventory.Costing.Strategy.{CostingError}
use gql_ddd_inventory.Costing.Repository.{Rows, save_batch}
use gql_ddd_inventory.Costing.Service.Batch.{consume_fifo_layers_batch}
use gql_ddd_inventory.Returns.Item.{RmaDisposition, restock, scrap, quarantine}
use gql_ddd_inventory.Returns.Rma.{Rma}
use gql_ddd_inventory.Returns.Quarantine.{QuarantineItem}
use gql_ddd_inventory.Returns.UseCases.{
  UseCaseError, rma_not_found, costing_error, Repositories, UseCase,
}
use gql_ddd_inventory.Returns.UseCases.Receive.{
  ReceiveRmaItem, Context, Working, Line, with_skus, receive_lines, check_items,
}

abbrev pub loaded : Rma → Repositories → Working
loaded rma repos = record {
  rma = rma;
  stock = repos.stock;
  serials = repos.serials;
  items_to_save = [];
  layers = [];
  quarantined_items = [];
  entries = [];
}

-- `scrapItems`
abbrev scrap_item : RmaDisposition → ℕ × ℕ → List (ℕ × ℕ) → List (ℕ × ℕ)
scrap_item scrap item rest = item ∷ rest
scrap_item restock item rest = rest
scrap_item quarantine item rest = rest

unfoldable pub scrap_items : List Line → List (ℕ × ℕ)
scrap_items [] = []
scrap_items ((i, sku) ∷ ls) =
    scrap_item i.disposition (i.variant_id, pos_part i.quantity_received) (scrap_items ls)

abbrev pub charged_batch :
    Repositories → Result CostingError ℕ × Rows → Result UseCaseError (Unit {0}) × Repositories
charged_batch repos (ok total, rows) = (ok tt, record repos { layers = rows })
charged_batch repos (err e, rows) = (err (costing_error e), record repos { layers = rows })

abbrev pub consume_scrapped : List (ℕ × ℕ) → UseCase (Unit {0})
consume_scrapped [] repos = (ok tt, repos)
consume_scrapped (i ∷ is) repos =
    charged_batch repos (consume_fifo_layers_batch (i ∷ is) repos.layers)

unfoldable pub save_quarantined : List QuarantineItem → Map QuarantineItem → Map QuarantineItem
save_quarantined [] m = m
save_quarantined (q ∷ qs) m = save_quarantined qs (insert q.id q m)

-- The saves at the end.
abbrev pub save_received : Working → Repositories → Repositories
save_received w repos = record repos {
  rmas = insert w.rma.id w.rma repos.rmas;
  quarantine = save_quarantined w.quarantined_items repos.quarantine;
  stock = w.stock;
  layers = save_batch w.layers repos.layers;
  journal = repos.journal ++ w.entries;
  serials = w.serials;
}

unfoldable pub receive_rma : Context → (id : ℕ) → List ReceiveRmaItem → UseCase (Unit {0})
receive_rma c id items = do
  repos ← this
  rma ← lift (or_throw (lookup id repos.rmas) (rma_not_found id))
  lines ← lift (with_skus repos.sku_of items)
  w ← lift (receive_lines c lines (loaded rma repos))
  consume_scrapped (scrap_items lines)
  repos' ← this
  lift (check_items w.stock repos'.stock w.items_to_save)
  assign (save_received w repos')
