-- ===== src/Transfer/UseCases/Execute.antt =====
-- The `execute` methods of src/application/useCases/ManageStockTransfers.ts, from the lookup of the
-- transfer to its save. `saveBatch` throws before it stores anything. The stock is saved before the ledger is written, and the transfer last.
use gql_ddd_inventory.Prelude.{ℕ, true, false, ◌++◌, Result, or_throw}
use gql_ddd_inventory.Prelude.Maps.{lookup}
use gql_ddd_inventory.Prelude.Methods.{◌>>=◌, ◌>>◌, return, this, assign, lift, kept}
use gql_ddd_inventory.Transfer.Entity.{StockTransfer, dispatched, is, dispatch, receive, cancel}
use gql_ddd_inventory.Transfer.UseCases.{
  Context, UseCaseError, transfer_not_found, of_transfer, resolve, Working, Line, each_line,
  dispatch_line, receive_line, cancel_line, ledger_entries, Execution, check_versions, loaded,
  save_stock, save_transfer,
}

module _ (c : Context) where
  -- From `inventoryRepo.saveBatch` to `transferRepo.save`.
  unfoldable pub store : StockTransfer → Working → Execution
  store t w = do
    repos ← this
    lift (check_versions t w repos w.items_to_save)
    assign (save_stock t w repos)
    entries ← lift (ledger_entries c repos.variant_of w.movements)
    assign (record (save_stock t w repos) { ledger = repos.ledger ++ entries })
    assign (save_transfer t (record (save_stock t w repos) { ledger = repos.ledger ++ entries }))
    return t

  -- The lookups and the loop over the items, and then the saves.
  unfoldable pub move_stock :
      (StockTransfer → Line → Working → Result UseCaseError Working) → StockTransfer → Execution
  unfolding store
  move_stock step t = do
    repos ← this
    lines ← lift (resolve repos.sku_of t.items)
    w ← lift (each_line (step t) lines (loaded repos t))
    store t w

  find_transfer : ℕ → Execution
  find_transfer id = do
    repos ← this
    lift (or_throw (lookup id repos.transfers) (transfer_not_found id))

  -- `DispatchStockTransferUseCase.execute`
  unfoldable pub execute_dispatch : (transfer_id : ℕ) → Execution
  unfolding find_transfer
  execute_dispatch id = do
    t ← find_transfer id
    t' ← lift (of_transfer (kept (dispatch c.now t)))
    move_stock (λ x. dispatch_line c.uuid x.source_location_id x.destination_location_id) t'

  -- `ReceiveStockTransferUseCase.execute`
  unfoldable pub execute_receive : (transfer_id : ℕ) → Execution
  unfolding find_transfer
  execute_receive id = do
    t ← find_transfer id
    t' ← lift (of_transfer (kept (receive c.now t)))
    move_stock (λ x. receive_line c.uuid x.source_location_id x.destination_location_id) t'

  -- `CancelStockTransferUseCase.execute`: only a dispatched transfer has stock to put back.
  unfoldable pub execute_cancel : (transfer_id : ℕ) → Execution
  unfolding find_transfer
  execute_cancel id = do
    t ← find_transfer id
    t' ← lift (of_transfer (kept (cancel t)))
    elim (is t.status dispatched) [
      | true ↦
          move_stock (λ x. cancel_line c.uuid x.source_location_id x.destination_location_id) t'
      | false ↦ do repos ← this; assign (save_transfer t' repos); return t'
    ]
