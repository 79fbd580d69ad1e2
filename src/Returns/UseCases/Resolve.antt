-- ===== src/Returns/UseCases/Resolve.antt =====
-- ResolveQuarantineItemUseCase of src/application/useCases/ManageReturns.ts. What it changes in memory is
-- stored at the end; the layers, the journal and the requests for approval are stored on the way.
use gql_ddd_inventory.Prelude.{
  ℕ, ◌+◌, ◌-◌, ◌*◌, Option, none, some, List, [], ◌∷◌, Result, ok, err, or_throw, ◌==◌, ltb, min,
  if◌then◌else◌,
}
use gql_ddd_inventory.Prelude.Int.{pos}
use gql_ddd_inventory.Prelude.Maps.{lookup, insert, get_or}
use gql_ddd_inventory.Prelude.Methods.{◌>>=◌, ◌>>◌, return, this, assign, lift, kept}
use gql_ddd_inventory.Stock.Quantity.{pieces}
use gql_ddd_inventory.Stock.Item.{
  InventoryItem, StockError, new_inventory_item, receive_stock, dispatch_stock,
}
use gql_ddd_inventory.Costing.Layer.{InventoryCostLayer, CostBreakdown, remaining_quantity}
use gql_ddd_inventory.Costing.Strategy.{CostingError, fifo}
use gql_ddd_inventory.Costing.Repository.{Rows, received_ascending, get_active_layers}
use gql_ddd_inventory.Costing.Service.{consume_layers}
use gql_ddd_inventory.Journal.{
  JournalEntry, JournalError, Build, record_entry, build_inventory_write_off,
  build_return_to_vendor,
}
use gql_ddd_inventory.Approval.Workflow.{ApprovalWorkflow, Payload}
use gql_ddd_inventory.Approval.Service.{Repository, ServiceError, evaluate_and_intercept}
use gql_ddd_inventory.Returns.Quarantine.{
  QuarantineItem, QuarantineError, resolve_restock, resolve_scrap, resolve_rtv,
}
use gql_ddd_inventory.Returns.UseCases.{
  UseCaseError, quarantine_item_not_found, sku_not_found, quarantine_stock_not_found,
  requires_approval, quarantine_error, stock_error, costing_error, journal_error, approval_error,
  Repositories, UseCase,
}

pub data Resolution : Type 0 where
  restock scrap rtv : Resolution

-- The approval service with the caller's tenant and identity, where all are given: the workflow that
-- the trigger `inventory.write_off` has, and the payload of an estimate and a quantity.
pub record Interceptor : Type 0 where
  pub actor_id : ℕ
  pub workflow : Option ApprovalWorkflow
  pub payload : (total_cost_cents quantity : ℕ) → Payload

-- What a call is given besides the item: when, the new random identifiers, and the name of the place
-- `${location}-quarantine`.
pub record Context : Type 0 where
  pub now : ℕ
  pub request_uuid : ℕ
  pub item_uuid : ℕ
  pub entry_uuid : ℕ
  pub quarantine_of : (location : ℕ) → ℕ
  pub interceptor : Option Interceptor

-- The loop that estimates the cost, over what remains to be priced and the cost so far.
unfoldable pub estimate_loop : List InventoryCostLayer → (qty_remaining estimate : ℕ) → ℕ
estimate_loop [] remaining estimate = estimate
estimate_loop (layer ∷ layers) remaining estimate =
    let consumed = min (remaining_quantity layer) remaining in
    let taken =
      estimate_loop layers (remaining - consumed) (estimate + consumed * layer.unit_cost_cents) in
    let passed = estimate_loop layers remaining estimate in
    if remaining == 0 then estimate else if ltb 0 (remaining_quantity layer) then taken else passed

abbrev pub of_stock : {A : Type 0} → Result StockError A → Result UseCaseError A
of_stock (ok a) = ok a
of_stock (err e) = err (stock_error e)

abbrev pub of_quarantine : {A : Type 0} → Result QuarantineError A → Result UseCaseError A
of_quarantine (ok a) = ok a
of_quarantine (err e) = err (quarantine_error e)

-- Whether the service intercepted, and what its repository holds then.
abbrev pub stopped_by :
    Repositories
    → Result ServiceError (Option ℕ) × Repository
    → Result UseCaseError (Unit {0}) × Repositories
stopped_by repos (ok none, a) = (ok tt, record repos { approvals = a })
stopped_by repos (ok (some r), a) = (err (requires_approval r), record repos { approvals = a })
stopped_by repos (err e, a) = (err (approval_error e), record repos { approvals = a })

abbrev pub intercept_with : Context → QuarantineItem → Option Interceptor → UseCase (Unit {0})
intercept_with c q none repos = (ok tt, repos)
intercept_with c q (some i) repos =
    let layers = get_active_layers q.variant_id received_ascending repos.layers in
    stopped_by repos (
      evaluate_and_intercept c.request_uuid c.now i.actor_id i.workflow
        (i.payload (estimate_loop layers q.quantity 0) q.quantity) repos.approvals)

unfoldable pub intercept : Context → QuarantineItem → Resolution → UseCase (Unit {0})
intercept c q scrap = intercept_with c q c.interceptor
intercept c q restock = return tt
intercept c q rtv = return tt

abbrev pub save_item : (location sku : ℕ) → InventoryItem → Repositories → Repositories
save_item location sku item repos = record repos {
  stock = λ l. if l == location then insert sku item (repos.stock l) else repos.stock l;
}

abbrev pub save_quarantine : QuarantineItem → Repositories → Repositories
save_quarantine q repos = record repos { quarantine = insert q.id q repos.quarantine }

abbrev pub charged :
    Repositories → Result CostingError CostBreakdown × Rows → Result UseCaseError ℕ × Repositories
charged repos (ok b, rows) = (ok b.total_cost_cents, record repos { layers = rows })
charged repos (err e, rows) = (err (costing_error e), record repos { layers = rows })

abbrev pub journaled :
    Repositories
    → Result JournalError JournalEntry × List JournalEntry
    → Result UseCaseError (Unit {0}) × Repositories
journaled repos (ok e, entries) = (ok tt, record repos { journal = entries })
journaled repos (err e, entries) = (err (journal_error e), record repos { journal = entries })

module _ (average : (quantity total_value total_units : ℕ) → ℕ) (c : Context) where
  -- `consumeQuarantineLayers`
  abbrev pub consume_quarantine_layers : QuarantineItem → UseCase ℕ
  consume_quarantine_layers q repos =
      charged repos (consume_layers average q.variant_id q.quantity fifo repos.layers)

  abbrev pub record_cost : Build → QuarantineItem → ℕ → UseCase (Unit {0})
  record_cost build q cost repos =
      journaled repos
        (record_entry build c.entry_uuid q.tenant_id c.now (some q.id) (pos cost) repos.journal)

  -- The layers and the journal, for goods that leave.
  abbrev pub write_out : Build → QuarantineItem → UseCase (Unit {0})
  write_out build q = do cost ← consume_quarantine_layers q; record_cost build q cost

  -- The branches of the resolution, up to the end. `held` is the quarantined stock after its dispatch.
  unfoldable pub settle :
      Resolution → (sku : ℕ) → InventoryItem → QuarantineItem → UseCase (Unit {0})
  settle restock sku held q = do
    repos ← this
    q' ← lift (of_quarantine (kept (resolve_restock c.now q)))
    let here = repos.stock q.location_id
    let item = get_or (lookup sku here) (new_inventory_item c.item_uuid sku q.location_id)
    item' ← lift (of_stock (kept (receive_stock (pieces q.quantity) item)))
    let place = c.quarantine_of q.location_id
    assign (save_quarantine q' (save_item q.location_id sku item' (save_item place sku held repos)))
  settle scrap sku held q = do
    q' ← lift (of_quarantine (kept (resolve_scrap c.now q)))
    write_out build_inventory_write_off q
    repos ← this
    assign (save_quarantine q' (save_item (c.quarantine_of q.location_id) sku held repos))
  settle rtv sku held q = do
    q' ← lift (of_quarantine (kept (resolve_rtv c.now q)))
    write_out build_return_to_vendor q
    repos ← this
    assign (save_quarantine q' (save_item (c.quarantine_of q.location_id) sku held repos))

  unfoldable pub resolve_quarantine_item : (id : ℕ) → Resolution → UseCase (Unit {0})
  resolve_quarantine_item id resolution = do
    repos ← this
    q ← lift (or_throw (lookup id repos.quarantine) (quarantine_item_not_found id))
    sku ← lift (or_throw (repos.sku_of q.variant_id) (sku_not_found q.variant_id))
    intercept c q resolution
    let place = c.quarantine_of q.location_id
    item ←
        lift (
          or_throw (lookup sku (repos.stock place)) (quarantine_stock_not_found q.variant_id place))
    held ← lift (of_stock (kept (dispatch_stock (pieces q.quantity) item)))
    settle resolution sku held q
