-- ===== src/Returns/UseCases.antt =====
-- The use cases of src/application/useCases/ManageReturns.ts: what their repositories hold, and those
-- that change a return authorisation only. A repository hands out copies and stores copies.
pub mod Resolve
pub mod Receive
pub mod LineParts
pub mod ReceiveLine
pub mod ReceiveRma
pub mod Receipt
pub mod Returning
mod Tests
pub mod WriteOut
pub mod Estimate
pub mod Settling
pub mod Resolution
use gql_ddd_inventory.Prelude.{
  ℕ, ◌≡◌, Bool, true, false, Option, none, some, List, [], ◌∷◌, Result, ok, err, or_throw, ◌==◌,
  if◌then◌else◌,
}
use gql_ddd_inventory.Prelude.Int.{ℤ, pos}
use gql_ddd_inventory.Prelude.Maps.{Map, lookup, insert, values}
use gql_ddd_inventory.Prelude.Methods.{
  Method, ◌>>=◌, ◌>>◌, return, this, assign, lift, reject_if, kept,
}
use gql_ddd_inventory.Stock.Item.{InventoryItem, StockError}
use gql_ddd_inventory.Costing.Repository.{Rows}
use gql_ddd_inventory.Costing.Strategy.{CostingError}
use gql_ddd_inventory.Journal.{JournalEntry, JournalError}
use gql_ddd_inventory.Approval.Service.{Repository}
use gql_ddd_inventory.Approval.Service
use gql_ddd_inventory.Serial.{SerializedItem, SerialError}
use gql_ddd_inventory.Costing.Layer.{LayerError}
use gql_ddd_inventory.Returns.Item.{RmaItem, RmaItemError, pending, new_rma_item}
use gql_ddd_inventory.Returns.Rma.{Rma, RmaError, new_rma, authorize}
use gql_ddd_inventory.Returns.Quarantine.{QuarantineItem, QuarantineError}

pub data UseCaseError : Type 0 where
  rma_exists : (rma_number : ℕ) → UseCaseError
  rma_not_found quarantine_item_not_found : (id : ℕ) → UseCaseError
  sku_not_found : (variant : ℕ) → UseCaseError
  quarantine_stock_not_found : (variant location : ℕ) → UseCaseError
  item_not_in_rma : (variant : ℕ) → UseCaseError
  requires_approval : (request : ℕ) → UseCaseError
  rma_error : RmaError → UseCaseError
  item_error : RmaItemError → UseCaseError
  quarantine_error : QuarantineError → UseCaseError
  stock_error : StockError → UseCaseError
  costing_error : CostingError → UseCaseError
  layer_error : LayerError → UseCaseError
  serial_error : SerialError → UseCaseError
  journal_error : JournalError → UseCaseError
  concurrency_error : (sku location : ℕ) → UseCaseError
  approval_error : Service.ServiceError → UseCaseError

-- What the repositories hold; inventory items by location and SKU, and serialized ones, none where
-- their repository is not given, by variant and serial number.
pub record Repositories : Type 0 where
  pub rmas : Map Rma
  pub quarantine : Map QuarantineItem
  pub stock : (location : ℕ) → Map InventoryItem
  pub layers : Rows
  pub journal : List JournalEntry
  pub approvals : Repository
  pub serials : (variant : ℕ) → Map SerializedItem
  pub sku_of : (variant : ℕ) → Option ℕ

abbrev pub UseCase : Type 0 → Type 0
UseCase A = Method Repositories UseCaseError A

-- An element of `dto.items`.
pub record CreateRmaItem : Type 0 where
  pub id : ℕ
  pub variant_id : ℕ
  pub quantity : ℤ
  pub unit_cost_cents : ℤ

abbrev and_then :
    Result RmaItemError RmaItem
    → Result UseCaseError (List RmaItem)
    → Result UseCaseError (List RmaItem)
and_then (ok i) (ok is) = ok (i ∷ is)
and_then (ok i) (err e) = err e
and_then (err e) _ = err (item_error e)

-- The items of a new return authorisation, under new random identifiers.
unfoldable pub new_rma_items : List CreateRmaItem → Result UseCaseError (List RmaItem)
new_rma_items [] = ok []
new_rma_items (c ∷ cs) =
    and_then (new_rma_item c.id c.variant_id c.quantity c.unit_cost_cents (pos 0) pending none)
      (new_rma_items cs)

-- `findByNumber`
unfoldable pub find_by_number : (rma_number : ℕ) → List Rma → Option Rma
find_by_number n [] = none
find_by_number n (r ∷ rs) = if r.rma_number == n then some r else find_by_number n rs

abbrev pub is_there : {A : Type 0} → Option A → Bool
is_there none = false
is_there (some a) = true

abbrev pub save_rma : Rma → Repositories → Repositories
save_rma rma repos = record repos { rmas = insert rma.id rma repos.rmas }

unfoldable pub create_rma :
    (id rma_number tenant customer location : ℕ) → List CreateRmaItem → UseCase Rma
create_rma i n t c l items = do
  repos ← this
  reject_if (is_there (find_by_number n (values repos.rmas))) (rma_exists n)
  made ← lift (new_rma_items items)
  let rma = new_rma i n t c l made
  assign (save_rma rma repos)
  return rma

abbrev pub of_rma : Result RmaError Rma → Result UseCaseError Rma
of_rma (ok r) = ok r
of_rma (err e) = err (rma_error e)

unfoldable pub authorize_rma : (id : ℕ) → UseCase (Unit {0})
authorize_rma id = do
  repos ← this
  rma ← lift (or_throw (lookup id repos.rmas) (rma_not_found id))
  rma' ← lift (of_rma (kept (authorize rma)))
  assign (save_rma rma' repos)
