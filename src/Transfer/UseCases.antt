-- ===== src/Transfer/UseCases.antt =====
-- src/application/useCases/ManageStockTransfers.ts: the use cases that dispatch, receive and cancel a
-- transfer, and appendStockLedgerEntries of src/infrastructure/utils/ledgerEntryUtils.ts.
-- The repositories hand out copies, so what a use case changes in memory is stored only by its save.
-- A SKU holds no underscore and each map of the code holds the items of one location, so the keys
-- `${sku}_${location}` are modelled by the SKU. A batch of items is saved as
-- src/infrastructure/persistence/PostgresInventoryRepository.ts saves it, in one database transaction.
-- The SKUs of the catalogue are values of `Sku`, which `new Sku` gives back as they are.
pub mod Execute
pub mod Lines
pub mod Runs
pub mod Outcome
pub mod Stock
pub mod RoundTrip
pub mod Versions
pub mod Returns
use gql_ddd_inventory.Prelude.{
  ℕ, ◌≡◌, ◌==◌, Bool, true, false, Option, none, some, List, [], ◌∷◌, ◌++◌, Result, ok, err,
  or_throw, throw_if, ◌>>=◌, ◌>>◌, if◌then◌else◌,
}
use gql_ddd_inventory.Prelude.Int.{ℤ, pos, sub_ℕ}
use gql_ddd_inventory.Prelude.Maps.{Map, lookup, insert, get_or}
use gql_ddd_inventory.Prelude.Methods
use gql_ddd_inventory.Prelude.Methods.{Method, kept}
use gql_ddd_inventory.Ledger.Entry.{LedgerEntry, LedgerError, transfer, new_ledger_entry}
use gql_ddd_inventory.Stock.Quantity.{pieces}
use gql_ddd_inventory.Stock.Item.{
  InventoryItem, StockError, new_inventory_item, receive_stock, dispatch_stock, create_in_transit,
  receive_in_transit, cancel_in_transit,
}
use gql_ddd_inventory.Stock.Repository.{is_stale}
use gql_ddd_inventory.Transfer.Entity.{
  StockTransfer, StockTransferItem, StockTransferStatus, dispatched, TransferError, dispatch,
  receive, cancel,
}

pub data UseCaseError : Type 0 where
  transfer_not_found : ℕ → UseCaseError
  transfer_error : TransferError → UseCaseError
  sku_not_found : (variant : ℕ) → UseCaseError
  inventory_item_not_found : (sku location : ℕ) → UseCaseError
  stock_error : StockError → UseCaseError
  zero_ledger_quantity : UseCaseError
  concurrency_error : (sku location : ℕ) → UseCaseError

abbrev pub of_transfer : {A : Type 0} → Result TransferError A → Result UseCaseError A
of_transfer (ok a) = ok a
of_transfer (err e) = err (transfer_error e)

abbrev pub of_stock : {A : Type 0} → Result StockError A → Result UseCaseError A
of_stock (ok a) = ok a
of_stock (err e) = err (stock_error e)

-- An element of `ledgerEntriesData`.
pub record StockMovement : Type 0 where
  pub sku : ℕ
  pub location_id : ℕ
  pub quantity : ℤ

-- What the repositories hold: transfers, inventory items by location and SKU, the ledger, and the
-- catalogue's two views of the variants.
pub record Repositories : Type 0 where
  pub transfers : Map StockTransfer
  pub stock : (location : ℕ) → Map InventoryItem
  pub ledger : List LedgerEntry
  pub sku_of : (variant : ℕ) → Option ℕ
  pub variant_of : (sku : ℕ) → Option ℕ

-- What a call is given besides the transfer: who calls and when, and the new random identifiers.
pub record Context : Type 0 where
  pub actor : ℕ
  pub tenant : ℕ
  pub now : ℕ
  pub uuid : ℕ → ℕ

-- A line of a transfer: a SKU and a number of pieces.
abbrev pub Line : Type 0
Line = ℕ × ℕ

-- `findSkusByVariantIds`, and the loop that throws at a variant with no SKU.
unfoldable pub resolve :
    ((variant : ℕ) → Option ℕ) → List StockTransferItem → Result UseCaseError (List Line)
resolve sku_of [] = ok []
resolve sku_of (item ∷ items) = do
  sku ← or_throw (sku_of item.variant_id) (sku_not_found item.variant_id)
  rest ← resolve sku_of items
  ok ((sku, item.quantity) ∷ rest)

-- At which of its two locations a transfer has changed an item.
pub data Side : Type 0 where
  at_source at_destination : Side

-- The maps, `itemsToSave` and the list that the loop over the items changes. An item to save is named
-- by its side and SKU, since what is saved is the object as it is after the loop.
pub record Working : Type 0 where
  pub source : Map InventoryItem
  pub destination : Map InventoryItem
  pub items_to_save : List (Side × ℕ)
  pub movements : List StockMovement

-- The item under a SKU, or a new one.
abbrev pub find_or_create : (uuid : ℕ → ℕ) (location sku : ℕ) → Map InventoryItem → InventoryItem
find_or_create uuid location sku m =
    get_or (lookup sku m) (new_inventory_item (uuid sku) sku location)

abbrev moved : (sku location : ℕ) → ℤ → StockMovement
moved sku location q = record { sku = sku; location_id = location; quantity = q }

-- The destination item is saved where it is there.
abbrev pub found_at : (sku : ℕ) → Option InventoryItem → List (Side × ℕ)
found_at sku none = []
found_at sku (some item) = (at_destination, sku) ∷ []

-- `if (destItem) { … }`: a destination item that is not there is passed over.
abbrev pub cancel_destination :
    (sku n : ℕ) → Map InventoryItem → Option InventoryItem → Result UseCaseError (Map InventoryItem)
cancel_destination sku n m none = ok m
cancel_destination sku n m (some item) = do
  item' ← of_stock (kept (cancel_in_transit (pieces n) item))
  ok (insert sku item' m)

module _ (uuid : ℕ → ℕ) (source destination : ℕ) where
  unfoldable pub dispatch_line : Line → Working → Result UseCaseError Working
  dispatch_line (sku, n) w = do
    item ← or_throw (lookup sku w.source) (inventory_item_not_found sku source)
    item' ← of_stock (kept (dispatch_stock (pieces n) item))
    dest' ←
        of_stock
          (kept (create_in_transit (pieces n) (find_or_create uuid destination sku w.destination)))
    ok (record {
      source = insert sku item' w.source;
      destination = insert sku dest' w.destination;
      items_to_save = w.items_to_save ++ ((at_source, sku) ∷ (at_destination, sku) ∷ []);
      movements = w.movements ++ (moved sku source (sub_ℕ 0 n) ∷ []);
    })

  unfoldable pub receive_line : Line → Working → Result UseCaseError Working
  receive_line (sku, n) w = do
    item ← or_throw (lookup sku w.destination) (inventory_item_not_found sku destination)
    item' ← of_stock (kept (receive_in_transit (pieces n) item))
    ok (record w {
      destination = insert sku item' w.destination;
      items_to_save = w.items_to_save ++ ((at_destination, sku) ∷ []);
      movements = w.movements ++ (moved sku destination (pos n) ∷ []);
    })

  unfoldable pub cancel_line : Line → Working → Result UseCaseError Working
  cancel_line (sku, n) w = do
    item' ← of_stock (kept (receive_stock (pieces n) (find_or_create uuid source sku w.source)))
    m ← cancel_destination sku n w.destination (lookup sku w.destination)
    ok (record {
      source = insert sku item' w.source;
      destination = m;
      items_to_save =
          w.items_to_save ++ ((at_source, sku) ∷ found_at sku (lookup sku w.destination));
      movements = w.movements ++ (moved sku source (pos n) ∷ []);
    })

-- The loop over the items.
unfoldable pub each_line :
    (Line → Working → Result UseCaseError Working)
    → List Line
    → Working
    → Result UseCaseError Working
each_line step [] w = ok w
each_line step (l ∷ ls) w = step l w >>= each_line step ls

abbrev pub of_ledger : {A : Type 0} → Result LedgerError A → Result UseCaseError A
of_ledger (ok a) = ok a
of_ledger (err e) = err zero_ledger_quantity

-- `new LedgerEntry(…)` with the reason `Transfer`.
abbrev pub transfer_entry : Context → (location variant : ℕ) → ℤ → Result UseCaseError LedgerEntry
transfer_entry c location variant q =
    of_ledger (new_ledger_entry c.tenant location variant q transfer c.actor c.now none)

-- The loop of `appendStockLedgerEntries`: a movement of a SKU that is in no product is passed over.
unfoldable pub ledger_entries :
    Context → ((sku : ℕ) → Option ℕ) → List StockMovement → Result UseCaseError (List LedgerEntry)
ledger_entries c variant_of [] = ok []
ledger_entries c variant_of (m ∷ ms) =
    let rest = ledger_entries c variant_of ms in
    elim (variant_of m.sku) [
      | none ↦ rest
      | some v ↦ do e ← transfer_entry c m.location_id v m.quantity; es ← rest; ok (e ∷ es)
    ]

abbrev pub Execution : Type 0
Execution = Method Repositories UseCaseError StockTransfer

abbrev pub loaded : Repositories → StockTransfer → Working
loaded repos t = record {
  source = repos.stock t.source_location_id;
  destination = repos.stock t.destination_location_id;
  items_to_save = [];
  movements = [];
}

-- Whether a stored item is not one version behind the item to save.
abbrev pub is_behind : (new stored : Option InventoryItem) → Bool
is_behind none stored = false
is_behind (some item) stored = is_stale item stored

abbrev pub is_refused : StockTransfer → Working → Repositories → Side × ℕ → Bool
is_refused t w repos (at_source, sku) =
    is_behind (lookup sku w.source) (lookup sku (repos.stock t.source_location_id))
is_refused t w repos (at_destination, sku) =
    is_behind (lookup sku w.destination) (lookup sku (repos.stock t.destination_location_id))

abbrev pub location_of : StockTransfer → Side → ℕ
location_of t at_source = t.source_location_id
location_of t at_destination = t.destination_location_id

-- The check of `saveBatch`: every item that is stored already is one version behind.
unfoldable pub check_versions :
    StockTransfer → Working → Repositories → List (Side × ℕ) → Result UseCaseError (Unit {0})
check_versions t w repos [] = ok tt
check_versions t w repos (i ∷ is) = do
  throw_if (is_refused t w repos i) (concurrency_error i.1 (location_of t i.0))
  check_versions t w repos is

abbrev pub save_stock : StockTransfer → Working → Repositories → Repositories
save_stock t w repos = record repos {
  stock = λ l.
      if l == t.destination_location_id
      then w.destination
      else if l == t.source_location_id
      then w.source
      else repos.stock l;
}

abbrev pub save_transfer : StockTransfer → Repositories → Repositories
save_transfer t repos = record repos { transfers = insert t.id t repos.transfers }
