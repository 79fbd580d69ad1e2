-- ===== src/Stock/UseCases.antt =====
-- src/application/useCases/ReceiveStock.ts, DispatchStock.ts and ManageAllocations.ts, with
-- src/application/dtos/InventoryItemMapper.ts: the use cases that change the stock of one article at
-- one location. Events that are dispatched go to a list.
pub mod Ready
pub mod Serving
pub mod Retry
use gql_ddd_inventory.Prelude.{
  ℕ, Option, none, some, List, [], ◌∷◌, ◌++◌, Result, ok, err, or_throw,
}
use gql_ddd_inventory.Prelude.Int.{ℤ}
use gql_ddd_inventory.Prelude.Maps.{get_or}
use gql_ddd_inventory.Prelude.Methods.{Method, ◌>>=◌, ◌>>◌, return, this, assign, lift, kept}
use gql_ddd_inventory.Stock.Quantity.{Quantity, QuantityError, each, new_quantity}
use gql_ddd_inventory.Stock.Item.{
  InventoryItem, Event, StockError, Call, create_new, available, receive_stock, dispatch_stock,
  allocate_stock, release_allocation, fulfill_allocation, create_in_transit, receive_in_transit,
}
use gql_ddd_inventory.Stock.Repository.{Items, RepositoryError, find_by_sku_and_location, save}
use gql_ddd_inventory.Stock.Capacity.{
  WmsCapacityService, CapacityError, Adjustment, relative, validate_capacity,
}

pub data StockUseCaseError : Type 0 where
  of_quantity : QuantityError → StockUseCaseError
  of_item : StockError → StockUseCaseError
  of_repository : RepositoryError → StockUseCaseError
  of_capacity : CapacityError → StockUseCaseError
  item_not_found : (sku location : ℕ) → StockUseCaseError
  requires_approval : (request : ℕ) → StockUseCaseError

-- The repository's items, and the events that were published.
pub record Store : Type 0 where
  pub items : Items
  pub published : List Event

-- `InventoryItemDTO`
pub record InventoryItemDto : Type 0 where
  pub id : ℕ
  pub sku : ℕ
  pub location_id : ℕ
  pub quantity : ℕ
  pub allocated : ℕ
  pub in_transit : ℕ
  pub available : ℕ
  pub version : ℕ

unfoldable pub to_dto : InventoryItem → InventoryItemDto
to_dto item = record {
  id = item.id;
  sku = item.sku;
  location_id = item.location_id;
  quantity = item.quantity.amount;
  allocated = item.allocated.amount;
  in_transit = item.in_transit.amount;
  available = (available item).amount;
  version = item.version;
}

abbrev pub UseCase : Type 0
UseCase = Method Store StockUseCaseError InventoryItemDto

-- An error of a part, as the error of the use case.
abbrev pub raised_as :
    {E A : Type 0} → (E → StockUseCaseError) → Result E A → Result StockUseCaseError A
raised_as f (ok a) = ok a
raised_as f (err e) = err (f e)

-- A method of the repository, within the store.
abbrev with_items :
    Store → Result RepositoryError (Unit {0}) × Items → Result StockUseCaseError (Unit {0}) × Store
with_items s (r, items) = (raised_as of_repository r, record s { items = items })

abbrev pub on_items :
    Method Items RepositoryError (Unit {0}) → Method Store StockUseCaseError (Unit {0})
on_items m s = with_items s (m s.items)

-- A method of the item, its save, and the answer.
unfoldable pub call_and_save : Call → InventoryItem → UseCase
call_and_save call item = do
  item' ← lift (raised_as of_item (kept (call item)))
  on_items (save item')
  return (to_dto item')

-- `await findBySkuAndLocation(…)`, then `if (!item) item = InventoryItem.createNew(…)`.
abbrev pub or_new :
    (uuid sku location : ℕ) → Option InventoryItem → Result StockUseCaseError InventoryItem
or_new uuid sku location none = raised_as of_item (create_new uuid sku location)
or_new uuid sku location (some item) = ok item

abbrev pub found_or_new : (uuid sku location : ℕ) → Items → Result StockUseCaseError InventoryItem
found_or_new uuid sku location items =
    or_new uuid sku location (find_by_sku_and_location sku location items)

-- The check of the capacity, where the use case was given the service.
abbrev pub check_capacity :
    Option WmsCapacityService
    → (location : ℕ) → List Adjustment
    → Items
    → Result StockUseCaseError (Unit {0})
check_capacity none location adjustments items = ok tt
check_capacity (some service) location adjustments items =
    raised_as of_capacity (validate_capacity service location adjustments items)

-- `await findBySkuAndLocation(…)`, then `if (!item) throw …`.
abbrev pub found_or_throw : (sku location : ℕ) → Items → Result StockUseCaseError InventoryItem
found_or_throw sku location items =
    or_throw (find_by_sku_and_location sku location items) (item_not_found sku location)

abbrev pub quantity_of : ℤ → Result StockUseCaseError Quantity
quantity_of amount = raised_as of_quantity (new_quantity amount each)

unfoldable pub execute_receive_stock :
    Option WmsCapacityService → (uuid sku location : ℕ) → ℤ → UseCase
execute_receive_stock capacity uuid sku location amount = do
  s ← this
  lift (
      check_capacity capacity location
        (record { sku = sku; mode = relative; quantity = amount } ∷ []) s.items)
  quantity ← lift (quantity_of amount)
  item ← lift (found_or_new uuid sku location s.items)
  call_and_save (receive_stock quantity) item

-- The events of the item are those that the call raised, since what is read has none.
unfoldable pub execute_dispatch_stock : (sku location : ℕ) → ℤ → UseCase
execute_dispatch_stock sku location amount = do
  s ← this
  item ← lift (found_or_throw sku location s.items)
  quantity ← lift (quantity_of amount)
  item' ← lift (raised_as of_item (kept (dispatch_stock quantity item)))
  on_items (save item')
  s' ← this
  assign (record s' { published = s'.published ++ item'.domain_events })
  return (to_dto item')

unfoldable pub execute_allocate_stock : (uuid sku location : ℕ) → ℤ → UseCase
execute_allocate_stock uuid sku location amount = do
  quantity ← lift (quantity_of amount)
  s ← this
  item ← lift (found_or_new uuid sku location s.items)
  call_and_save (allocate_stock quantity) item

unfoldable pub execute_release_allocation : (sku location : ℕ) → ℤ → UseCase
execute_release_allocation sku location amount = do
  quantity ← lift (quantity_of amount)
  s ← this
  item ← lift (found_or_throw sku location s.items)
  call_and_save (release_allocation quantity) item

unfoldable pub execute_fulfill_allocation : (sku location : ℕ) → ℤ → UseCase
execute_fulfill_allocation sku location amount = do
  quantity ← lift (quantity_of amount)
  s ← this
  item ← lift (found_or_throw sku location s.items)
  call_and_save (fulfill_allocation quantity) item

unfoldable pub execute_create_in_transit : (uuid sku location : ℕ) → ℤ → UseCase
execute_create_in_transit uuid sku location amount = do
  quantity ← lift (quantity_of amount)
  s ← this
  item ← lift (found_or_new uuid sku location s.items)
  call_and_save (create_in_transit quantity) item

unfoldable pub execute_receive_in_transit : (sku location : ℕ) → ℤ → UseCase
execute_receive_in_transit sku location amount = do
  quantity ← lift (quantity_of amount)
  s ← this
  item ← lift (found_or_throw sku location s.items)
  call_and_save (receive_in_transit quantity) item
