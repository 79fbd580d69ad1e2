-- ===== src/Stock/Repository.antt =====
-- src/infrastructure/persistence/InMemoryInventoryRepository.ts: the inventory items under their
-- identifiers. What is read is a copy, with no events and with every quantity in the default unit.
pub mod Saving
pub mod Batch
use gql_ddd_inventory.Prelude.{
  ℕ, ◌+◌, ◌≡◌, ◌≢◌, Bool, true, false, not, ◌&&◌, Option, none, some, List, [], ◌∷◌, ◌==◌, any,
  if◌then◌else◌,
}
use gql_ddd_inventory.Prelude.Maps.{Map, lookup, insert}
use gql_ddd_inventory.Prelude.Methods.{Method, ◌>>=◌, ◌>>◌, return, this, assign, reject_if}
use gql_ddd_inventory.Stock.Quantity.{pieces}
use gql_ddd_inventory.Stock.Item.{InventoryItem}

pub data RepositoryError : Type 0 where
  concurrency_error : (sku location : ℕ) → RepositoryError

abbrev pub Items : Type 0
Items = Map InventoryItem

abbrev pub clone_item : InventoryItem → InventoryItem
clone_item item = record item {
  quantity = pieces item.quantity.amount;
  allocated = pieces item.allocated.amount;
  in_transit = pieces item.in_transit.amount;
  domain_events = [];
}

-- `item.sku.value === sku && item.locationId.value === locationId`
abbrev pub lies_at : (sku location : ℕ) → InventoryItem → Bool
lies_at sku location item = item.sku == sku && item.location_id == location

unfoldable pub find_by_sku_and_location : (sku location : ℕ) → Items → Option InventoryItem
find_by_sku_and_location sku location [] = none
find_by_sku_and_location sku location ((id, item) ∷ items) =
    if lies_at sku location item
    then some (clone_item item)
    else find_by_sku_and_location sku location items

-- Whether the place of an item is among the pairs asked for.
abbrev pub is_asked : List (ℕ × ℕ) → InventoryItem → Bool
is_asked pairs item = any (λ (sku, location). lies_at sku location item) pairs

unfoldable pub find_by_sku_and_location_batch : List (ℕ × ℕ) → Items → List InventoryItem
find_by_sku_and_location_batch pairs [] = []
find_by_sku_and_location_batch pairs ((id, item) ∷ items) =
    if is_asked pairs item
    then clone_item item ∷ find_by_sku_and_location_batch pairs items
    else find_by_sku_and_location_batch pairs items

unfoldable pub find_by_location : (location : ℕ) → Items → List InventoryItem
find_by_location location [] = []
find_by_location location ((id, item) ∷ items) =
    if item.location_id == location
    then clone_item item ∷ find_by_location location items
    else find_by_location location items

-- `existing && existing.version !== item.version - 1`
abbrev pub is_stale : InventoryItem → Option InventoryItem → Bool
is_stale item none = false
is_stale item (some existing) = not (existing.version + 1 == item.version)

unfoldable pub save : InventoryItem → Method Items RepositoryError (Unit {0})
save item = do
  items ← this
  reject_if (is_stale item (lookup item.id items)) (concurrency_error item.sku item.location_id)
  assign (insert item.id item items)

unfoldable pub save_batch : List InventoryItem → Method Items RepositoryError (Unit {0})
save_batch [] = return tt
save_batch (item ∷ rest) = do save item; save_batch rest
