-- ===== src/Stock/Count.antt =====
-- src/application/useCases/SubmitInventoryCount.ts: counts of the stock that replace what is on hand.
-- The maps of the code have the key `${sku}_${locationId}` of the items themselves, so they are lists
-- of items with one item at each place: that holds where each count writes its SKU as `Sku` stores it,
-- or its item is stored already. The items are shared between the two maps, so a change shows
-- in both. The approval service is given as the request that it answers with, where it intercepts.
pub mod Submit
pub mod Loop
pub mod Recount
pub mod Submitted
pub mod Repeated
use gql_ddd_inventory.Prelude.{
  ℕ, ◌+◌, Bool, true, false, Option, none, some, List, [], ◌∷◌, ◌++◌, map, Result, ok, err, ◌>>=◌,
  ◌>>◌, ltb, if◌then◌else◌,
}
use gql_ddd_inventory.Prelude.Int.{ℤ, pos, ◌-ℤ◌, pos_part, neg_part}
use gql_ddd_inventory.Prelude.Maps.{Map, lookup, insert, get_or}
use gql_ddd_inventory.Stock.Item.{
  InventoryItem, Event, StockError, Reconciliation, new_inventory_item, reconcile_stock,
}
use gql_ddd_inventory.Stock.Repository.{Items, lies_at, find_by_sku_and_location_batch, save_batch}
use gql_ddd_inventory.Stock.Capacity.{WmsCapacityService, Adjustment, absolute}
use gql_ddd_inventory.Stock.UseCases.{
  Store, StockUseCaseError, of_item, requires_approval, raised_as, on_items, quantity_of,
  check_capacity, or_new,
}

-- `CountItemInputDTO`
pub record CountItem : Type 0 where
  pub sku : ℕ
  pub location_id : ℕ
  pub actual_quantity : ℤ

-- `CountResultDTO`
pub record CountResult : Type 0 where
  pub sku : ℕ
  pub location_id : ℕ
  pub expected : ℕ
  pub actual : ℕ
  pub variance : ℤ

-- The counts by location, each with its adjustments in order.
abbrev pub adjustment_of : CountItem → Adjustment
adjustment_of c = record { sku = c.sku; mode = absolute; quantity = c.actual_quantity }

unfoldable pub counts_by_location : List CountItem → Map (List Adjustment) → Map (List Adjustment)
counts_by_location [] m = m
counts_by_location (c ∷ counts) m =
    let list = get_or (lookup c.location_id m) [] in
    counts_by_location counts (insert c.location_id (list ++ (adjustment_of c ∷ [])) m)

unfoldable pub check_locations :
    Option WmsCapacityService → Map (List Adjustment) → Items → Result StockUseCaseError (Unit {0})
check_locations capacity [] items = ok tt
check_locations capacity ((location, adjustments) ∷ rest) items = do
  check_capacity capacity location adjustments items
  check_locations capacity rest items

-- `map.get(key)` and `map.set(key, item)`, by the place of the item.
unfoldable pub held_at : (sku location : ℕ) → List InventoryItem → Option InventoryItem
held_at sku location [] = none
held_at sku location (item ∷ held) =
    if lies_at sku location item then some item else held_at sku location held

unfoldable pub hold : InventoryItem → List InventoryItem → List InventoryItem
hold item [] = item ∷ []
hold item (x ∷ held) =
    if lies_at item.sku item.location_id x then item ∷ held else x ∷ hold item held

unfoldable pub hold_all : List InventoryItem → List InventoryItem → List InventoryItem
hold_all [] held = held
hold_all (item ∷ items) held = hold_all items (hold item held)

-- What the loop over the counts changes.
pub record Counting : Type 0 where
  pub items_map : List InventoryItem
  pub items_to_save : List InventoryItem
  pub total_absolute_variance : ℕ
  pub results : List CountResult

abbrev pub absolute_value : ℤ → ℕ
absolute_value z = pos_part z + neg_part z

-- The item after the count, and what the count reports.
abbrev pub count_outcome :
    CountItem
    → InventoryItem
    → Counting
    → Result StockError Reconciliation × InventoryItem
    → Result StockUseCaseError Counting
count_outcome c before w (err e, item) = err (of_item e)
count_outcome c before w (ok r, item) = ok (record {
  items_map = hold item w.items_map;
  items_to_save = hold item w.items_to_save;
  total_absolute_variance =
      w.total_absolute_variance + absolute_value (c.actual_quantity -ℤ pos before.quantity.amount);
  results =
      w.results
      ++ (record {
        sku = c.sku;
        location_id = c.location_id;
        expected = r.expected;
        actual = r.actual;
        variance = r.variance;
      }
          ∷ []);
})

module _ (uuid : (sku location : ℕ) → ℕ) where
  unfoldable pub count_line : CountItem → Counting → Result StockUseCaseError Counting
  count_line c w = do
    item ←
        or_new (uuid c.sku c.location_id) c.sku c.location_id
          (held_at c.sku c.location_id w.items_map)
    actual ← quantity_of c.actual_quantity
    count_outcome c item w (reconcile_stock actual item)

  unfoldable pub count_each : List CountItem → Counting → Result StockUseCaseError Counting
  count_each [] w = ok w
  count_each (c ∷ counts) w = do w' ← count_line c w; count_each counts w'
