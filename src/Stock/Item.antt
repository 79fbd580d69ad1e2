-- ===== src/Stock/Item.antt =====
-- src/domain/entities/InventoryItem.ts: the stock of one article at one location.
pub mod Laws
pub mod Runs
mod Tests
use gql_ddd_inventory.Prelude.{
  ℕ, ◌+◌, ◌-◌, ◌≡◌, List, [], ◌∷◌, ◌++◌, Result, ok, err, or_throw, ltb, if◌then◌else◌,
}
use gql_ddd_inventory.Prelude.Int.{ℤ, sub_ℕ}
use gql_ddd_inventory.Prelude.Methods.{Method, ◌>>=◌, ◌>>◌, return, this, assign, lift, reject_if}
use gql_ddd_inventory.Stock.Sku.{new_sku}
use gql_ddd_inventory.Stock.Quantity.{Quantity, QuantityError, add, subtract, each}

pub data Event : Type 0 where
  low_stock_alert : (sku location quantity : ℕ) → Event
  inventory_reconciled : (sku location expected actual : ℕ) → ℤ → Event

pub data StockError : Type 0 where
  invalid_sku : (text : ℕ) → StockError
  invalid_quantity : QuantityError → StockError
  insufficient_stock : (sku requested on_hand : ℕ) → StockError
  insufficient_available_stock : (sku requested available : ℕ) → StockError
  cannot_release : (requested allocated : ℕ) → StockError
  cannot_fulfill : (requested allocated : ℕ) → StockError
  cannot_receive_in_transit : (requested in_transit : ℕ) → StockError
  cannot_cancel_in_transit : (requested in_transit : ℕ) → StockError

pub record InventoryItem : Type 0 where
  pub id : ℕ
  pub sku : ℕ
  pub location_id : ℕ
  pub quantity : Quantity
  pub allocated : Quantity
  pub in_transit : Quantity
  pub version : ℕ
  pub domain_events : List Event

abbrev zero_each : Quantity
zero_each = record { amount = 0; unit = each }

-- The `new InventoryItem(…)` of `createNew`, for a SKU that is a value of `Sku`.
unfoldable pub new_inventory_item : (id sku location_id : ℕ) → InventoryItem
new_inventory_item i s l = record {
  id = i;
  sku = s;
  location_id = l;
  quantity = zero_each;
  allocated = zero_each;
  in_transit = zero_each;
  version = 1;
  domain_events = [];
}

abbrev pub made : (id location_id : ℕ) → Result StockError ℕ → Result StockError InventoryItem
made i l (ok sku) = ok (new_inventory_item i sku l)
made i l (err e) = err e

-- `InventoryItem.createNew`, for a SKU as a caller writes it.
unfoldable pub create_new : (id text location_id : ℕ) → Result StockError InventoryItem
create_new i text l = made i l (or_throw (new_sku text) (invalid_sku text))

-- The getter `available`: on hand less reserved plus incoming, and 0 where that is negative.
unfoldable pub available : InventoryItem → Quantity
available item =
    let supply = item.quantity.amount + item.in_transit.amount in
    record {
      amount = if ltb supply item.allocated.amount then 0 else supply - item.allocated.amount;
      unit = each;
    }

abbrev checked : {A : Type 0} → Result QuantityError A → Result StockError A
checked (ok a) = ok a
checked (err e) = err (invalid_quantity e)

abbrev increment_version : InventoryItem → InventoryItem
increment_version item = record item { version = item.version + 1 }

abbrev push_event : Event → InventoryItem → InventoryItem
push_event e item = record item { domain_events = item.domain_events ++ (e ∷ []) }

abbrev pub Call : Type 0
Call = Method InventoryItem StockError (Unit {0})

unfoldable pub receive_stock : Quantity → Call
receive_stock amount = do
  item ← this
  q ← lift (checked (add item.quantity amount))
  assign (increment_version (record item { quantity = q }))

alert_if_low : InventoryItem → InventoryItem
alert_if_low item =
    if ltb item.quantity.amount 10
    then push_event (low_stock_alert item.sku item.location_id item.quantity.amount) item
    else item

unfoldable pub dispatch_stock : Quantity → Call
unfolding alert_if_low
dispatch_stock amount = do
  item ← this
  reject_if (ltb item.quantity.amount amount.amount)
      (insufficient_stock item.sku amount.amount item.quantity.amount)
  q ← lift (checked (subtract item.quantity amount))
  assign (alert_if_low (increment_version (record item { quantity = q })))

unfoldable pub allocate_stock : Quantity → Call
unfolding available
allocate_stock amount = do
  item ← this
  let free = (available item).amount
  reject_if (ltb free amount.amount) (insufficient_available_stock item.sku amount.amount free)
  q ← lift (checked (add item.allocated amount))
  assign (increment_version (record item { allocated = q }))

unfoldable pub release_allocation : Quantity → Call
release_allocation amount = do
  item ← this
  reject_if (ltb item.allocated.amount amount.amount)
      (cannot_release amount.amount item.allocated.amount)
  q ← lift (checked (subtract item.allocated amount))
  assign (increment_version (record item { allocated = q }))

-- The reservation is reduced before the stock is: a throw between the two leaves it reduced.
unfoldable pub fulfill_allocation : Quantity → Call
fulfill_allocation amount = do
  item ← this
  reject_if (ltb item.allocated.amount amount.amount)
      (cannot_fulfill amount.amount item.allocated.amount)
  reject_if (ltb item.quantity.amount amount.amount)
      (insufficient_stock item.sku amount.amount item.quantity.amount)
  a ← lift (checked (subtract item.allocated amount))
  assign (record item { allocated = a })
  q ← lift (checked (subtract item.quantity amount))
  assign (increment_version (record item { allocated = a; quantity = q }))

unfoldable pub create_in_transit : Quantity → Call
create_in_transit amount = do
  item ← this
  t ← lift (checked (add item.in_transit amount))
  assign (increment_version (record item { in_transit = t }))

unfoldable pub receive_in_transit : Quantity → Call
receive_in_transit amount = do
  item ← this
  reject_if (ltb item.in_transit.amount amount.amount)
      (cannot_receive_in_transit amount.amount item.in_transit.amount)
  t ← lift (checked (subtract item.in_transit amount))
  assign (record item { in_transit = t })
  q ← lift (checked (add item.quantity amount))
  assign (increment_version (record item { in_transit = t; quantity = q }))

unfoldable pub cancel_in_transit : Quantity → Call
cancel_in_transit amount = do
  item ← this
  reject_if (ltb item.in_transit.amount amount.amount)
      (cannot_cancel_in_transit amount.amount item.in_transit.amount)
  t ← lift (checked (subtract item.in_transit amount))
  assign (increment_version (record item { in_transit = t }))

pub record Reconciliation : Type 0 where
  pub expected : ℕ
  pub actual : ℕ
  pub variance : ℤ

unfoldable pub reconcile_stock : Quantity → Method InventoryItem StockError Reconciliation
reconcile_stock counted = do
  item ← this
  let before = item.quantity.amount
  let diff = sub_ℕ counted.amount before
  assign (
      push_event (inventory_reconciled item.sku item.location_id before counted.amount diff)
        (increment_version (record item { quantity = counted })))
  return (record { expected = before; actual = counted.amount; variance = diff })

unfoldable pub pull_domain_events : Method InventoryItem StockError (List Event)
pull_domain_events = do
  item ← this
  assign (record item { domain_events = [] })
  return item.domain_events
