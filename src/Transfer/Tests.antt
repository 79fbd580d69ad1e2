-- ===== src/Transfer/Tests.antt =====
-- A transfer of 5 pieces from location 1, which has 12, to location 2, which has none.
use gql_ddd_inventory.Prelude.{
  err, ◌++◌, ℕ, ◌≡◌, ◌≤◌, refl, none, some, [], ◌∷◌, ok, arith, ◌==◌, if◌then◌else◌, Bool-cases,
  inl, inr,
}
use gql_ddd_inventory.Prelude.Maps.{Map, lookup, insert}
use gql_ddd_inventory.Stock.Quantity.{pieces, add, subtract, same_unit}
use gql_ddd_inventory.Stock.Item.{
  InventoryItem, new_inventory_item, dispatch_stock, create_in_transit,
}
use gql_ddd_inventory.Stock.Item.Laws.{IsCounted}
use gql_ddd_inventory.Transfer.Entity.{
  StockTransfer, StockTransferItem, draft, dispatched, dispatch, receive, cancel, new_transfer,
  stock_transfer_created,
}
use gql_ddd_inventory.Transfer
use mathlib.Core.Path.{subst}
use mathlib.Core.Option.{some-injective}
use gql_ddd_inventory.Transfer.Entity.Lifecycle.{
  dispatches, act, follow, Obeys, act-Obeys, Reachable, created, acted, IsValid, Reachable-IsValid,
}
use gql_ddd_inventory.Transfer.UseCases.{
  Repositories, Context, resolve, dispatch_line, each_line, check_versions, concurrency_error,
}
use gql_ddd_inventory.Transfer.UseCases.Execute.{
  execute_dispatch, execute_receive, execute_cancel, store, move_stock,
}
use gql_ddd_inventory.Stock.Shelves.{levels_at}
use gql_ddd_inventory.Transfer.UseCases.Runs.{needed}
use gql_ddd_inventory.Transfer.UseCases.Stock.{StockIsCounted}
use gql_ddd_inventory.Transfer.UseCases.Returns.{execute_dispatch-returns}

abbrev order : StockTransfer
order = record {
  id = 1;
  tenant_id = 1;
  source_location_id = 1;
  destination_location_id = 2;
  items = record { variant_id = 70; quantity = 5 } ∷ [];
  reference_id = none;
  created_at = 0;
  status = draft;
  dispatched_at = none;
  received_at = none;
  domain_events = stock_transfer_created 1 1 ∷ [];
}

abbrev shelf : InventoryItem
shelf = record {
  id = 1;
  sku = 7;
  location_id = 1;
  quantity = pieces 12;
  allocated = pieces 0;
  in_transit = pieces 0;
  version = 1;
  domain_events = [];
}

abbrev shelves : ℕ → Map InventoryItem
shelves l = if l == 1 then (7, shelf) ∷ [] else []

abbrev start : Repositories
start = record {
  transfers = (1, order) ∷ [];
  stock = shelves;
  ledger = [];
  sku_of = λ v. if v == 70 then some 7 else none;
  variant_of = λ s. if s == 7 then some 70 else none;
}

abbrev call : Context
call = record { actor = 9; tenant = 1; now = 100; uuid = λ n. n }

abbrev sent : StockTransfer
sent = record order { status = dispatched; dispatched_at = some 100 }

abbrev in_between : Repositories
in_between = (execute_dispatch call 1 start).1

abbrev dispatched_order : StockTransfer
dispatched_order = (dispatch 100 order).1

abbrev at_end : Repositories
at_end = (execute_receive call 1 in_between).1

abbrev received_order : StockTransfer
received_order = (receive 100 dispatched_order).1

abbrev put_back : Repositories
put_back = (execute_cancel call 1 in_between).1

abbrev cancelled_order : StockTransfer
cancelled_order = (cancel dispatched_order).1

shelf-IsCounted : IsCounted shelf
shelf-IsCounted = record { on_hand_unit = refl; reserved_unit = refl; incoming_unit = refl }

start-StockIsCounted : StockIsCounted start
unfolding lookup
start-StockIsCounted l sku item e = elim (Bool-cases (l == 1)) [
  | inl h ↦ elim (Bool-cases (7 == sku)) [
    | inl k ↦ subst IsCounted (some-injective _ _ (rw (h, k) at e)) shelf-IsCounted
    | inr k ↦ cc (rw (h, k) at e)
  ]
  | inr h ↦ cc (rw h at e)
]

act-Obeys_example : Obeys (follow order.status (dispatches 100)) order (act (dispatches 100) order)
act-Obeys_example = act-Obeys (dispatches 100) order

order_is_created : Transfer.Entity.create_new 1 1 1 2 order.items none 0 ≡ ok order
unfolding Transfer.Entity.create_new new_transfer
order_is_created = refl

order-Reachable : Reachable dispatched_order
order-Reachable = acted (created 1 1 1 2 order.items none 0 order_is_created) (dispatches 100)

Reachable-IsValid_example : IsValid dispatched_order
Reachable-IsValid_example = Reachable-IsValid order-Reachable

order_resolves : resolve start.sku_of order.items ≡ ok ((7, 5) ∷ [])
unfolding resolve
order_resolves = refl

order_is_stored : lookup 1 start.transfers ≡ some order
unfolding lookup
order_is_stored = refl

five_are_one : 1 ≤ 5
five_are_one = omega arith

shelves_suffice : (k : ℕ) → needed k ((7, 5) ∷ []) ≤ (levels_at k (start.stock 1)).on_hand
unfolding lookup
shelves_suffice k = elim (Bool-cases (7 == k)) [
  | inl h ↦ rw h (omega arith)
  | inr h ↦ rw h (omega arith)
]

execute_dispatch-returns_example : (t : StockTransfer) × ((execute_dispatch call 1 start).0 ≡ ok t)
execute_dispatch-returns_example =
    execute_dispatch-returns call 1 start order_is_stored refl order_resolves (tt, tt)
      (five_are_one, tt) start-StockIsCounted shelves_suffice

-- Two lines of one SKU: the save refuses the item that was changed twice.
abbrev twice : StockTransfer
twice = record order { items = order.items ++ order.items }

repeated_test :
    (execute_dispatch call 1 (record start { transfers = (1, twice) ∷ [] })).0
    ≡ err (concurrency_error 7 1)
unfolding check_versions execute_dispatch move_stock store dispatch resolve lookup insert each_line
    dispatch_line dispatch_stock create_in_transit new_inventory_item add subtract same_unit
repeated_test = refl
