-- ===== src/Returns/UseCases/Tests.antt =====
-- The receipt of two lines: two pieces back on the shelf, and one for quarantine.
use gql_ddd_inventory.Prelude.{ℕ, ◌+◌, ◌≡◌, refl, true, inl, arith, ok, none, some, List, [], ◌∷◌}
use gql_ddd_inventory.Prelude.Int.{pos}
use gql_ddd_inventory.Prelude.Maps.{lookup, insert}
use gql_ddd_inventory.Prelude.Methods.{returned, kept}
use gql_ddd_inventory.Stock.Quantity.{add, same_unit}
use gql_ddd_inventory.Stock.Item.{new_inventory_item, receive_stock}
use gql_ddd_inventory.Stock.Shelves.{AreCounted}
use gql_ddd_inventory.Costing.Layer.{new_layer}
use gql_ddd_inventory.Journal.{
  build_stock_returned, build_entry, add_lines, add_line, new_line, is_balanced, tally,
}
use gql_ddd_inventory.Returns.Item.{RmaItem, pending, restock, quarantine}
use gql_ddd_inventory.Returns.Item
use gql_ddd_inventory.Returns.Rma.{Rma, RmaStatus, authorized, receive_item, receive_first}
use gql_ddd_inventory.Returns.Quarantine.{new_quarantine_item}
use gql_ddd_inventory.Returns.UseCases.{Repositories}
use gql_ddd_inventory.Returns.UseCases.Receive.{
  ReceiveRmaItem, Context, with_skus, find_item, receive_serials, book_line, receive_line,
  receive_lines, check_items,
}
use gql_ddd_inventory.Returns.UseCases.ReceiveRma.{scrap_items, receive_rma}
use gql_ddd_inventory.Returns.UseCases.Returning.{receive_rma-returns}

abbrev expected : (id variant quantity : ℕ) → RmaItem
expected i v q = record {
  id = i;
  variant_id = v;
  quantity = q;
  unit_cost_cents = 100;
  received_quantity = 0;
  status = pending;
  disposition = none;
}

abbrev two_articles : Rma
two_articles = record {
  id = 1;
  rma_number = 500;
  tenant_id = 1;
  customer_id = 40;
  location_id = 7;
  status = authorized;
  items = expected 11 1 3 ∷ expected 12 2 1 ∷ [];
}

abbrev start : Repositories
start = record {
  rmas = (1, two_articles) ∷ [];
  quarantine = [];
  stock = λ l. [];
  layers = [];
  journal = [];
  approvals = record { workflows = []; requests = []; dispatched = [] };
  serials = λ v. [];
  sku_of = λ v. some (v + 70);
}

abbrev context : Context
context = record {
  now = 100;
  system = 0;
  quarantine_of = λ l. l + 1000;
  item_uuid = λ k. k + 200;
  layer_uuid = λ k. k + 300;
  quarantine_uuid = λ k. k + 400;
  returned_uuid = λ k. k + 500;
  write_off_uuid = λ k. k + 600;
}

abbrev parcel : List ReceiveRmaItem
parcel =
    record { variant_id = 1; quantity_received = pos 2; disposition = restock; serial_numbers = [] }
    ∷ record {
      variant_id = 2;
      quantity_received = pos 1;
      disposition = quarantine;
      serial_numbers = [];
    }
    ∷ []

parcel_test : returned (receive_rma context 1 parcel start) ≡ true
unfolding check_items receive_rma receive_lines receive_line book_line with_skus find_item
    receive_serials receive_item receive_first Item.receive receive_stock add same_unit
    new_inventory_item lookup new_layer new_quarantine_item build_stock_returned build_entry
    add_lines add_line new_line is_balanced tally scrap_items insert
parcel_test = refl

start-AreCounted : (place : ℕ) → AreCounted (start.stock place)
unfolding lookup
start-AreCounted place k item e = cc

abbrev one_back : ReceiveRmaItem
one_back = record {
  variant_id = 1;
  quantity_received = pos 2;
  disposition = restock;
  serial_numbers = [];
}

abbrev partly_received : Rma
partly_received = record two_articles {
  status = RmaStatus.received;
  items =
      record (expected 11 1 3) { received_quantity = 2; disposition = some restock }
      ∷ expected 12 2 1
      ∷ [];
}

one_item : find_item 1 two_articles.items ≡ some (expected 11 1 3)
unfolding find_item
one_item = refl

one_received : kept (receive_item 1 (pos 2) restock two_articles) ≡ ok partly_received
unfolding receive_item receive_first Item.receive
one_received = refl

stored_return : lookup 1 start.rmas ≡ some two_articles
unfolding lookup
stored_return = refl

receive_rma-returns_example : returned (receive_rma context 1 (one_back ∷ []) start) ≡ true
receive_rma-returns_example =
    receive_rma-returns context 1 one_back start start-AreCounted stored_return refl one_item
      one_received (ground arith) (ground arith) (inl refl) refl
