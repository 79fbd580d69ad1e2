-- ===== src/Stock/Item/Tests.antt =====
-- The stock of an item on small examples.
use gql_ddd_inventory.Prelude.{◌+◌, ◌≤◌, ◌≡◌, refl, [], ◌∷◌, err, arith, sum_by, length}
use gql_ddd_inventory.Stock.Quantity.{
  each, pieces, add, subtract, same_unit, new_quantity, negative_amount,
}
use gql_ddd_inventory.Prelude.Int.{negsuc}
use gql_ddd_inventory.Stock.Item.{
  InventoryItem, low_stock_alert, insufficient_stock, available, receive_stock, dispatch_stock,
  fulfill_allocation,
}
use gql_ddd_inventory.Stock.Item.Laws.{
  receive, fulfill, call, levels, promised, IsCounted, Implements, call-Implements,
}
use gql_ddd_inventory.Stock.Item.Runs.{
  Trace, here, next, IsBacked, taken_out, brought_in, Trace-on_hand, Trace-IsBacked,
}

-- 12 on hand, 4 reserved and 3 on the way.
abbrev shelf : InventoryItem
shelf = record {
  id = 1;
  sku = 7;
  location_id = 2;
  quantity = pieces 12;
  allocated = pieces 4;
  in_transit = pieces 3;
  version = 5;
  domain_events = [];
}

abbrev reserved_shelf : InventoryItem
reserved_shelf = record shelf { allocated = pieces 15 }

shelf-IsCounted : IsCounted shelf
shelf-IsCounted = record { on_hand_unit = refl; reserved_unit = refl; incoming_unit = refl }

reserved_shelf-IsCounted : IsCounted reserved_shelf
reserved_shelf-IsCounted = record {
  on_hand_unit = refl;
  reserved_unit = refl;
  incoming_unit = refl;
}

one_on_hand : 1 ≤ 12
one_on_hand = omega arith

shelf-IsBacked : IsBacked (levels shelf)
shelf-IsBacked = omega arith

available_test : (available shelf).amount ≡ 11
unfolding available
available_test = refl

dispatch_alert_test : (dispatch_stock (pieces 5) shelf).1.domain_events ≡ low_stock_alert 7 2 7 ∷ []
unfolding dispatch_stock subtract same_unit
dispatch_alert_test = refl

dispatch_too_much_test :
    dispatch_stock (pieces 13) shelf ≡ (err (insufficient_stock 7 13 12), shelf)
unfolding dispatch_stock subtract
dispatch_too_much_test = refl

negative_test : new_quantity (negsuc 0) each ≡ err negative_amount
unfolding new_quantity
negative_test = refl

call-Implements_example :
    Implements (promised (fulfill 4) (levels shelf)) shelf (call (fulfill 4) shelf)
call-Implements_example = call-Implements (fulfill 4) shelf shelf-IsCounted

abbrev after_receipt : InventoryItem
after_receipt = (call (receive 8) shelf).1

abbrev after_both : InventoryItem
after_both = (call (fulfill 4) after_receipt).1

receipt_and_fulfilment : Trace shelf (fulfill 4 ∷ receive 8 ∷ []) after_both
unfolding receive_stock fulfill_allocation add subtract same_unit
receipt_and_fulfilment = next (next here (receive 8) refl) (fulfill 4) refl

Trace-on_hand_example :
    (after_both.quantity.amount + sum_by taken_out (fulfill 4 ∷ receive 8 ∷ [])
      ≡ shelf.quantity.amount + sum_by brought_in (fulfill 4 ∷ receive 8 ∷ []))
    × (after_both.version ≡ shelf.version + length (fulfill 4 ∷ receive 8 ∷ []))
Trace-on_hand_example = Trace-on_hand shelf-IsCounted (tt, (tt, tt)) receipt_and_fulfilment

Trace-IsBacked_example : IsBacked (levels after_both)
Trace-IsBacked_example =
    Trace-IsBacked shelf-IsCounted shelf-IsBacked (tt, (tt, tt)) receipt_and_fulfilment
