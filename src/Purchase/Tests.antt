-- ===== src/Purchase/Tests.antt =====
-- An order from a supplier, and an arrival of ten pieces for which two orders wait.
use gql_ddd_inventory.Prelude.{◌≡◌, refl, false, none, some, List, [], ◌∷◌, err, All, ◌⊎◌}
use gql_ddd_inventory.Prelude.Int.{pos}
use gql_ddd_inventory.Prelude.Maps.{lookup, insert}
use gql_ddd_inventory.Costing.Sort.{sort, insert_sorted}
use gql_ddd_inventory.Purchase.Order.{
  PurchaseOrder, draft, pending_approval, cancelled, new_order, new_order_item,
  quantity_not_positive, no_items, mark_pending_approval,
}
use gql_ddd_inventory.Purchase.Order.Lifecycle.{
  here, next, submits, places, act, pending_approval-IsStuck,
}
use gql_ddd_inventory.Purchase.CrossDock.{
  InboundItem, Backorder, CrossDockOpportunity, backorders_by_variant, assign_each, opportunity,
  opportunities, evaluate,
}
use gql_ddd_inventory.Purchase.CrossDock.Filling.{Allocates, evaluate-Allocates}

abbrev order : PurchaseOrder
order = record {
  id = 1;
  tenant_id = 2;
  supplier_id = 3;
  destination_location_id = 4;
  items = record { variant_id = 7; quantity = 5 } ∷ [];
  status = draft;
}

abbrev submitted : PurchaseOrder
submitted = record order { status = pending_approval }

no_items_test : new_order (λ s. false) 1 2 3 4 [] ≡ err no_items
unfolding new_order
no_items_test = refl

zero_item_test : new_order_item 7 (pos 0) ≡ err quantity_not_positive
unfolding new_order_item
zero_item_test = refl

submit_test : (act submits order).1 ≡ submitted
unfolding mark_pending_approval
submit_test = refl

pending_approval-IsStuck_example :
    ((act places submitted).1.status ≡ pending_approval)
    ⊎ ((act places submitted).1.status ≡ cancelled)
pending_approval-IsStuck_example =
    pending_approval-IsStuck submitted (act places submitted).1 refl (next here places)

abbrev arrival : List InboundItem
arrival = record { variant_id = 7; quantity = 10 } ∷ []

abbrev waiting_orders : List Backorder
waiting_orders =
    record { order_id = 1; variant_id = 7; quantity = 6; priority = none }
    ∷ record { order_id = 2; variant_id = 7; quantity = 7; priority = some 5 }
    ∷ []

evaluate_test :
    evaluate 1 arrival waiting_orders
    ≡ record {
      purchase_order_id = 1;
      variant_id = 7;
      inbound_quantity = 10;
      matching_backorders =
          record { order_id = 2; required_quantity = 7; priority = 5 }
          ∷ record { order_id = 1; required_quantity = 3; priority = 1 }
          ∷ [];
      recommended_quantity = 10;
    }
      ∷ []
unfolding evaluate opportunities opportunity assign_each backorders_by_variant lookup insert sort
    insert_sorted
evaluate_test = refl

abbrev twice : CrossDockOpportunity → List CrossDockOpportunity
twice o = o ∷ o ∷ []

-- Two lines of one variant give the same orders their goods twice.
evaluate-twice_test :
    evaluate 1
      (record { variant_id = 7; quantity = 7 } ∷ record { variant_id = 7; quantity = 7 } ∷ [])
      waiting_orders
    ≡ twice (record {
      purchase_order_id = 1;
      variant_id = 7;
      inbound_quantity = 7;
      matching_backorders = record { order_id = 2; required_quantity = 7; priority = 5 } ∷ [];
      recommended_quantity = 7;
    })
unfolding evaluate opportunities opportunity assign_each backorders_by_variant lookup insert sort
    insert_sorted
evaluate-twice_test = refl

evaluate-Allocates_example : All (Allocates waiting_orders) (evaluate 1 arrival waiting_orders)
evaluate-Allocates_example = evaluate-Allocates 1 arrival waiting_orders
