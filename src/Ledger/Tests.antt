-- ===== src/Ledger/Tests.antt =====
-- Sales on a ledger of two receipts, and an opening balance.
use gql_ddd_inventory.Prelude.{
  ℕ, ◌≡◌, ◌>>=◌, refl, true, false, none, some, ok, err, ◌==◌, if◌then◌else◌, List, [], ◌∷◌, map,
  All,
}
use gql_ddd_inventory.Prelude.Int.{ℤ, pos, ◌+ℤ◌}
use gql_ddd_inventory.Prelude.Methods.{returned}
use gql_ddd_inventory.Kit.{Kit, is_empty, new_kit, new_component, find_component, add_component}
use gql_ddd_inventory.Kit.Reachable.{Reachable, Reachable.created, Reachable.acted, act, adds}
use gql_ddd_inventory.Ledger.Entry.{
  LedgerEntry, purchase_receipt, opening_balance, new_ledger_entry,
}
use gql_ddd_inventory.Ledger.Repository.{
  current_quantity, sum_from, current_quantities, quantities_from,
}
use gql_ddd_inventory.Prelude.Maps.{lookup, insert, erase}
use gql_ddd_inventory.Ledger.Opening.{
  OpeningBooks, balance_conflict, execute_opening, StockOnboarding, remove_item, no_items,
  set_items, set_item, new_onboarding_item, submit_onboarding, process, assert_no_entries,
  has_any_entries_batch, mark_entries, no_entries_yet, opening_entries,
}
use gql_ddd_inventory.Ledger.Opening.Posted.{opened, opened_to, execute_opening-Opens}
use gql_ddd_inventory.Ledger.Sales.{Books, Sale, Line, assert_all_sufficient, deductions}
use gql_ddd_inventory.Ledger.Sales.Service.{
  decrement_for_sale_batch, decrement_for_kit_sale, sell_lines, needed_for,
}
use gql_ddd_inventory.Ledger.Sales.Balance.{Sells}
use gql_ddd_inventory.Ledger.Sales.Oversell.{
  IsStocked, decrement_for_sale_batch-Sells, decrement_for_kit_sale-IsStocked,
}

abbrev received : (variant : ℕ) → ℤ → LedgerEntry
received v q = record {
  tenant_id = 1;
  location_id = 4;
  variant_id = v;
  quantity = q;
  reason = purchase_receipt;
  actor = 9;
  occurred_at = 100;
  reference_id = none;
}

-- Five of variant 1 and six of variant 2 at location 4.
abbrev books : Books
books = record { entries = received 1 (pos 5) ∷ received 2 (pos 6) ∷ []; dispatched = [] }

abbrev till : Sale
till = record { tenant_id = 1; location_id = 4; sale_id = 33; actor = 9; now = 200 }

abbrev basket : List Line
basket = (1, pos 2) ∷ (2, pos 6) ∷ []

basket_returns : returned (decrement_for_sale_batch till basket books) ≡ true
unfolding decrement_for_sale_batch sell_lines assert_all_sufficient current_quantities
    quantities_from lookup insert current_quantity sum_from deductions new_ledger_entry ◌+ℤ◌
basket_returns = refl

left_test : current_quantity 1 4 (decrement_for_sale_batch till basket books).1.entries ≡ pos 3
unfolding decrement_for_sale_batch sell_lines assert_all_sufficient current_quantities
    quantities_from lookup insert current_quantity sum_from deductions new_ledger_entry ◌+ℤ◌
left_test = refl

too_much_test : returned (decrement_for_sale_batch till ((1, pos 6) ∷ []) books) ≡ false
unfolding decrement_for_sale_batch sell_lines assert_all_sufficient current_quantities
    quantities_from lookup insert current_quantity sum_from deductions new_ledger_entry ◌+ℤ◌
too_much_test = refl

decrement_for_sale_batch-Sells_example :
    Sells till basket books (decrement_for_sale_batch till basket books)
decrement_for_sale_batch-Sells_example = decrement_for_sale_batch-Sells till basket books

-- One of variant 1 and two of variant 2.
abbrev pair_kit : Kit
pair_kit = (act (adds 2 (pos 2)) (act (adds 1 (pos 1)) (new_kit 7 70)).1).1

pair_kit-Reachable : Reachable pair_kit
pair_kit-Reachable = acted (acted (created 7 70) (adds 1 (pos 1))) (adds 2 (pos 2))

kits_return : returned (decrement_for_kit_sale till pair_kit (pos 3) books) ≡ true
unfolding decrement_for_kit_sale sell_lines assert_all_sufficient current_quantities quantities_from
    lookup insert current_quantity sum_from deductions new_ledger_entry ◌+ℤ◌ is_empty add_component
    find_component new_component
kits_return = refl

decrement_for_kit_sale-IsStocked_example :
    All
      (IsStocked 4 (decrement_for_kit_sale till pair_kit (pos 3) books).1.entries)
      (map (needed_for (pos 3)) pair_kit.components)
decrement_for_kit_sale-IsStocked_example =
    decrement_for_kit_sale-IsStocked till pair_kit (pos 3) books pair_kit-Reachable kits_return

five_there : current_quantity 1 4 books.entries ≡ pos 5
unfolding current_quantity sum_from ◌+ℤ◌
five_there = refl

-- Two variants, the first in two lines.
abbrev first_counts : List (ℕ × ℤ × ℤ)
first_counts = (1, pos 5, pos 100) ∷ (2, pos 3, pos 40) ∷ (1, pos 7, pos 100) ∷ []

abbrev no_books : OpeningBooks
no_books = record { entries = []; dispatched = [] }

abbrev entry_at : (variant : ℕ) → ℤ → LedgerEntry
entry_at v q = record {
  tenant_id = 1;
  location_id = 4;
  variant_id = v;
  quantity = q;
  reason = opening_balance;
  actor = 9;
  occurred_at = 20;
  reference_id = some 77;
}

abbrev opened_books : OpeningBooks
opened_books = record {
  entries = entry_at 1 (pos 7) ∷ entry_at 2 (pos 3) ∷ [];
  dispatched =
      record { variant_id = 1; quantity = 7; onboarding_id = 77 }
      ∷ record { variant_id = 2; quantity = 3; onboarding_id = 77 }
      ∷ [];
}

opening_returns : execute_opening 77 1 4 20 9 first_counts no_books ≡ ok opened_books
unfolding execute_opening set_items set_item new_onboarding_item submit_onboarding process
    assert_no_entries has_any_entries_batch mark_entries no_entries_yet opening_entries lookup
    insert new_ledger_entry
opening_returns = refl

opening_twice_test :
    execute_opening 78 1 4 20 9 ((2, pos 1, pos 40) ∷ []) opened_books ≡ err (balance_conflict 2 4)
unfolding execute_opening set_items set_item new_onboarding_item submit_onboarding process
    assert_no_entries has_any_entries_batch mark_entries no_entries_yet opening_entries lookup
    insert new_ledger_entry
opening_twice_test = refl

execute_opening-Opens_example : current_quantity 1 4 opened_books.entries ≡ (
    if 4 == 4
    then opened_to (opened 1 first_counts none) (current_quantity 1 4 no_books.entries)
    else current_quantity 1 4 no_books.entries)
execute_opening-Opens_example =
    execute_opening-Opens 77 1 4 20 9 1 4 first_counts no_books opening_returns

abbrev one_line : StockOnboarding
one_line = record {
  id = 77;
  tenant_id = 1;
  location_id = 4;
  as_of_date = 20;
  is_submitted = false;
  items = (1, record { quantity = 5; unit_cost_cents = 100 }) ∷ [];
}

removed_test : (remove_item 1 one_line >>= submit_onboarding) ≡ err no_items
unfolding remove_item submit_onboarding erase
removed_test = refl
