-- ===== src/Ledger/Sales/Service.antt =====
-- The methods of src/domain/services/InventoryService.ts.
use gql_ddd_inventory.Prelude.{ℕ, List, [], ◌∷◌, ◌++◌, map, err, if◌then◌else◌}
use gql_ddd_inventory.Prelude.Int.{ℤ, scale}
use gql_ddd_inventory.Prelude.Methods.{◌>>=◌, ◌>>◌, return, this, assign, lift}
use gql_ddd_inventory.Ledger.Entry.{LedgerEntry, ReasonCode, sale, kit_sale}
use gql_ddd_inventory.Ledger.Repository.{current_quantities}
use gql_ddd_inventory.Kit.{Kit, KitComponent, is_empty}
use gql_ddd_inventory.Ledger.Sales.{
  InventoryDecremented, empty_kit, Books, Sale, Line, Call, assert_sufficient_stock,
  assert_all_sufficient, deduction, deductions, decremented,
}

abbrev pub post : List LedgerEntry → List InventoryDecremented → Books → Books
post es events books = record {
  entries = books.entries ++ es;
  dispatched = books.dispatched ++ events;
}

unfoldable pub decrement_for_sale : Sale → (variant : ℕ) → ℤ → Call
decrement_for_sale s variant quantity = do
  books ← this
  lift (assert_sufficient_stock s.location_id books.entries (variant, quantity))
  e ← lift (deduction s sale (variant, quantity))
  assign (post (e ∷ []) (decremented s (variant, quantity) ∷ []) books)

-- The three passes that the batch and the kit share.
unfoldable pub sell_lines : Sale → ReasonCode → List Line → Call
sell_lines s reason lines = do
  books ← this
  let available = current_quantities (map (λ l. l.0) lines) s.location_id books.entries
  lift (assert_all_sufficient available lines)
  es ← lift (deductions s reason lines)
  assign (post es (map (decremented s) lines) books)

unfoldable pub decrement_for_sale_batch : Sale → List Line → Call
decrement_for_sale_batch s [] = return tt
decrement_for_sale_batch s (l ∷ ls) = sell_lines s sale (l ∷ ls)

abbrev pub needed_for : ℤ → KitComponent → Line
needed_for kit_quantity c = (c.variant_id, scale c.quantity kit_quantity)

unfoldable pub decrement_for_kit_sale : Sale → Kit → (kit_quantity : ℤ) → Call
decrement_for_kit_sale s kit kit_quantity =
    if is_empty kit
    then lift (err empty_kit)
    else sell_lines s kit_sale (map (needed_for kit_quantity) kit.components)
