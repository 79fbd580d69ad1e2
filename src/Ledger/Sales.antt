-- ===== src/Ledger/Sales.antt =====
-- src/domain/services/InventoryService.ts: sales that post deductions to the ledger. Quantities may have
-- any sign, as in the code. The dispatcher's events are a list.
pub mod Service
pub mod Balance
pub mod Oversell
use gql_ddd_inventory.Prelude.{
  ℕ, ◌≡◌, Bool, true, false, Option, some, List, [], ◌∷◌, ◌++◌, map, Result, ok, err, ◌>>=◌,
  if◌then◌else◌, length, ◌==◌,
}
use gql_ddd_inventory.Prelude.Int.{ℤ, pos, neg_ℤ, scale, ltb_ℤ}
use gql_ddd_inventory.Prelude.Maps.{Map, lookup, get_or}
use gql_ddd_inventory.Prelude.Methods.{Method}
use gql_ddd_inventory.Ledger.Entry.{
  LedgerEntry, LedgerError, ReasonCode, sale, kit_sale, new_ledger_entry,
}
use gql_ddd_inventory.Ledger.Repository.{current_quantity}
use gql_ddd_inventory.Kit.{Kit, KitComponent, is_empty}

pub record InventoryDecremented : Type 0 where
  pub tenant_id : ℕ
  pub location_id : ℕ
  pub variant_id : ℕ
  pub quantity : ℤ
  pub reference_id : ℕ

pub data SaleError : Type 0 where
  insufficient_stock : (variant : ℕ) (requested available : ℤ) → SaleError
  ledger_error : LedgerError → SaleError
  empty_kit : SaleError

pub record Books : Type 0 where
  pub entries : List LedgerEntry
  pub dispatched : List InventoryDecremented

-- Who sells where, and for which sale.
pub record Sale : Type 0 where
  pub tenant_id : ℕ
  pub location_id : ℕ
  pub sale_id : ℕ
  pub actor : ℕ
  pub now : ℕ

abbrev pub Line : Type 0
Line = ℕ × ℤ

abbrev pub Call : Type 0
Call = Method Books SaleError (Unit {0})

abbrev pub of_ledger : {A : Type 0} → Result LedgerError A → Result SaleError A
of_ledger (ok a) = ok a
of_ledger (err e) = err (ledger_error e)

-- The test of a line against what is there.
abbrev pub assert_available : (available : ℤ) → Line → Result SaleError (Unit {0})
assert_available available (variant, needed) =
    if ltb_ℤ available needed then err (insufficient_stock variant needed available) else ok tt

-- `assertSufficientStock`
unfoldable pub assert_sufficient_stock :
    (location : ℕ) → List LedgerEntry → Line → Result SaleError (Unit {0})
assert_sufficient_stock location entries l =
    assert_available (current_quantity l.0 location entries) l

-- The first pass: every line against the quantities that the ledger had at the start.
unfoldable pub assert_all_sufficient : (available : Map ℤ) → List Line → Result SaleError (Unit {0})
assert_all_sufficient available [] = ok tt
assert_all_sufficient available (l ∷ ls) =
    assert_available (get_or (lookup l.0 available) (pos 0)) l >>= λ _.
    assert_all_sufficient available ls

abbrev pub deduction : Sale → ReasonCode → Line → Result SaleError LedgerEntry
deduction s reason (variant, quantity) = of_ledger (
    new_ledger_entry s.tenant_id s.location_id variant (neg_ℤ quantity) reason s.actor s.now
      (some s.sale_id))

-- The second pass: an entry for each line.
unfoldable pub deductions : Sale → ReasonCode → List Line → Result SaleError (List LedgerEntry)
deductions s reason [] = ok []
deductions s reason (l ∷ ls) = do e ← deduction s reason l; es ← deductions s reason ls; ok (e ∷ es)

abbrev pub decremented : Sale → Line → InventoryDecremented
decremented s (variant, quantity) = record {
  tenant_id = s.tenant_id;
  location_id = s.location_id;
  variant_id = variant;
  quantity = quantity;
  reference_id = s.sale_id;
}
