-- ===== src/Ledger/Entry.antt =====
-- src/domain/entities/LedgerEntry.ts and src/domain/enums/ReasonCode.ts. Metadata is left out.
use gql_ddd_inventory.Prelude.{ℕ, Bool, false, Option, ◌==◌, Result, ok, err, if◌then◌else◌}
use gql_ddd_inventory.Prelude.Int.{ℤ, pos, ltb_ℤ}

pub data ReasonCode : Type 0 where
  sale kit_sale purchase_receipt restock return damage transfer count_adjustment : ReasonCode
  write_off shrinkage opening_balance kit_assembly kit_disassembly : ReasonCode

pub data LedgerError : Type 0 where
  zero_quantity : LedgerError

pub record LedgerEntry : Type 0 where
  pub tenant_id : ℕ
  pub location_id : ℕ
  pub variant_id : ℕ
  pub quantity : ℤ
  pub reason : ReasonCode
  pub actor : ℕ
  pub occurred_at : ℕ
  pub reference_id : Option ℕ

abbrev pub is_zero : ℤ → Bool
is_zero (ℤ.pos n) = n == 0
is_zero (ℤ.negsuc n) = false

-- The constructor, which refuses a quantity of zero.
unfoldable pub new_ledger_entry :
    (tenant location variant : ℕ)
    → ℤ
    → ReasonCode
    → (actor occurred_at : ℕ) → Option ℕ
    → Result LedgerError LedgerEntry
new_ledger_entry tenant location variant q reason actor at reference =
    if is_zero q
    then err zero_quantity
    else ok (record {
      tenant_id = tenant;
      location_id = location;
      variant_id = variant;
      quantity = q;
      reason = reason;
      actor = actor;
      occurred_at = at;
      reference_id = reference;
    })

unfoldable pub is_deduction : LedgerEntry → Bool
is_deduction e = ltb_ℤ e.quantity (pos 0)
