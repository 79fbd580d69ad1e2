-- ===== src/Stock/Quantity.antt =====
-- src/domain/valueObjects/Quantity.ts, UnitOfMeasure.ts and src/domain/enums/UomCategory.ts. Amounts
-- are whole numbers; unit names are identifiers that are only compared.
use gql_ddd_inventory.Prelude.{
  ℕ, ◌+◌, ◌-◌, ◌≤◌, ◌≡◌, Bool, true, false, not, ◌&&◌, Result, ok, ◌>>◌, throw_if, arith, ltb, ◌==◌,
}
use gql_ddd_inventory.Prelude.Int.{ℤ, pos, ltb_ℤ, pos_part}

pub data UomCategory : Type 0 where
  discrete weight volume : UomCategory

abbrev pub same_category : UomCategory → UomCategory → Bool
same_category discrete discrete = true
same_category weight weight = true
same_category volume volume = true
same_category _ _ = false

pub record UnitOfMeasure : Type 0 where
  pub name : ℕ
  pub abbreviation : ℕ
  pub category : UomCategory

-- `UnitOfMeasure.equals`
unfoldable pub same_unit : UnitOfMeasure → UnitOfMeasure → Bool
same_unit u v = u.name == v.name && same_category u.category v.category

-- `StandardUnits.each`
abbrev pub each : UnitOfMeasure
each = record { name = 0; abbreviation = 0; category = discrete }

pub data QuantityError : Type 0 where
  negative_amount different_units negative_result : QuantityError

pub record Quantity : Type 0 where
  pub amount : ℕ
  pub unit : UnitOfMeasure

-- An amount in the default unit.
abbrev pub pieces : ℕ → Quantity
pieces n = record { amount = n; unit = each }

-- `new Quantity(amount, unit)`
unfoldable pub new_quantity : ℤ → UnitOfMeasure → Result QuantityError Quantity
new_quantity amount unit = do
  throw_if (ltb_ℤ amount (pos 0)) negative_amount
  ok (record { amount = pos_part amount; unit = unit })

assert_same_unit : Quantity → Quantity → Result QuantityError (Unit {0})
assert_same_unit a b = throw_if (not (same_unit a.unit b.unit)) different_units

unfoldable pub add : Quantity → Quantity → Result QuantityError Quantity
unfolding assert_same_unit
add a b = do assert_same_unit a b; ok (record { amount = a.amount + b.amount; unit = a.unit })

unfoldable pub subtract : Quantity → Quantity → Result QuantityError Quantity
unfolding assert_same_unit
subtract a b = do
  assert_same_unit a b
  throw_if (ltb a.amount b.amount) negative_result
  ok (record { amount = a.amount - b.amount; unit = a.unit })

pub same_unit_refl : (u : UnitOfMeasure) → same_unit u u ≡ true
unfolding same_unit
same_unit_refl u = ground arith

-- Amounts of one unit add.
pub add_same :
    (a b : Quantity)
    → same_unit a.unit b.unit ≡ true
    → add a b ≡ ok (record { amount = a.amount + b.amount; unit = a.unit })
unfolding add
add_same a b h = ground arith

-- Amounts of one unit subtract when the second is covered.
pub subtract_same :
    (a b : Quantity)
    → same_unit a.unit b.unit ≡ true
    → b.amount ≤ a.amount
    → subtract a b ≡ ok (record { amount = a.amount - b.amount; unit = a.unit })
unfolding subtract
subtract_same a b h k = ground arith

-- Adding an amount and taking it away again gives the amount that was there, whatever the units,
-- whenever the addition is allowed.
pub subtract-add : (a b : Quantity) {c : Quantity} → add a b ≡ ok c → subtract c b ≡ ok a
unfolding add subtract
subtract-add a b h = ground arith
