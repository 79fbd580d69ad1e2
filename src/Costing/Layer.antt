-- ===== src/Costing/Layer.antt =====
-- src/domain/entities/InventoryCostLayer.ts and src/domain/valueObjects/CostBreakdown.ts. Quantities
-- and cents are whole numbers, dates are milliseconds; of the lot only its expiry date is read.
use gql_ddd_inventory.Prelude.{
  ℕ, ◌+◌, ◌-◌, ◌*◌, ◌≤◌, ◌≡◌, Bool, Option, Result, ok, err, ◌==◌, min, arith, refl, ◌⊎◌,
  if◌then◌else◌,
}
use gql_ddd_inventory.Prelude.Int.{ℤ, pos, leb_ℤ, ltb_ℤ, pos_part}

pub data LayerError : Type 0 where
  initial_quantity_not_positive negative_unit_cost : LayerError

pub record InventoryCostLayer : Type 0 where
  pub id : ℕ
  pub variant_id : ℕ
  pub initial_quantity : ℕ
  pub unit_cost_cents : ℕ
  pub received_at : ℕ
  pub expiration_date : Option ℕ
  pub consumed_quantity : ℕ

-- The constructor.
unfoldable pub new_layer :
    (id variant : ℕ) (initial_quantity unit_cost_cents : ℤ) (received_at : ℕ)
    → (expiration_date : Option ℕ) → Result LayerError InventoryCostLayer
new_layer i v q cost at expires =
    if leb_ℤ q (pos 0)
    then err initial_quantity_not_positive
    else if ltb_ℤ cost (pos 0)
    then err negative_unit_cost
    else ok (record {
      id = i;
      variant_id = v;
      initial_quantity = pos_part q;
      unit_cost_cents = pos_part cost;
      received_at = at;
      expiration_date = expires;
      consumed_quantity = 0;
    })

abbrev pub remaining_quantity : InventoryCostLayer → ℕ
remaining_quantity l = l.initial_quantity - l.consumed_quantity

abbrev pub remaining_cost_cents : InventoryCostLayer → ℕ
remaining_cost_cents l = remaining_quantity l * l.unit_cost_cents

-- `consume`: how much is taken, and the layer after it.
unfoldable pub consume : ℕ → InventoryCostLayer → ℕ × InventoryCostLayer
consume quantity l =
    let to_consume = min quantity (remaining_quantity l) in
    (to_consume, record l { consumed_quantity = l.consumed_quantity + to_consume })

unfoldable pub is_fully_consumed : InventoryCostLayer → Bool
is_fully_consumed l = remaining_quantity l == 0

pub record CostBreakdown : Type 0 where
  pub quantity : ℕ
  pub total_cost_cents : ℕ

-- A layer never gives more than it holds.
abbrev pub IsValid : InventoryCostLayer → Type 0
IsValid l = l.consumed_quantity ≤ l.initial_quantity

pub consume-IsValid : (q : ℕ) (l : InventoryCostLayer) → IsValid l → IsValid (consume q l).1
unfolding consume
consume-IsValid q l v = omega arith

pub consume_remaining :
    (q : ℕ) (l : InventoryCostLayer)
    → IsValid l
    → (remaining_quantity (consume q l).1 + (consume q l).0 ≡ remaining_quantity l)
      × ((consume q l).0 ≤ q)
unfolding consume
consume_remaining q l v = omega arith

pub consume_cost :
    (q : ℕ) (l : InventoryCostLayer) → (consume q l).1.unit_cost_cents ≡ l.unit_cost_cents
unfolding consume
consume_cost q l = refl

-- A request that a layer does not satisfy uses it up.
pub consume_used_up :
    (q : ℕ) (l : InventoryCostLayer)
    → (q - (consume q l).0 ≡ 0) ⊎ (remaining_quantity (consume q l).1 ≡ 0)
unfolding consume
consume_used_up q l = grind arith
