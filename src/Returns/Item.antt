-- ===== src/Returns/Item.antt =====
-- src/domain/entities/RmaItem.ts and its enums in src/domain/enums/ReturnEnums.ts.
use gql_ddd_inventory.Prelude.{
  ℕ, ◌+◌, ◌≤◌, ◌≡◌, Bool, true, false, Option, some, Result, ok, ◌>>◌, throw_if, ◌==◌, ltb,
  if◌then◌else◌, ◌⊎◌,
}
use gql_ddd_inventory.Prelude.Int.{ℤ, pos, leb_ℤ, ltb_ℤ, pos_part}

pub data RmaDisposition : Type 0 where
  restock scrap quarantine : RmaDisposition

pub data RmaItemStatus : Type 0 where
  pending received rejected : RmaItemStatus

pub data RmaItemError : Type 0 where
  quantity_not_positive negative_unit_cost negative_received : RmaItemError
  receive_not_positive exceeds_expected : RmaItemError

pub record RmaItem : Type 0 where
  pub id : ℕ
  pub variant_id : ℕ
  pub quantity : ℕ
  pub unit_cost_cents : ℕ
  pub received_quantity : ℕ
  pub status : RmaItemStatus
  pub disposition : Option RmaDisposition

-- The constructor.
unfoldable pub new_rma_item :
    (id variant : ℕ) (quantity unit_cost_cents received_quantity : ℤ)
    → RmaItemStatus
    → Option RmaDisposition
    → Result RmaItemError RmaItem
new_rma_item i v quantity cost got status disposition = do
  throw_if (leb_ℤ quantity (pos 0)) quantity_not_positive
  throw_if (ltb_ℤ cost (pos 0)) negative_unit_cost
  throw_if (ltb_ℤ got (pos 0)) negative_received
  ok (record {
    id = i;
    variant_id = v;
    quantity = pos_part quantity;
    unit_cost_cents = pos_part cost;
    received_quantity = pos_part got;
    status = status;
    disposition = disposition;
  })

unfoldable pub receive : (amount : ℤ) → RmaDisposition → RmaItem → Result RmaItemError RmaItem
receive amount disposition item = do
  throw_if (leb_ℤ amount (pos 0)) receive_not_positive
  let total = item.received_quantity + pos_part amount
  throw_if (ltb item.quantity total) exceeds_expected
  ok (record item {
    received_quantity = total;
    disposition = some disposition;
    status = if total == item.quantity then received else pending;
  })

unfoldable pub reject : RmaItem → RmaItem
reject item = record item { status = rejected }

abbrev pub is_done : RmaItemStatus → Bool
is_done received = true
is_done rejected = true
is_done pending = false

abbrev pub is_fully_processed : RmaItem → Bool
is_fully_processed item = is_done item.status

-- What was received is no more than what was expected, and the status says whether it is all.
abbrev pub IsTracked : RmaItem → Type 0
IsTracked item =
    (1 ≤ item.quantity)
    × (((item.status ≡ received) × (item.received_quantity ≡ item.quantity))
        ⊎ ((item.status ≡ pending) × (item.received_quantity + 1 ≤ item.quantity)))

-- Nothing was received.
abbrev pub IsUntouched : RmaItem → Type 0
IsUntouched item = (1 ≤ item.quantity) × (item.status ≡ pending) × (item.received_quantity ≡ 0)
