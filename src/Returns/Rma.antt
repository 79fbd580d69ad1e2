-- ===== src/Returns/Rma.antt =====
-- src/domain/entities/Rma.ts and RMAStatus of src/domain/enums/ReturnEnums.ts.
pub mod Reachable
pub mod Completion
pub mod Repeated
use gql_ddd_inventory.Prelude.{
  ℕ, ◌≡◌, Bool, true, false, not, ◌||◌, List, [], ◌∷◌, all, Result, ok, err, ◌==◌, if◌then◌else◌,
}
use gql_ddd_inventory.Prelude.Int.{ℤ}
use gql_ddd_inventory.Prelude.Methods.{Method, ◌>>=◌, ◌>>◌, this, assign, lift, reject_if}
use gql_ddd_inventory.Returns.Item
use gql_ddd_inventory.Returns.Item.{RmaItem, RmaDisposition, RmaItemError, is_fully_processed}

pub data RmaStatus : Type 0 where
  requested authorized received completed rejected : RmaStatus

pub data RmaError : Type 0 where
  only_requested_can_be_authorized only_authorized_can_be_received : RmaError
  cannot_reject_after_receipt : RmaError
  item_not_found : (variant : ℕ) → RmaError
  item_error : RmaItemError → RmaError

pub record Rma : Type 0 where
  pub id : ℕ
  pub rma_number : ℕ
  pub tenant_id : ℕ
  pub customer_id : ℕ
  pub location_id : ℕ
  pub status : RmaStatus
  pub items : List RmaItem

abbrev pub new_rma : (id rma_number tenant customer location : ℕ) → List RmaItem → Rma
new_rma i n t c l items = record {
  id = i;
  rma_number = n;
  tenant_id = t;
  customer_id = c;
  location_id = l;
  status = requested;
  items = items;
}

abbrev pub Call : Type 0
Call = Method Rma RmaError (Unit {0})

abbrev is_requested : RmaStatus → Bool
is_requested requested = true
is_requested _ = false

abbrev is_authorized : RmaStatus → Bool
is_authorized authorized = true
is_authorized _ = false

abbrev is_received : RmaStatus → Bool
is_received received = true
is_received _ = false

unfoldable pub authorize : Call
authorize = do
  rma ← this
  reject_if (not (is_requested rma.status)) only_requested_can_be_authorized
  assign (record rma { status = authorized })

-- The items after one of them was given.
abbrev pub placed : List RmaItem → Result RmaItemError RmaItem → Result RmaError (List RmaItem)
placed rest (ok item) = ok (item ∷ rest)
placed rest (err e) = err (item_error e)

abbrev pub after_item : RmaItem → Result RmaError (List RmaItem) → Result RmaError (List RmaItem)
after_item item (ok items) = ok (item ∷ items)
after_item item (err e) = err e

-- `find` and the receipt of the item found: the first one of the variant.
unfoldable pub receive_first :
    (variant : ℕ) → ℤ → RmaDisposition → List RmaItem → Result RmaError (List RmaItem)
receive_first variant quantity disposition [] = err (item_not_found variant)
receive_first variant quantity disposition (item ∷ items) =
    let rest = receive_first variant quantity disposition items in
    if item.variant_id == variant
    then placed items (Item.receive quantity disposition item)
    else after_item item rest

unfoldable pub receive_item : (variant : ℕ) → ℤ → RmaDisposition → Call
receive_item variant quantity disposition = do
  rma ← this
  reject_if (not (is_authorized rma.status || is_received rma.status))
      only_authorized_can_be_received
  items ← lift (receive_first variant quantity disposition rma.items)
  assign (record rma {
    items = items;
    status = if all is_fully_processed items then completed else received;
  })

unfoldable pub reject : Call
reject = do
  rma ← this
  reject_if (not (is_requested rma.status || is_authorized rma.status)) cannot_reject_after_receipt
  assign (record rma { status = rejected })
