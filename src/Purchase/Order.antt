-- ===== src/Purchase/Order.antt =====
-- src/domain/entities/PurchaseOrder.ts, src/domain/valueObjects/PurchaseOrderItem.ts and
-- src/domain/enums/PurchaseOrderStatus.ts: the order and its status.
pub mod Lifecycle
use gql_ddd_inventory.Prelude.{
  ℕ, Bool, true, false, not, ◌||◌, List, [], ◌∷◌, Result, ok, err, throw_if,
}
use gql_ddd_inventory.Prelude
use gql_ddd_inventory.Prelude.Int.{ℤ, pos, leb_ℤ, pos_part}
use gql_ddd_inventory.Prelude.Methods.{Method, ◌>>=◌, ◌>>◌, this, assign, reject_if}

pub data PurchaseOrderStatus : Type 0 where
  draft pending_approval ordered received cancelled : PurchaseOrderStatus

abbrev pub same_status : PurchaseOrderStatus → PurchaseOrderStatus → Bool
same_status draft draft = true
same_status pending_approval pending_approval = true
same_status ordered ordered = true
same_status received received = true
same_status cancelled cancelled = true
same_status _ _ = false

pub data PurchaseError : Type 0 where
  quantity_not_positive empty_supplier no_items not_a_draft : PurchaseError
  cannot_place cannot_receive cannot_cancel : PurchaseOrderStatus → PurchaseError

pub record PurchaseOrderItem : Type 0 where
  pub variant_id : ℕ
  pub quantity : ℕ

pub record PurchaseOrder : Type 0 where
  pub id : ℕ
  pub tenant_id : ℕ
  pub supplier_id : ℕ
  pub destination_location_id : ℕ
  pub items : List PurchaseOrderItem
  pub status : PurchaseOrderStatus

-- `new PurchaseOrderItem(variantId, quantity)`
unfoldable pub new_order_item : (variant : ℕ) → ℤ → Result PurchaseError PurchaseOrderItem
new_order_item variant quantity =
    Prelude.◌>>◌ (throw_if (leb_ℤ quantity (pos 0)) quantity_not_positive)
      (ok (record { variant_id = variant; quantity = pos_part quantity }))

abbrev has_no_items : {A : Type 0} → List A → Bool
has_no_items [] = true
has_no_items (x ∷ xs) = false

-- `PurchaseOrder.createNew`. A supplier's identifier is blank where `blank` says so.
unfoldable pub new_order :
    (blank : (supplier : ℕ) → Bool)
    → (id tenant supplier destination : ℕ) → List PurchaseOrderItem
    → Result PurchaseError PurchaseOrder
new_order blank id tenant supplier destination items =
    Prelude.◌>>◌ (throw_if (blank supplier) empty_supplier) (
      Prelude.◌>>◌ (throw_if (has_no_items items) no_items) (
        ok (record {
          id = id;
          tenant_id = tenant;
          supplier_id = supplier;
          destination_location_id = destination;
          items = items;
          status = draft;
        })))

abbrev pub Call : Type 0
Call = Method PurchaseOrder PurchaseError (Unit {0})

unfoldable pub place : Call
place = do
  order ← this
  reject_if (not (same_status order.status draft)) (cannot_place order.status)
  assign (record order { status = ordered })

unfoldable pub receive_order : Call
receive_order = do
  order ← this
  reject_if (not (same_status order.status ordered)) (cannot_receive order.status)
  assign (record order { status = received })

unfoldable pub mark_pending_approval : Call
mark_pending_approval = do
  order ← this
  reject_if (not (same_status order.status draft)) not_a_draft
  assign (record order { status = pending_approval })

unfoldable pub cancel_order : Call
cancel_order = do
  order ← this
  reject_if (same_status order.status received || same_status order.status cancelled)
      (cannot_cancel order.status)
  assign (record order { status = cancelled })
