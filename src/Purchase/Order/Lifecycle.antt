-- ===== src/Purchase/Order/Lifecycle.antt =====
-- The diagram of an order's statuses, and what no sequence of calls leaves.
use gql_ddd_inventory.Prelude.{◌≡◌, true, false, Option, none, some, Result, arith, ◌⊎◌, inl, inr}
use gql_ddd_inventory.Prelude.Methods.{returned}
use gql_ddd_inventory.Purchase.Order.{
  PurchaseOrderStatus, draft, pending_approval, ordered, received, cancelled, PurchaseOrder,
  PurchaseError, Call, place, receive_order, mark_pending_approval, cancel_order,
}

pub data Action : Type 0 where
  places receives submits cancels : Action

abbrev pub act : Action → Call
act places = place
act receives = receive_order
act submits = mark_pending_approval
act cancels = cancel_order

-- The arrows of the diagram.
abbrev pub arrow : Action → PurchaseOrderStatus → Option PurchaseOrderStatus
arrow places draft = some ordered
arrow submits draft = some pending_approval
arrow receives ordered = some received
arrow cancels draft = some cancelled
arrow cancels pending_approval = some cancelled
arrow cancels ordered = some cancelled
arrow _ _ = none

-- Where there is no arrow the call throws and the order is as it was; else only the status follows it.
abbrev pub Obeys :
    Option PurchaseOrderStatus
    → PurchaseOrder
    → Result PurchaseError (Unit {0}) × PurchaseOrder
    → Type 0
Obeys none o (r, o') = (returned (r, o') ≡ false) × (o' ≡ o)
Obeys (some t) o (r, o') = (returned (r, o') ≡ true) × (o' ≡ record o { status = t })

-- A call on an order returns exactly where the diagram has an arrow from the order's status (a draft
-- is placed, submitted for approval or cancelled; an order awaiting approval is cancelled; a placed
-- order is received or cancelled), and then changes the status along it and nothing else; where there
-- is none it throws and leaves the order as it was.
order_act-Obeys : (a : Action) (o : PurchaseOrder) → Obeys (arrow a o.status) o (act a o)
unfolding place receive_order mark_pending_approval cancel_order
order_act-Obeys places o = ground arith
order_act-Obeys receives o = ground arith
order_act-Obeys submits o = ground arith
order_act-Obeys cancels o = ground arith

-- `Reaches o p`: calls that return or throw lead from one to the other.
pub data Reaches (start : PurchaseOrder) : PurchaseOrder → Type 0 where
  here : Reaches start start
  next : {o : PurchaseOrder} → Reaches start o → (a : Action) → Reaches start (act a o).1

-- An order that awaits approval, or is cancelled.
abbrev IsHeld : PurchaseOrderStatus → Type 0
IsHeld s = (s ≡ pending_approval) ⊎ (s ≡ cancelled)

stays : (a : Action) (o : PurchaseOrder) → IsHeld o.status → IsHeld (act a o).1.status
unfolding place receive_order mark_pending_approval cancel_order
stays places o (inl e) = inl (ground (arith, e))
stays places o (inr e) = inr (ground (arith, e))
stays receives o (inl e) = inl (ground (arith, e))
stays receives o (inr e) = inr (ground (arith, e))
stays submits o (inl e) = inl (ground (arith, e))
stays submits o (inr e) = inr (ground (arith, e))
stays cancels o (inl e) = inr (ground (arith, e))
stays cancels o (inr e) = inr (ground (arith, e))

-- An order that was submitted for approval is never placed or received, whatever calls follow: it
-- stays in wait of the approval or is cancelled.
pub pending_approval-IsStuck :
    (start o : PurchaseOrder)
    → start.status ≡ pending_approval
    → Reaches start o
    → (o.status ≡ pending_approval) ⊎ (o.status ≡ cancelled)
pending_approval-IsStuck start _ h here = inl h
pending_approval-IsStuck start _ h (next {o} r a) = stays a o (pending_approval-IsStuck start o h r)
