-- ===== src/Returns/Rma/Reachable.antt =====
-- What holds of every return authorisation that its methods build.
use gql_ddd_inventory.Prelude.{
  WhenOk, ℕ, ◌≤◌, ◌≡◌, refl, true, false, List, [], ◌∷◌, ◌==◌, Result, ok, err, all, All,
  Bool-cases, Result-cases, inl, inr, arith, ◌⊎◌, if◌then◌else◌,
}
use gql_ddd_inventory.Prelude.Int.{ℤ}
use gql_ddd_inventory.Returns.Item
use gql_ddd_inventory.Returns.Item.{
  RmaItem, RmaItemStatus, RmaDisposition, RmaItemError, is_fully_processed, IsTracked, IsUntouched,
}
use gql_ddd_inventory.Returns.Rma.{
  Rma, RmaStatus, RmaError, requested, authorized, received, completed, rejected, Call, placed,
  after_item, receive_first, authorize, receive_item, reject,
}

pub data Action : Type 0 where
  authorizes rejects : Action
  receives : (variant : ℕ) → ℤ → RmaDisposition → Action

abbrev pub act : Action → Call
act authorizes = authorize
act rejects = reject
act (receives variant quantity disposition) = receive_item variant quantity disposition

-- What calls, returning or throwing, make of a return authorisation.
pub data Reaches (start : Rma) : Rma → Type 0 where
  started : Reaches start start
  acted : {rma : Rma} → Reaches start rma → (a : Action) → Reaches start (act a rma).1

-- Whether something was received by the status.
abbrev pub Agrees : RmaStatus → List RmaItem → Type 0
Agrees requested items = All IsUntouched items
Agrees authorized items = All IsUntouched items
Agrees rejected items = All IsUntouched items
Agrees received items = All IsTracked items × (all is_fully_processed items ≡ false)
Agrees completed items = All IsTracked items × All (λ i. i.received_quantity ≡ i.quantity) items

receive-IsTracked :
    (q : ℤ) (d : RmaDisposition) (i : RmaItem)
    → 1 ≤ i.quantity
    → WhenOk IsTracked (Item.receive q d i)
unfolding Item.receive
receive-IsTracked q d i p = ground arith

untouched-IsTracked : (items : List RmaItem) → All IsUntouched items → All IsTracked items
untouched-IsTracked [] h = tt
untouched-IsTracked (i ∷ items) h = (ground arith, untouched-IsTracked items h.1)

placed-All :
    (P : RmaItem → Type 0) (items : List RmaItem) (r : Result RmaItemError RmaItem)
    → WhenOk P r
    → All P items
    → WhenOk (All P) (placed items r)
placed-All P items (ok i) h t = (h, t)
placed-All P items (err e) h t = tt

after_item-All :
    (P : RmaItem → Type 0) (i : RmaItem) (r : Result RmaError (List RmaItem))
    → P i
    → WhenOk (All P) r
    → WhenOk (All P) (after_item i r)
after_item-All P i (ok items) h t = (h, t)
after_item-All P i (err e) h t = tt

receive_first-IsTracked :
    (v : ℕ) (q : ℤ) (d : RmaDisposition) (items : List RmaItem)
    → All IsTracked items
    → WhenOk (All IsTracked) (receive_first v q d items)
unfolding receive_first
receive_first-IsTracked v q d [] t = tt
receive_first-IsTracked v q d (i ∷ items) t = elim (Bool-cases (i.variant_id == v)) [
  | inl e ↦
      rw e (placed-All IsTracked items (Item.receive q d i) (receive-IsTracked q d i t.0.0) t.1)
  | inr e ↦ rw e (
      after_item-All IsTracked i (receive_first v q d items) t.0
        (receive_first-IsTracked v q d items t.1))
]

done-full :
    (items : List RmaItem)
    → All IsTracked items
    → all is_fully_processed items ≡ true
    → All (λ i. i.received_quantity ≡ i.quantity) items
done-full [] t h = tt
done-full (i ∷ items) ((p, inl (e, full)), t) h = (full, done-full items t (rw e at h))
done-full (i ∷ items) ((p, inr (e, some_left)), t) h = cc (rw e at h)

-- The state that a receipt leaves, from the items that it makes.
received-Agrees :
    (items : List RmaItem)
    → All IsTracked items
    → Agrees (if all is_fully_processed items then completed else received) items
received-Agrees items t = elim (Bool-cases (all is_fully_processed items)) [
  | inl e ↦ rw e (t, done-full items t e)
  | inr e ↦ rw e (t, e)
]

abbrev pub Sound : Rma → Type 0
Sound rma = Agrees rma.status rma.items

pub status-cases :
    (s : RmaStatus)
    → ((s ≡ authorized) ⊎ (s ≡ received)) ⊎ ((s ≡ requested) ⊎ ((s ≡ completed) ⊎ (s ≡ rejected)))
status-cases authorized = inl (inl refl)
status-cases received = inl (inr refl)
status-cases requested = inr (inl refl)
status-cases completed = inr (inr (inl refl))
status-cases rejected = inr (inr (inr refl))

-- A receipt on an open one keeps it as it was, or leaves the items received.
pub receive_item-open :
    (v : ℕ) (q : ℤ) (d : RmaDisposition) (rma : Rma)
    → (rma.status ≡ authorized) ⊎ (rma.status ≡ received)
    → ((receive_item v q d rma).1 ≡ rma)
      ⊎ ((items : List RmaItem) × (receive_first v q d rma.items ≡ ok items)
          × ((receive_item v q d rma).1 ≡ record rma {
            items = items;
            status = if all is_fully_processed items then completed else received;
          }))
unfolding receive_item
receive_item-open v q d rma o = elim (Result-cases (receive_first v q d rma.items)) [
  | inl (items, r) ↦ elim o [
    | inl e ↦ inr (items, r, rw (e, r) refl)
    | inr e ↦ inr (items, r, rw (e, r) refl)
  ]
  | inr (x, r) ↦ elim o [ inl e ↦ inl (rw (e, r) refl) | inr e ↦ inl (rw (e, r) refl) ]
]

pub receive_item-refused :
    (v : ℕ) (q : ℤ) (d : RmaDisposition) (rma : Rma)
    → (rma.status ≡ requested) ⊎ ((rma.status ≡ completed) ⊎ (rma.status ≡ rejected))
    → (receive_item v q d rma).1 ≡ rma
unfolding receive_item
receive_item-refused v q d rma (inl e) = rw e refl
receive_item-refused v q d rma (inr (inl e)) = rw e refl
receive_item-refused v q d rma (inr (inr e)) = rw e refl

Agrees-IsTracked : (s : RmaStatus) (items : List RmaItem) → Agrees s items → All IsTracked items
Agrees-IsTracked requested items h = untouched-IsTracked items h
Agrees-IsTracked authorized items h = untouched-IsTracked items h
Agrees-IsTracked rejected items h = untouched-IsTracked items h
Agrees-IsTracked received items h = h.0
Agrees-IsTracked completed items h = h.0

receive_item-Sound :
    (v : ℕ) (q : ℤ) (d : RmaDisposition) (rma : Rma) → Sound rma → Sound (receive_item v q d rma).1
receive_item-Sound v q d rma h = elim (status-cases rma.status) [
  | inr o ↦ rw (receive_item-refused v q d rma o) h
  | inl o ↦ elim (receive_item-open v q d rma o) [
    | inl e ↦ rw e h
    | inr (items, r, e) ↦ rw e (
        received-Agrees items (
          rw r at
            (receive_first-IsTracked v q d rma.items (Agrees-IsTracked rma.status rma.items h))))
  ]
]

authorize-Sound : (rma : Rma) → Sound rma → Sound (authorize rma).1
unfolding authorize
authorize-Sound rma h = elim (status-cases rma.status) [
  | inl (inl e) ↦ rw e (rw e at h)
  | inl (inr e) ↦ rw e (rw e at h)
  | inr (inl e) ↦ rw e (rw e at h)
  | inr (inr (inl e)) ↦ rw e (rw e at h)
  | inr (inr (inr e)) ↦ rw e (rw e at h)
]

reject-Sound : (rma : Rma) → Sound rma → Sound (reject rma).1
unfolding reject
reject-Sound rma h = elim (status-cases rma.status) [
  | inl (inl e) ↦ rw e (rw e at h)
  | inl (inr e) ↦ rw e (rw e at h)
  | inr (inl e) ↦ rw e (rw e at h)
  | inr (inr (inl e)) ↦ rw e (rw e at h)
  | inr (inr (inr e)) ↦ rw e (rw e at h)
]

-- Whatever calls are made on a new return authorisation with positive quantities: no item has received
-- more than was expected of it, nothing was received before a receipt is possible or on one that is
-- rejected, and it is completed exactly when, after a receipt, all items were received in full.
pub Reaches-Sound :
    {start rma : Rma}
    → start.status ≡ requested
    → All IsUntouched start.items
    → Reaches start rma
    → Sound rma
Reaches-Sound e h started = rw e h
Reaches-Sound e h (acted {rma = rma} r authorizes) = authorize-Sound rma (Reaches-Sound e h r)
Reaches-Sound e h (acted {rma = rma} r rejects) = reject-Sound rma (Reaches-Sound e h r)
Reaches-Sound e h (acted {rma = rma} r (receives v q d)) =
    receive_item-Sound v q d rma (Reaches-Sound e h r)
