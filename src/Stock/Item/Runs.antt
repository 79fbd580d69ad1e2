-- ===== src/Stock/Item/Runs.antt =====
-- Sequences of successful calls on one `InventoryItem`, and what holds after any of them.
use gql_ddd_inventory.Prelude.{
  ℕ, ◌+◌, ◌≤◌, ◌≡◌, true, none, some, List, [], ◌∷◌, arith, sum_by, length, All, Option, Result, ap,
  sym,
}
use gql_ddd_inventory.Prelude.Methods.{returned}
use gql_ddd_inventory.Stock.Item.{InventoryItem, StockError, dispatch_stock}
use gql_ddd_inventory.Stock.Quantity.{each, subtract, same_unit_refl}
use gql_ddd_inventory.Stock.Item.Laws.{
  Op, receive, dispatch, allocate, release, fulfill, expect, arrive, cancel, reconcile, call,
  Levels, levels, promised, IsCounted, Implements, call-Implements,
}

-- `Trace start ops item`: the calls of `ops`, the last one first, all returned and led to `item`.
pub data Trace (start : InventoryItem) : List Op → InventoryItem → Type 0 where
  here : Trace start [] start
  next :
      {ops : List Op} {item : InventoryItem}
      → Trace start ops item
      → (op : Op) → returned (call op item) ≡ true
      → Trace start (op ∷ ops) (call op item).1

-- The abstract step that a successful call makes.
abbrev pub Reaches : Option Levels → InventoryItem → InventoryItem → Type 0
Reaches o item item' =
    (o ≡ some (levels item')) × IsCounted item' × (item'.version ≡ item.version + 1)

Implements-Reaches :
    (o : Option Levels) (item : InventoryItem) (out : Result StockError (Unit {0}) × InventoryItem)
    → Implements o item out
    → returned out ≡ true
    → Reaches o item out.1
Implements-Reaches none item (r, item') h e = cc h.0
Implements-Reaches (some l) item (r, item') h e = (ap some (sym h.1), h.2, h.4)

call-Reaches :
    (op : Op) (item : InventoryItem)
    → IsCounted item
    → returned (call op item) ≡ true
    → Reaches (promised op (levels item)) item (call op item).1
call-Reaches op item c = Implements-Reaches _ item (call op item) (call-Implements op item c)

pub Trace-IsCounted :
    {start item : InventoryItem} {ops : List Op}
    → IsCounted start
    → Trace start ops item
    → IsCounted item
Trace-IsCounted c here = c
Trace-IsCounted c (next {item = item} t op r) = (call-Reaches op item (Trace-IsCounted c t) r).1

abbrev pub brought_in : Op → ℕ
brought_in (receive n) = n
brought_in (arrive n) = n
brought_in _ = 0

abbrev pub taken_out : Op → ℕ
taken_out (dispatch n) = n
taken_out (fulfill n) = n
taken_out _ = 0

abbrev pub IsMovement : Op → Type 0
IsMovement (reconcile n) = ⊥
IsMovement _ = Unit

step_accounts :
    (op : Op) (l l' : Levels)
    → IsMovement op
    → promised op l ≡ some l'
    → l'.on_hand + taken_out op ≡ l.on_hand + brought_in op
step_accounts (receive n) l l' m e = ground arith
step_accounts (dispatch n) l l' m e = ground arith
step_accounts (allocate n) l l' m e = ground arith
step_accounts (release n) l l' m e = ground arith
step_accounts (fulfill n) l l' m e = ground arith
step_accounts (expect n) l l' m e = ground arith
step_accounts (arrive n) l l' m e = ground arith
step_accounts (cancel n) l l' m e = ground arith
step_accounts (reconcile n) l l' m e = absurd m

-- From an item counted in pieces, after any sequence of successful calls with no reconciliation among
-- them, the stock on hand is the stock at the start plus all that was received or arrived less all
-- that was dispatched or fulfilled, and the version has risen by the number of calls.
pub Trace-on_hand :
    {start item : InventoryItem} {ops : List Op}
    → IsCounted start
    → All IsMovement ops
    → Trace start ops item
    → (item.quantity.amount + sum_by taken_out ops ≡ start.quantity.amount + sum_by brought_in ops)
      × (item.version ≡ start.version + length ops)
Trace-on_hand c m here = omega arith
Trace-on_hand c m (next {ops = ops} {item = item} t op r) =
    let (h, v) = Trace-on_hand c m.1 t in
    let s = call-Reaches op item (Trace-IsCounted c t) r in
    let a = step_accounts op (levels item) _ m.0 s.0 in (omega arith, omega (arith, s.2))

-- The calls that keep every reservation backed by stock on hand or on its way.
abbrev pub IsBacking : Op → Type 0
IsBacking (dispatch n) = ⊥
IsBacking (cancel n) = ⊥
IsBacking (reconcile n) = ⊥
IsBacking _ = Unit

abbrev pub IsBacked : Levels → Type 0
IsBacked l = l.reserved ≤ l.on_hand + l.incoming

step-IsBacked :
    (op : Op) (l l' : Levels) → IsBacking op → IsBacked l → promised op l ≡ some l' → IsBacked l'
step-IsBacked (receive n) l l' m b e = ground arith
step-IsBacked (dispatch n) l l' m b e = absurd m
step-IsBacked (allocate n) l l' m b e = ground arith
step-IsBacked (release n) l l' m b e = ground arith
step-IsBacked (fulfill n) l l' m b e = ground arith
step-IsBacked (expect n) l l' m b e = ground arith
step-IsBacked (arrive n) l l' m b e = ground arith
step-IsBacked (cancel n) l l' m b e = absurd m
step-IsBacked (reconcile n) l l' m b e = absurd m

-- From an item counted in pieces whose reservations are backed by its stock on hand and in transit,
-- no sequence of successful receipts, allocations, releases, fulfilments and in-transit movements
-- other than a cancellation reserves more than is on hand and in transit.
pub Trace-IsBacked :
    {start item : InventoryItem} {ops : List Op}
    → IsCounted start
    → IsBacked (levels start)
    → All IsBacking ops
    → Trace start ops item
    → IsBacked (levels item)
Trace-IsBacked c b m here = b
Trace-IsBacked c b m (next {ops = ops} {item = item} t op r) =
    step-IsBacked op (levels item) _ m.0 (Trace-IsBacked c b m.1 t)
      (call-Reaches op item (Trace-IsCounted c t) r).0

-- A plain dispatch, and a cancelled delivery, do not look at the reservations: on a counted item
-- with all its stock reserved and some of it on hand, dispatching what is on hand succeeds and
-- leaves a reservation that is not backed.
dispatch-not-IsBacked :
    (item : InventoryItem)
    → IsCounted item
    → (levels item).reserved ≡ (levels item).on_hand + (levels item).incoming
    → 1 ≤ (levels item).on_hand
    → let after = call (dispatch (levels item).on_hand) item in
      (returned after ≡ true) × ¬ IsBacked (levels after.1)
unfolding dispatch_stock subtract
dispatch-not-IsBacked item c full some_left = ground (arith, same_unit_refl each)
