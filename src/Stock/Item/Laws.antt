-- ===== src/Stock/Item/Laws.antt =====
-- What each method of `InventoryItem` does to the three levels of stock, on every branch.
use gql_ddd_inventory.Prelude.{
  ℕ, ◌+◌, ◌-◌, ◌≡◌, refl, true, false, Option, none, some, Result, ok, err, arith, leb, sym, ap,
  ◌∙◌, ok-injective, if◌then◌else◌,
}
use gql_ddd_inventory.Prelude.Methods.{◌>>=◌, return, returned, kept}
use mathlib.Core.Path.{subst}
use mathlib.Core.Option.{some-injective}
use gql_ddd_inventory.Stock.Quantity.{each, pieces, add, subtract, same_unit_refl}
use gql_ddd_inventory.Stock.Item.{
  InventoryItem, StockError, Call, receive_stock, dispatch_stock, allocate_stock,
  release_allocation, fulfill_allocation, create_in_transit, receive_in_transit, cancel_in_transit,
  reconcile_stock,
}

-- The methods that change the levels, each with its amount in pieces.
pub data Op : Type 0 where
  receive dispatch allocate release fulfill : ℕ → Op
  expect arrive cancel reconcile : ℕ → Op

abbrev pub call : Op → Call
call (receive n) = receive_stock (pieces n)
call (dispatch n) = dispatch_stock (pieces n)
call (allocate n) = allocate_stock (pieces n)
call (release n) = release_allocation (pieces n)
call (fulfill n) = fulfill_allocation (pieces n)
call (expect n) = create_in_transit (pieces n)
call (arrive n) = receive_in_transit (pieces n)
call (cancel n) = cancel_in_transit (pieces n)
call (reconcile n) = reconcile_stock (pieces n) >>= λ _. return tt

-- The abstract view: three numbers.
pub record Levels : Type 0 where
  pub on_hand : ℕ
  pub reserved : ℕ
  pub incoming : ℕ

abbrev pub levels : InventoryItem → Levels
levels item = record {
  on_hand = item.quantity.amount;
  reserved = item.allocated.amount;
  incoming = item.in_transit.amount;
}

-- What an operation promises: new levels, or a refusal.
abbrev pub promised : Op → Levels → Option Levels
promised (receive n) l = some (record l { on_hand = l.on_hand + n })
promised (dispatch n) l =
    if leb n l.on_hand then some (record l { on_hand = l.on_hand - n }) else none
promised (allocate n) l =
    if leb n (l.on_hand + l.incoming - l.reserved)
    then some (record l { reserved = l.reserved + n })
    else none
promised (release n) l =
    if leb n l.reserved then some (record l { reserved = l.reserved - n }) else none
promised (fulfill n) l =
    if leb n l.reserved
    then if leb n l.on_hand
      then some (record l { reserved = l.reserved - n; on_hand = l.on_hand - n })
      else none
    else none
promised (expect n) l = some (record l { incoming = l.incoming + n })
promised (arrive n) l =
    if leb n l.incoming
    then some (record l { incoming = l.incoming - n; on_hand = l.on_hand + n })
    else none
promised (cancel n) l =
    if leb n l.incoming then some (record l { incoming = l.incoming - n }) else none
promised (reconcile n) l = some (record l { on_hand = n })

-- Every amount of the item is counted in pieces.
pub record IsCounted (item : InventoryItem) : Type 0 where
  pub on_hand_unit : item.quantity.unit ≡ each
  pub reserved_unit : item.allocated.unit ≡ each
  pub incoming_unit : item.in_transit.unit ≡ each

pub record IsSameArticle (item item' : InventoryItem) : Type 0 where
  pub same_id : item'.id ≡ item.id
  pub same_sku : item'.sku ≡ item.sku
  pub same_location : item'.location_id ≡ item.location_id

-- A refusal leaves the item as it was; a success reaches the promised levels and counts one version.
abbrev pub Implements :
    Option Levels → InventoryItem → Result StockError (Unit {0}) × InventoryItem → Type 0
Implements none item (r, item') = (returned (r, item') ≡ false) × (item' ≡ item)
Implements (some l) item (r, item') =
    (returned (r, item') ≡ true)
    × (levels item' ≡ l)
    × IsCounted item'
    × IsSameArticle item item'
    × (item'.version ≡ item.version + 1)

-- Every method, called with an amount in pieces on an item counted in pieces, refuses exactly where
-- the abstract operation does and then leaves the item unchanged; otherwise it reaches the levels of
-- the abstract operation, raises the version by one, keeps the item's identity and its unit.
pub call-Implements :
    (op : Op) (item : InventoryItem)
    → IsCounted item
    → Implements (promised op (levels item)) item (call op item)
unfolding receive_stock dispatch_stock allocate_stock release_allocation fulfill_allocation
    create_in_transit receive_in_transit cancel_in_transit reconcile_stock add subtract
call-Implements (receive n) item c = ground (arith, same_unit_refl each)
call-Implements (dispatch n) item c = ground (arith, same_unit_refl each)
call-Implements (allocate n) item c = ground (arith, same_unit_refl each)
call-Implements (release n) item c = ground (arith, same_unit_refl each)
call-Implements (fulfill n) item c = ground (arith, same_unit_refl each)
call-Implements (expect n) item c = ground (arith, same_unit_refl each)
call-Implements (arrive n) item c = ground (arith, same_unit_refl each)
call-Implements (cancel n) item c = ground (arith, same_unit_refl each)
call-Implements (reconcile n) item c = ground (arith, same_unit_refl each)

-- An abstract success is kept by the caller.
pub kept_of_promise :
    (o : Option Levels) (item : InventoryItem) (out : Result StockError (Unit {0}) × InventoryItem)
    {l : Levels}
    → Implements o item out
    → o ≡ some l
    → (item' : InventoryItem) × (kept out ≡ ok item') × (levels item' ≡ l) × IsCounted item'
kept_of_promise none item out i e = cc
kept_of_promise (some l) item (ok a, item') i e = (item', refl, i.1 ∙ some-injective _ _ e, i.2)
kept_of_promise (some l) item (err x, item') i e = cc i.0

-- What the caller keeps is an abstract success.
pub promise_of_kept :
    (o : Option Levels) (item : InventoryItem) (out : Result StockError (Unit {0}) × InventoryItem)
    {item' : InventoryItem}
    → Implements o item out
    → kept out ≡ ok item'
    → (o ≡ some (levels item')) × IsCounted item'
promise_of_kept none item (ok a, x) i e = cc i.0
promise_of_kept none item (err a, x) i e = cc
promise_of_kept (some l) item (ok a, x) i e =
    let same : x ≡ _ = ok-injective e in
    (ap some (sym i.1) ∙ ap (λ y. some (levels y)) same, subst IsCounted same i.2)
promise_of_kept (some l) item (err a, x) i e = cc

-- A call that is kept raises the version by one.
pub version_of_kept :
    (o : Option Levels) (item : InventoryItem) (out : Result StockError (Unit {0}) × InventoryItem)
    {item' : InventoryItem}
    → Implements o item out
    → kept out ≡ ok item'
    → item'.version ≡ item.version + 1
version_of_kept none item (ok a, x) i e = cc i.0
version_of_kept none item (err a, x) i e = cc
version_of_kept (some l) item (ok a, x) i e =
    let same : x ≡ _ = ok-injective e in ap (λ y. y.version) (sym same) ∙ i.4
version_of_kept (some l) item (err a, x) i e = cc
