-- ===== src/Transfer/Entity/Lifecycle.antt =====
-- The life of a `StockTransfer`: which statuses follow one another, and the events that record it.
use gql_ddd_inventory.Prelude.{
  ℕ, ◌≡◌, true, false, List, [], ◌∷◌, arith, ok, Result, Option, none, some, length, ◌≢◌, ◌<◌, ◌+◌,
  length-append,
}
use gql_ddd_inventory.Prelude.Methods.{returned}
use gql_ddd_inventory.Transfer.Entity.{
  StockTransfer, StockTransferStatus, draft, dispatched, received, cancelled, Call, dispatch,
  receive, cancel, create_new, TransferError, StockTransferItem, stock_transfer_dispatched,
  stock_transfer_received, stock_transfer_cancelled,
}

pub data Action : Type 0 where
  dispatches receives : (now : ℕ) → Action
  cancels : Action

abbrev pub act : Action → Call
act (dispatches now) = dispatch now
act (receives now) = receive now
act cancels = cancel

-- The diagram of the statuses.
abbrev pub follow : StockTransferStatus → Action → Option StockTransferStatus
follow draft (dispatches now) = some dispatched
follow dispatched (receives now) = some received
follow draft cancels = some cancelled
follow dispatched cancels = some cancelled
follow _ _ = none

abbrev pub Obeys :
    Option StockTransferStatus
    → StockTransfer
    → Result TransferError (Unit {0}) × StockTransfer
    → Type 0
Obeys none t (r, t') = (returned (r, t') ≡ false) × (t' ≡ t)
Obeys (some s) t (r, t') =
    (returned (r, t') ≡ true)
    × (t'.status ≡ s)
    × (t'.items ≡ t.items)
    × (length t'.domain_events ≡ length t.domain_events + 1)

-- A call on a transfer returns exactly where the diagram of the statuses has an arrow for it; it then
-- takes that arrow, keeps the items and records one event. Otherwise it throws and leaves the
-- transfer unchanged.
pub act-Obeys : (a : Action) (t : StockTransfer) → Obeys (follow t.status a) t (act a t)
unfolding dispatch receive cancel
act-Obeys (dispatches now) t =
    let e = stock_transfer_dispatched t.id t.source_location_id t.destination_location_id in
    ground (arith, length-append t.domain_events (e ∷ []))
act-Obeys (receives now) t =
    let e = stock_transfer_received t.id t.destination_location_id in
    ground (arith, length-append t.domain_events (e ∷ []))
act-Obeys cancels t =
    ground (arith, length-append t.domain_events (stock_transfer_cancelled t.id ∷ []))

abbrev DatesFit : StockTransferStatus → Option ℕ → Option ℕ → Type 0
DatesFit draft sent arrived = (sent ≡ none) × (arrived ≡ none)
DatesFit dispatched sent arrived = (sent ≢ none) × (arrived ≡ none)
DatesFit received sent arrived = (sent ≢ none) × (arrived ≢ none)
DatesFit cancelled sent arrived = arrived ≡ none

-- What every transfer satisfies from its creation on.
pub record IsValid (t : StockTransfer) : Type 0 where
  pub distinct : t.source_location_id ≢ t.destination_location_id
  pub some_items : 0 < length t.items
  pub dates : DatesFit t.status t.dispatched_at t.received_at

-- The transfers that the constructor and the calls, returning or throwing, can produce.
pub data Reachable : StockTransfer → Type 0 where
  created :
      (i n s d : ℕ) (items : List StockTransferItem) (r : Option ℕ) (now : ℕ) {t : StockTransfer}
      → create_new i n s d items r now ≡ ok t
      → Reachable t
  acted : {t : StockTransfer} → Reachable t → (a : Action) → Reachable (act a t).1

create_new-IsValid :
    (i n s d : ℕ) (items : List StockTransferItem) (r : Option ℕ) (now : ℕ) {t : StockTransfer}
    → create_new i n s d items r now ≡ ok t
    → IsValid t
unfolding create_new
create_new-IsValid i n s d items r now e = ground arith

pub act-IsValid : (a : Action) (t : StockTransfer) → IsValid t → IsValid (act a t).1
unfolding dispatch receive cancel
act-IsValid (dispatches now) t v = ground arith
act-IsValid (receives now) t v = ground arith
act-IsValid cancels t v = ground arith

-- Every transfer that `createNew` and any calls after it can produce goes between two different
-- locations, has an item, and has dates in step with its status: none while it is a draft, a
-- dispatch date from its dispatch on, and a receipt date exactly when it is received.
pub Reachable-IsValid : {t : StockTransfer} → Reachable t → IsValid t
Reachable-IsValid (created i n s d items r now e) = create_new-IsValid i n s d items r now e
Reachable-IsValid (acted r a) = act-IsValid a _ (Reachable-IsValid r)
