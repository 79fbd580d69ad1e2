-- ===== src/Transfer/Entity.antt =====
-- src/domain/entities/StockTransfer.ts, src/domain/valueObjects/StockTransferItem.ts and
-- src/domain/enums/StockTransferStatus.ts. A date is its number of milliseconds.
pub mod Lifecycle
use gql_ddd_inventory.Prelude.{
  ℕ, ◌≡◌, Bool, true, false, not, Option, none, some, List, [], ◌∷◌, ◌++◌, Result, ok, err, ◌==◌,
  if◌then◌else◌, length, ◌||◌,
}
use gql_ddd_inventory.Prelude.Int.{ℤ, pos, leb_ℤ, pos_part}
use gql_ddd_inventory.Prelude.Methods.{Method, ◌>>=◌, ◌>>◌, return, this, assign, reject_if}

pub data StockTransferStatus : Type 0 where
  draft dispatched received cancelled : StockTransferStatus

abbrev pub is : StockTransferStatus → StockTransferStatus → Bool
is draft draft = true
is dispatched dispatched = true
is received received = true
is cancelled cancelled = true
is _ _ = false

pub data TransferEvent : Type 0 where
  stock_transfer_created : (transfer tenant : ℕ) → TransferEvent
  stock_transfer_dispatched : (transfer source destination : ℕ) → TransferEvent
  stock_transfer_received : (transfer destination : ℕ) → TransferEvent
  stock_transfer_cancelled : (transfer : ℕ) → TransferEvent

pub data TransferError : Type 0 where
  same_location no_items quantity_not_positive : TransferError
  cannot_dispatch cannot_receive cannot_cancel : StockTransferStatus → TransferError

pub record StockTransferItem : Type 0 where
  pub variant_id : ℕ
  pub quantity : ℕ

-- `new StockTransferItem(variantId, quantity)` at a whole number.
unfoldable pub new_item : ℕ → ℤ → Result TransferError StockTransferItem
new_item variant_id quantity =
    if leb_ℤ quantity (pos 0)
    then err quantity_not_positive
    else ok (record { variant_id = variant_id; quantity = pos_part quantity })

pub record StockTransfer : Type 0 where
  pub id : ℕ
  pub tenant_id : ℕ
  pub source_location_id : ℕ
  pub destination_location_id : ℕ
  pub items : List StockTransferItem
  pub reference_id : Option ℕ
  pub created_at : ℕ
  pub status : StockTransferStatus
  pub dispatched_at : Option ℕ
  pub received_at : Option ℕ
  pub domain_events : List TransferEvent

-- The constructor.
unfoldable pub new_transfer :
    (id tenant source destination : ℕ)
    → List StockTransferItem
    → Option ℕ
    → (created_at : ℕ) → Result TransferError StockTransfer
new_transfer i t s d items r now =
    if s == d
    then err same_location
    else if length items == 0
    then err no_items
    else ok (record {
      id = i;
      tenant_id = t;
      source_location_id = s;
      destination_location_id = d;
      items = items;
      reference_id = r;
      created_at = now;
      status = draft;
      dispatched_at = none;
      received_at = none;
      domain_events = [];
    })

abbrev push_event : TransferEvent → StockTransfer → StockTransfer
push_event e t = record t { domain_events = t.domain_events ++ (e ∷ []) }

abbrev map_ok :
    (StockTransfer → StockTransfer)
    → Result TransferError StockTransfer
    → Result TransferError StockTransfer
map_ok f (ok t) = ok (f t)
map_ok f (err e) = err e

unfoldable pub create_new :
    (id tenant source destination : ℕ)
    → List StockTransferItem
    → Option ℕ
    → (created_at : ℕ) → Result TransferError StockTransfer
unfolding new_transfer
create_new i t s d items r now =
    map_ok (push_event (stock_transfer_created i t)) (new_transfer i t s d items r now)

abbrev pub Call : Type 0
Call = Method StockTransfer TransferError (Unit {0})

unfoldable pub dispatch : (now : ℕ) → Call
dispatch now = do
  t ← this
  reject_if (not (is t.status draft)) (cannot_dispatch t.status)
  assign (
      push_event (stock_transfer_dispatched t.id t.source_location_id t.destination_location_id)
        (record t { status = dispatched; dispatched_at = some now }))

unfoldable pub receive : (now : ℕ) → Call
receive now = do
  t ← this
  reject_if (not (is t.status dispatched)) (cannot_receive t.status)
  assign (
      push_event (stock_transfer_received t.id t.destination_location_id)
        (record t { status = received; received_at = some now }))

unfoldable pub cancel : Call
cancel = do
  t ← this
  reject_if (is t.status received || is t.status cancelled) (cannot_cancel t.status)
  assign (push_event (stock_transfer_cancelled t.id) (record t { status = cancelled }))

unfoldable pub pull_domain_events : Method StockTransfer TransferError (List TransferEvent)
pull_domain_events = do t ← this; assign (record t { domain_events = [] }); return t.domain_events
