-- ===== src/Serial/Service.antt =====
-- src/domain/services/SerializedInventoryService.ts, with the repositories of
-- src/infrastructure/persistence/InMemorySerializedItemRepository.ts and InMemoryLedgerRepository.ts:
-- articles with serial numbers that are registered, received, sold, returned and restocked, each move
-- with an entry in the ledger. The store is that of one tenant. What is read is the stored item itself,
-- which changes only where a call returns.
pub mod Moves
pub mod Round
mod Tests
use gql_ddd_inventory.Prelude.{
  ℕ, Bool, true, false, Option, none, some, List, [], ◌∷◌, ◌++◌, any, Result, ok, err, or_throw,
  ◌==◌, if◌then◌else◌,
}
use gql_ddd_inventory.Prelude.Int.{ℤ, pos, negsuc}
use gql_ddd_inventory.Prelude.Methods.{
  Method, ◌>>=◌, ◌>>◌, return, this, assign, lift, reject_if, kept,
}
use gql_ddd_inventory.Ledger.Entry
use gql_ddd_inventory.Ledger.Entry.{
  LedgerEntry, LedgerError, ReasonCode, purchase_receipt, new_ledger_entry,
}
use gql_ddd_inventory.Serial
use gql_ddd_inventory.Serial.{
  SerializedItem, SerialError, SerialEvent, pending, in_stock, returned, transition_to,
}

pub data ServiceError : Type 0 where
  already_registered : (serial : ℕ) → ServiceError
  serial_not_found : (serial : ℕ) → ServiceError
  of_item : SerialError → ServiceError
  of_ledger : LedgerError → ServiceError

-- The repository's items, the ledger, and the events that were dispatched.
pub record Store : Type 0 where
  pub items : List SerializedItem
  pub ledger : List LedgerEntry
  pub dispatched : List SerialEvent

unfoldable pub find_by_serial : (serial : ℕ) → List SerializedItem → Option SerializedItem
find_by_serial serial [] = none
find_by_serial serial (item ∷ items) =
    if item.serial_number == serial then some item else find_by_serial serial items

unfoldable pub is_registered : (serial : ℕ) → List SerializedItem → Bool
is_registered serial items = any (λ item. item.serial_number == serial) items

-- The item with the same identifier is replaced, or the item is added at the end.
unfoldable pub save_serial : SerializedItem → List SerializedItem → List SerializedItem
save_serial item [] = item ∷ []
save_serial item (x ∷ items) = if x.id == item.id then item ∷ items else x ∷ save_serial item items

abbrev pub ServiceCall : Type 0 → Type 0
ServiceCall A = Method Store ServiceError A

abbrev pub raised_as : {E A : Type 0} → (E → ServiceError) → Result E A → Result ServiceError A
raised_as f (ok a) = ok a
raised_as f (err e) = err (f e)

-- `new SerializedItem(…)`
abbrev pub new_serial : (uuid serial variant location : ℕ) → SerializedItem
new_serial uuid serial variant location = record {
  id = uuid;
  variant_id = variant;
  serial_number = serial;
  location_id = location;
  status = pending;
  history = [];
  domain_events = [];
}

unfoldable pub register : (uuid serial variant location : ℕ) → ServiceCall SerializedItem
register uuid serial variant location = do
  s ← this
  reject_if (is_registered serial s.items) (already_registered serial)
  let item = new_serial uuid serial variant location
  assign (record s { items = save_serial item s.items })
  return item

-- `await findBySerial(…)`, then `if (!item) throw …`.
abbrev pub found_serial : (serial : ℕ) → ServiceCall SerializedItem
found_serial serial s = (or_throw (find_by_serial serial s.items) (serial_not_found serial), s)

-- The entry of one article, the save, and the events.
unfoldable pub book_and_save :
    (tenant location : ℕ)
    → ℤ
    → ReasonCode
    → (actor now reference : ℕ) → SerializedItem
    → ServiceCall (Unit {0})
book_and_save tenant location quantity reason actor now reference item = do
  entry ← lift (
      raised_as of_ledger (
        new_ledger_entry tenant location item.variant_id quantity reason actor now
          (some reference)))
  s ← this
  assign (record {
    items = save_serial (record item { domain_events = [] }) s.items;
    ledger = s.ledger ++ (entry ∷ []);
    dispatched = s.dispatched ++ item.domain_events;
  })

unfoldable pub receive_serial :
    (serial tenant location purchase_order actor now : ℕ) → ServiceCall (Unit {0})
receive_serial serial tenant location purchase_order actor now = do
  item ← found_serial serial
  item' ← lift (raised_as of_item (kept (Serial.receive location actor now purchase_order item)))
  book_and_save tenant location (pos 1) purchase_receipt actor now purchase_order item'

unfoldable pub sell_serial : (serial tenant sale actor now : ℕ) → ServiceCall (Unit {0})
sell_serial serial tenant sale actor now = do
  item ← found_serial serial
  item' ← lift (raised_as of_item (kept (Serial.sell sale actor now item)))
  book_and_save tenant item'.location_id (negsuc 0) Entry.sale actor now sale item'

unfoldable pub return_serial : (serial tenant reference actor now : ℕ) → ServiceCall (Unit {0})
return_serial serial tenant reference actor now = do
  item ← found_serial serial
  item' ← lift (raised_as of_item (kept (transition_to returned actor now (some reference) item)))
  book_and_save tenant item'.location_id (pos 1) Entry.return actor now reference item'

-- The item keeps its location, whatever the location of the entry.
unfoldable pub restock_serial :
    (serial tenant location reference actor now : ℕ) → ServiceCall (Unit {0})
restock_serial serial tenant location reference actor now = do
  item ← found_serial serial
  item' ← lift (raised_as of_item (kept (transition_to in_stock actor now (some reference) item)))
  book_and_save tenant location (pos 1) purchase_receipt actor now reference item'
