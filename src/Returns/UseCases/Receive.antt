-- ===== src/Returns/UseCases/Receive.antt =====
-- ReceiveRmaUseCase of src/application/useCases/ManageReturns.ts. Its keys `${sku}_${location}` and
-- `${variant}_${serial}` are pairs. What it changes is stored at the end; only the layers that
-- scrapped goods take from are stored before that. Of what comes after them the save of the items can
-- throw, at an item that was changed twice.
use gql_ddd_inventory.Prelude.{
  ℕ, ◌*◌, Bool, false, throw_if, ◌>>◌, Option, none, some, List, [], ◌∷◌, ◌++◌, length, Result, ok,
  err, or_throw, ◌>>=◌, ◌==◌, if◌then◌else◌,
}
use gql_ddd_inventory.Prelude.Int.{ℤ, pos, pos_part}
use gql_ddd_inventory.Prelude.Maps.{Map, lookup, insert, get_or}
use gql_ddd_inventory.Prelude.Methods.{kept}
use gql_ddd_inventory.Stock.Quantity.{pieces}
use gql_ddd_inventory.Stock.Item.{InventoryItem, new_inventory_item, receive_stock, dispatch_stock}
use gql_ddd_inventory.Stock.Repository.{is_stale}
use gql_ddd_inventory.Costing.Layer.{InventoryCostLayer, LayerError, new_layer}
use gql_ddd_inventory.Journal.{
  JournalEntry, JournalError, build_stock_returned, build_inventory_write_off,
}
use gql_ddd_inventory.Serial.{
  SerializedItem, SerializedItemStatus, SerialError, transition_to, returned, in_stock, quarantined,
  written_off,
}
use gql_ddd_inventory.Returns.Item.{RmaItem, RmaDisposition, restock, scrap, quarantine}
use gql_ddd_inventory.Returns.Rma.{Rma, receive_item}
use gql_ddd_inventory.Returns.Quarantine.{QuarantineItem, new_quarantine_item}
use gql_ddd_inventory.Returns.UseCases.{
  UseCaseError, concurrency_error, sku_not_found, item_not_in_rma, layer_error, serial_error,
  journal_error, of_rma,
}
use gql_ddd_inventory.Returns.UseCases.Resolve.{of_stock, of_quarantine}

-- An element of `dto.items`.
pub record ReceiveRmaItem : Type 0 where
  pub variant_id : ℕ
  pub quantity_received : ℤ
  pub disposition : RmaDisposition
  pub serial_numbers : List ℕ

-- When and by whom, the name of the place `${location}-quarantine`, and the new random identifiers for
-- each line.
pub record Context : Type 0 where
  pub now : ℕ
  pub system : ℕ
  pub quarantine_of : (location : ℕ) → ℕ
  pub item_uuid : (line : ℕ) → ℕ
  pub layer_uuid : (line : ℕ) → ℕ
  pub quarantine_uuid : (line : ℕ) → ℕ
  pub returned_uuid : (line : ℕ) → ℕ
  pub write_off_uuid : (line : ℕ) → ℕ

-- What the loop changes: the aggregate, the maps, and the lists of what is to be saved. An item to
-- save is named by its location and SKU.
pub record Working : Type 0 where
  pub rma : Rma
  pub stock : (location : ℕ) → Map InventoryItem
  pub serials : (variant : ℕ) → Map SerializedItem
  pub items_to_save : List (ℕ × ℕ)
  pub layers : List InventoryCostLayer
  pub quarantined_items : List QuarantineItem
  pub entries : List JournalEntry

abbrev pub of_layer : {A : Type 0} → Result LayerError A → Result UseCaseError A
of_layer (ok a) = ok a
of_layer (err e) = err (layer_error e)

abbrev pub of_serial : {A : Type 0} → Result SerialError A → Result UseCaseError A
of_serial (ok a) = ok a
of_serial (err e) = err (serial_error e)

abbrev pub of_journal : {A : Type 0} → Result JournalError A → Result UseCaseError A
of_journal (ok a) = ok a
of_journal (err e) = err (journal_error e)

-- A line with the SKU of its variant.
abbrev pub Line : Type 0
Line = ReceiveRmaItem × ℕ

-- The loop that throws at a variant with no SKU.
unfoldable pub with_skus :
    ((variant : ℕ) → Option ℕ) → List ReceiveRmaItem → Result UseCaseError (List Line)
with_skus sku_of [] = ok []
with_skus sku_of (i ∷ is) = do
  sku ← or_throw (sku_of i.variant_id) (sku_not_found i.variant_id)
  rest ← with_skus sku_of is
  ok ((i, sku) ∷ rest)

-- `rmaItemsMap`: the first item of a variant.
unfoldable pub find_item : (variant : ℕ) → List RmaItem → Option RmaItem
find_item variant [] = none
find_item variant (i ∷ is) = if i.variant_id == variant then some i else find_item variant is

-- Where the goods of a disposition go.
abbrev pub target : Context → (location : ℕ) → RmaDisposition → ℕ
target c location quarantine = c.quarantine_of location
target c location restock = location
target c location scrap = location

abbrev serial_target : RmaDisposition → SerializedItemStatus
serial_target restock = in_stock
serial_target quarantine = quarantined
serial_target scrap = written_off

-- The two transitions of an article with a serial number.
abbrev transitions :
    Context → (rma_id : ℕ) → RmaDisposition → SerializedItem → Result UseCaseError SerializedItem
transitions c rma d item = do
  item' ← of_serial (kept (transition_to returned c.system c.now (some rma) item))
  of_serial (kept (transition_to (serial_target d) c.system c.now (some rma) item'))

-- The loop over the serial numbers; one that is not registered is passed over.
unfoldable pub receive_serials :
    Context
    → (rma_id : ℕ) → RmaDisposition
    → List ℕ
    → Map SerializedItem
    → Result UseCaseError (Map SerializedItem)
receive_serials c rma d [] m = ok m
receive_serials c rma d (sn ∷ sns) m = elim (lookup sn m) [
  | none ↦ receive_serials c rma d sns m
  | some item ↦ do item' ← transitions c rma d item; receive_serials c rma d sns (insert sn item' m)
]

-- The quarantine record of a line, where it goes to quarantine.
abbrev pub quarantine_line :
    Context
    → (line : ℕ) → Rma
    → ReceiveRmaItem
    → RmaDisposition
    → Result UseCaseError (List QuarantineItem)
quarantine_line c k rma i quarantine = do
  q ← of_quarantine (
      new_quarantine_item (c.quarantine_uuid k) i.variant_id i.quantity_received rma.location_id
        rma.tenant_id c.now)
  ok (q ∷ [])
quarantine_line c k rma i restock = ok []
quarantine_line c k rma i scrap = ok []

-- The immediate write-off, where the line is scrapped.
abbrev pub scrap_line :
    Context
    → (line : ℕ) → Rma
    → (quantity total_cost_cents : ℕ) → RmaDisposition
    → InventoryItem
    → Result UseCaseError (InventoryItem × List JournalEntry)
scrap_line c k rma n cost scrap item = do
  item' ← of_stock (kept (dispatch_stock (pieces n) item))
  e ←
      of_journal (
        build_inventory_write_off (c.write_off_uuid k) rma.tenant_id c.now (some rma.id) (pos cost))
  ok (item', e ∷ [])
scrap_line c k rma n cost restock item = ok (item, [])
scrap_line c k rma n cost quarantine item = ok (item, [])

-- What is to be saved after a line.
abbrev pub line_done :
    Rma
    → (place sku : ℕ) → InventoryItem
    → (variant : ℕ) → Map SerializedItem
    → InventoryCostLayer
    → List QuarantineItem
    → List JournalEntry
    → Working
    → Working
line_done rma place sku item variant m layer records es w = record {
  rma = rma;
  stock = λ l. if l == place then insert sku item (w.stock l) else w.stock l;
  serials = λ v. if v == variant then m else w.serials v;
  items_to_save = w.items_to_save ++ ((place, sku) ∷ []);
  layers = w.layers ++ (layer ∷ []);
  quarantined_items = w.quarantined_items ++ records;
  entries = w.entries ++ es;
}

-- The second half of a pass of the loop: what is recorded of the goods received into `item`.
unfoldable pub book_line :
    Context
    → Line
    → (unit_cost_cents : ℕ) → Rma
    → InventoryItem
    → Working
    → Result UseCaseError Working
book_line c (i, sku) unit_cost rma' item w = do
  let k = length w.layers
  let n = pos_part i.quantity_received
  let at = target c w.rma.location_id i.disposition
  layer ←
      of_layer
        (new_layer (c.layer_uuid k) i.variant_id i.quantity_received (pos unit_cost) c.now none)
  records ← quarantine_line c k rma' i i.disposition
  let cost = unit_cost * n
  e ←
      of_journal
        (build_stock_returned (c.returned_uuid k) w.rma.tenant_id c.now (some w.rma.id) (pos cost))
  scrapped ← scrap_line c k rma' n cost i.disposition item
  m ← receive_serials c w.rma.id i.disposition i.serial_numbers (w.serials i.variant_id)
  ok (line_done rma' at sku scrapped.0 i.variant_id m layer records (e ∷ scrapped.1) w)

-- A pass of the loop. A quantity that the aggregate accepts is positive.
unfoldable pub receive_line : Context → Line → Working → Result UseCaseError Working
receive_line c (i, sku) w = do
  rma_item ← or_throw (find_item i.variant_id w.rma.items) (item_not_in_rma i.variant_id)
  rma' ← of_rma (kept (receive_item i.variant_id i.quantity_received i.disposition w.rma))
  let at = target c w.rma.location_id i.disposition
  let found =
      get_or (lookup sku (w.stock at)) (new_inventory_item (c.item_uuid (length w.layers)) sku at)
  item ← of_stock (kept (receive_stock (pieces (pos_part i.quantity_received)) found))
  book_line c (i, sku) rma_item.unit_cost_cents rma' item w

-- The loop over the lines.
unfoldable pub receive_lines : Context → List Line → Working → Result UseCaseError Working
receive_lines c [] w = ok w
receive_lines c (l ∷ ls) w = receive_line c l w >>= receive_lines c ls

-- Whether a stored item is not one version behind the item to save.
abbrev pub is_behind : (new stored : Option InventoryItem) → Bool
is_behind none stored = false
is_behind (some item) stored = is_stale item stored

-- The check of `saveBatch`, which throws before it stores anything.
unfoldable pub check_items :
    (new stored : (location : ℕ) → Map InventoryItem)
    → List (ℕ × ℕ)
    → Result UseCaseError (Unit {0})
check_items new stored [] = ok tt
check_items new stored ((location, sku) ∷ is) = do
  throw_if (is_behind (lookup sku (new location)) (lookup sku (stored location)))
      (concurrency_error sku location)
  check_items new stored is
