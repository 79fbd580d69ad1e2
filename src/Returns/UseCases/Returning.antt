-- ===== src/Returns/UseCases/Returning.antt =====
-- When a receipt of returned goods returns.
use gql_ddd_inventory.Prelude.{
  ℕ, ◌==◌, ◌∙◌, if◌then◌else◌, ◌+◌, ◌*◌, ◌≤◌, ◌≡◌, refl, ap, true, false, leb, ltb, Option, none,
  some, List, [], ◌∷◌, ◌++◌, ok, Result-cases, inl, inr, ◌⊎◌, arith, length,
}
use gql_ddd_inventory.Prelude.Int.{ℤ, pos, pos_part, leb_ℤ}
use gql_ddd_inventory.Prelude.Maps.{Map, lookup, insert, lookup-insert, get_or}
use gql_ddd_inventory.Prelude.Methods.{kept, returned}
use gql_ddd_inventory.Stock.Quantity.{pieces}
use gql_ddd_inventory.Stock.Item.{InventoryItem, new_inventory_item, receive_stock}
use gql_ddd_inventory.Stock.Item.Laws.{
  Op, call, IsCounted, levels, promised, call-Implements, kept_of_promise, version_of_kept,
}
use gql_ddd_inventory.Stock.Shelves.{AreCounted, found_or_new-levels}
use gql_ddd_inventory.Costing.Layer.{InventoryCostLayer, new_layer}
use gql_ddd_inventory.Journal.{JournalEntry, Build, build_stock_returned, record_entry}
use gql_ddd_inventory.Journal.Laws.{IsServiceBuild, stock_returned, record_entry-SavesBalanced}
use gql_ddd_inventory.Returns.Item.{RmaItem, RmaDisposition, restock, scrap, quarantine}
use gql_ddd_inventory.Returns.Rma.{Rma, receive_item}
use gql_ddd_inventory.Returns.Quarantine.{QuarantineItem, quarantined, new_quarantine_item}
use gql_ddd_inventory.Returns.UseCases.{Repositories}
use gql_ddd_inventory.Returns.UseCases.Receive.{
  ReceiveRmaItem, Context, Working, target, with_skus, find_item, quarantine_line, scrap_line,
  line_done, receive_serials, book_line, receive_line, receive_lines, is_behind, check_items,
}
use gql_ddd_inventory.Returns.UseCases.ReceiveRma.{loaded, scrap_items, receive_rma}

build-returns :
    (build : Build) (i t d : ℕ) (r : Option ℕ) (cost : ℕ)
    → IsServiceBuild build
    → 1 ≤ cost
    → (e : JournalEntry) × (build i t d r (pos cost) ≡ ok e)
unfolding record_entry
build-returns build i t d r cost s p = elim (Result-cases (build i t d r (pos cost))) [
  | inl e ↦ e
  | inr (x, h) ↦ elim (record_entry-SavesBalanced build s i t d r (pos cost) []) [
    | inl (q, e', eq, bal, tot) ↦ cc (ap (λ z. z.0) (rw h at eq))
    | inr (n, eq) ↦ absurd (n (ground arith))
  ]
]

receive_stock-returns :
    (n : ℕ) (item : InventoryItem)
    → IsCounted item
    → (item' : InventoryItem) × (kept (receive_stock (pieces n) item) ≡ ok item')
      × (item'.version ≡ item.version + 1)
receive_stock-returns n item i =
    let (item', h, l, c) =
      kept_of_promise _ item (call (Op.receive n) item) (call-Implements (Op.receive n) item i)
        refl in
    (
      item',
      h,
      version_of_kept (promised (Op.receive n) (levels item)) item (call (Op.receive n) item)
          (call-Implements (Op.receive n) item i) h,
    )

new_layer-returns :
    (i v : ℕ) (q : ℤ) (cost at : ℕ)
    → 1 ≤ pos_part q
    → (l : InventoryCostLayer) × (new_layer i v q (pos cost) at none ≡ ok l)
unfolding new_layer
new_layer-returns i v (ℤ.pos n) cost at p =
    let above : leb (n + 0) 0 ≡ false = ground arith in
    let cost_above : ltb (cost + 0) 0 ≡ false = ground arith in
    (
      record {
        id = i;
        variant_id = v;
        initial_quantity = n;
        unit_cost_cents = cost;
        received_at = at;
        expiration_date = none;
        consumed_quantity = 0;
      },
      rw (above, cost_above) refl,
    )
new_layer-returns i v (ℤ.negsuc n) cost at p = ground arith

positive_product : (a b : ℕ) → 1 ≤ a → 1 ≤ b → 1 ≤ a * b
positive_product a b p q = grind arith

scrap_line-kept :
    (c : Context) (k : ℕ) (rma : Rma) (n cost : ℕ) (d : RmaDisposition) (item : InventoryItem)
    → (d ≡ restock) ⊎ (d ≡ quarantine)
    → scrap_line c k rma n cost d item ≡ ok (item, [])
scrap_line-kept c k rma n cost d item (inl e) = rw e refl
scrap_line-kept c k rma n cost d item (inr e) = rw e refl

quarantine_line-returns :
    (c : Context) (k : ℕ) (rma : Rma) (i : ReceiveRmaItem) (d : RmaDisposition)
    → 1 ≤ pos_part i.quantity_received
    → (qs : List QuarantineItem) × (quarantine_line c k rma i d ≡ ok qs)
unfolding new_quarantine_item
quarantine_line-returns c k rma i restock p = ([], refl)
quarantine_line-returns c k rma i scrap p = ([], refl)
quarantine_line-returns c k rma i quarantine p =
    let above : leb_ℤ i.quantity_received (pos 0) ≡ false = ground arith in
    (
      record {
        id = c.quarantine_uuid k;
        variant_id = i.variant_id;
        quantity = pos_part i.quantity_received;
        location_id = rma.location_id;
        tenant_id = rma.tenant_id;
        status = quarantined;
        created_at = c.now;
        resolved_at = none;
      }
          ∷ [],
      rw above refl,
    )

-- A line of a new shelf.
book_line-returns :
    (c : Context) (i : ReceiveRmaItem) (sku unit_cost : ℕ) (rma' : Rma) (item : InventoryItem)
    (w : Working)
    → 1 ≤ pos_part i.quantity_received
    → 1 ≤ unit_cost
    → (i.disposition ≡ restock) ⊎ (i.disposition ≡ quarantine)
    → i.serial_numbers ≡ []
    → let at = target c w.rma.location_id i.disposition in
      (w' : Working) × (book_line c (i, sku) unit_cost rma' item w ≡ ok w')
      × (w'.stock ≡ (λ l. if l == at then insert sku item (w.stock l) else w.stock l))
      × (w'.items_to_save ≡ w.items_to_save ++ ((at, sku) ∷ []))
unfolding book_line receive_serials
book_line-returns c i sku unit_cost rma' item w p u d z =
    let k = length w.layers in
    let n = pos_part i.quantity_received in
    let (layer, e₀) =
      new_layer-returns (c.layer_uuid k) i.variant_id i.quantity_received unit_cost c.now p in
    let (qs, e₁) = quarantine_line-returns c k rma' i i.disposition p in
    let (e, e₂) =
      build-returns build_stock_returned (c.returned_uuid k) w.rma.tenant_id c.now (some w.rma.id)
        (unit_cost * n) stock_returned (positive_product unit_cost n u p) in
    let e₃ = scrap_line-kept c k rma' n (unit_cost * n) i.disposition item d in
    (
      line_done rma' (target c w.rma.location_id i.disposition) sku item i.variant_id
          (w.serials i.variant_id) layer qs (e ∷ []) w,
      rw (e₀, e₁, e₂, e₃, z) refl,
      refl,
      refl,
    )

scrap_items-none :
    (i : ReceiveRmaItem) (sku : ℕ)
    → (i.disposition ≡ restock) ⊎ (i.disposition ≡ quarantine)
    → scrap_items ((i, sku) ∷ []) ≡ []
unfolding scrap_items
scrap_items-none i sku (inl e) = rw e refl
scrap_items-none i sku (inr e) = rw e refl

one_ahead :
    (item : InventoryItem) (id sku place : ℕ) (stored : Option InventoryItem)
    → item.version ≡ (get_or stored (new_inventory_item id sku place)).version + 1
    → is_behind (some item) stored ≡ false
one_ahead item id sku place none h = refl
one_ahead item id sku place (some old) h = ground arith

-- An item that was changed once is saved.
check_items-one :
    (item : InventoryItem) (id sku place : ℕ) (stored : (location : ℕ) → Map InventoryItem)
    → item.version
      ≡ (get_or (lookup sku (stored place)) (new_inventory_item id sku place)).version + 1
    → check_items
        (λ l. if l == place then insert sku item (stored l) else stored l)
        stored
        ((place, sku) ∷ [])
      ≡ ok tt
unfolding check_items
check_items-one item id sku place stored h =
    let here : (place == place) ≡ true = ground arith in
    let there : lookup sku (insert sku item (stored place)) ≡ some item =
      lookup-insert sku sku item (stored place) ∙ ground arith in
    rw (here, there, one_ahead item id sku place (lookup sku (stored place)) h) refl

-- The receipt of one line returns where the return is stored and receives it, its variant has a SKU and
-- a cost that is not zero, its quantity is positive, and the goods are not scrapped and have no serial
-- numbers. All items stored are counted in pieces.
pub receive_rma-returns :
    (c : Context) (id : ℕ) (i : ReceiveRmaItem) (repos : Repositories) {rma rma' : Rma} {sku : ℕ}
    {ri : RmaItem}
    → ((place : ℕ) → AreCounted (repos.stock place))
    → lookup id repos.rmas ≡ some rma
    → repos.sku_of i.variant_id ≡ some sku
    → find_item i.variant_id rma.items ≡ some ri
    → kept (receive_item i.variant_id i.quantity_received i.disposition rma) ≡ ok rma'
    → 1 ≤ pos_part i.quantity_received
    → 1 ≤ ri.unit_cost_cents
    → (i.disposition ≡ restock) ⊎ (i.disposition ≡ quarantine)
    → i.serial_numbers ≡ []
    → returned (receive_rma c id (i ∷ []) repos) ≡ true
unfolding receive_rma with_skus receive_lines receive_line
receive_rma-returns c id i repos {rma} {rma'} {sku} {ri} counted e s f g p u d z =
    let w = loaded rma repos in
    let at : ℕ = target c rma.location_id i.disposition in
    let found : InventoryItem =
      get_or (lookup sku (repos.stock at)) (new_inventory_item (c.item_uuid 0) sku at) in
    let (same, fresh) = found_or_new-levels (c.item_uuid 0) at sku (repos.stock at) (counted at) in
    let (item, h, ahead) = receive_stock-returns (pos_part i.quantity_received) found fresh in
    let (w', b, stock_now, saves) =
      book_line-returns c i sku ri.unit_cost_cents rma' item w p u d z in
    let none_scrapped = scrap_items-none i sku d in
    let v : check_items w'.stock repos.stock w'.items_to_save ≡ ok tt =
      ap (λ x. check_items x repos.stock w'.items_to_save) stock_now
      ∙ ap (check_items _ repos.stock) saves
      ∙ check_items-one item (c.item_uuid 0) sku at repos.stock ahead in
    rw (e, s, f, g, h, b, none_scrapped, v) refl
