-- ===== src/Returns/UseCases/ReceiveLine.antt =====
-- What one line of a receipt does.
use mathlib.Core.Path.{subst}
use gql_ddd_inventory.Prelude.{
  ℕ, ◌+◌, ◌*◌, ◌≡◌, ◌≢◌, refl, sym, ap, ◌∙◌, ◌&&◌, none, some, List, ◌∷◌, ◌++◌, ok, or_throw,
  ok-injective, ==_iff, ◌==◌, All, Bool-cases, inl, inr, arith, if◌then◌else◌, sum_by,
  sum_by-append, WhenOk-ok, bind-ok, length,
}
use gql_ddd_inventory.Prelude.Int.{pos, pos_part}
use gql_ddd_inventory.Prelude.Maps.{Map, lookup, insert, get_or}
use gql_ddd_inventory.Prelude.Methods.{kept}
use gql_ddd_inventory.Stock.Item.{InventoryItem, new_inventory_item, receive_stock}
use gql_ddd_inventory.Stock.Quantity.{pieces}
use gql_ddd_inventory.Stock.Item.Laws.{Levels, levels, IsCounted}
use gql_ddd_inventory.Stock.Shelves.{
  levels_at, AreCounted, insert-Becomes, more_on_hand, found_or_new-levels,
}
use gql_ddd_inventory.Costing.Layer.{InventoryCostLayer, new_layer}
use gql_ddd_inventory.Serial.{SerializedItem}
use gql_ddd_inventory.Journal.{JournalEntry, build_stock_returned}
use gql_ddd_inventory.Journal.Laws.{IsBalanced, stock_returned}
use gql_ddd_inventory.Returns.Rma.{Rma, receive_item}
use gql_ddd_inventory.Returns.Quarantine.{QuarantineItem}
use gql_ddd_inventory.Returns.UseCases.{item_not_in_rma, of_rma}
use gql_ddd_inventory.Returns.UseCases.Resolve.{of_stock}
use gql_ddd_inventory.Returns.UseCases.Receive.{
  ReceiveRmaItem, Context, Working, Line, target, quarantine_line, scrap_line, line_done, book_line,
  receive_line, of_journal, of_layer, receive_serials, find_item,
}
use gql_ddd_inventory.Returns.UseCases.LineParts.{
  kept_pieces, quarantined_pieces, of_journal-IsBalanced, Raised, received-Raised, Scrapped,
  scrap_line-Scrapped, quarantine_line-pieces, kept-WhenOk, receive_item-location,
}

no_more : (l : Levels) → more_on_hand 0 l ≡ l
no_more l = ground arith

inserted-levels :
    (n sku k : ℕ) (item : InventoryItem) (m : Map InventoryItem)
    → AreCounted m
    → IsCounted item
    → levels item ≡ more_on_hand n (levels_at sku m)
    → levels_at k (insert sku item m) ≡ more_on_hand (if sku == k then n else 0) (levels_at k m)
inserted-levels n sku k item m c i e = elim (Bool-cases (sku == k)) [
  | inl h ↦
      let same : sku ≡ k = (==_iff sku k).0 h in
      rw h (
        subst (λ j. levels_at j (insert sku item m) ≡ more_on_hand n (levels_at j m)) same
          ((insert-Becomes sku item m c i).there ∙ e))
  | inr h ↦
      let other : k ≢ sku = ground arith in
      rw h ((insert-Becomes sku item m c i).elsewhere k other ∙ sym (no_more (levels_at k m)))
]

-- What a line puts on hand of a SKU at a place.
abbrev pub arrives : Context → (location place sku : ℕ) → Line → ℕ
arrives c location place k (i, sku) =
    if place == target c location i.disposition && sku == k
    then kept_pieces i.disposition (pos_part i.quantity_received)
    else 0

pub record Lined (c : Context) (l : Line) (w w' : Working) : Type 0 where
  pub counted : (place : ℕ) → AreCounted (w'.stock place)
  pub stock :
      (place k : ℕ)
      → levels_at k (w'.stock place)
        ≡ more_on_hand (arrives c w.rma.location_id place k l) (levels_at k (w.stock place))
  pub location : w'.rma.location_id ≡ w.rma.location_id
  pub entries : (es : List JournalEntry) × (w'.entries ≡ w.entries ++ es) × All IsBalanced es
  pub quarantined :
      sum_by (λ q. q.quantity) w'.quarantined_items
      ≡ sum_by (λ q. q.quantity) w.quarantined_items
        + quarantined_pieces l.0.disposition (pos_part l.0.quantity_received)

shelf-counted :
    (place at sku : ℕ) (item : InventoryItem) (w : Working)
    → AreCounted (w.stock place)
    → IsCounted item
    → AreCounted (if place == at then insert sku item (w.stock place) else w.stock place)
shelf-counted place at sku item w c i = elim (Bool-cases (place == at)) [
  | inl e ↦ rw e (insert-Becomes sku item (w.stock place) c i).counted
  | inr e ↦ rw e c
]

shelf-levels :
    (place at sku k n : ℕ) (item : InventoryItem) (w : Working)
    → AreCounted (w.stock place)
    → IsCounted item
    → levels item ≡ more_on_hand n (levels_at sku (w.stock at))
    → levels_at k (if place == at then insert sku item (w.stock place) else w.stock place)
      ≡ more_on_hand (if place == at && sku == k then n else 0) (levels_at k (w.stock place))
shelf-levels place at sku k n item w c i e = elim (Bool-cases (place == at)) [
  | inl h ↦
      let same : place ≡ at = (==_iff place at).0 h in
      rw h (
        inserted-levels n sku k item (w.stock place) c i
          (e ∙ ap (λ p. more_on_hand n (levels_at sku (w.stock p))) (sym same)))
  | inr h ↦ rw h (sym (no_more (levels_at k (w.stock place))))
]

line_done-Lined :
    (c : Context) (i : ReceiveRmaItem) (sku : ℕ) (w : Working) (rma' : Rma) (item : InventoryItem)
    (m : Map SerializedItem) (layer : InventoryCostLayer) (qs : List QuarantineItem)
    (es : List JournalEntry)
    → ((place : ℕ) → AreCounted (w.stock place))
    → Raised
        (kept_pieces i.disposition (pos_part i.quantity_received))
        (levels_at sku (w.stock (target c w.rma.location_id i.disposition)))
        item
    → rma'.location_id ≡ w.rma.location_id
    → All IsBalanced es
    → sum_by (λ q. q.quantity) qs ≡ quarantined_pieces i.disposition (pos_part i.quantity_received)
    → Lined c
        (i, sku)
        w
        (line_done rma'
          (target c w.rma.location_id i.disposition)
          sku
          item
          i.variant_id
          m
          layer
          qs
          es
          w)
line_done-Lined c i sku w rma' item m layer qs es counted (ic, il) stays balanced total =
    let n = kept_pieces i.disposition (pos_part i.quantity_received) in
    let at : ℕ = target c w.rma.location_id i.disposition in
    record {
      counted = λ place. shelf-counted place at sku item w (counted place) ic;
      stock = λ place j. shelf-levels place at sku j n item w (counted place) ic il;
      location = stays;
      entries = (es, refl, balanced);
      quarantined =
          sum_by-append (λ q. q.quantity) w.quarantined_items qs
          ∙ ap (λ x. sum_by (λ q. q.quantity) w.quarantined_items + x) total;
    }

book_line-Lined :
    (c : Context) (i : ReceiveRmaItem) (sku unit_cost : ℕ) (rma' : Rma) (item : InventoryItem)
    (w : Working) {w' : Working}
    → ((place : ℕ) → AreCounted (w.stock place))
    → Raised
        (pos_part i.quantity_received)
        (levels_at sku (w.stock (target c w.rma.location_id i.disposition)))
        item
    → rma'.location_id ≡ w.rma.location_id
    → book_line c (i, sku) unit_cost rma' item w ≡ ok w'
    → Lined c (i, sku) w w'
unfolding book_line
book_line-Lined c i sku unit_cost rma' item w {w'} counted raised stays h =
    let d = i.disposition in
    let n = pos_part i.quantity_received in
    let k = length w.layers in
    let at : ℕ = target c w.rma.location_id d in
    let lv : Levels = levels_at sku (w.stock at) in
    let (layer, e₃, h₃) =
      bind-ok
        (of_layer
          (new_layer (c.layer_uuid k) i.variant_id i.quantity_received (pos unit_cost) c.now none))
        _ h in
    let (qs, e₄, h₄) = bind-ok (quarantine_line c k rma' i d) _ h₃ in
    let (e, e₅, h₅) =
      bind-ok
        (of_journal (
          build_stock_returned (c.returned_uuid k) w.rma.tenant_id c.now (some w.rma.id)
            (pos (unit_cost * n))))
        _ h₄ in
    let (out, e₆, h₆) = bind-ok (scrap_line c k rma' n (unit_cost * n) d item) _ h₅ in
    let (m, e₇, h₇) =
      bind-ok (receive_serials c w.rma.id d i.serial_numbers (w.serials i.variant_id)) _ h₆ in
    let left =
      WhenOk-ok (Scrapped d n lv) _
        (scrap_line-Scrapped c k rma' n (unit_cost * n) d lv item raised) e₆ in
    let balanced =
      WhenOk-ok IsBalanced _
        (of_journal-IsBalanced build_stock_returned (c.returned_uuid k) w.rma.tenant_id c.now
          (some w.rma.id) (pos (unit_cost * n)) stock_returned)
        e₅ in
    let total =
      WhenOk-ok (λ q. sum_by (λ x. x.quantity) q ≡ quarantined_pieces d n) _
        (quarantine_line-pieces c k rma' i d) e₄ in
    let w₁ : Working = line_done rma' at sku out.0 i.variant_id m layer qs (e ∷ out.1) w in
    let same_w : w₁ ≡ w' = ok-injective h₇ in
    subst (Lined c (i, sku) w) {x = w₁} same_w (
      line_done-Lined c i sku w rma' out.0 m layer qs (e ∷ out.1) counted left.0 stays
        (balanced, left.1) total)

-- A line that is received puts its pieces on hand at its target, unless they are scrapped, and nothing
-- anywhere else.
pub receive_line-Lined :
    (c : Context) (l : Line) (w : Working) {w' : Working}
    → ((place : ℕ) → AreCounted (w.stock place))
    → receive_line c l w ≡ ok w'
    → Lined c l w w'
unfolding receive_line
receive_line-Lined c (i, sku) w counted h =
    let d = i.disposition in
    let n = pos_part i.quantity_received in
    let k = length w.layers in
    let at : ℕ = target c w.rma.location_id d in
    let lv : Levels = levels_at sku (w.stock at) in
    let found : InventoryItem =
      get_or (lookup sku (w.stock at)) (new_inventory_item (c.item_uuid k) sku at) in
    let (same, fresh) = found_or_new-levels (c.item_uuid k) at sku (w.stock at) (counted at) in
    let got = receive_item i.variant_id i.quantity_received d w.rma in
    let stays =
      kept-WhenOk (λ r. r.location_id ≡ w.rma.location_id) got
        (receive_item-location i.variant_id i.quantity_received d w.rma) in
    let (ri, e₀, h₀) =
      bind-ok (or_throw (find_item i.variant_id w.rma.items) (item_not_in_rma i.variant_id)) _ h in
    let (rma', e₁, h₁) = bind-ok (of_rma (kept got)) _ h₀ in
    let (item, e₂, h₂) = bind-ok (of_stock (kept (receive_stock (pieces n) found))) _ h₁ in
    let raised = WhenOk-ok (Raised n lv) _ (received-Raised n lv found fresh same) e₂ in
    let stayed = WhenOk-ok (λ r. r.location_id ≡ w.rma.location_id) _ stays e₁ in
    book_line-Lined c i sku ri.unit_cost_cents rma' item w counted raised stayed h₂
