-- ===== src/Returns/Tests.antt =====
-- A return of two articles, and the resolution of four pieces in quarantine.
use mathlib.Core.Path.{subst}
use mathlib.Core.Option.{some-injective}
use gql_ddd_inventory.Prelude.{
  ℕ, ◌+◌, ◌*◌, ◌/◌, ◌≡◌, ◌≢◌, refl, true, none, some, [], ◌∷◌, ok, arith, ◌==◌, if◌then◌else◌,
  Bool-cases, inl, inr,
}
use gql_ddd_inventory.Prelude.Int.{pos}
use gql_ddd_inventory.Prelude.Maps.{lookup, insert}
use gql_ddd_inventory.Prelude.Methods.{returned}
use gql_ddd_inventory.Stock.Quantity.{pieces}
use gql_ddd_inventory.Stock.Item.{InventoryItem}
use gql_ddd_inventory.Stock.Item.Laws.{IsCounted}
use gql_ddd_inventory.Stock.Shelves.{AreCounted}
use gql_ddd_inventory.Costing.Layer.{InventoryCostLayer, consume}
use gql_ddd_inventory.Costing.Sort.{sort, insert_sorted}
use gql_ddd_inventory.Costing.Strategy
use gql_ddd_inventory.Costing.Strategy.{fifo, ordered_consume_layers, consume_loop}
use gql_ddd_inventory.Costing.Repository.{
  Rows, received_ascending, select, get_active_layers, save_batch,
}
use gql_ddd_inventory.Costing.Repository.Loaded.{AreKeyed}
use gql_ddd_inventory.Costing.Service.{consume_layers}
use gql_ddd_inventory.Returns.Item
use gql_ddd_inventory.Returns.Item.{RmaItem, RmaDisposition, pending, is_fully_processed}
use gql_ddd_inventory.Returns.Rma.{Rma, authorized, completed, new_rma}
use gql_ddd_inventory.Returns.Rma.Reachable.{
  Reaches.started, Reaches.acted, authorizes, receives, act, Sound, Reaches-Sound,
}
use gql_ddd_inventory.Returns.Rma.Completion.{receive_each, receive_each-Completes}
use gql_ddd_inventory.Returns.Rma.Repeated.{repeated-not-completed}
use gql_ddd_inventory.Returns.Quarantine.{QuarantineItem, quarantined}
use gql_ddd_inventory.Returns.UseCases.{Repositories}
use gql_ddd_inventory.Returns.UseCases.Resolve.{
  Context, scrap, estimate_loop, resolve_quarantine_item,
}
use gql_ddd_inventory.Returns.UseCases.Estimate.{estimate_loop-consume_layers}
use gql_ddd_inventory.Returns.UseCases.Resolution.{Resolves, resolve_quarantine_item-Resolves}

abbrev expected : (id variant quantity : ℕ) → RmaItem
expected i v q = record {
  id = i;
  variant_id = v;
  quantity = q;
  unit_cost_cents = 100;
  received_quantity = 0;
  status = pending;
  disposition = none;
}

abbrev two_articles : Rma
two_articles = new_rma 1 500 1 40 7 (expected 11 1 3 ∷ expected 12 2 1 ∷ [])

abbrev repeated_article : Rma
repeated_article = new_rma 2 501 1 40 7 (expected 13 1 3 ∷ expected 14 1 1 ∷ [])

-- Authorised, with the first two of three received.
abbrev partly_received : Rma
partly_received =
    (act (receives 1 (pos 2) RmaDisposition.restock) (act authorizes two_articles).1).1

Reaches-Sound_example : Sound partly_received
Reaches-Sound_example =
    Reaches-Sound refl ((ground arith, refl, refl), ((ground arith, refl, refl), tt))
      (acted (acted started authorizes) (receives 1 (pos 2) RmaDisposition.restock))

abbrev authorized_articles : Rma
authorized_articles = record two_articles { status = authorized }

abbrev to_scrap : RmaItem → RmaDisposition
to_scrap i = RmaDisposition.scrap

receive_each-Completes_example :
    let out = receive_each to_scrap authorized_articles.items authorized_articles in
    (returned out ≡ true) × (out.1.status ≡ completed)
receive_each-Completes_example =
    receive_each-Completes to_scrap authorized_articles refl (λ e. cc)
      ((ground arith, refl, refl), ((ground arith, refl, refl), tt)) ((ground arith, tt), (tt, tt))

repeated-not-completed_example :
    (act (receives 1 (pos 3) RmaDisposition.restock) (act authorizes repeated_article).1).1.status
    ≢ completed
repeated-not-completed_example =
    repeated-not-completed 1 refl ((ground arith, refl, refl), ((ground arith, refl, refl), tt))
      (ground arith) (acted (acted started authorizes) (receives 1 (pos 3) RmaDisposition.restock))

abbrev row : (id quantity cost received_at : ℕ) → InventoryCostLayer
row i q cost at = record {
  id = i;
  variant_id = 1;
  initial_quantity = q;
  unit_cost_cents = cost;
  received_at = at;
  expiration_date = none;
  consumed_quantity = 0;
}

abbrev rows : Rows
rows = (1, row 1 10 200 50) ∷ (3, row 3 6 150 20) ∷ []

abbrev free_rows : Rows
free_rows = (1, row 1 10 0 50) ∷ []

abbrev whole_average : (quantity total_value total_units : ℕ) → ℕ
whole_average q v u = q * v / u

abbrev four_pieces : QuarantineItem
four_pieces = record {
  id = 5;
  variant_id = 1;
  quantity = 4;
  location_id = 7;
  tenant_id = 1;
  status = quarantined;
  created_at = 90;
  resolved_at = none;
}

abbrev six_held : InventoryItem
six_held = record {
  id = 8;
  sku = 70;
  location_id = 1007;
  quantity = pieces 6;
  allocated = pieces 0;
  in_transit = pieces 0;
  version = 1;
  domain_events = [];
}

abbrev start : Rows → Repositories
start layers = record {
  rmas = [];
  quarantine = (5, four_pieces) ∷ [];
  stock = λ l. if l == 1007 then (70, six_held) ∷ [] else [];
  layers = layers;
  journal = [];
  approvals = record { workflows = []; requests = []; dispatched = [] };
  serials = λ v. [];
  sku_of = λ v. some 70;
}

abbrev context : Context
context = record {
  now = 100;
  request_uuid = 900;
  item_uuid = 901;
  entry_uuid = 902;
  quarantine_of = λ l. l + 1000;
  interceptor = none;
}

six_held-IsCounted : IsCounted six_held
six_held-IsCounted = record { on_hand_unit = refl; reserved_unit = refl; incoming_unit = refl }

one_shelf-AreCounted : AreCounted ((70, six_held) ∷ [])
unfolding lookup
one_shelf-AreCounted k item e = elim (Bool-cases (70 == k)) [
  | inl h ↦ subst IsCounted (some-injective _ _ (rw h at e)) six_held-IsCounted
  | inr h ↦ cc (rw h at e)
]

start-AreCounted : (layers : Rows) (l : ℕ) → AreCounted ((start layers).stock l)
unfolding lookup
start-AreCounted layers l k item e = elim (Bool-cases (l == 1007)) [
  | inl h ↦ one_shelf-AreCounted k item (rw h at e)
  | inr h ↦ cc (rw h at e)
]

rows-AreKeyed : AreKeyed rows
unfolding lookup
rows-AreKeyed = (refl, refl, (refl, refl, tt))

resolve_quarantine_item-Resolves_example :
    Resolves context scrap 5
      (start rows)
      (resolve_quarantine_item whole_average context 5 scrap (start rows))
resolve_quarantine_item-Resolves_example =
    resolve_quarantine_item-Resolves whole_average context (start rows) (λ l e. ground arith)
      (start-AreCounted rows) rows-AreKeyed (ground arith, (ground arith, tt)) 5 scrap

-- Four at 150 cents.
abbrev four_of_six : Rows
four_of_six = (1, row 1 10 200 50) ∷ (3, record (row 3 6 150 20) { consumed_quantity = 4 }) ∷ []

four_consumed :
    consume_layers whole_average 1 4 fifo rows
    ≡ (ok (record { quantity = 4; total_cost_cents = 600 }), four_of_six)
unfolding consume_layers Strategy.consume_layers get_active_layers select sort insert_sorted
    ordered_consume_layers consume_loop consume save_batch insert
four_consumed = refl

estimate_loop-consume_layers_example :
    estimate_loop (get_active_layers 1 received_ascending rows) 4 0 ≡ 600
estimate_loop-consume_layers_example =
    estimate_loop-consume_layers whole_average 1 4 rows four_of_six four_consumed

abbrev free_left : Rows
free_left = (1, record (row 1 10 0 50) { consumed_quantity = 4 }) ∷ []

four_free :
    consume_layers whole_average 1 4 fifo free_rows
    ≡ (ok (record { quantity = 4; total_cost_cents = 0 }), free_left)
unfolding consume_layers Strategy.consume_layers get_active_layers select sort insert_sorted
    ordered_consume_layers consume_loop consume save_batch insert
four_free = refl

-- An item that was rejected counts as processed.
rejected_test : is_fully_processed (Item.reject (expected 11 1 3)) ≡ true
unfolding Item.reject
rejected_test = refl
