-- ===== src/Transfer/UseCases/Returns.antt =====
-- When a dispatch returns: stock that suffices is enough.
use gql_ddd_inventory.Prelude.{
  ℕ, ◌+◌, ◌≤◌, ◌≡◌, ◌≢◌, refl, ap, false, Option, none, some, List, [], ◌∷◌, ◌++◌, ok, arith, ◌==◌,
  if◌then◌else◌, All, inl, inr, Option-cases, Bool-cases, All-snoc, ==_iff,
}
use mathlib.Core.Path.{subst}
use gql_ddd_inventory.Prelude.Int.{sub_ℕ}
use gql_ddd_inventory.Prelude.Maps.{Map, lookup, insert}
use gql_ddd_inventory.Prelude.Methods.{kept}
use gql_ddd_inventory.Ledger.Entry.{LedgerEntry, new_ledger_entry, is_zero, transfer}
use gql_ddd_inventory.Stock.Item.{InventoryItem}
use gql_ddd_inventory.Stock.Item.Laws.{
  Op, Levels, levels, promised, call, call-Implements, kept_of_promise,
}
use gql_ddd_inventory.Transfer.Entity.{
  StockTransfer, draft, dispatched, dispatch, stock_transfer_dispatched,
}
use gql_ddd_inventory.Transfer.UseCases.{
  Repositories, Context, Line, Working, StockMovement, resolve, each_line, dispatch_line,
  ledger_entries, find_or_create, moved, loaded, at_source, at_destination,
}
use gql_ddd_inventory.Transfer.UseCases.Execute.{execute_dispatch, move_stock, store}
use gql_ddd_inventory.Stock.Shelves.{levels_at, AreCounted, less_on_hand}
use gql_ddd_inventory.Transfer.UseCases.Lines.{find_or_create-levels, dispatch_line-Moves}
use gql_ddd_inventory.Transfer.UseCases.Runs.{needed}
use gql_ddd_inventory.Transfer.UseCases.Stock.{StockIsCounted}
use gql_ddd_inventory.Transfer.UseCases.Versions.{
  AreApart, each_line-Passes, all-IsUntouched, check_versions-ok,
}

abbrev pub IsPositive : Line → Type 0
IsPositive l = 1 ≤ l.1

abbrev IsNonzero : StockMovement → Type 0
IsNonzero m = is_zero m.quantity ≡ false

taken-IsNonzero : (n : ℕ) → 1 ≤ n → is_zero (sub_ℕ 0 n) ≡ false
taken-IsNonzero n h = ground arith

promised-enough :
    (n : ℕ) (l : Levels) → n ≤ l.on_hand → promised (Op.dispatch n) l ≡ some (less_on_hand n l)
promised-enough n l h = ground arith

-- After a line, what the other lines need is still on hand.
still_enough :
    (sku n k rest : ℕ) (m m' : Map InventoryItem)
    → levels_at sku m' ≡ less_on_hand n (levels_at sku m)
    → ((j : ℕ) → j ≢ sku → levels_at j m' ≡ levels_at j m)
    → (if sku == k then n else 0) + rest ≤ (levels_at k m).on_hand
    → rest ≤ (levels_at k m').on_hand
still_enough sku n k rest m m' there elsewhere h = elim (Bool-cases (sku == k)) [
  | inl s ↦
      let hyp : n + rest ≤ (levels_at k m).on_hand = rw s at h in
      let there_k : levels_at k m' ≡ less_on_hand n (levels_at k m) =
        subst (λ j. levels_at j m' ≡ less_on_hand n (levels_at j m)) ((==_iff sku k).0 s) there in
      omega (arith, hyp, ap (λ l. l.on_hand) there_k)
  | inr s ↦
      let hyp : 0 + rest ≤ (levels_at k m).on_hand = rw s at h in
      let ne : k ≢ sku = ground arith in omega (arith, hyp, ap (λ l. l.on_hand) (elsewhere k ne))
]

module _ (uuid : ℕ → ℕ) (source destination : ℕ) where
  dispatch_line-returns :
      (sku n : ℕ) (w : Working)
      → AreCounted w.source
      → AreCounted w.destination
      → All IsNonzero w.movements
      → 1 ≤ n
      → n ≤ (levels_at sku w.source).on_hand
      → (w' : Working) × (dispatch_line uuid source destination (sku, n) w ≡ ok w')
        × (All IsNonzero w'.movements)
  unfolding dispatch_line
  dispatch_line-returns sku n w cs cd nz one enough =
      let dest = find_or_create uuid destination sku w.destination in
      let (empty, fresh) = find_or_create-levels uuid destination sku w.destination cd in
      elim (Option-cases (lookup sku w.source)) [
        | inl e₁ ↦
            let none_there : n ≤ 0 = rw e₁ at enough in absurd (omega (arith, one, none_there))
        | inr (item, e₁) ↦
            let there : n ≤ (levels item).on_hand = rw e₁ at enough in
            let (item', k, same, c) =
              kept_of_promise _ item (call (Op.dispatch n) item)
                (call-Implements (Op.dispatch n) item (cs sku item e₁))
                (promised-enough n (levels item) there) in
            let (dest', k', same', c') =
              kept_of_promise _ dest (call (Op.expect n) dest)
                (call-Implements (Op.expect n) dest fresh) refl in
            (
              record {
                source = insert sku item' w.source;
                destination = insert sku dest' w.destination;
                items_to_save = w.items_to_save ++ ((at_source, sku) ∷ (at_destination, sku) ∷ []);
                movements = w.movements ++ (moved sku source (sub_ℕ 0 n) ∷ []);
              },
              rw (e₁, k, k') refl,
              All-snoc IsNonzero w.movements (moved sku source (sub_ℕ 0 n)) nz
                  (taken-IsNonzero n one),
            )
      ]

  each_line-returns :
      (ls : List Line) (w : Working)
      → AreCounted w.source
      → AreCounted w.destination
      → All IsNonzero w.movements
      → All IsPositive ls
      → ((k : ℕ) → needed k ls ≤ (levels_at k w.source).on_hand)
      → (w' : Working) × (each_line (dispatch_line uuid source destination) ls w ≡ ok w')
        × (All IsNonzero w'.movements)
  unfolding each_line
  each_line-returns [] w cs cd nz p enough = (w, refl, nz)
  each_line-returns ((sku, n) ∷ ls) w cs cd nz p enough =
      let here : n ≤ (levels_at sku w.source).on_hand = ground (arith, enough sku) in
      let (w', e, nz') = dispatch_line-returns sku n w cs cd nz p.0 here in
      let (le, m) = dispatch_line-Moves uuid source destination sku n w cs cd e in
      let rest : (k : ℕ) → needed k ls ≤ (levels_at k w'.source).on_hand = λ k.
        still_enough sku n k (needed k ls) w.source w'.source m.at_source.there
          m.at_source.elsewhere (enough k) in
      let (w'', e', nz'') =
        each_line-returns ls w' m.at_source.counted m.at_destination.counted nz' p.1 rest in
      (w'', rw e e', nz'')

ledger_entries-returns :
    (c : Context) (variant_of : ℕ → Option ℕ) (ms : List StockMovement)
    → All IsNonzero ms
    → (es : List LedgerEntry) × (ledger_entries c variant_of ms ≡ ok es)
unfolding ledger_entries new_ledger_entry
ledger_entries-returns c variant_of [] h = ([], refl)
ledger_entries-returns c variant_of (m ∷ ms) h =
    let (es, e) = ledger_entries-returns c variant_of ms h.1 in
    elim (Option-cases (variant_of m.sku)) [
      | inl x ↦ (es, rw (ledger_entries, x) e)
      | inr (v, x) ↦ (
        record {
          tenant_id = c.tenant;
          location_id = m.location_id;
          variant_id = v;
          quantity = m.quantity;
          reason = transfer;
          actor = c.actor;
          occurred_at = c.now;
          reference_id = none;
        }
            ∷ es,
        rw (ledger_entries, x, h.0, e) refl,
      )
    ]

abbrev sent : ℕ → StockTransfer → StockTransfer
sent now t = record t {
  status = dispatched;
  dispatched_at = some now;
  domain_events =
      t.domain_events
      ++ (stock_transfer_dispatched t.id t.source_location_id t.destination_location_id ∷ []);
}

dispatch-kept :
    (now : ℕ) (t : StockTransfer) → t.status ≡ draft → kept (dispatch now t) ≡ ok (sent now t)
unfolding dispatch
dispatch-kept now t p = ground arith

-- A stored draft whose lines are of different SKUs, each with a positive number of pieces, is
-- dispatched whenever the pieces that each line lists are on hand at the source: the call returns. All
-- items stored must be counted in pieces.
pub execute_dispatch-returns :
    (c : Context) (id : ℕ) (repos : Repositories) {t : StockTransfer} {lines : List Line}
    → lookup id repos.transfers ≡ some t
    → t.status ≡ draft
    → resolve repos.sku_of t.items ≡ ok lines
    → AreApart lines
    → All IsPositive lines
    → StockIsCounted repos
    → ((k : ℕ) → needed k lines ≤ (levels_at k (repos.stock t.source_location_id)).on_hand)
    → (t' : StockTransfer) × ((execute_dispatch c id repos).0 ≡ ok t')
unfolding execute_dispatch move_stock store
execute_dispatch-returns c id repos {t} {lines} found p r apart positive counted enough =
    let cs = counted t.source_location_id in
    let cd = counted t.destination_location_id in
    let (w, e, nz) =
      each_line-returns c.uuid t.source_location_id t.destination_location_id lines (loaded repos t)
        cs cd tt positive enough in
    let passes =
      each_line-Passes t repos c.uuid t.source_location_id t.destination_location_id lines
        (loaded repos t) cs cd apart (all-IsUntouched t repos lines) tt e in
    let v = check_versions-ok (sent c.now t) repos w w.items_to_save passes in
    let (es, l) = ledger_entries-returns c repos.variant_of w.movements nz in
    (sent c.now t, rw (found, dispatch-kept c.now t p, r, e, v, l) refl)
