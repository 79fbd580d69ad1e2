-- ===== src/Transfer/UseCases/Lines.antt =====
-- What one line of a transfer does to the stock of each SKU at the two locations.
use gql_ddd_inventory.Prelude.{
  ℕ, ◌≤◌, ◌≡◌, refl, ok, arith, Option-cases, inl, inr, ok-injective, Result-cases,
}
use mathlib.Core.Path.{subst}
use gql_ddd_inventory.Prelude.Maps.{Map, lookup}
use gql_ddd_inventory.Prelude.Methods.{kept}
use gql_ddd_inventory.Stock.Item.{InventoryItem}
use gql_ddd_inventory.Stock.Item.Laws.{Op, Levels, levels, IsCounted, call}
use gql_ddd_inventory.Stock.Shelves.{
  no_stock, levels_at, AreCounted, Becomes, called-Becomes, less_on_hand, more_on_hand,
  less_incoming, more_incoming, promised-dispatch, promised_arrive, promised-cancel,
  promised_expect, promised-receive, unchanged-Becomes, found_or_new-levels,
}
use gql_ddd_inventory.Transfer.UseCases.{
  Working, find_or_create, dispatch_line, receive_line, cancel_line,
}

pub find_or_create-levels :
    (uuid : ℕ → ℕ) (location sku : ℕ) (m : Map InventoryItem)
    → AreCounted m
    → (levels (find_or_create uuid location sku m) ≡ levels_at sku m)
      × IsCounted (find_or_create uuid location sku m)
find_or_create-levels uuid location sku m c = found_or_new-levels (uuid sku) location sku m c

-- What a line does to the two locations, on the levels of its SKU.
pub record Moves (sku : ℕ) (source destination : Levels) (w w' : Working) : Type 0 where
  pub at_source : Becomes sku source w.source w'.source
  pub at_destination : Becomes sku destination w.destination w'.destination

Moves-of :
    {sku : ℕ} {s d s' d' : Levels} {w w' : Working} (done : Working)
    → Becomes sku s' w.source done.source
    → Becomes sku d' w.destination done.destination
    → s' ≡ s
    → d' ≡ d
    → done ≡ w'
    → Moves sku s d w w'
Moves-of {sku} {s} {d} {w = w} done b c p q e =
    subst (λ x. Moves sku s d w x) e
      (record {
        at_source = subst (λ l. Becomes sku l w.source done.source) p b;
        at_destination = subst (λ l. Becomes sku l w.destination done.destination) q c;
      })

module _ (uuid : ℕ → ℕ) (source destination : ℕ) (sku n : ℕ) (w : Working) {w' : Working}
    (cs : AreCounted w.source) (cd : AreCounted w.destination) where
  -- A line of a dispatch takes its pieces from the stock on hand at the source, where they must be,
  -- and announces them at the destination.
  pub dispatch_line-Moves :
      dispatch_line uuid source destination (sku, n) w ≡ ok w'
      → let from = levels_at sku w.source in
        let to = levels_at sku w.destination in
        (n ≤ from.on_hand) × Moves sku (less_on_hand n from) (more_incoming n to) w w'
  unfolding dispatch_line
  dispatch_line-Moves e =
      let dest = find_or_create uuid destination sku w.destination in
      let (empty, fresh) = find_or_create-levels uuid destination sku w.destination cd in
      elim (Option-cases (lookup sku w.source)) [
        | inl e₁ ↦ cc (rw e₁ at e)
        | inr (item, e₁) ↦ elim (Result-cases (kept (call (Op.dispatch n) item))) [
          | inr (x, e₂) ↦ cc (rw (e₁, e₂) at e)
          | inl (item', e₂) ↦ elim (Result-cases (kept (call (Op.expect n) dest))) [
            | inr (x, e₃) ↦ cc (rw (e₁, e₂, e₃) at e)
            | inl (dest', e₃) ↦
                let same = ok-injective (rw (e₁, e₂, e₃) at e) in
                let (p, b) =
                  called-Becomes (Op.dispatch n) sku item w.source cs (cs sku item e₁) e₂ in
                let (q, d) = called-Becomes (Op.expect n) sku dest w.destination cd fresh e₃ in
                let (le, gone) = promised-dispatch n (levels item) (levels item') p in
                let due = promised_expect n (levels dest) _ (levels dest') empty q in
                rw e₁ (le, Moves-of _ b d gone due same)
          ]
        ]
      ]

  -- A line of a receipt turns its pieces in transit at the destination, where they must be, into stock
  -- on hand there; the source is not touched.
  pub receive_line-Moves :
      receive_line uuid source destination (sku, n) w ≡ ok w'
      → let to = levels_at sku w.destination in
        (n ≤ to.incoming)
        × Moves sku (levels_at sku w.source) (more_on_hand n (less_incoming n to)) w w'
  unfolding receive_line
  receive_line-Moves e = elim (Option-cases (lookup sku w.destination)) [
    | inl e₁ ↦ cc (rw e₁ at e)
    | inr (item, e₁) ↦ elim (Result-cases (kept (call (Op.arrive n) item))) [
      | inr (x, e₂) ↦ cc (rw (e₁, e₂) at e)
      | inl (item', e₂) ↦
          let same = ok-injective (rw (e₁, e₂) at e) in
          let (p, b) = called-Becomes (Op.arrive n) sku item w.destination cd (cd sku item e₁) e₂ in
          let (le, l) = promised_arrive n (levels item) (levels item') p in
          rw e₁ (le, Moves-of _ (unchanged-Becomes sku w.source cs) b refl l same)
    ]
  ]

  -- A line of a cancellation puts its pieces back on hand at the source and takes them off what is in
  -- transit at the destination, where a missing item stays missing.
  pub cancel_line-Moves :
      cancel_line uuid source destination (sku, n) w ≡ ok w'
      → Moves sku
          (more_on_hand n (levels_at sku w.source))
          (less_incoming n (levels_at sku w.destination))
          w
          w'
  unfolding cancel_line
  cancel_line-Moves e =
      let from = find_or_create uuid source sku w.source in
      let (empty, fresh) = find_or_create-levels uuid source sku w.source cs in
      elim (Result-cases (kept (call (Op.receive n) from))) [
        | inr (x, e₁) ↦ cc (rw e₁ at e)
        | inl (from', e₁) ↦ elim (Option-cases (lookup sku w.destination)) [
          | inl e₂ ↦
              let same = ok-injective (rw (e₁, e₂) at e) in
              let (p, b) = called-Becomes (Op.receive n) sku from w.source cs fresh e₁ in
              let back = promised-receive n (levels from) _ (levels from') empty p in
              let none_due : levels_at sku w.destination ≡ less_incoming n no_stock =
                rw e₂ (ground arith) in
              rw e₂ (Moves-of _ b (unchanged-Becomes sku w.destination cd) back none_due same)
          | inr (item, e₂) ↦ elim (Result-cases (kept (call (Op.cancel n) item))) [
            | inr (x, e₃) ↦ cc (rw (e₁, e₂, e₃) at e)
            | inl (item', e₃) ↦
                let same = ok-injective (rw (e₁, e₂, e₃) at e) in
                let (p, b) = called-Becomes (Op.receive n) sku from w.source cs fresh e₁ in
                let (q, d) =
                  called-Becomes (Op.cancel n) sku item w.destination cd (cd sku item e₂) e₃ in
                let (_, l) = promised-cancel n (levels item) (levels item') q in
                let back = promised-receive n (levels from) _ (levels from') empty p in
                rw e₂ (Moves-of _ b d back l same)
          ]
        ]
      ]
