-- ===== src/Transfer/UseCases/Stock.antt =====
-- The stock in the repositories after a use case: how much moved for each SKU at each location.
use mathlib.Core.Path.{subst}
use gql_ddd_inventory.Prelude.{
  ℕ, ◌≡◌, ◌≢◌, Bool, true, false, some, List, Result, ok, arith, ◌==◌, if◌then◌else◌, sym, ap, ◌∙◌,
}
use gql_ddd_inventory.Prelude.Maps.{Map, lookup}
use gql_ddd_inventory.Stock.Item.{InventoryItem}
use gql_ddd_inventory.Stock.Item.Laws.{Levels}
use gql_ddd_inventory.Transfer.Entity.{StockTransfer, StockTransferItem, dispatched}
use gql_ddd_inventory.Transfer.UseCases.{
  Repositories, Context, Line, Working, UseCaseError, resolve, loaded, save_stock,
}
use gql_ddd_inventory.Transfer.UseCases.Execute.{execute_receive, execute_cancel}
use gql_ddd_inventory.Stock.Shelves.{levels_at, AreCounted, more_on_hand, less_incoming}
use gql_ddd_inventory.Transfer.UseCases.Runs.{
  needed, Shifts, IncomingFits, AnyFits, same_levels, arrived, receive-Shifts, cancel-Shifts,
}
use gql_ddd_inventory.Transfer.UseCases.Outcome.{
  Moved, HasRouteOf, execute_receive-Executed, execute_cancel-Executed,
}

-- Every stored item is counted in pieces.
abbrev pub StockIsCounted : Repositories → Type 0
StockIsCounted repos = (location : ℕ) → AreCounted (repos.stock location)

-- A transfer is stored under its own identifier, and goes between two locations.
pub record TransfersAreSound (repos : Repositories) : Type 0 where
  pub keyed : (id : ℕ) (t : StockTransfer) → lookup id repos.transfers ≡ some t → t.id ≡ id
  pub distinct :
      (id : ℕ) (t : StockTransfer)
      → lookup id repos.transfers ≡ some t
      → t.source_location_id ≢ t.destination_location_id

-- What the stock has become, location by location and SKU by SKU.
pub record StockMoved (f g : ℕ → Levels → Levels) (Fits : ℕ → Levels → Levels → Type 0)
    (source destination : ℕ) (items : List StockTransferItem) (lines : List Line)
    (repos repos' : Repositories) : Type 0 where
  pub resolved : resolve repos.sku_of items ≡ ok lines
  pub at_source :
      (k : ℕ)
      → levels_at k (repos'.stock source) ≡ f (needed k lines) (levels_at k (repos.stock source))
  pub at_destination :
      (k : ℕ)
      → levels_at k (repos'.stock destination)
        ≡ g (needed k lines) (levels_at k (repos.stock destination))
  pub fits :
      (k : ℕ)
      → Fits
          (needed k lines)
          (levels_at k (repos.stock source))
          (levels_at k (repos.stock destination))
  pub elsewhere : (l : ℕ) → l ≢ source → l ≢ destination → repos'.stock l ≡ repos.stock l
  pub counted : StockIsCounted repos'
  pub same_catalog : repos'.sku_of ≡ repos.sku_of

if-AreCounted :
    (b : Bool) (m m' : Map InventoryItem)
    → AreCounted m
    → AreCounted m'
    → AreCounted (if b then m else m')
if-AreCounted true m m' c c' = c
if-AreCounted false m m' c c' = c'

module _ {f g : ℕ → Levels → Levels} {Fits : ℕ → Levels → Levels → Type 0}
    {step : StockTransfer → Line → Working → Result UseCaseError Working} (t : StockTransfer)
    (repos repos' : Repositories) (apart : t.source_location_id ≢ t.destination_location_id)
    (all_counted : StockIsCounted repos) (m : Moved step t repos repos')
    (shifts : Shifts f g Fits m.lines (loaded repos t) m.end) where
  saved : (l : ℕ) → repos'.stock l ≡ (save_stock t m.end repos).stock l
  saved l = ap (λ s. s l) m.stock_saved

  saved_destination : repos'.stock t.destination_location_id ≡ m.end.destination
  saved_destination = saved t.destination_location_id ∙ ground arith

  saved_source : repos'.stock t.source_location_id ≡ m.end.source
  saved_source = saved t.source_location_id ∙ ground arith

  saved_elsewhere :
      (l : ℕ)
      → l ≢ t.source_location_id
      → l ≢ t.destination_location_id
      → repos'.stock l ≡ repos.stock l
  saved_elsewhere l p q = saved l ∙ ground arith

  saved_counted : StockIsCounted repos'
  saved_counted l = subst AreCounted (sym (saved l)) (
      if-AreCounted (l == t.destination_location_id) _ _ shifts.destination_counted
        (if-AreCounted (l == t.source_location_id) _ _ shifts.source_counted (all_counted l)))

  Moved-StockMoved :
      StockMoved f g Fits t.source_location_id t.destination_location_id t.items m.lines repos
        repos'
  Moved-StockMoved = record {
    resolved = m.resolved;
    at_source = λ k. ap (levels_at k) saved_source ∙ shifts.at_source k;
    at_destination = λ k. ap (levels_at k) saved_destination ∙ shifts.at_destination k;
    fits = shifts.fits;
    elsewhere = saved_elsewhere;
    counted = saved_counted;
    same_catalog = m.same_catalog;
  }

-- A transfer keeps its two locations apart when its route is that of a stored one.
pub route_apart :
    (repos : Repositories) (id : ℕ) (t r : StockTransfer)
    → TransfersAreSound repos
    → lookup id repos.transfers ≡ some t
    → HasRouteOf t r
    → r.source_location_id ≢ r.destination_location_id
route_apart repos id t r sound found route =
    let apart = sound.distinct id t found in
    λ e. apart (sym route.same_source ∙ e ∙ route.same_destination)

module _ (c : Context) (id : ℕ) (repos : Repositories) {r : StockTransfer} {repos' : Repositories}
    (sound : TransfersAreSound repos) (counted : StockIsCounted repos) where
  pub execute_receive-StockMoved :
      execute_receive c id repos ≡ (ok r, repos')
      → (lines : List Line) × StockMoved same_levels arrived IncomingFits r.source_location_id
          r.destination_location_id r.items lines repos repos'
  execute_receive-StockMoved e =
      let x = execute_receive-Executed c id repos e in
      let apart = route_apart repos id x.before r sound x.found x.route in
      let m = x.moved in
      let s =
        receive-Shifts c.uuid r.source_location_id r.destination_location_id m.lines
          (loaded repos r) m.end (counted r.source_location_id) (counted r.destination_location_id)
          m.stepped in
      (m.lines, Moved-StockMoved r repos repos' apart counted m s)

  pub execute_cancel-StockMoved :
      (t : StockTransfer)
      → lookup id repos.transfers ≡ some t
      → t.status ≡ dispatched
      → execute_cancel c id repos ≡ (ok r, repos')
      → (lines : List Line) × StockMoved more_on_hand less_incoming AnyFits r.source_location_id
          r.destination_location_id r.items lines repos repos'
  execute_cancel-StockMoved t found sent e =
      let x = execute_cancel-Executed c id repos t found sent e in
      let apart = route_apart repos id x.before r sound x.found x.route in
      let m = x.moved in
      let s =
        cancel-Shifts c.uuid r.source_location_id r.destination_location_id m.lines (loaded repos r)
          m.end (counted r.source_location_id) (counted r.destination_location_id) m.stepped in
      (m.lines, Moved-StockMoved r repos repos' apart counted m s)
