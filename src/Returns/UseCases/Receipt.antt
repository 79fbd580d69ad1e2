-- ===== src/Returns/UseCases/Receipt.antt =====
-- What a receipt of returned goods does to the stock, the quarantine and the journal.
use gql_ddd_inventory.Prelude.{ℕ, ◌+◌, ◌≡◌, some, List, ◌++◌, Result, ok, err, All, ◌⊎◌, sum_by}
use gql_ddd_inventory.Prelude.Int.{pos_part}
use gql_ddd_inventory.Prelude.Maps.{lookup}
use gql_ddd_inventory.Stock.Shelves.{levels_at, more_on_hand}
use gql_ddd_inventory.Costing.Repository.{Rows}
use gql_ddd_inventory.Journal.{JournalEntry}
use gql_ddd_inventory.Journal.Laws.{IsBalanced}
use gql_ddd_inventory.Returns.Rma.{Rma}
use gql_ddd_inventory.Returns.Quarantine.{QuarantineItem}
use gql_ddd_inventory.Returns.UseCases.{UseCaseError, Repositories}
use gql_ddd_inventory.Returns.UseCases.Receive.{
  ReceiveRmaItem, Context, Working, Line, with_skus, receive_lines, check_items,
}
use gql_ddd_inventory.Returns.UseCases.LineParts.{quarantined_pieces}
use gql_ddd_inventory.Returns.UseCases.ReceiveLine.{arrives}
use gql_ddd_inventory.Returns.UseCases.ReceiveRma.{
  loaded, scrap_items, consume_scrapped, save_quarantined,
}

abbrev pub to_quarantine : Line → ℕ
to_quarantine l = quarantined_pieces l.0.disposition (pos_part l.0.quantity_received)

-- What some lines do to what is to be saved.
record Shipped (c : Context) (location : ℕ) (ls : List Line) (w w' : Working) : Type 0 where
  stock :
      (place k : ℕ)
      → levels_at k (w'.stock place)
        ≡ more_on_hand (sum_by (arrives c location place k) ls) (levels_at k (w.stock place))
  entries : (es : List JournalEntry) × (w'.entries ≡ w.entries ++ es) × All IsBalanced es
  quarantined :
      sum_by (λ q. q.quantity) w'.quarantined_items
      ≡ sum_by (λ q. q.quantity) w.quarantined_items + sum_by to_quarantine ls

-- What a receipt that returns has stored, from the stored return and the lines with their SKUs.
pub record Received (c : Context) (rma : Rma) (ls : List Line) (repos repos' : Repositories)
    : Type 0 where
  pub stock :
      (place k : ℕ)
      → levels_at k (repos'.stock place)
        ≡ more_on_hand
            (sum_by (arrives c rma.location_id place k) ls)
            (levels_at k (repos.stock place))
  pub journal :
      (es : List JournalEntry) × (repos'.journal ≡ repos.journal ++ es) × All IsBalanced es
  pub quarantine :
      (qs : List QuarantineItem) × (repos'.quarantine ≡ save_quarantined qs repos.quarantine)
      × (sum_by (λ q. q.quantity) qs ≡ sum_by to_quarantine ls)

-- The one throw that has stored something: where an item was changed twice, its save is refused after
-- the scrapped goods were taken out of the layers.
pub record ChangedTwice (c : Context) (id : ℕ) (items : List ReceiveRmaItem) (repos : Repositories)
    (e : UseCaseError) (repos' : Repositories) : Type 0 where
  pub rma : Rma
  pub lines : List Line
  pub end : Working
  pub stored : lookup id repos.rmas ≡ some rma
  pub resolved : with_skus repos.sku_of items ≡ ok lines
  pub looped : receive_lines c lines (loaded rma repos) ≡ ok end
  pub taken : consume_scrapped (scrap_items lines) repos ≡ (ok tt, repos')
  pub only_layers : (rows : Rows) × (repos' ≡ record repos { layers = rows })
  pub refused : check_items end.stock repos.stock end.items_to_save ≡ err e

abbrev pub Receives :
    Context
    → (id : ℕ) → List ReceiveRmaItem
    → Repositories
    → Result UseCaseError (Unit {0}) × Repositories
    → Type 0
Receives c id items repos (ok _, repos') =
    (rma : Rma) × (ls : List Line) × (lookup id repos.rmas ≡ some rma)
    × (with_skus repos.sku_of items ≡ ok ls)
    × Received c rma ls repos repos'
Receives c id items repos (err e, repos') =
    (repos' ≡ repos) ⊎ ChangedTwice c id items repos e repos'
