-- ===== src/Transfer/UseCases/RoundTrip.antt =====
-- A dispatch followed by its cancellation or by its receipt.
use gql_ddd_inventory.Prelude.{ℕ, ◌≡◌, some, ok, arith, ◌==◌, if◌then◌else◌, ap, ◌∙◌}
use gql_ddd_inventory.Prelude.Maps.{lookup, lookup-insert}
use gql_ddd_inventory.Transfer.Entity.{StockTransfer}
use gql_ddd_inventory.Transfer.UseCases.{Repositories, Context}
use gql_ddd_inventory.Transfer.UseCases.Execute.{execute_dispatch}
use gql_ddd_inventory.Transfer.UseCases.Outcome.{execute_dispatch-Executed}
use gql_ddd_inventory.Transfer.UseCases.Stock.{StockIsCounted, TransfersAreSound}

module _ (c : Context) (id : ℕ) (repos : Repositories) {t : StockTransfer} {repos₁ : Repositories}
    (sound : TransfersAreSound repos) (counted : StockIsCounted repos)
    (sent : execute_dispatch c id repos ≡ (ok t, repos₁)) where
  stored_id : t.id ≡ id
  stored_id =
      let x = execute_dispatch-Executed c id repos sent in
      x.route.same_id ∙ sound.keyed id x.before x.found

  transfers_after :
      (j : ℕ) → lookup j repos₁.transfers ≡ (if id == j then some t else lookup j repos.transfers)
  transfers_after j =
      let x = execute_dispatch-Executed c id repos sent in
      ap (lookup j) x.moved.transfer_saved
      ∙ lookup-insert t.id j t repos.transfers
      ∙ ap (λ i. if i == j then some t else lookup j repos.transfers) stored_id

  stored : lookup id repos₁.transfers ≡ some t
  stored = transfers_after id ∙ ground arith
