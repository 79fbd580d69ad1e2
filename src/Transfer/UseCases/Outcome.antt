-- ===== src/Transfer/UseCases/Outcome.antt =====
-- What a use case that returned has found and stored.
use gql_ddd_inventory.Prelude.{
  ℕ, ◌≡◌, some, List, Result, ok, arith, Result-cases, Option-cases, inl, inr, ok-injective, sym,
  ap,
}
use gql_ddd_inventory.Prelude.Maps.{lookup, insert}
use gql_ddd_inventory.Prelude.Methods.{kept}
use gql_ddd_inventory.Transfer.Entity.{
  StockTransfer, StockTransferStatus, draft, dispatched, received, cancelled, dispatch, receive,
  cancel,
}
use gql_ddd_inventory.Transfer.UseCases.{
  Repositories, Context, Line, Working, UseCaseError, resolve, each_line, dispatch_line,
  receive_line, cancel_line, ledger_entries, check_versions, loaded, save_stock,
}
use gql_ddd_inventory.Transfer.UseCases.Execute.{
  move_stock, execute_dispatch, execute_receive, execute_cancel,
}

-- The stock moved for a transfer, and the transfer stored.
pub record Moved (step : StockTransfer → Line → Working → Result UseCaseError Working)
    (t : StockTransfer) (repos repos' : Repositories) : Type 0 where
  pub lines : List Line
  pub resolved : resolve repos.sku_of t.items ≡ ok lines
  pub end : Working
  pub stepped : each_line (step t) lines (loaded repos t) ≡ ok end
  pub stock_saved : repos'.stock ≡ (save_stock t end repos).stock
  pub transfer_saved : repos'.transfers ≡ insert t.id t repos.transfers
  pub same_catalog : repos'.sku_of ≡ repos.sku_of

move_stock-Moved :
    (c : Context) (step : StockTransfer → Line → Working → Result UseCaseError Working)
    (t : StockTransfer) (repos : Repositories) {r : StockTransfer} {repos' : Repositories}
    → move_stock c step t repos ≡ (ok r, repos')
    → (r ≡ t) × Moved step t repos repos'
unfolding move_stock
move_stock-Moved c step t repos e = elim (Result-cases (resolve repos.sku_of t.items)) [
  | inr (x, e₁) ↦ cc (ap (λ p. p.0) (rw e₁ at e))
  | inl (lines, e₁) ↦ elim (Result-cases (each_line (step t) lines (loaded repos t))) [
    | inr (x, e₂) ↦ cc (ap (λ p. p.0) (rw (e₁, e₂) at e))
    | inl (w, e₂) ↦ elim (Result-cases (check_versions t w repos w.items_to_save)) [
      | inr (x, e₀) ↦ cc (ap (λ p. p.0) (rw (e₁, e₂, e₀) at e))
      | inl (u, e₀) ↦ elim (Result-cases (ledger_entries c repos.variant_of w.movements)) [
        | inr (x, e₃) ↦ cc (ap (λ p. p.0) (rw (e₁, e₂, e₀, e₃) at e))
        | inl (es, e₃) ↦
            let final = rw (e₁, e₂, e₀, e₃) at e in
            (
              sym (ok-injective (ap (λ p. p.0) final)),
              record {
                lines = lines;
                resolved = e₁;
                end = w;
                stepped = e₂;
                stock_saved = sym (ap (λ p. p.1.stock) final);
                transfer_saved = sym (ap (λ p. p.1.transfers) final);
                same_catalog = sym (ap (λ p. p.1.sku_of) final);
              },
            )
      ]
    ]
  ]
]

-- The parts of a transfer that no call changes.
pub record HasRouteOf (t t' : StockTransfer) : Type 0 where
  pub same_id : t'.id ≡ t.id
  pub same_source : t'.source_location_id ≡ t.source_location_id
  pub same_destination : t'.destination_location_id ≡ t.destination_location_id
  pub same_items : t'.items ≡ t.items

kept-dispatch :
    (now : ℕ) (t t' : StockTransfer)
    → kept (dispatch now t) ≡ ok t'
    → (t.status ≡ draft) × (t'.status ≡ dispatched) × HasRouteOf t t'
unfolding dispatch
kept-dispatch now t t' e = ground arith

kept-receive :
    (now : ℕ) (t t' : StockTransfer)
    → kept (receive now t) ≡ ok t'
    → (t.status ≡ dispatched) × (t'.status ≡ received) × HasRouteOf t t'
unfolding receive
kept-receive now t t' e = ground arith

kept-cancel :
    (t t' : StockTransfer) → kept (cancel t) ≡ ok t' → (t'.status ≡ cancelled) × HasRouteOf t t'
unfolding cancel
kept-cancel t t' e = ground arith

-- A use case found a transfer, took it from one status to another, and moved its stock.
pub record Executed (step : StockTransfer → Line → Working → Result UseCaseError Working)
    (from to : StockTransferStatus) (id : ℕ) (r : StockTransfer) (repos repos' : Repositories)
    : Type 0 where
  pub before : StockTransfer
  pub found : lookup id repos.transfers ≡ some before
  pub was : before.status ≡ from
  pub becomes : r.status ≡ to
  pub route : HasRouteOf before r
  pub moved : Moved step r repos repos'

module _ (c : Context) where
  abbrev pub dispatching : StockTransfer → Line → Working → Result UseCaseError Working
  dispatching x = dispatch_line c.uuid x.source_location_id x.destination_location_id

  abbrev pub receiving : StockTransfer → Line → Working → Result UseCaseError Working
  receiving x = receive_line c.uuid x.source_location_id x.destination_location_id

  abbrev pub cancelling : StockTransfer → Line → Working → Result UseCaseError Working
  cancelling x = cancel_line c.uuid x.source_location_id x.destination_location_id

  module _ (id : ℕ) (repos : Repositories) {r : StockTransfer} {repos' : Repositories} where
    pub execute_dispatch-Executed :
        execute_dispatch c id repos ≡ (ok r, repos')
        → Executed dispatching draft dispatched id r repos repos'
    unfolding execute_dispatch
    execute_dispatch-Executed e = elim (Option-cases (lookup id repos.transfers)) [
      | inl e₁ ↦ cc (ap (λ p. p.0) (rw e₁ at e))
      | inr (t, e₁) ↦ elim (Result-cases (kept (dispatch c.now t))) [
        | inr (x, e₂) ↦ cc (ap (λ p. p.0) (rw (e₁, e₂) at e))
        | inl (t', e₂) ↦
            let (same, m) = move_stock-Moved c dispatching t' repos (rw (e₁, e₂) at e) in
            let (was, now, route) = kept-dispatch c.now t t' e₂ in
            rw same (record {
              before = t;
              found = e₁;
              was = was;
              becomes = now;
              route = route;
              moved = m;
            })
      ]
    ]

    pub execute_receive-Executed :
        execute_receive c id repos ≡ (ok r, repos')
        → Executed receiving dispatched received id r repos repos'
    unfolding execute_receive
    execute_receive-Executed e = elim (Option-cases (lookup id repos.transfers)) [
      | inl e₁ ↦ cc (ap (λ p. p.0) (rw e₁ at e))
      | inr (t, e₁) ↦ elim (Result-cases (kept (receive c.now t))) [
        | inr (x, e₂) ↦ cc (ap (λ p. p.0) (rw (e₁, e₂) at e))
        | inl (t', e₂) ↦
            let (same, m) = move_stock-Moved c receiving t' repos (rw (e₁, e₂) at e) in
            let (was, now, route) = kept-receive c.now t t' e₂ in
            rw same (record {
              before = t;
              found = e₁;
              was = was;
              becomes = now;
              route = route;
              moved = m;
            })
      ]
    ]

    pub execute_cancel-Executed :
        (t : StockTransfer)
        → lookup id repos.transfers ≡ some t
        → t.status ≡ dispatched
        → execute_cancel c id repos ≡ (ok r, repos')
        → Executed cancelling dispatched cancelled id r repos repos'
    unfolding execute_cancel
    execute_cancel-Executed t e₁ sent e = elim (Result-cases (kept (cancel t))) [
      | inr (x, e₂) ↦ cc (ap (λ p. p.0) (rw (e₁, e₂) at e))
      | inl (t', e₂) ↦
          let (same, m) = move_stock-Moved c cancelling t' repos (rw (e₁, e₂, sent) at e) in
          let (now, route) = kept-cancel t t' e₂ in
          rw same
            (record { before = t; found = e₁; was = sent; becomes = now; route = route; moved = m })
    ]
