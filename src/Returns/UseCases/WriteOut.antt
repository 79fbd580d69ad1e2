-- ===== src/Returns/UseCases/WriteOut.antt =====
-- What goods that leave do to the layers and the journal.
use gql_ddd_inventory.Prelude.{
  ℕ, ◌≡◌, refl, ap, some, [], ◌∷◌, ◌++◌, Result, ok, err, All, inl, inr, arith, ◌⊎◌,
}
use gql_ddd_inventory.Prelude.Int.{pos}
use gql_ddd_inventory.Prelude.Maps.{values}
use gql_ddd_inventory.Prelude.Methods.{followed_by}
use gql_ddd_inventory.Costing.Layer.{IsValid, CostBreakdown}
use gql_ddd_inventory.Costing.Strategy.{CostingError, fifo}
use gql_ddd_inventory.Costing.Repository.{Rows}
use gql_ddd_inventory.Costing.Repository.Loaded.{AreKeyed}
use gql_ddd_inventory.Costing.Service.Conservation.{Charges, consume_layers-Charges}
use gql_ddd_inventory.Journal.{JournalEntry, Build, debit, record_entry}
use gql_ddd_inventory.Journal.Laws.{IsBalanced, IsServiceBuild, total, record_entry-SavesBalanced}
use gql_ddd_inventory.Returns.Quarantine.{QuarantineItem}
use gql_ddd_inventory.Returns.UseCases.{UseCaseError, Repositories}
use gql_ddd_inventory.Returns.UseCases.Resolve.{Context, charged, write_out, record_cost}

-- Goods that leave: their layers are consumed, and what these lose is journaled as one balanced entry.
abbrev pub Accounts : Context → Build → QuarantineItem → Repositories → Repositories → Type 0
Accounts c build q repos repos' =
    (b : CostBreakdown) × (e : JournalEntry) × Charges q.variant_id q.quantity repos.layers
      (ok b, repos'.layers)
    × (record_entry build c.entry_uuid q.tenant_id c.now (some q.id) (pos b.total_cost_cents)
          repos.journal
        ≡ (ok e, repos'.journal))
    × (repos'.journal ≡ repos.journal ++ (e ∷ []))
    × IsBalanced e
    × (total debit e.lines ≡ b.total_cost_cents)

-- A call that throws has stored nothing, but requests for approval, and the layers where these gave the
-- quantity at no cost.
abbrev pub Refused : QuarantineItem → Repositories → Repositories → Type 0
Refused q repos repos' =
    (repos' ≡ record repos { layers = repos'.layers; approvals = repos'.approvals })
    × ((repos'.layers ≡ repos.layers)
        ⊎ ((b : CostBreakdown) × Charges q.variant_id q.quantity repos.layers (ok b, repos'.layers)
            × (b.total_cost_cents ≡ 0)))

abbrev pub Written :
    Context
    → Build
    → QuarantineItem
    → Repositories
    → Result UseCaseError (Unit {0}) × Repositories
    → Type 0
Written c build q repos (ok _, repos') =
    (repos' ≡ record repos { layers = repos'.layers; journal = repos'.journal })
    × Accounts c build q repos repos'
Written c build q repos (err e, repos') = Refused q repos repos'

charged-Written :
    (average : ℕ → ℕ → ℕ → ℕ) (c : Context) (build : Build) (q : QuarantineItem)
    (repos : Repositories) (out : Result CostingError CostBreakdown × Rows)
    → IsServiceBuild build
    → Charges q.variant_id q.quantity repos.layers out
    → Written c build q repos (followed_by (charged repos out) (record_cost average c build q))
charged-Written average c build q repos (err e, rows) s h =
    (ap (λ r. record repos { layers = r }) refl, inl h)
charged-Written average c build q repos (ok b, rows) s h =
    elim (record_entry-SavesBalanced build s c.entry_uuid q.tenant_id c.now (some q.id)
      (pos b.total_cost_cents) repos.journal) [
        | inl (p, e, eq, bal, tot) ↦ rw eq (refl, (b, e, h, eq, refl, bal, tot))
        | inr (n, eq) ↦ rw eq (refl, inr (b, h, ground arith))
      ]

pub write_out-Written :
    (average : ℕ → ℕ → ℕ → ℕ) (c : Context) (build : Build) (q : QuarantineItem)
    (repos : Repositories)
    → IsServiceBuild build
    → AreKeyed repos.layers
    → All IsValid (values repos.layers)
    → Written c build q repos (write_out average c build q repos)
write_out-Written average c build q repos s k v =
    charged-Written average c build q repos _ s
      (consume_layers-Charges q.variant_id q.quantity repos.layers k v average fifo)
