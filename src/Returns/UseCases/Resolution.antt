-- ===== src/Returns/UseCases/Resolution.antt =====
-- What resolving a quarantined item does to the stock, the layers and the journal.
use mathlib.Core.Path.{subst}
use gql_ddd_inventory.Prelude.{
  ℕ, ◌≤◌, ◌≡◌, ◌≢◌, refl, sym, ap, ◌∙◌, Option, none, some, Result, ok, err, All, Bool-cases,
  Option-cases, Result-cases, inl, inr, ◌⊎◌,
}
use gql_ddd_inventory.Prelude.Maps.{lookup, insert, values}
use gql_ddd_inventory.Prelude.Methods.{kept}
use gql_ddd_inventory.Stock.Item.{InventoryItem}
use gql_ddd_inventory.Stock.Item.Laws.{Op, levels, call}
use gql_ddd_inventory.Stock.Shelves.{
  levels_at, AreCounted, Becomes, called-Becomes, less_on_hand, promised-dispatch,
}
use gql_ddd_inventory.Costing.Layer.{IsValid}
use gql_ddd_inventory.Costing.Repository.{received_ascending, get_active_layers}
use gql_ddd_inventory.Costing.Repository.Loaded.{AreKeyed}
use gql_ddd_inventory.Approval.Workflow.{ApprovalWorkflow, Payload, should_trigger}
use gql_ddd_inventory.Approval.Service.{Repository, evaluate_and_intercept}
use gql_ddd_inventory.Returns.Quarantine.{QuarantineItem}
use gql_ddd_inventory.Returns.UseCases.{UseCaseError, requires_approval, Repositories}
use gql_ddd_inventory.Returns.UseCases.Resolve.{
  Resolution, restock, scrap, Interceptor, Context, settle, resolve_quarantine_item, intercept,
  intercept_with, estimate_loop,
}
use gql_ddd_inventory.Returns.UseCases.WriteOut.{Refused}
use gql_ddd_inventory.Returns.UseCases.Settling.{
  Settled, Settles, settle-restock, settle-scrap, settle-rtv,
}

evaluate-cases :
    (uuid now requester : ℕ) (w : Option ApprovalWorkflow) (payload : Payload)
    (approvals : Repository)
    → (evaluate_and_intercept uuid now requester w payload approvals ≡ (ok none, approvals))
      ⊎ ((r : ℕ) × (a : Repository) × (evaluate_and_intercept uuid now requester w payload approvals
            ≡ (ok (some r), a)))
unfolding evaluate_and_intercept
evaluate-cases uuid now requester none payload approvals = inl refl
evaluate-cases uuid now requester (some w) payload approvals =
    elim (Bool-cases (should_trigger w payload)) [
      | inl e ↦ inr (
        uuid,
        (evaluate_and_intercept uuid now requester (some w) payload approvals).1,
        rw e refl,
      )
      | inr e ↦ inl (rw e refl)
    ]

intercept_with-cases :
    (c : Context) (q : QuarantineItem) (i : Option Interceptor) (repos : Repositories)
    → (intercept_with c q i repos ≡ (ok tt, repos))
      ⊎ ((e : UseCaseError) × (a : Repository) × (intercept_with c q i repos
            ≡ (err e, record repos { approvals = a })))
intercept_with-cases c q none repos = inl refl
intercept_with-cases c q (some i) repos =
    let layers = get_active_layers q.variant_id received_ascending repos.layers in
    let payload = i.payload (estimate_loop layers q.quantity 0) q.quantity in
    elim (evaluate-cases c.request_uuid c.now i.actor_id i.workflow payload repos.approvals) [
      | inl e ↦ inl (rw e refl)
      | inr (r, a, e) ↦ inr (requires_approval r, a, rw e refl)
    ]

intercept-cases :
    (c : Context) (q : QuarantineItem) (r : Resolution) (repos : Repositories)
    → (intercept c q r repos ≡ (ok tt, repos))
      ⊎ ((e : UseCaseError) × (a : Repository) × (intercept c q r repos
            ≡ (err e, record repos { approvals = a })))
unfolding intercept
intercept-cases c q restock repos = inl refl
intercept-cases c q scrap repos = intercept_with-cases c q c.interceptor repos
intercept-cases c q Resolution.rtv repos = inl refl

-- A resolution that returns has settled the stored item with the SKU of its variant. One that throws
-- has stored nothing, but for what `Refused` names.
abbrev pub Resolves :
    Context
    → Resolution
    → (id : ℕ) → Repositories
    → Result UseCaseError (Unit {0}) × Repositories
    → Type 0
Resolves c r id repos (ok _, repos') =
    (q : QuarantineItem) × (sku : ℕ) × (lookup id repos.quarantine ≡ some q)
    × (repos.sku_of q.variant_id ≡ some sku)
    × Settled c r sku q repos repos'
Resolves c r id repos (err e, repos') =
    (repos' ≡ repos)
    ⊎ ((q : QuarantineItem) × (lookup id repos.quarantine ≡ some q) × Refused q repos repos')

settled-Resolves :
    (c : Context) (r : Resolution) (id sku : ℕ) (q : QuarantineItem) (repos : Repositories)
    (out : Result UseCaseError (Unit {0}) × Repositories)
    → lookup id repos.quarantine ≡ some q
    → repos.sku_of q.variant_id ≡ some sku
    → Settles c r sku q repos out
    → Resolves c r id repos out
settled-Resolves c r id sku q repos (ok t, repos') e s h = (q, sku, e, s, h)
settled-Resolves c r id sku q repos (err x, repos') e s h = inr (q, e, h)

module _ (average : ℕ → ℕ → ℕ → ℕ) (c : Context) (repos : Repositories)
    (apart : (l : ℕ) → c.quarantine_of l ≢ l) (counted : (l : ℕ) → AreCounted (repos.stock l))
    (keyed : AreKeyed repos.layers) (valid : All IsValid (values repos.layers)) where
  settle-Settles :
      (r : Resolution) (sku : ℕ) (q : QuarantineItem) (item : InventoryItem) {held : InventoryItem}
      → lookup sku (repos.stock (c.quarantine_of q.location_id)) ≡ some item
      → kept (call (Op.dispatch q.quantity) item) ≡ ok held
      → Settles c r sku q repos (settle average c r sku held q repos)
  settle-Settles r sku q item {held} e e' =
      let shelf = repos.stock (c.quarantine_of q.location_id) in
      let shelf_counted = counted (c.quarantine_of q.location_id) in
      let (p, b) =
        called-Becomes (Op.dispatch q.quantity) sku item shelf shelf_counted
          (shelf_counted sku item e) e' in
      let (le, gone) = promised-dispatch q.quantity (levels item) (levels held) p in
      let same : levels_at sku shelf ≡ levels item = rw e refl in
      let le' : q.quantity ≤ (levels_at sku shelf).on_hand = rw same le in
      let left : Becomes sku (less_on_hand q.quantity (levels_at sku shelf)) shelf
          (insert sku held shelf) =
        subst (λ l. Becomes sku l shelf (insert sku held shelf))
          (gone ∙ ap (less_on_hand q.quantity) (sym same)) b in
      elim r as (λ k. Settles c k sku q repos (settle average c k sku held q repos)) [
        | restock ↦
            settle-restock average c q sku held repos (apart q.location_id) le' left
              (counted q.location_id)
        | scrap ↦ settle-scrap average c q sku held repos (apart q.location_id) le' left keyed valid
        | Resolution.rtv ↦
            settle-rtv average c q sku held repos (apart q.location_id) le' left keyed valid
      ]

  -- Resolving an item that is in quarantine, where it returns, takes its pieces, which were on hand, from
  -- the quarantined stock of its SKU and closes it. A restocking puts as many on hand at its
  -- location and leaves layers and journal; a scrapping or a return to the vendor takes as many
  -- units out of the cost layers of its variant and adds one balanced journal entry of exactly the
  -- value that they lose. All other stock stays. A call that throws has stored nothing, but a request
  -- for approval, or the layers where these gave the pieces at no cost. The items stored are counted
  -- in pieces, the layers are under their own identifiers and not overdrawn, and the place for
  -- quarantine differs from its location.
  pub resolve_quarantine_item-Resolves :
      (id : ℕ) (r : Resolution)
      → Resolves c r id repos (resolve_quarantine_item average c id r repos)
  unfolding resolve_quarantine_item
  resolve_quarantine_item-Resolves id r = elim (Option-cases (lookup id repos.quarantine)) [
    | inl e ↦ rw e (inl refl)
    | inr (q, e) ↦ elim (Option-cases (repos.sku_of q.variant_id)) [
      | inl s ↦ rw (e, s) (inl refl)
      | inr (sku, s) ↦ elim (intercept-cases c q r repos) [
        | inr (x, a, i) ↦ rw (e, s, i) (inr (q, e, (refl, inl refl)))
        | inl i ↦ elim (Option-cases (lookup sku (repos.stock (c.quarantine_of q.location_id)))) [
          | inl t ↦ rw (e, s, i, t) (inl refl)
          | inr (item, t) ↦ elim (Result-cases (kept (call (Op.dispatch q.quantity) item))) [
            | inr (x, d) ↦ rw (e, s, i, t, d) (inl refl)
            | inl (held, d) ↦
                rw (e, s, i, t, d)
                  (settled-Resolves c r id sku q repos _ e s (settle-Settles r sku q item t d))
          ]
        ]
      ]
    ]
  ]
