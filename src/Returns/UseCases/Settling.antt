-- ===== src/Returns/UseCases/Settling.antt =====
-- What the branches of a resolution do to the stock, the layers and the journal.
use mathlib.Core.Path.{subst}
use gql_ddd_inventory.Prelude.{
  ℕ, ◌≤◌, ◌≡◌, ◌≢◌, refl, sym, true, false, some, Result, ok, err, ◌==◌, All, Result-cases, inl,
  inr, arith, ◌⊎◌,
}
use gql_ddd_inventory.Prelude.Int.{pos}
use gql_ddd_inventory.Prelude.Maps.{Map, lookup, insert, get_or, values}
use gql_ddd_inventory.Prelude.Methods.{kept, followed_by}
use gql_ddd_inventory.Stock.Item.{InventoryItem, new_inventory_item}
use gql_ddd_inventory.Stock.Item.Laws.{Op, levels, call}
use gql_ddd_inventory.Stock.Shelves.{
  levels_at, AreCounted, Becomes, called-Becomes, less_on_hand, more_on_hand, promised-receive,
  found_or_new-levels,
}
use gql_ddd_inventory.Costing.Layer.{IsValid, CostBreakdown}
use gql_ddd_inventory.Costing.Strategy.{fifo}
use gql_ddd_inventory.Costing.Repository.{Rows}
use gql_ddd_inventory.Costing.Repository.Loaded.{AreKeyed}
use gql_ddd_inventory.Costing.Service.{consume_layers}
use gql_ddd_inventory.Journal.{
  Build, amount_not_positive, build_inventory_write_off, build_return_to_vendor,
}
use gql_ddd_inventory.Journal.Laws.{
  inventory_write_off, return_to_vendor, record_entry-SavesBalanced,
}
use gql_ddd_inventory.Returns.Quarantine.{
  QuarantineItem, QuarantineStatus, QuarantineError, quarantined, restocked, scrapped,
  already_resolved, is_quarantined, resolve_restock, resolve_scrap, resolve_rtv,
}
use gql_ddd_inventory.Returns.UseCases.{UseCaseError, journal_error, Repositories}
use gql_ddd_inventory.Returns.UseCases.Resolve.{
  Resolution, restock, scrap, Context, save_item, settle, save_quarantine,
}
use gql_ddd_inventory.Returns.UseCases.WriteOut.{Accounts, Refused, Written, write_out-Written}

==_self : (l : ℕ) → (l == l) ≡ true
==_self l = ground arith

==_differ : (a b : ℕ) → a ≢ b → (a == b) ≡ false
==_differ a b n = ground arith

-- The status that each resolution ends in.
abbrev pub outcome : Resolution → QuarantineStatus
outcome restock = restocked
outcome scrap = scrapped
outcome Resolution.rtv = QuarantineStatus.rtv

abbrev pub resolved : Context → Resolution → QuarantineItem → QuarantineItem
resolved c r q = record q { status = outcome r; resolved_at = some c.now }

-- What becomes of the layers and the journal.
abbrev pub Books : Context → Resolution → QuarantineItem → Repositories → Repositories → Type 0
Books c restock q repos repos' = (repos'.layers ≡ repos.layers) × (repos'.journal ≡ repos.journal)
Books c scrap q repos repos' = Accounts c build_inventory_write_off q repos repos'
Books c Resolution.rtv q repos repos' = Accounts c build_return_to_vendor q repos repos'

-- What becomes of the place where the goods are for sale.
abbrev pub Shelved : Resolution → (sku n : ℕ) (m m' : Map InventoryItem) → Type 0
Shelved restock sku n m m' = Becomes sku (more_on_hand n (levels_at sku m)) m m'
Shelved scrap sku n m m' = m' ≡ m
Shelved Resolution.rtv sku n m m' = m' ≡ m

pub record Settled (c : Context) (r : Resolution) (sku : ℕ) (q : QuarantineItem)
    (repos repos' : Repositories) : Type 0 where
  pub was_open : q.status ≡ quarantined
  pub closed : repos'.quarantine ≡ insert q.id (resolved c r q) repos.quarantine
  pub on_hand : q.quantity ≤ (levels_at sku (repos.stock (c.quarantine_of q.location_id))).on_hand
  pub left :
      let place = c.quarantine_of q.location_id in
      Becomes sku
        (less_on_hand q.quantity (levels_at sku (repos.stock place)))
        (repos.stock place)
        (repos'.stock place)
  pub arrived : Shelved r sku q.quantity (repos.stock q.location_id) (repos'.stock q.location_id)
  pub elsewhere :
      (l : ℕ)
      → l ≢ c.quarantine_of q.location_id
      → l ≢ q.location_id
      → repos'.stock l ≡ repos.stock l
  pub books : Books c r q repos repos'

abbrev pub Settles :
    Context
    → Resolution
    → (sku : ℕ) → QuarantineItem
    → Repositories
    → Result UseCaseError (Unit {0}) × Repositories
    → Type 0
Settles c r sku q repos (ok _, repos') = Settled c r sku q repos repos'
Settles c r sku q repos (err e, repos') = Refused q repos repos'

quarantined-cases : (s : QuarantineStatus) → (s ≡ quarantined) ⊎ (is_quarantined s ≡ false)
quarantined-cases quarantined = inl refl
quarantined-cases restocked = inr refl
quarantined-cases scrapped = inr refl
quarantined-cases QuarantineStatus.rtv = inr refl

abbrev resolve :
    Resolution → (now : ℕ) → QuarantineItem → Result QuarantineError (Unit {0}) × QuarantineItem
resolve restock = resolve_restock
resolve scrap = resolve_scrap
resolve Resolution.rtv = resolve_rtv

resolve-cases :
    (c : Context) (r : Resolution) (q : QuarantineItem)
    → ((q.status ≡ quarantined) × (kept (resolve r c.now q) ≡ ok (resolved c r q)))
      ⊎ (kept (resolve r c.now q) ≡ err already_resolved)
unfolding resolve_restock resolve_scrap resolve_rtv
resolve-cases c restock q = elim (quarantined-cases q.status) [
  | inl e ↦ inl (e, rw e refl)
  | inr e ↦ inr (rw e refl)
]
resolve-cases c scrap q = elim (quarantined-cases q.status) [
  | inl e ↦ inl (e, rw e refl)
  | inr e ↦ inr (rw e refl)
]
resolve-cases c Resolution.rtv q = elim (quarantined-cases q.status) [
  | inl e ↦ inl (e, rw e refl)
  | inr e ↦ inr (rw e refl)
]

refused : (q : QuarantineItem) (repos : Repositories) → Refused q repos repos
refused q repos = (refl, inl refl)

module _ (average : ℕ → ℕ → ℕ → ℕ) (c : Context) (q : QuarantineItem) (sku : ℕ)
    (held : InventoryItem) (repos : Repositories)
    (apart : c.quarantine_of q.location_id ≢ q.location_id)
    (le : q.quantity ≤ (levels_at sku (repos.stock (c.quarantine_of q.location_id))).on_hand)
    (left : Becomes sku
      (less_on_hand q.quantity (levels_at sku (repos.stock (c.quarantine_of q.location_id))))
      (repos.stock (c.quarantine_of q.location_id))
      (insert sku held (repos.stock (c.quarantine_of q.location_id)))) where
  pub settle-restock :
      AreCounted (repos.stock q.location_id)
      → Settles c restock sku q repos (settle average c restock sku held q repos)
  unfolding settle
  settle-restock counted =
      let place = c.quarantine_of q.location_id in
      let here = repos.stock q.location_id in
      let item : InventoryItem =
        get_or (lookup sku here) (new_inventory_item c.item_uuid sku q.location_id) in
      let (same, fresh) = found_or_new-levels c.item_uuid q.location_id sku here counted in
      elim (resolve-cases c restock q) [
        | inr e ↦ rw e (refused q repos)
        | inl (o, e) ↦ elim (Result-cases (kept (call (Op.receive q.quantity) item))) [
          | inr (x, e') ↦ rw (e, e') (refused q repos)
          | inl (item', e') ↦
              let (p, b) = called-Becomes (Op.receive q.quantity) sku item here counted fresh e' in
              let more = promised-receive q.quantity (levels item) _ (levels item') same p in
              let first = save_item place sku held repos in
              rw (e, e')
                (record {
                  was_open = o;
                  closed = refl;
                  on_hand = le;
                  left = rw (==_differ place q.location_id apart, ==_self place) left;
                  arrived =
                      rw (==_self q.location_id, ==_differ q.location_id place (λ x. apart (sym x)))
                        (subst (λ lv. Becomes sku lv here (insert sku item' here)) more b);
                  elsewhere = λ l n n'. rw (==_differ l q.location_id n', ==_differ l place n) refl;
                  books = (refl, refl);
                })
        ]
      ]

  -- The end of the two branches in which the goods leave, from what was written before it.
  leave_end :
      (r : Resolution) (build : Build) (out : Result UseCaseError (Unit {0}) × Repositories)
      → q.status ≡ quarantined
      → Written c build q repos out
      → ((repos' : Repositories) → Accounts c build q repos repos' → Books c r q repos repos')
      → ((m : Map InventoryItem) → Shelved r sku q.quantity m m)
      → Settles c r sku q repos (
          followed_by out (λ _ repos'. (
            ok tt,
            save_quarantine
                (resolved c r q)
                (save_item (c.quarantine_of q.location_id) sku held repos'),
          )))
  leave_end r build (err e, repos') o h f g = h
  leave_end r build (ok t, repos') o (same, h) f g =
      let place = c.quarantine_of q.location_id in
      rw same (record {
        was_open = o;
        closed = refl;
        on_hand = le;
        left = rw (==_self place) left;
        arrived =
            rw (==_differ q.location_id place (λ x. apart (sym x))) (g (repos.stock q.location_id));
        elsewhere = λ l n n'. rw (==_differ l place n) refl;
        books = f _ h;
      })

  module _ (keyed : AreKeyed repos.layers) (valid : All IsValid (values repos.layers)) where
    pub settle-scrap : Settles c scrap sku q repos (settle average c scrap sku held q repos)
    unfolding settle
    settle-scrap = elim (resolve-cases c scrap q) [
      | inr e ↦ rw e (refused q repos)
      | inl (o, e) ↦ rw e (
          leave_end scrap build_inventory_write_off _ o
            (write_out-Written average c build_inventory_write_off q repos inventory_write_off keyed
              valid)
            (λ r a. a) (λ m. refl))
    ]

    pub settle-rtv :
        Settles c Resolution.rtv sku q repos (settle average c Resolution.rtv sku held q repos)
    unfolding settle
    settle-rtv = elim (resolve-cases c Resolution.rtv q) [
      | inr e ↦ rw e (refused q repos)
      | inl (o, e) ↦ rw e (
          leave_end Resolution.rtv build_return_to_vendor _ o
            (write_out-Written average c build_return_to_vendor q repos return_to_vendor keyed
              valid)
            (λ r a. a) (λ m. refl))
    ]

-- Goods whose layers cost nothing cannot be scrapped: the journal refuses the entry when the layers are
-- consumed and stored, and the item stays in quarantine.
settle-scrap-free :
    (average : ℕ → ℕ → ℕ → ℕ) (c : Context) (q : QuarantineItem) (sku : ℕ) (held : InventoryItem)
    (repos : Repositories) {b : CostBreakdown} {rows : Rows}
    → q.status ≡ quarantined
    → consume_layers average q.variant_id q.quantity fifo repos.layers ≡ (ok b, rows)
    → b.total_cost_cents ≡ 0
    → settle average c scrap sku held q repos
      ≡ (err (journal_error amount_not_positive), record repos { layers = rows })
unfolding settle resolve_scrap
settle-scrap-free average c q sku held repos {b} {rows} o e z =
    elim (record_entry-SavesBalanced build_inventory_write_off inventory_write_off c.entry_uuid
      q.tenant_id c.now (some q.id) (pos b.total_cost_cents) repos.journal) [
        | inl (p, x, eq, bal, tot) ↦ ground arith
        | inr (n, eq) ↦ rw (o, e, eq) refl
      ]
