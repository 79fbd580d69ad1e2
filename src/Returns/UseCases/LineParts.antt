-- ===== src/Returns/UseCases/LineParts.antt =====
-- What the steps of one line of a receipt do.
use mathlib.Core.Path.{subst}
use gql_ddd_inventory.Prelude.{
  ℕ, ◌≡◌, refl, sym, ap, ◌∙◌, Option, List, [], Result, ok, err, ok-injective, Result-cases, All,
  inl, inr, arith, sum_by, WhenOk, WhenOk-bind,
}
use gql_ddd_inventory.Prelude.Int.{ℤ, pos, pos_part}
use gql_ddd_inventory.Prelude.Methods.{kept}
use gql_ddd_inventory.Stock.Item.{InventoryItem, receive_stock, dispatch_stock}
use gql_ddd_inventory.Stock.Quantity.{pieces}
use gql_ddd_inventory.Stock.Item.Laws.{
  Op, Levels, levels, call, IsCounted, call-Implements, promise_of_kept,
}
use gql_ddd_inventory.Stock.Shelves.{
  more_on_hand, less_on_hand, promised-dispatch, promised-receive,
}
use gql_ddd_inventory.Journal.{JournalEntry, Build, build_inventory_write_off, record_entry}
use gql_ddd_inventory.Journal.Laws.{
  IsBalanced, IsServiceBuild, inventory_write_off, record_entry-SavesBalanced,
}
use gql_ddd_inventory.Returns.Item.{RmaDisposition, restock, scrap, quarantine}
use gql_ddd_inventory.Returns.Rma.{Rma, RmaError, receive_item}
use gql_ddd_inventory.Returns.Rma.Reachable.{status-cases, receive_item-open, receive_item-refused}
use gql_ddd_inventory.Returns.Quarantine.{new_quarantine_item}
use gql_ddd_inventory.Returns.UseCases.{of_rma}
use gql_ddd_inventory.Returns.UseCases.Resolve.{of_stock}
use gql_ddd_inventory.Returns.UseCases.Receive.{
  ReceiveRmaItem, Context, quarantine_line, scrap_line, of_journal,
}

-- What a line puts on hand at its target, and in quarantine.
abbrev pub kept_pieces : RmaDisposition → ℕ → ℕ
kept_pieces restock n = n
kept_pieces quarantine n = n
kept_pieces scrap n = 0

abbrev pub quarantined_pieces : RmaDisposition → ℕ → ℕ
quarantined_pieces quarantine n = n
quarantined_pieces restock n = 0
quarantined_pieces scrap n = 0

pub build-IsBalanced :
    (build : Build) (i t d : ℕ) (r : Option ℕ) (cost : ℤ) {e : JournalEntry}
    → IsServiceBuild build
    → build i t d r cost ≡ ok e
    → IsBalanced e
unfolding record_entry
build-IsBalanced build i t d r cost {e} s h =
    elim (record_entry-SavesBalanced build s i t d r cost []) [
      | inl (p, e', eq, bal, tot) ↦
          let same : e ≡ e' = ok-injective (ap (λ x. x.0) (rw h at eq)) in
          subst IsBalanced (sym same) bal
      | inr (n, eq) ↦ cc (ap (λ x. x.0) (rw h at eq))
    ]

pub of_journal-IsBalanced :
    (build : Build) (i t d : ℕ) (r : Option ℕ) (cost : ℤ)
    → IsServiceBuild build
    → WhenOk IsBalanced (of_journal (build i t d r cost))
of_journal-IsBalanced build i t d r cost s = elim (Result-cases (build i t d r cost)) [
  | inl (e, h) ↦ rw h (build-IsBalanced build i t d r cost s h)
  | inr (x, h) ↦ rw h tt
]

abbrev pub Raised : ℕ → Levels → InventoryItem → Type 0
Raised n l item = IsCounted item × (levels item ≡ more_on_hand n l)

pub received-Raised :
    (n : ℕ) (l : Levels) (item : InventoryItem)
    → IsCounted item
    → levels item ≡ l
    → WhenOk (Raised n l) (of_stock (kept (receive_stock (pieces n) item)))
received-Raised n l item i e = elim (Result-cases (kept (call (Op.receive n) item))) [
  | inl (item', h) ↦
      let (p, i') =
        promise_of_kept _ item (call (Op.receive n) item) (call-Implements (Op.receive n) item i)
          h in
      rw h (i', promised-receive n (levels item) l (levels item') e p)
  | inr (x, h) ↦ rw h tt
]

pub less-more : (n : ℕ) (l : Levels) → less_on_hand n (more_on_hand n l) ≡ more_on_hand 0 l
less-more n l = ground arith

-- What is on hand after the write-off, and the entry for it.
abbrev pub Scrapped : RmaDisposition → ℕ → Levels → InventoryItem × List JournalEntry → Type 0
Scrapped d n l out = Raised (kept_pieces d n) l out.0 × All IsBalanced out.1

pub scrap_line-Scrapped :
    (c : Context) (k : ℕ) (rma : Rma) (n cost : ℕ) (d : RmaDisposition) (l : Levels)
    (item : InventoryItem)
    → Raised n l item
    → WhenOk (Scrapped d n l) (scrap_line c k rma n cost d item)
scrap_line-Scrapped c k rma n cost restock l item h = (h, tt)
scrap_line-Scrapped c k rma n cost quarantine l item h = (h, tt)
scrap_line-Scrapped c k rma n cost scrap l item (i, e) =
    WhenOk-bind (Scrapped scrap n l) (Raised 0 l) (of_stock (kept (dispatch_stock (pieces n) item)))
      _
      (elim (Result-cases (kept (call (Op.dispatch n) item))) [
        | inl (item', h) ↦
            let (p, i') =
              promise_of_kept _ item (call (Op.dispatch n) item)
                (call-Implements (Op.dispatch n) item i) h in
            let (le, gone) = promised-dispatch n (levels item) (levels item') p in
            rw h (i', gone ∙ ap (less_on_hand n) e ∙ less-more n l)
        | inr (x, h) ↦ rw h tt
      ])
      (λ item' r.
        WhenOk-bind (Scrapped scrap n l) IsBalanced _ _
          (of_journal-IsBalanced build_inventory_write_off _ _ _ _ (pos cost) inventory_write_off)
          (λ e' b. (r, (b, tt))))

pub quarantine_line-pieces :
    (c : Context) (k : ℕ) (rma : Rma) (i : ReceiveRmaItem) (d : RmaDisposition)
    → WhenOk
        (λ qs. sum_by (λ q. q.quantity) qs ≡ quarantined_pieces d (pos_part i.quantity_received))
        (quarantine_line c k rma i d)
unfolding new_quarantine_item
quarantine_line-pieces c k rma i restock = refl
quarantine_line-pieces c k rma i scrap = refl
quarantine_line-pieces c k rma i quarantine = ground arith

pub kept-WhenOk :
    (P : Rma → Type 0) (out : Result RmaError (Unit {0}) × Rma)
    → P out.1
    → WhenOk P (of_rma (kept out))
kept-WhenOk P (ok t, rma) h = h
kept-WhenOk P (err e, rma) h = tt

pub receive_item-location :
    (v : ℕ) (q : ℤ) (d : RmaDisposition) (rma : Rma)
    → (receive_item v q d rma).1.location_id ≡ rma.location_id
receive_item-location v q d rma = elim (status-cases rma.status) [
  | inr o ↦ ap (λ r. r.location_id) (receive_item-refused v q d rma o)
  | inl o ↦ elim (receive_item-open v q d rma o) [
    | inl e ↦ ap (λ r. r.location_id) e
    | inr (items, r, e) ↦ ap (λ r'. r'.location_id) e
  ]
]
