-- ===== src/Costing/Repository/Loaded.antt =====
-- Layers as a query hands them out: as they are stored, each once.
use gql_ddd_inventory.Prelude.{
  ℕ, ◌≡◌, ◌≢◌, sym, Bool, none, some, List, [], ◌∷◌, ◌==◌, All, All-both, Bool-cases, inl, inr,
  arith,
}
use gql_ddd_inventory.Prelude.Maps.{lookup, values}
use gql_ddd_inventory.Costing.Layer.{InventoryCostLayer}
use gql_ddd_inventory.Costing.Sort.{sort, insert_sorted, All-sort, All-insert_sorted}
use gql_ddd_inventory.Costing.Repository.{
  Rows, OrderBy, comes_before, is_active, select, get_active_layers,
}

-- No two layers have one identifier.
abbrev pub HaveOwnIds : List InventoryCostLayer → Type 0
HaveOwnIds [] = Unit
HaveOwnIds (l ∷ ls) = All (λ m. m.id ≢ l.id) ls × HaveOwnIds ls

-- Each row stands once, under its own identifier.
abbrev pub AreKeyed : Rows → Type 0
AreKeyed [] = Unit
AreKeyed ((k, l) ∷ rows) = (l.id ≡ k) × (lookup k rows ≡ none) × AreKeyed rows

abbrev IsStored : Rows → InventoryCostLayer → Type 0
IsStored rows l = lookup l.id rows ≡ some l

pub record Loaded (rows : Rows) (ls : List InventoryCostLayer) : Type 0 where
  pub stored : All (IsStored rows) ls
  pub own_ids : HaveOwnIds ls

missing-values :
    (k : ℕ) (rows : Rows) → AreKeyed rows → lookup k rows ≡ none → All (λ l. l.id ≢ k) (values rows)
unfolding lookup
missing-values k [] r h = tt
missing-values k ((j, l) ∷ rows) r h = elim (Bool-cases (j == k)) [
  | inl e ↦ cc (rw e at h)
  | inr e ↦ let ne : l.id ≢ k = ground arith in (ne, missing-values k rows r.2 (rw e at h))
]

IsStored-later :
    (k : ℕ) (x : InventoryCostLayer) (rows : Rows) (ls : List InventoryCostLayer)
    → All (λ l. l.id ≢ k) ls
    → All (IsStored rows) ls
    → All (IsStored ((k, x) ∷ rows)) ls
unfolding lookup
IsStored-later k x rows ls n s =
    All-both (λ l. l.id ≢ k) (IsStored rows) (IsStored ((k, x) ∷ rows)) ls (λ l ne e. ground arith)
      n s

values-Loaded : (rows : Rows) → AreKeyed rows → Loaded rows (values rows)
unfolding lookup
values-Loaded [] r = record { stored = tt; own_ids = tt }
values-Loaded ((k, l) ∷ rows) r =
    let rest = values-Loaded rows r.2 in
    let others = missing-values k rows r.2 r.1 in
    record {
      stored = (ground arith, IsStored-later k l rows (values rows) others rest.stored);
      own_ids = (rw r.0 others, rest.own_ids);
    }

pub select-All :
    (P : InventoryCostLayer → Type 0) (p : InventoryCostLayer → Bool) (ls : List InventoryCostLayer)
    → All P ls
    → All P (select p ls)
unfolding select
select-All P p [] h = tt
select-All P p (l ∷ ls) h = elim (Bool-cases (p l)) [
  | inl e ↦ rw e (h.0, select-All P p ls h.1)
  | inr e ↦ rw e (select-All P p ls h.1)
]

select-HaveOwnIds :
    (p : InventoryCostLayer → Bool) (ls : List InventoryCostLayer)
    → HaveOwnIds ls
    → HaveOwnIds (select p ls)
unfolding select
select-HaveOwnIds p [] h = tt
select-HaveOwnIds p (l ∷ ls) h = elim (Bool-cases (p l)) [
  | inl e ↦ rw e (select-All (λ m. m.id ≢ l.id) p ls h.0, select-HaveOwnIds p ls h.1)
  | inr e ↦ rw e (select-HaveOwnIds p ls h.1)
]

module _ (before : InventoryCostLayer → InventoryCostLayer → Bool) where
  insert_sorted-HaveOwnIds :
      (l : InventoryCostLayer) (ls : List InventoryCostLayer)
      → All (λ m. m.id ≢ l.id) ls
      → HaveOwnIds ls
      → HaveOwnIds (insert_sorted before l ls)
  unfolding insert_sorted
  insert_sorted-HaveOwnIds l [] n h = (tt, tt)
  insert_sorted-HaveOwnIds l (m ∷ ms) n h = elim (Bool-cases (before m l)) [
    | inl e ↦ rw e (
      All-insert_sorted before (λ k. k.id ≢ m.id) l ms (λ s. n.0 (sym s)) h.0,
      insert_sorted-HaveOwnIds l ms n.1 h.1,
    )
    | inr e ↦ rw e (n, h)
  ]

  sort-HaveOwnIds : (ls : List InventoryCostLayer) → HaveOwnIds ls → HaveOwnIds (sort before ls)
  unfolding sort
  sort-HaveOwnIds [] h = tt
  sort-HaveOwnIds (l ∷ ls) h =
      insert_sorted-HaveOwnIds l (sort before ls) (All-sort before (λ m. m.id ≢ l.id) ls h.0)
        (sort-HaveOwnIds ls h.1)

  pub sort-Loaded :
      (rows : Rows) (ls : List InventoryCostLayer) → Loaded rows ls → Loaded rows (sort before ls)
  sort-Loaded rows ls h = record {
    stored = All-sort before (IsStored rows) ls h.stored;
    own_ids = sort-HaveOwnIds ls h.own_ids;
  }

-- What a query hands out is stored as it is, each row once.
pub get_active_layers-Loaded :
    (variant : ℕ) (order : OrderBy) (rows : Rows)
    → AreKeyed rows
    → Loaded rows (get_active_layers variant order rows)
unfolding get_active_layers
get_active_layers-Loaded variant order rows r =
    let all_rows = values-Loaded rows r in
    sort-Loaded (comes_before order) rows (select (is_active variant) (values rows)) (record {
      stored = select-All (IsStored rows) (is_active variant) (values rows) all_rows.stored;
      own_ids = select-HaveOwnIds (is_active variant) (values rows) all_rows.own_ids;
    })
