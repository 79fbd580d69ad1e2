-- ===== src/Costing/Repository/Saving.antt =====
-- What saving changed layers does to sums over the rows.
use gql_ddd_inventory.Prelude.{
  ℕ, ◌+◌, ◌≡◌, ◌≢◌, refl, sym, ap, ◌∙◌, false, some, List, [], ◌∷◌, ◌==◌, All, All-both, sum_by,
  arith, Bool-cases, inl, inr, ==_iff,
}
use gql_ddd_inventory.Prelude.Maps.{lookup, insert, values, lookup-insert, sum_by-insert, amount_at}
use gql_ddd_inventory.Costing.Layer.{InventoryCostLayer, consume}
use gql_ddd_inventory.Costing.Strategy.{consume_loop}
use gql_ddd_inventory.Costing.Repository.{Rows, save_batch}
use gql_ddd_inventory.Costing.Repository.Loaded.{Loaded, HaveOwnIds, AreKeyed}

-- The same layers, one by one, consumed further.
abbrev pub Follow : List InventoryCostLayer → List InventoryCostLayer → Type 0
Follow [] [] = Unit
Follow (l ∷ ls) (m ∷ ms) = (m.id ≡ l.id) × (m.variant_id ≡ l.variant_id) × Follow ls ms
Follow _ _ = ⊥

Follow-refl : (ls : List InventoryCostLayer) → Follow ls ls
Follow-refl [] = tt
Follow-refl (l ∷ ls) = (refl, refl, Follow-refl ls)

pub consume_loop-Follow :
    (ls : List InventoryCostLayer) (r c : ℕ) → Follow ls (consume_loop ls r c).2
unfolding consume_loop consume
consume_loop-Follow [] r c = tt
consume_loop-Follow (l ∷ ls) r c = elim (Bool-cases (r == 0)) [
  | inl e ↦ rw e (Follow-refl (l ∷ ls))
  | inr e ↦ rw e (refl, refl, consume_loop-Follow ls _ _)
]

differs : (a b : ℕ) → a ≢ b → (a == b) ≡ false
differs a b h = ground arith

insert-Loaded :
    (m : InventoryCostLayer) (rows : Rows) (ls : List InventoryCostLayer)
    → All (λ k. k.id ≢ m.id) ls
    → All (λ l. lookup l.id rows ≡ some l) ls
    → HaveOwnIds ls
    → Loaded (insert m.id m rows) ls
insert-Loaded m rows ls n s o = record {
  stored =
      All-both (λ k. k.id ≢ m.id) (λ l. lookup l.id rows ≡ some l)
        (λ l. lookup l.id (insert m.id m rows) ≡ some l) ls
        (λ l ne e. lookup-insert m.id l.id m rows ∙ rw (differs m.id l.id (λ p. ne (sym p))) e) n s;
  own_ids = o;
}

-- Saving changes a sum over the rows by what the saved layers count for less what they did before.
pub sum_by-save_batch :
    (f : InventoryCostLayer → ℕ) (rows : Rows) (ls ms : List InventoryCostLayer)
    → Loaded rows ls
    → Follow ls ms
    → sum_by f (values (save_batch ms rows)) + sum_by f ls ≡ sum_by f (values rows) + sum_by f ms
unfolding save_batch
sum_by-save_batch f rows [] [] h g = refl
sum_by-save_batch f rows (l ∷ ls) (m ∷ ms) h g =
    let same : lookup m.id rows ≡ some l = ap (λ i. lookup i rows) g.0 ∙ h.stored.0 in
    let rest = insert-Loaded m rows ls (rw g.0 h.own_ids.0) h.stored.1 h.own_ids.1 in
    let one = sum_by-insert f m.id m rows in
    let was : amount_at f (lookup m.id rows) ≡ f l = ap (amount_at f) same in
    omega (arith, one, was, sum_by-save_batch f (insert m.id m rows) ls ms rest g.2)
sum_by-save_batch f rows [] (m ∷ ms) h g = elim g [ ]
sum_by-save_batch f rows (l ∷ ls) [] h g = elim g [ ]

-- The rows stay keyed, and what was not saved stays.
insert-AreKeyed :
    (m : InventoryCostLayer) (rows : Rows) → AreKeyed rows → AreKeyed (insert m.id m rows)
unfolding insert lookup
insert-AreKeyed m [] r = (refl, refl, tt)
insert-AreKeyed m ((k, l) ∷ rows) r = elim (Bool-cases (k == m.id)) [
  | inl e ↦ rw e (sym ((==_iff k m.id).0 e), r.1, r.2)
  | inr e ↦ rw e (r.0, lookup-insert m.id k m rows ∙ ground arith, insert-AreKeyed m rows r.2)
]

pub save_batch-AreKeyed :
    (ms : List InventoryCostLayer) (rows : Rows) → AreKeyed rows → AreKeyed (save_batch ms rows)
unfolding save_batch
save_batch-AreKeyed [] rows r = r
save_batch-AreKeyed (m ∷ ms) rows r =
    save_batch-AreKeyed ms (insert m.id m rows) (insert-AreKeyed m rows r)
