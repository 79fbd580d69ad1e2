-- ===== src/Costing/Strategy/Loop.antt =====
-- The loops of the strategies: pricing agrees with consuming, stock and value are conserved, and layers
-- are used up one after the other.
use gql_ddd_inventory.Prelude.{
  ℕ, ◌+◌, ◌-◌, ◌*◌, ◌≤◌, ◌≡◌, refl, List, [], ◌∷◌, ◌==◌, min, arith, sum_by, All, ◌⊎◌, inl, inr,
  Bool-cases, ap, ==_iff,
}
use gql_ddd_inventory.Costing.Layer.{
  InventoryCostLayer, IsValid, remaining_quantity, remaining_cost_cents, consume, consume-IsValid,
  consume_remaining, consume_cost, consume_used_up,
}
use gql_ddd_inventory.Costing.Strategy.{calculate_loop, consume_loop}

-- Pricing without consuming gives what consuming gives.
pub calculate_loop-eq-consume_loop :
    (ls : List InventoryCostLayer) (r c : ℕ)
    → calculate_loop ls r c ≡ ((consume_loop ls r c).0, (consume_loop ls r c).1)
unfolding calculate_loop consume_loop consume
calculate_loop-eq-consume_loop [] r c = refl
calculate_loop-eq-consume_loop (l ∷ ls) r c = elim (Bool-cases (r == 0)) [
  | inl e ↦ rw e refl
  | inr e ↦ rw e (
      calculate_loop-eq-consume_loop ls (r - min r (remaining_quantity l))
        (c + min r (remaining_quantity l) * l.unit_cost_cents))
]

take_step :
    (q : ℕ) (l : InventoryCostLayer)
    → IsValid l
    → IsValid (consume q l).1
      × (remaining_quantity (consume q l).1 + (consume q l).0 ≡ remaining_quantity l)
      × (remaining_cost_cents (consume q l).1 + (consume q l).0 * l.unit_cost_cents
          ≡ remaining_cost_cents l)
      × ((consume q l).0 ≤ q)
      × ((q - (consume q l).0 ≡ 0) ⊎ (remaining_quantity (consume q l).1 ≡ 0))
take_step q l v =
    let (total, le) = consume_remaining q l v in
    let value = ap (λ (t : ℕ). t * l.unit_cost_cents) total in
    (
      consume-IsValid q l v,
      total,
      rw (consume_cost q l) (omega (arith, value)),
      le,
      consume_used_up q l,
    )

-- What the loop leaves in the layers and still wants.
pub record Leaves (ls : List InventoryCostLayer) (r c r' c' : ℕ) (ls' : List InventoryCostLayer)
    : Type 0 where
  pub valid : All IsValid ls'
  pub stock : sum_by remaining_quantity ls' + r ≡ sum_by remaining_quantity ls + r'
  pub value : sum_by remaining_cost_cents ls' + c' ≡ sum_by remaining_cost_cents ls + c
  pub wanted : r' ≤ r
  pub used_up : (r' ≡ 0) ⊎ (sum_by remaining_quantity ls' ≡ 0)

Leaves-cons :
    (l : InventoryCostLayer) (ls : List InventoryCostLayer) (r c r' c' : ℕ)
    (ls' : List InventoryCostLayer)
    → IsValid l
    → Leaves ls (r - (consume r l).0) (c + (consume r l).0 * l.unit_cost_cents) r' c' ls'
    → Leaves (l ∷ ls) r c r' c' ((consume r l).1 ∷ ls')
Leaves-cons l ls r c r' c' ls' v h =
    let (w, q, p, le, all) = take_step r l v in
    record {
      valid = (w, h.valid);
      stock = omega (arith, h.stock);
      value = omega (arith, h.value);
      wanted = omega (arith, h.wanted);
      used_up = elim all [
        | inl z ↦ inl (omega (arith, h.wanted))
        | inr z ↦ elim h.used_up [ inl y ↦ inl y | inr y ↦ inr (omega arith) ]
      ];
    }

pub consume_loop-Leaves :
    (ls : List InventoryCostLayer) (r c : ℕ)
    → All IsValid ls
    → let (r', c', ls') = consume_loop ls r c in Leaves ls r c r' c' ls'
unfolding consume_loop
consume_loop-Leaves [] r c v = record {
  valid = tt;
  stock = refl;
  value = refl;
  wanted = omega arith;
  used_up = inr refl;
}
consume_loop-Leaves (l ∷ ls) r c v = elim (Bool-cases (r == 0)) [
  | inl e ↦ rw e (record {
    valid = v;
    stock = refl;
    value = refl;
    wanted = omega arith;
    used_up = inl ((==_iff r 0).0 e);
  })
  | inr e ↦ rw e (Leaves-cons l ls r c _ _ _ v.0 (consume_loop-Leaves ls _ _ v.1))
]

-- Each layer is used up before the next one is touched.
abbrev pub UsedInOrder : List InventoryCostLayer → List InventoryCostLayer → Type 0
UsedInOrder [] ls' = ls' ≡ []
UsedInOrder (l ∷ ls) [] = ⊥
UsedInOrder (l ∷ ls) (l' ∷ ls') = (ls' ≡ ls) ⊎ ((remaining_quantity l' ≡ 0) × UsedInOrder ls ls')

consume_loop_done : (ls : List InventoryCostLayer) (r c : ℕ) → r ≡ 0 → (consume_loop ls r c).2 ≡ ls
unfolding consume_loop
consume_loop_done [] r c e = refl
consume_loop_done (l ∷ ls) r c e = rw e refl

pub consume_loop-UsedInOrder :
    (ls : List InventoryCostLayer) (r c : ℕ) → UsedInOrder ls (consume_loop ls r c).2
unfolding consume_loop
consume_loop-UsedInOrder [] r c = refl
consume_loop-UsedInOrder (l ∷ ls) r c = elim (Bool-cases (r == 0)) [
  | inl e ↦ rw e (inl refl)
  | inr e ↦ rw e (elim (consume_used_up r l) [
    | inl z ↦ inl (consume_loop_done ls _ _ z)
    | inr z ↦ inr (z, consume_loop-UsedInOrder ls _ _)
  ])
]
