-- ===== src/Costing/Service/Conservation.antt =====
-- Consuming through the service: what leaves the rows is what is charged.
use gql_ddd_inventory.Prelude.{
  ℕ, ◌+◌, ◌≡◌, refl, sym, ap, ◌∙◌, Bool, true, false, List, [], ◌∷◌, ◌==◌, Result, ok, err, All,
  sum_by, if◌then◌else◌, arith, inl, inr, Bool-cases, ◌&&◌,
}
use gql_ddd_inventory.Prelude.Maps.{values}
use gql_ddd_inventory.Costing.Layer.{
  InventoryCostLayer, IsValid, CostBreakdown, remaining_quantity, remaining_cost_cents,
}
use gql_ddd_inventory.Costing.Sort.{
  sort, received_before, received_after, expires_before, All-sort, sum_by-sort,
}
use gql_ddd_inventory.Costing.Strategy.{
  CostingMethod, fifo, lifo, fefo, weighted_average_cost, specific_identification, CostingError,
  requires_serial_numbers, insufficient_layers, ordered_consume_layers, consume_loop,
}
use gql_ddd_inventory.Costing.Strategy
use gql_ddd_inventory.Costing.Strategy.Laws.{Conserves, ordered_consume_layers-Conserves}
use gql_ddd_inventory.Costing.Repository.{
  Rows, OrderBy, get_active_layers, save_batch, select, is_active, comes_before,
}
use gql_ddd_inventory.Costing.Repository.Loaded.{
  AreKeyed, Loaded, get_active_layers-Loaded, sort-Loaded, select-All,
}
use gql_ddd_inventory.Costing.Repository.Saving.{
  Follow, consume_loop-Follow, sum_by-save_batch, save_batch-AreKeyed,
}
use gql_ddd_inventory.Costing.Service.{consume_layers, order_of, saved}

-- What the rows hold of a variant, and what it is worth.
abbrev pub units_of : (variant : ℕ) → InventoryCostLayer → ℕ
units_of v l = if l.variant_id == v then remaining_quantity l else 0

abbrev pub value_of : (variant : ℕ) → InventoryCostLayer → ℕ
value_of v l = if l.variant_id == v then remaining_cost_cents l else 0

abbrev pub held : (InventoryCostLayer → ℕ) → Rows → ℕ
held f rows = sum_by f (values rows)

-- A consumption that returns takes the quantity out of the variant's rows, and its cost out of their
-- value, and touches no other variant. One that throws leaves the rows.
abbrev pub Charges :
    (variant quantity : ℕ) → Rows → Result CostingError CostBreakdown × Rows → Type 0
Charges v q rows (ok b, rows') =
    (b.quantity ≡ q)
    × AreKeyed rows'
    × ((w : ℕ) → held (units_of w) rows' + (if w == v then q else 0) ≡ held (units_of w) rows)
    × ((w : ℕ)
        → held (value_of w) rows' + (if w == v then b.total_cost_cents else 0)
          ≡ held (value_of w) rows)
Charges v q rows (err e, rows') = rows' ≡ rows

abbrev pub IsOf : ℕ → InventoryCostLayer → Type 0
IsOf v l = l.variant_id ≡ v

-- A sum over layers of one variant, by variant.
sum_by-IsOf :
    (f : InventoryCostLayer → ℕ) (v w : ℕ) (ls : List InventoryCostLayer)
    → All (IsOf v) ls
    → sum_by (λ l. if l.variant_id == w then f l else 0) ls ≡ (if w == v then sum_by f ls else 0)
sum_by-IsOf f v w [] h = ground arith
sum_by-IsOf f v w (l ∷ ls) h = rw (h.0, sum_by-IsOf f v w ls h.1) (ground arith)

Follow-IsOf :
    (v : ℕ) (ls ms : List InventoryCostLayer) → Follow ls ms → All (IsOf v) ls → All (IsOf v) ms
Follow-IsOf v [] [] g h = tt
Follow-IsOf v (l ∷ ls) (m ∷ ms) g h = (g.1 ∙ h.0, Follow-IsOf v ls ms g.2 h.1)
Follow-IsOf v [] (m ∷ ms) g h = elim g [ ]
Follow-IsOf v (l ∷ ls) [] g h = elim g [ ]

by_variant :
    (same : Bool) (now was after before part : ℕ)
    → now + (if same then was else 0) ≡ before + (if same then after else 0)
    → after + part ≡ was
    → now + (if same then part else 0) ≡ before
by_variant true now was after before part h k = omega (arith, h, k)
by_variant false now was after before part h k = omega (arith, h)

moved_sum :
    (f : InventoryCostLayer → ℕ) (v w part : ℕ) (rows : Rows)
    (taken after : List InventoryCostLayer)
    → Loaded rows taken
    → Follow taken after
    → All (IsOf v) taken
    → sum_by f after + part ≡ sum_by f taken
    → held (λ l. if l.variant_id == w then f l else 0) (save_batch after rows)
        + (if w == v then part else 0)
      ≡ held (λ l. if l.variant_id == w then f l else 0) rows
moved_sum f v w part rows taken after h g i e =
    let g' : InventoryCostLayer → ℕ = λ l. if l.variant_id == w then f l else 0 in
    by_variant (w == v) (held g' (save_batch after rows)) (sum_by f taken) (sum_by f after)
      (held g' rows) part
      (ap (λ x. held g' (save_batch after rows) + x) (sym (sum_by-IsOf f v w taken i))
        ∙ sum_by-save_batch g' rows taken after h g
        ∙ ap (λ x. held g' rows + x) (sum_by-IsOf f v w after (Follow-IsOf v taken after g i)))
      e

Charges-of :
    (v q : ℕ) (rows : Rows) (layers taken : List InventoryCostLayer)
    (out : Result CostingError CostBreakdown × List InventoryCostLayer)
    → AreKeyed rows
    → Loaded rows taken
    → All (IsOf v) taken
    → Follow taken out.1
    → sum_by remaining_quantity taken ≡ sum_by remaining_quantity layers
    → sum_by remaining_cost_cents taken ≡ sum_by remaining_cost_cents layers
    → Conserves layers q out
    → Charges v q rows (saved (λ _ _ _. 0) rows out)
Charges-of v q rows layers taken (err e, after) k h i g s t c = refl
Charges-of v q rows layers taken (ok b, after) k h i g s t c = (
  c.0,
  save_batch-AreKeyed after rows k,
  (λ w. moved_sum remaining_quantity v w q rows taken after h g i (c.1 ∙ sym s)),
  (λ w. moved_sum remaining_cost_cents v w b.total_cost_cents rows taken after h g i (c.2 ∙ sym t)),
)

of_variant : (a v : ℕ) (b : Bool) → (a == v && b) ≡ true → a ≡ v
of_variant a v b e = ground arith

select-IsOf : (v : ℕ) (ls : List InventoryCostLayer) → All (IsOf v) (select (is_active v) ls)
unfolding select
select-IsOf v [] = tt
select-IsOf v (l ∷ ls) = elim (Bool-cases (is_active v l)) [
  | inl e ↦ rw e (of_variant l.variant_id v _ e, select-IsOf v ls)
  | inr e ↦ rw e (select-IsOf v ls)
]

module _ (variant quantity : ℕ) (rows : Rows) (keyed : AreKeyed rows)
    (valid : All IsValid (values rows)) where
  ordered-Charges :
      (before : InventoryCostLayer → InventoryCostLayer → Bool) (order : OrderBy)
      → Charges variant quantity rows (
          saved
            (λ _ _ _. 0)
            rows
            (ordered_consume_layers before (get_active_layers variant order rows) quantity))
  unfolding ordered_consume_layers get_active_layers
  ordered-Charges before order =
      let layers = get_active_layers variant order rows in
      let chosen = select (is_active variant) (values rows) in
      let right =
        All-sort (comes_before order) IsValid chosen
          (select-All IsValid (is_active variant) (values rows) valid) in
      let own =
        All-sort before (IsOf variant) layers (
          All-sort (comes_before order) (IsOf variant) chosen
            (select-IsOf variant (values rows))) in
      Charges-of variant quantity rows layers (sort before layers)
        (ordered_consume_layers before layers quantity) keyed
        (sort-Loaded before rows layers (get_active_layers-Loaded variant order rows keyed)) own
        (consume_loop-Follow (sort before layers) quantity 0)
        (sum_by-sort before remaining_quantity layers)
        (sum_by-sort before remaining_cost_cents layers)
        (ordered_consume_layers-Conserves before layers quantity right)

  -- Consuming through the service: where it returns, the units of the variant fall by the quantity, their
  -- value falls by exactly the cost that is charged, and nothing changes for any other variant;
  -- where it throws, no row has changed. So also at the weighted average, which is charged as FIFO
  -- is. The rows must be under their own identifiers and not overdrawn.
  pub consume_layers-Charges :
      (average : ℕ → ℕ → ℕ → ℕ) (method : CostingMethod)
      → Charges variant quantity rows (consume_layers average variant quantity method rows)
  unfolding consume_layers Strategy.consume_layers
  consume_layers-Charges average fifo = ordered-Charges received_before (order_of fifo)
  consume_layers-Charges average lifo = ordered-Charges received_after (order_of lifo)
  consume_layers-Charges average fefo = ordered-Charges expires_before (order_of fefo)
  consume_layers-Charges average weighted_average_cost =
      ordered-Charges received_before (order_of fifo)
  consume_layers-Charges average specific_identification = refl
