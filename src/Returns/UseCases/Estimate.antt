-- ===== src/Returns/UseCases/Estimate.antt =====
-- The estimate on which a scrapping is sent for approval, and the cost that it is charged.
use gql_ddd_inventory.Prelude.{
  ℕ, ◌+◌, ◌-◌, ◌*◌, ◌≡◌, refl, sym, ap, ◌∙◌, List, [], ◌∷◌, Result, ok, err, ◌==◌, ltb, min,
  Bool-cases, inl, inr, arith,
}
use gql_ddd_inventory.Prelude.Maps.{values}
use gql_ddd_inventory.Costing.Layer.{InventoryCostLayer, CostBreakdown, remaining_quantity}
use gql_ddd_inventory.Costing.Sort.{sort, sort-sort, received_before, received_before-IsOrder}
use gql_ddd_inventory.Costing.Strategy.{
  CostingError, fifo, calculate_loop, calculate_cost, ordered_calculate_cost, priced,
}
use gql_ddd_inventory.Costing.Strategy.Laws.{calculate_cost-eq-consume_layers}
use gql_ddd_inventory.Costing.Repository.{
  Rows, received_ascending, get_active_layers, select, is_active,
}
use gql_ddd_inventory.Costing.Service.{consume_layers, saved}
use gql_ddd_inventory.Returns.UseCases.Resolve.{estimate_loop}

estimate_loop-calculate_loop :
    (ls : List InventoryCostLayer) (r e : ℕ) → estimate_loop ls r e ≡ (calculate_loop ls r e).1
unfolding estimate_loop calculate_loop
estimate_loop-calculate_loop [] r e = refl
estimate_loop-calculate_loop (l ∷ ls) r e = elim (Bool-cases (r == 0)) [
  | inl z ↦ rw z refl
  | inr z ↦ elim (Bool-cases (ltb 0 (remaining_quantity l))) [
    | inl p ↦
        let swap : min (remaining_quantity l) r ≡ min r (remaining_quantity l) = omega arith in
        rw (z, p, swap) (estimate_loop-calculate_loop ls _ _)
    | inr p ↦
        let none_there : remaining_quantity l ≡ 0 = ground arith in
        let none_taken : min r (remaining_quantity l) ≡ 0 = omega (arith, none_there) in
        let same_r : r - min r (remaining_quantity l) ≡ r = omega (arith, none_taken) in
        let same_e : e + min r (remaining_quantity l) * l.unit_cost_cents ≡ e =
          rw none_taken (omega arith) in
        rw (z, p, same_r, same_e) (estimate_loop-calculate_loop ls r e)
  ]
]

priced-total : (q r t : ℕ) {b : CostBreakdown} → priced q r t ≡ ok b → t ≡ b.total_cost_cents
priced-total q r t h = ground arith

saved-result :
    (average : ℕ → ℕ → ℕ → ℕ) (rows rows' : Rows)
    (out : Result CostingError CostBreakdown × List InventoryCostLayer) {b : CostBreakdown}
    → saved average rows out ≡ (ok b, rows')
    → out.0 ≡ ok b
saved-result average rows rows' (ok b, ls) e = ap (λ p. p.0) e
saved-result average rows rows' (err x, ls) e = cc (ap (λ p. p.0) e)

-- Where the goods can be consumed, the cost on which their scrapping is sent for approval is the cost that
-- it is charged if nothing changes the layers in between.
pub estimate_loop-consume_layers :
    (average : ℕ → ℕ → ℕ → ℕ) (variant quantity : ℕ) (rows rows' : Rows) {b : CostBreakdown}
    → consume_layers average variant quantity fifo rows ≡ (ok b, rows')
    → estimate_loop (get_active_layers variant received_ascending rows) quantity 0
      ≡ b.total_cost_cents
unfolding consume_layers get_active_layers calculate_cost ordered_calculate_cost
estimate_loop-consume_layers average v n rows rows' {b} e =
    let ls = get_active_layers v received_ascending rows in
    let sorted : sort received_before ls ≡ ls =
      sort-sort received_before received_before-IsOrder (select (is_active v) (values rows)) in
    let quoted : calculate_cost average fifo ls n ≡ ok b =
      calculate_cost-eq-consume_layers average fifo ls n ∙ saved-result average rows rows' _ e in
    let total : (calculate_loop (sort received_before ls) n 0).1 ≡ b.total_cost_cents =
      priced-total n (calculate_loop (sort received_before ls) n 0).0 _ {b = b} quoted in
    estimate_loop-calculate_loop ls n 0 ∙ ap (λ k. (calculate_loop k n 0).1) (sym sorted) ∙ total
