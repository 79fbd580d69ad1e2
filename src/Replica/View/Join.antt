-- ===== src/Replica/View/Join.antt =====
-- The counters of a SKU are a semilattice under the merge, and counting only goes up in it.
use mathlib.Core.Quot.Quotient
use mathlib.Core.Quot.{Quotient-set}
use gql_ddd_inventory.Prelude.{ℕ, ◌+◌, ◌≡◌, sym, ap, ◌∙◌, ◌≤◌, ◌==◌, arith, Bool-cases, inl, inr}
use gql_ddd_inventory.Prelude.Maps.{insert, lookup}
use gql_ddd_inventory.Replica.{
  NodeCounts, count_of, create_stock_counter, increment, decrement, get_value, merge,
}
use gql_ddd_inventory.Replica.View.{
  Replica, Same, joined, joined-ups, joined-downs, count_of-insert, incremented, decremented,
  same_counts, Counter, view, merged, counted_up, counted_down, value, merged-view, counted_up-view,
  counted_down-view, value-view, fresh,
}

at_least :
    (node amount j : ℕ) (m : NodeCounts)
    → count_of j m ≤ count_of j (insert node (count_of node m + amount) m)
at_least node amount j m = elim (Bool-cases (node == j)) [
  | inl e ↦
      let same : node ≡ j = ground (arith, e) in
      omega (
        arith,
        rw e at (count_of-insert node (count_of node m + amount) j m),
        ap (λ k. count_of k m) same,
      )
  | inr e ↦ omega (arith, rw e at (count_of-insert node (count_of node m + amount) j m))
]

module _ {sku : ℕ} where
  sound : (a b : Replica sku) → Same a b → view a ≡ view b
  sound a b h = Quotient.sound (same_counts sku) h

  merged_comm : (x y : Counter sku) → merged x y ≡ merged y x
  merged_comm =
      Quotient.ind₂ (same_counts sku) (same_counts sku) (λ x y. Quotient-set (same_counts sku) _ _)
        λ a b.
          merged-view a b
          ∙ sound (joined a b) (joined b a) (
            λ j. omega (arith, joined-ups a b j, joined-ups b a j),
            λ j. omega (arith, joined-downs a b j, joined-downs b a j),
          )
          ∙ sym (merged-view b a)

  joined_assoc : (a b c : Replica sku) → Same (joined (joined a b) c) (joined a (joined b c))
  joined_assoc a b c = (
    λ j. omega (
      arith,
      joined-ups a b j,
      joined-ups b c j,
      joined-ups (joined a b) c j,
      joined-ups a (joined b c) j,
    ),
    λ j. omega (
      arith,
      joined-downs a b j,
      joined-downs b c j,
      joined-downs (joined a b) c j,
      joined-downs a (joined b c) j,
    ),
  )

  merged_assoc : (x y z : Counter sku) → merged (merged x y) z ≡ merged x (merged y z)
  merged_assoc x y z =
      Quotient.induction_on₃ (same_counts sku) (same_counts sku) (same_counts sku)
        {motive = λ x y z. merged (merged x y) z ≡ merged x (merged y z)}
        (λ x y z. Quotient-set (same_counts sku) _ _) x y z
        λ a b c.
          ap (λ m. merged m (view c)) (merged-view a b)
          ∙ merged-view (joined a b) c
          ∙ sound _ _ (joined_assoc a b c)
          ∙ sym (merged-view a (joined b c))
          ∙ sym (ap (merged (view a)) (merged-view b c))

  -- A state below another adds nothing to it.
  absorbed :
      (a b : Replica sku)
      → ((j : ℕ) → count_of j a.state.increments ≤ count_of j b.state.increments)
      → ((j : ℕ) → count_of j a.state.decrements ≤ count_of j b.state.decrements)
      → merged (view a) (view b) ≡ view b
  absorbed a b up down =
      merged-view a b
      ∙ sound (joined a b) b (
        λ j. omega (arith, joined-ups a b j, up j),
        λ j. omega (arith, joined-downs a b j, down j),
      )

  merged-merged : (x : Counter sku) → merged x x ≡ x
  merged-merged =
      Quotient.ind (same_counts sku) (λ x. Quotient-set (same_counts sku) _ _)
        λ a. absorbed a a (λ j. omega arith) (λ j. omega arith)

  merged-fresh : (x : Counter sku) → merged (view (fresh sku)) x ≡ x
  unfolding fresh create_stock_counter lookup
  merged-fresh =
      Quotient.ind (same_counts sku) (λ x. Quotient-set (same_counts sku) _ _)
        λ a. absorbed (fresh sku) a (λ j. omega arith) (λ j. omega arith)

  merged-counted_up :
      (node amount : ℕ) (x : Counter sku)
      → merged x (counted_up node amount x) ≡ counted_up node amount x
  unfolding incremented increment
  merged-counted_up node amount =
      Quotient.ind (same_counts sku) (λ x. Quotient-set (same_counts sku) _ _)
        λ a.
          ap (merged (view a)) (counted_up-view node amount a)
          ∙ absorbed a (incremented node amount a) (λ j. at_least node amount j a.state.increments)
              (λ j. omega arith)
          ∙ sym (counted_up-view node amount a)

  merged-counted_down :
      (node amount : ℕ) (x : Counter sku)
      → merged x (counted_down node amount x) ≡ counted_down node amount x
  unfolding decremented decrement
  merged-counted_down node amount =
      Quotient.ind (same_counts sku) (λ x. Quotient-set (same_counts sku) _ _)
        λ a.
          ap (merged (view a)) (counted_down-view node amount a)
          ∙ absorbed a (decremented node amount a) (λ j. omega arith)
              (λ j. at_least node amount j a.state.decrements)
          ∙ sym (counted_down-view node amount a)

  -- In the type of counters, where replicas that count the same at every node are equal, merging is
  -- commutative, associative and idempotent, a counter that was just created is its unit, an
  -- increment and a decrement are above the counter that they are made on, and the value of a merge
  -- of two replicas is the one that is computed from their merged state.
  pub merged-IsJoin :
      (x y z : Counter sku) (a b : Replica sku) (node amount : ℕ)
      → (merged x y ≡ merged y x)
        × (merged (merged x y) z ≡ merged x (merged y z))
        × (merged x x ≡ x)
        × (merged (view (fresh sku)) x ≡ x)
        × (merged x (counted_up node amount x) ≡ counted_up node amount x)
        × (merged x (counted_down node amount x) ≡ counted_down node amount x)
        × (value (merged (view a) (view b)) ≡ get_value (merge a.state b.state))
  unfolding joined
  merged-IsJoin x y z a b node amount = (
    merged_comm x y,
    merged_assoc x y z,
    merged-merged x,
    merged-fresh x,
    merged-counted_up node amount x,
    merged-counted_down node amount x,
    ap value (merged-view a b) ∙ value-view (joined a b),
  )
