-- ===== src/Replica/View.antt =====
-- The replicas of one counter up to the order in which they store their nodes: a quotient on which
-- the merge of src/domain/crdt/CRDTStockResolver.ts is a join.
pub mod Join
use mathlib.Core.Quot.{Setoid, Quotient, Quotient-set}
use mathlib.Core.Quot.Quotient
use native.Mathlib.Nat.{ℕ_set}
use gql_ddd_inventory.Prelude.{
  ℕ, ◌+◌, ◌≡◌, refl, sym, ap, ◌∙◌, ◌≤◌, Bool, true, false, max, [], ◌==◌, if◌then◌else◌, arith,
  Bool-cases, inl, inr,
}
use gql_ddd_inventory.Prelude.Maps.{insert, lookup, lookup-insert, get_or}
use gql_ddd_inventory.Replica.{
  NodeCounts, PnCounterState, count_of, create_stock_counter, increment, decrement, get_value,
  merge,
}
use gql_ddd_inventory.Replica.Counts.{AreDistinct, SameCounts, insert-AreDistinct}
use gql_ddd_inventory.Replica.Merge.{merge-IsJoin, Agree, get_value-Agree}

-- A state of the counter of a SKU, with each node once.
pub record Replica (sku : ℕ) : Type 0 where
  pub state : PnCounterState
  pub of_sku : state.sku ≡ sku
  pub ups : AreDistinct state.increments
  pub downs : AreDistinct state.decrements

module _ {sku : ℕ} where
  abbrev pub Same : Replica sku → Replica sku → Type 0
  Same a b =
      SameCounts a.state.increments b.state.increments
      × SameCounts a.state.decrements b.state.decrements

  pub joined : Replica sku → Replica sku → Replica sku
  unfolding merge
  joined a b =
      let j = merge-IsJoin a.state b.state in
      record { state = merge a.state b.state; of_sku = a.of_sku; ups = j.0.0; downs = j.1.0 }

  pub joined-ups :
      (a b : Replica sku) (j : ℕ)
      → count_of j (joined a b).state.increments
        ≡ max (count_of j a.state.increments) (count_of j b.state.increments)
  unfolding joined
  joined-ups a b = (merge-IsJoin a.state b.state).0.1

  pub joined-downs :
      (a b : Replica sku) (j : ℕ)
      → count_of j (joined a b).state.decrements
        ≡ max (count_of j a.state.decrements) (count_of j b.state.decrements)
  unfolding joined
  joined-downs a b = (merge-IsJoin a.state b.state).1.1

  joined-Same : (a b a' b' : Replica sku) → Same a a' → Same b b' → Same (joined a b) (joined a' b')
  joined-Same a b a' b' p q = (
    λ j. omega (arith, joined-ups a b j, joined-ups a' b' j, p.0 j, q.0 j),
    λ j. omega (arith, joined-downs a b j, joined-downs a' b' j, p.1 j, q.1 j),
  )

pub count_of-insert :
    (node n j : ℕ) (m : NodeCounts)
    → count_of j (insert node n m) ≡ (if node == j then n else count_of j m)
count_of-insert node n j m = elim (Bool-cases (node == j)) [
  | inl e ↦ rw (lookup-insert node j n m, e) refl
  | inr e ↦ rw (lookup-insert node j n m, e) refl
]

if_both :
    (c : Bool) {a b a' b' : ℕ} → a ≡ a' → b ≡ b' → (if c then a else b) ≡ (if c then a' else b')
if_both true p q = p
if_both false p q = q

-- Counting at a node respects the counts, and only adds.
raised-SameCounts :
    (node amount : ℕ) (a b : NodeCounts)
    → SameCounts a b
    → SameCounts
        (insert node (count_of node a + amount) a)
        (insert node (count_of node b + amount) b)
raised-SameCounts node amount a b h j =
    count_of-insert node _ j a
    ∙ if_both (node == j) (ap (λ n. n + amount) (h node)) (h j)
    ∙ sym (count_of-insert node _ j b)

module _ {sku : ℕ} where
  pub incremented : (node amount : ℕ) → Replica sku → Replica sku
  unfolding increment
  incremented node amount a = record {
    state = increment a.state node amount;
    of_sku = a.of_sku;
    ups = insert-AreDistinct node _ a.state.increments a.ups;
    downs = a.downs;
  }

  pub decremented : (node amount : ℕ) → Replica sku → Replica sku
  unfolding decrement
  decremented node amount a = record {
    state = decrement a.state node amount;
    of_sku = a.of_sku;
    ups = a.ups;
    downs = insert-AreDistinct node _ a.state.decrements a.downs;
  }

  incremented-Same :
      (node amount : ℕ) (a b : Replica sku)
      → Same a b
      → Same (incremented node amount a) (incremented node amount b)
  unfolding incremented increment
  incremented-Same node amount a b h =
      (raised-SameCounts node amount a.state.increments b.state.increments h.0, h.1)

  decremented-Same :
      (node amount : ℕ) (a b : Replica sku)
      → Same a b
      → Same (decremented node amount a) (decremented node amount b)
  unfolding decremented decrement
  decremented-Same node amount a b h =
      (h.0, raised-SameCounts node amount a.state.decrements b.state.decrements h.1)

  get_value-Same : (a b : Replica sku) → Same a b → get_value a.state ≡ get_value b.state
  get_value-Same a b h = get_value-Agree a.state b.state (record {
    distinct_a = (a.ups, a.downs);
    distinct_b = (b.ups, b.downs);
    same_increments = h.0;
    same_decrements = h.1;
  })

abbrev pub same_counts : (sku : ℕ) → Setoid {0, 0} (Replica sku)
same_counts sku = record {
  r = Same;
  iseqv = record {
    refl = λ a. (λ j. refl, λ j. refl);
    symm = λ a b h. (λ j. sym (h.0 j), λ j. sym (h.1 j));
    trans = λ a b c h k. (λ j. h.0 j ∙ k.0 j, λ j. h.1 j ∙ k.1 j);
  };
}

-- The counters of a SKU.
abbrev pub Counter : (sku : ℕ) → Type 0
Counter sku = Quotient (same_counts sku)

module _ {sku : ℕ} where
  abbrev pub view : Replica sku → Counter sku
  view a = Quotient.mk (same_counts sku) a

  pub merged : Counter sku → Counter sku → Counter sku
  merged =
      Quotient.lift₂ (same_counts sku) (same_counts sku) (Quotient-set (same_counts sku))
        (λ a b. view (joined a b))
        λ a b a' b' p q. Quotient.sound (same_counts sku) (joined-Same a b a' b' p q)

  pub counted_up : (node amount : ℕ) → Counter sku → Counter sku
  counted_up node amount =
      Quotient.lift (same_counts sku) (Quotient-set (same_counts sku))
        (λ a. view (incremented node amount a))
        λ a b h. Quotient.sound (same_counts sku) (incremented-Same node amount a b h)

  pub counted_down : (node amount : ℕ) → Counter sku → Counter sku
  counted_down node amount =
      Quotient.lift (same_counts sku) (Quotient-set (same_counts sku))
        (λ a. view (decremented node amount a))
        λ a b h. Quotient.sound (same_counts sku) (decremented-Same node amount a b h)

  pub value : Counter sku → ℕ
  value = Quotient.lift (same_counts sku) ℕ_set (λ a. get_value a.state) get_value-Same

  pub merged-view : (a b : Replica sku) → merged (view a) (view b) ≡ view (joined a b)
  unfolding merged
  merged-view a b = Quotient.lift₂-mk (same_counts sku) (same_counts sku) _ _ _ a b

  pub counted_up-view :
      (node amount : ℕ) (a : Replica sku)
      → counted_up node amount (view a) ≡ view (incremented node amount a)
  unfolding counted_up Quotient.lift
  counted_up-view node amount a = refl

  pub counted_down-view :
      (node amount : ℕ) (a : Replica sku)
      → counted_down node amount (view a) ≡ view (decremented node amount a)
  unfolding counted_down Quotient.lift
  counted_down-view node amount a = refl

  pub value-view : (a : Replica sku) → value (view a) ≡ get_value a.state
  unfolding value get_value Quotient.lift
  value-view a = refl

pub fresh : (sku : ℕ) → Replica sku
unfolding create_stock_counter
fresh sku = record { state = create_stock_counter sku; of_sku = refl; ups = tt; downs = tt }
