-- ===== src/Replica/Merge.antt =====
-- What merging two replicas comes to: the larger count at each node.
use gql_ddd_inventory.Prelude.{
  ℕ, ◌+◌, ◌≤◌, ◌≡◌, refl, ap, ◌∙◌, max, Bool-cases, Option-cases, inl, inr, ◌⊎◌, Option, none, some,
  [], ◌∷◌, arith, ◌==◌,
}
use gql_ddd_inventory.Prelude.Maps.{lookup, insert, lookup-insert, get_or, sum_by-insert, amount_at}
use gql_ddd_inventory.Replica.{
  NodeCounts, count_of, total, PnCounterState, increment, decrement, get_value, merge_first,
  merge_second, merge_counts, merge,
}
use gql_ddd_inventory.Replica.Counts.{AreDistinct, SameCounts, insert-AreDistinct, total-SameCounts}

abbrev larger : NodeCounts → NodeCounts → ℕ → ℕ
larger a b node = max (count_of node a) (count_of node b)

-- Each node that is written holds the larger count.
abbrev IsPartial : NodeCounts → NodeCounts → NodeCounts → Type 0
IsPartial a b m = (node : ℕ) → (lookup node m ≡ none) ⊎ (lookup node m ≡ some (larger a b node))

insert-IsPartial :
    (a b m : NodeCounts) (node : ℕ)
    → IsPartial a b m
    → IsPartial a b (insert node (larger a b node) m)
insert-IsPartial a b m node p j = elim (Bool-cases (node == j)) [
  | inl e ↦ inr (lookup-insert node j (larger a b node) m ∙ ground arith)
  | inr e ↦ ground (arith, lookup-insert node j (larger a b node) m, p j)
]

-- A node that one of the two lists of a loop names is written by its end.
record Fills (a b nodes m m' : NodeCounts) : Type 0 where
  all_partial : IsPartial a b m'
  distinct : AreDistinct m'
  named : (j : ℕ) → lookup j m' ≡ none → (lookup j nodes ≡ none) × (lookup j m ≡ none)

merge_first-Fills :
    (a b nodes m : NodeCounts)
    → IsPartial a b m
    → AreDistinct m
    → Fills a b nodes m (merge_first a b nodes m)
unfolding merge_first lookup
merge_first-Fills a b [] m p d = record { all_partial = p; distinct = d; named = λ j e. (refl, e) }
merge_first-Fills a b ((node, n) ∷ nodes) m p d =
    let m' = insert node (larger a b node) m in
    let f =
      merge_first-Fills a b nodes m' (insert-IsPartial a b m node p)
        (insert-AreDistinct node _ m d) in
    record {
      all_partial = f.all_partial;
      distinct = f.distinct;
      named = λ j e. ground (arith, f.named j e, lookup-insert node j (larger a b node) m);
    }

merge_second-Fills :
    (a b nodes m : NodeCounts)
    → IsPartial a b m
    → AreDistinct m
    → Fills a b nodes m (merge_second a b nodes m)
unfolding merge_second lookup
merge_second-Fills a b [] m p d = record { all_partial = p; distinct = d; named = λ j e. (refl, e) }
merge_second-Fills a b ((node, n) ∷ nodes) m p d = elim (Option-cases (lookup node m)) [
  | inl e ↦
      let m' = insert node (larger a b node) m in
      let f =
        merge_second-Fills a b nodes m' (insert-IsPartial a b m node p)
          (insert-AreDistinct node _ m d) in
      rw e (record {
        all_partial = f.all_partial;
        distinct = f.distinct;
        named = λ j h. ground (arith, f.named j h, lookup-insert node j (larger a b node) m);
      })
  | inr (v, e) ↦
      let f = merge_second-Fills a b nodes m p d in
      rw e (record {
        all_partial = f.all_partial;
        distinct = f.distinct;
        named = λ j h.
            let both = f.named j h in
            elim (Bool-cases (node == j)) [ inl x ↦ ground arith | inr x ↦ ground arith ];
      })
]

abbrev pub IsJoin : NodeCounts → NodeCounts → NodeCounts → Type 0
IsJoin a b m =
    AreDistinct m × ((node : ℕ) → count_of node m ≡ max (count_of node a) (count_of node b))

merge_counts-IsJoin : (a b : NodeCounts) → IsJoin a b (merge_counts a b)
unfolding merge_counts lookup
merge_counts-IsJoin a b =
    let first = merge_first-Fills a b a [] (λ j. inl refl) tt in
    let f = merge_second-Fills a b b (merge_first a b a []) first.all_partial first.distinct in
    (
      f.distinct,
      λ j. elim (f.all_partial j) [
        | inr e ↦ ap (λ o. get_or o 0) e
        | inl e ↦
            let (missing_b, before) = f.named j e in
            let (missing_a, start) = first.named j before in rw (e, missing_a, missing_b) refl
      ],
    )

-- A merge holds, at each node, the larger of the two counts, for the increments and the decrements,
-- and each node once, whatever the two states hold.
pub merge-IsJoin :
    (a b : PnCounterState)
    → IsJoin a.increments b.increments (merge a b).increments
      × IsJoin a.decrements b.decrements (merge a b).decrements
unfolding merge
merge-IsJoin a b =
    (merge_counts-IsJoin a.increments b.increments, merge_counts-IsJoin a.decrements b.decrements)

-- Two states whose nodes have the same counts and stand once report one value.
pub record Agree (a b : PnCounterState) : Type 0 where
  pub distinct_a : AreDistinct a.increments × AreDistinct a.decrements
  pub distinct_b : AreDistinct b.increments × AreDistinct b.decrements
  pub same_increments : SameCounts a.increments b.increments
  pub same_decrements : SameCounts a.decrements b.decrements

pub get_value-Agree : (a b : PnCounterState) → Agree a b → get_value a ≡ get_value b
unfolding get_value
get_value-Agree a b g =
    let up = total-SameCounts _ _ g.distinct_a.0 g.distinct_b.0 g.same_increments in
    let down = total-SameCounts _ _ g.distinct_a.1 g.distinct_b.1 g.same_decrements in
    rw (up, down) refl

-- The order in which states are merged does not matter to the value: merging is commutative and
-- associative, and merging a state again into what already holds it changes nothing.
get_value-merge :
    (a b c : PnCounterState)
    → (get_value (merge a b) ≡ get_value (merge b a))
      × (get_value (merge (merge a b) c) ≡ get_value (merge a (merge b c)))
      × (get_value (merge (merge a b) b) ≡ get_value (merge a b))
get_value-merge a b c =
    let ab = merge-IsJoin a b in
    let ba = merge-IsJoin b a in
    let bc = merge-IsJoin b c in
    let abc = merge-IsJoin (merge a b) c in
    let abc' = merge-IsJoin a (merge b c) in
    let abb = merge-IsJoin (merge a b) b in
    (
      get_value-Agree _ _ (record {
        distinct_a = (ab.0.0, ab.1.0);
        distinct_b = (ba.0.0, ba.1.0);
        same_increments = λ j. omega (arith, ab.0.1 j, ba.0.1 j);
        same_decrements = λ j. omega (arith, ab.1.1 j, ba.1.1 j);
      }),
      get_value-Agree _ _ (record {
        distinct_a = (abc.0.0, abc.1.0);
        distinct_b = (abc'.0.0, abc'.1.0);
        same_increments = λ j. omega (arith, ab.0.1 j, bc.0.1 j, abc.0.1 j, abc'.0.1 j);
        same_decrements = λ j. omega (arith, ab.1.1 j, bc.1.1 j, abc.1.1 j, abc'.1.1 j);
      }),
      get_value-Agree _ _ (record {
        distinct_a = (abb.0.0, abb.1.0);
        distinct_b = (ab.0.0, ab.1.0);
        same_increments = λ j. omega (arith, ab.0.1 j, abb.0.1 j);
        same_decrements = λ j. omega (arith, ab.1.1 j, abb.1.1 j);
      }),
    )

amount_or_zero : (o : Option ℕ) → amount_at (λ n. n) o ≡ get_or o 0
amount_or_zero none = refl
amount_or_zero (some n) = refl

total-insert :
    (node amount : ℕ) (m : NodeCounts)
    → total (insert node (count_of node m + amount) m) ≡ total m + amount
total-insert node amount m = omega (
  arith,
  sum_by-insert (λ n. n) node (count_of node m + amount) m,
  amount_or_zero (lookup node m),
)

-- On a state that has taken in at least what it gave out, an increment raises the value by its amount,
-- and a decrement of as much after it brings the value back.
get_value-Counts :
    (s : PnCounterState) (node amount : ℕ)
    → total s.decrements ≤ total s.increments
    → (get_value (increment s node amount) ≡ get_value s + amount)
      × (get_value (decrement (increment s node amount) node amount) ≡ get_value s)
unfolding get_value increment decrement
get_value-Counts s node amount h =
    let up = total-insert node amount s.increments in
    let down = total-insert node amount s.decrements in (omega (arith, up), omega (arith, up, down))
