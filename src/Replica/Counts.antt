-- ===== src/Replica/Counts.antt =====
-- Counts whose nodes are distinct: their total depends only on the count of each node.
use mathlib.Core.Path.{subst}
use gql_ddd_inventory.Prelude.{
  ℕ, ◌+◌, ◌≡◌, ◌≢◌, refl, sym, ap, ◌∙◌, Bool-cases, inl, inr, none, [], ◌∷◌, arith, ◌==◌, ==_iff,
}
use gql_ddd_inventory.Prelude.Maps.{lookup, insert, erase, lookup-insert, lookup-erase_ne, get_or}
use gql_ddd_inventory.Replica.{NodeCounts, count_of, total}

-- Every node stands once.
abbrev pub AreDistinct : NodeCounts → Type 0
AreDistinct [] = Unit
AreDistinct ((node, n) ∷ rest) = (lookup node rest ≡ none) × AreDistinct rest

abbrev pub SameCounts : NodeCounts → NodeCounts → Type 0
SameCounts a b = (node : ℕ) → count_of node a ≡ count_of node b

pub insert-AreDistinct :
    (node n : ℕ) (m : NodeCounts) → AreDistinct m → AreDistinct (insert node n m)
unfolding lookup insert
insert-AreDistinct node n [] d = (refl, tt)
insert-AreDistinct node n ((k, v) ∷ m) d = elim (Bool-cases (k == node)) [
  | inl e ↦ rw e d
  | inr e ↦ rw e (lookup-insert node k n m ∙ ground arith, insert-AreDistinct node n m d.1)
]

lookup-erase_self : (node : ℕ) (m : NodeCounts) → AreDistinct m → lookup node (erase node m) ≡ none
unfolding lookup erase
lookup-erase_self node [] d = refl
lookup-erase_self node ((k, v) ∷ m) d = ground (arith, lookup-erase_self node m d.1)

erase-AreDistinct : (node : ℕ) (m : NodeCounts) → AreDistinct m → AreDistinct (erase node m)
unfolding lookup erase
erase-AreDistinct node [] d = tt
erase-AreDistinct node ((k, v) ∷ m) d = elim (Bool-cases (k == node)) [
  | inl e ↦ rw e d.1
  | inr e ↦ rw e (lookup-erase_ne node k m (ground arith) ∙ d.0, erase-AreDistinct node m d.1)
]

total-erase : (node : ℕ) (m : NodeCounts) → total m ≡ count_of node m + total (erase node m)
unfolding lookup erase
total-erase node [] = refl
total-erase node ((k, v) ∷ m) = ground (arith, total-erase node m)

count_of_head : (k v : ℕ) (m : NodeCounts) → count_of k ((k, v) ∷ m) ≡ v
unfolding lookup
count_of_head k v m = ground arith

count_of_rest : (k v j : ℕ) (m : NodeCounts) → k ≢ j → count_of j ((k, v) ∷ m) ≡ count_of j m
unfolding lookup
count_of_rest k v j m h = ground arith

-- What is left of agreeing counts when a node is taken out of both.
rest-SameCounts :
    (k v : ℕ) (a b : NodeCounts)
    → AreDistinct ((k, v) ∷ a)
    → AreDistinct b
    → SameCounts ((k, v) ∷ a) b
    → SameCounts a (erase k b)
rest-SameCounts k v a b d d' s j = elim (Bool-cases (k == j)) [
  | inl e ↦
      let same : k ≡ j = (==_iff k j).0 e in
      subst (λ i. count_of i a ≡ count_of i (erase k b)) same
        (ap (λ o. get_or o 0) (d.0 ∙ sym (lookup-erase_self k b d')))
  | inr e ↦
      let ne : k ≢ j = ground arith in
      sym (count_of_rest k v j a ne) ∙ s j ∙ sym (ap (λ o. get_or o 0) (lookup-erase_ne k j b ne))
]

total-zero : (m : NodeCounts) → AreDistinct m → SameCounts m [] → total m ≡ 0
unfolding lookup erase
total-zero [] d s = refl
total-zero ((k, v) ∷ m) d s =
    let head : v ≡ 0 = sym (count_of_head k v m) ∙ s k in
    omega (arith, total-zero m d.1 (rest-SameCounts k v m [] d tt s))

-- Counts that agree at every node have one total.
pub total-SameCounts :
    (a b : NodeCounts) → AreDistinct a → AreDistinct b → SameCounts a b → total a ≡ total b
total-SameCounts [] b d d' s = sym (total-zero b d' (λ j. sym (s j)))
total-SameCounts ((k, v) ∷ a) b d d' s =
    let head : v ≡ count_of k b = sym (count_of_head k v a) ∙ s k in
    let rest =
      total-SameCounts a (erase k b) d.1 (erase-AreDistinct k b d')
        (rest-SameCounts k v a b d d' s) in
    omega (arith, total-erase k b)
