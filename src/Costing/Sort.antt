-- ===== src/Costing/Sort.antt =====
-- `Array.prototype.sort` with a comparator: it is stable, and is modelled by stable insertion. The
-- comparators of the strategies, as the strict orders that they sort by.
use mathlib.Core.List.{Perm}
use mathlib.Core.List.Perm
use gql_ddd_inventory.Prelude.{
  ℕ, ◌≡◌, Bool, true, false, Option, none, some, List, [], ◌∷◌, arith, ltb, if◌then◌else◌,
  Bool-cases, inl, inr, All, sum_by, ◌+◌, refl,
}
use gql_ddd_inventory.Costing.Layer.{InventoryCostLayer}

module _ {A : Type 0} (before : A → A → Bool) where
  unfoldable pub insert_sorted : A → List A → List A
  insert_sorted x [] = x ∷ []
  insert_sorted x (y ∷ ys) = if before y x then y ∷ insert_sorted x ys else x ∷ y ∷ ys

  unfoldable pub sort : List A → List A
  sort [] = []
  sort (x ∷ xs) = insert_sorted x (sort xs)

  insert_sorted-perm : (x : A) (xs : List A) → Perm (insert_sorted x xs) (x ∷ xs)
  unfolding insert_sorted
  insert_sorted-perm x [] = Perm.refl _
  insert_sorted-perm x (y ∷ ys) = elim (Bool-cases (before y x)) [
    | inl e ↦ rw e (Perm.trans (Perm.cons y (insert_sorted-perm x ys)) (Perm.swap x y ys))
    | inr e ↦ rw e (Perm.refl _)
  ]

  pub sort-perm : (xs : List A) → Perm (sort xs) xs
  unfolding sort
  sort-perm [] = Perm.refl _
  sort-perm (x ∷ xs) = Perm.trans (insert_sorted-perm x (sort xs)) (Perm.cons x (sort-perm xs))

  -- No element comes strictly before one that stands ahead of it.
  abbrev pub IsSorted : List A → Type 0
  IsSorted [] = Unit
  IsSorted (x ∷ xs) = All (λ y. before y x ≡ false) xs × IsSorted xs

  -- What the comparators satisfy.
  pub record IsOrder : Type 0 where
    pub asym : (a b : A) → before a b ≡ true → before b a ≡ false
    pub not_trans : (a b c : A) → before b a ≡ false → before c b ≡ false → before c a ≡ false

  pub All-insert_sorted :
      (P : A → Type 0) (x : A) (ys : List A) → P x → All P ys → All P (insert_sorted x ys)
  unfolding insert_sorted
  All-insert_sorted P x [] p h = (p, tt)
  All-insert_sorted P x (y ∷ ys) p h = elim (Bool-cases (before y x)) [
    | inl e ↦ rw e (h.0, All-insert_sorted P x ys p h.1)
    | inr e ↦ rw e (p, h)
  ]

  All-after :
      (o : IsOrder) (x y : A) (ys : List A)
      → before y x ≡ false
      → All (λ z. before z y ≡ false) ys
      → All (λ z. before z x ≡ false) ys
  All-after o x y [] e h = tt
  All-after o x y (z ∷ zs) e h = (o.not_trans x y z e h.0, All-after o x y zs e h.1)

  insert_sorted-IsSorted :
      (o : IsOrder) (x : A) (ys : List A) → IsSorted ys → IsSorted (insert_sorted x ys)
  unfolding insert_sorted
  insert_sorted-IsSorted o x [] h = (tt, tt)
  insert_sorted-IsSorted o x (y ∷ ys) h = elim (Bool-cases (before y x)) [
    | inl e ↦ rw e (
      All-insert_sorted (λ z. before z y ≡ false) x ys (o.asym y x e) h.0,
      insert_sorted-IsSorted o x ys h.1,
    )
    | inr e ↦ rw e ((e, All-after o x y ys e h.0), h)
  ]

  pub sort-IsSorted : (o : IsOrder) (xs : List A) → IsSorted (sort xs)
  unfolding sort
  sort-IsSorted o [] = tt
  sort-IsSorted o (x ∷ xs) = insert_sorted-IsSorted o x (sort xs) (sort-IsSorted o xs)

  sort_sorted : (xs : List A) → IsSorted xs → sort xs ≡ xs
  unfolding sort insert_sorted
  sort_sorted [] h = refl
  sort_sorted (x ∷ []) h = refl
  sort_sorted (x ∷ y ∷ ys) h = rw (sort_sorted (y ∷ ys) h.1, h.0.0) refl

  -- Sorting again changes nothing.
  pub sort-sort : (o : IsOrder) (xs : List A) → sort (sort xs) ≡ sort xs
  sort-sort o xs = sort_sorted (sort xs) (sort-IsSorted o xs)

  pub All-sort : (P : A → Type 0) (xs : List A) → All P xs → All P (sort xs)
  unfolding sort
  All-sort P [] h = tt
  All-sort P (x ∷ xs) h = All-insert_sorted P x (sort xs) h.0 (All-sort P xs h.1)

  sum_by-insert_sorted :
      (f : A → ℕ) (x : A) (ys : List A) → sum_by f (insert_sorted x ys) ≡ f x + sum_by f ys
  unfolding insert_sorted
  sum_by-insert_sorted f x [] = refl
  sum_by-insert_sorted f x (y ∷ ys) = ground (arith, sum_by-insert_sorted f x ys)

  pub sum_by-sort : (f : A → ℕ) (xs : List A) → sum_by f (sort xs) ≡ sum_by f xs
  unfolding sort
  sum_by-sort f [] = refl
  sum_by-sort f (x ∷ xs) = omega (arith, sum_by-insert_sorted f x (sort xs), sum_by-sort f xs)

-- The oldest receipt first: `a.receivedAt - b.receivedAt`.
abbrev pub received_before : InventoryCostLayer → InventoryCostLayer → Bool
received_before a b = ltb a.received_at b.received_at

-- The newest receipt first.
abbrev pub received_after : InventoryCostLayer → InventoryCostLayer → Bool
received_after a b = ltb b.received_at a.received_at

-- A layer without an expiry date sorts as at infinity; two of them compare as equal, since a NaN
-- from a comparator counts as 0.
abbrev pub sooner : Option ℕ → Option ℕ → Bool
sooner (some a) (some b) = ltb a b
sooner (some a) none = true
sooner none _ = false

abbrev pub expires_before : InventoryCostLayer → InventoryCostLayer → Bool
expires_before a b = sooner a.expiration_date b.expiration_date

pub received_before-IsOrder : IsOrder received_before
received_before-IsOrder = record {
  asym = λ a b h. ground arith;
  not_trans = λ a b c h k. ground arith;
}

pub received_after-IsOrder : IsOrder received_after
received_after-IsOrder = record {
  asym = λ a b h. ground arith;
  not_trans = λ a b c h k. ground arith;
}

pub expires_before-IsOrder : IsOrder expires_before
expires_before-IsOrder = record {
  asym = λ a b h. ground arith;
  not_trans = λ a b c h k. ground arith;
}
