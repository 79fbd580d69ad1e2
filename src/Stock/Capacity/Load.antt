-- ===== src/Stock/Capacity/Load.antt =====
-- What the stock at a location weighs, in the sums of the capacity check and in the repository.
use gql_ddd_inventory.Prelude.{
  ℕ, ◌+◌, ◌*◌, ◌≡◌, refl, sym, ap, true, Option, none, some, [], ◌∷◌, arith, ◌==◌, if◌then◌else◌,
  Bool-cases, inl, inr,
}
use mathlib.Core.Path.{subst}
use gql_ddd_inventory.Prelude.Int.{ℤ, pos, negsuc, pos_part}
use gql_ddd_inventory.Prelude.Maps.{Map, lookup, insert, lookup-insert}
use gql_ddd_inventory.Stock.Item.{InventoryItem}
use gql_ddd_inventory.Stock.Repository.{Items, lies_at, find_by_location, find_by_sku_and_location}
use gql_ddd_inventory.Stock.Repository.Saving.{
  lies_at_place, test_yes, test_no, IsFresh, IsValid, Fits,
}
use gql_ddd_inventory.Stock.Shelves.{levels_of}
use gql_ddd_inventory.Stock.Capacity.{quantity_map, total_of}

is_same : (a b : ℕ) → (a == b) ≡ true → a ≡ b
is_same a b h = ground arith

module _ (measure : ℕ → ℕ) where
  -- What a quantity of a SKU weighs, in a map and in an item.
  abbrev pub entry_load : (sku : ℕ) → Option ℤ → ℕ
  entry_load sku none = 0
  entry_load sku (some q) = pos_part q * measure sku

  abbrev pub item_load : InventoryItem → ℕ
  item_load item = item.quantity.amount * measure item.sku

  abbrev pub found_load : Option InventoryItem → ℕ
  found_load none = 0
  found_load (some item) = item_load item

  -- What the items that a repository has at a location weigh.
  unfoldable pub load_at : (location : ℕ) → Items → ℕ
  load_at location [] = 0
  load_at location ((id, item) ∷ items) =
      if item.location_id == location
      then item_load item + load_at location items
      else load_at location items

  no_load : (n : ℕ) → 0 * n ≡ 0
  no_load n = omega arith

  pub total_of-cons :
      (sku : ℕ) (q : ℤ) (m : Map ℤ)
      → total_of measure ((sku, q) ∷ m) ≡ entry_load sku (some q) + total_of measure m
  unfolding total_of
  total_of-cons sku (pos q) m = ground (arith, no_load (measure sku))
  total_of-cons sku (negsuc q) m = ground (arith, no_load (measure sku))

  pub total_of-insert :
      (sku : ℕ) (q : ℤ) (m : Map ℤ)
      → total_of measure (insert sku q m) + entry_load sku (lookup sku m)
        ≡ total_of measure m + entry_load sku (some q)
  unfolding insert lookup
  total_of-insert sku q [] = rw (total_of-cons sku q []) (omega arith)
  total_of-insert sku q ((k, r) ∷ m) = elim (Bool-cases (k == sku)) [
    | inl e ↦ rw (e, total_of-cons k q m, total_of-cons k r m, is_same k sku e) (omega arith)
    | inr e ↦
        rw (e, total_of-cons k r (insert sku q m), total_of-cons k r m)
          (omega (arith, total_of-insert sku q m))
  ]

  -- No item at the location has an entry yet.
  pub IsClear : (location : ℕ) → Items → Map ℤ → Type 0
  IsClear location [] m = Unit
  IsClear location ((id, x) ∷ items) m =
      ((x.location_id == location) ≡ true → lookup x.sku m ≡ none) × IsClear location items m

  pub IsClear-empty : (location : ℕ) (items : Items) → IsClear location items []
  unfolding IsClear lookup
  IsClear-empty location [] = tt
  IsClear-empty location ((id, x) ∷ items) = (λ h. refl, IsClear-empty location items)

  IsClear-insert :
      (k sku location : ℕ) (q : ℤ) (items : Items) (m : Map ℤ)
      → IsFresh k sku location items
      → IsClear location items m
      → IsClear location items (insert sku q m)
  unfolding IsClear IsFresh
  IsClear-insert k sku location q [] m f c = tt
  IsClear-insert k sku location q ((id, x) ∷ items) m f c = (
    λ h. rw (lookup-insert sku x.sku q m) (ground (arith, f.1, h, c.0 h)),
    IsClear-insert k sku location q items m f.2 c.1,
  )

  -- The total over the map of what is stored at the location.
  pub total_of-quantity_map :
      (location : ℕ) (items : Items) (m : Map ℤ)
      → IsValid items
      → IsClear location items m
      → total_of measure (quantity_map (find_by_location location items) m)
        ≡ total_of measure m + load_at location items
  unfolding quantity_map find_by_location load_at IsValid IsClear
  total_of-quantity_map location [] m v c = omega arith
  total_of-quantity_map location ((id, x) ∷ items) m v c =
      elim (Bool-cases (x.location_id == location)) [
        | inl e ↦
            let f = subst (λ l. IsFresh id x.sku l items) (is_same _ _ e) v.1 in
            let here = total_of-insert x.sku (pos x.quantity.amount) m in
            let here' = rw (c.0 e) at here in
            rw
              (
                e,
                total_of-quantity_map location items (insert x.sku (pos x.quantity.amount) m) v.2
                    (IsClear-insert id x.sku location _ items m f c.1),
              )
              (omega (arith, here'))
        | inr e ↦ rw e (total_of-quantity_map location items m v.2 c.1)
      ]

  -- A save at the location changes what it weighs by the item's load less that of what was there.
  load_at-insert :
      (item : InventoryItem) (items : Items)
      → Fits item items
      → load_at item.location_id (insert item.id item items)
          + found_load (find_by_sku_and_location item.sku item.location_id items)
        ≡ load_at item.location_id items + item_load item
  unfolding load_at insert find_by_sku_and_location Fits
  load_at-insert item [] f = rw (test_yes item.location_id _ refl) (omega arith)
  load_at-insert item ((k, x) ∷ items) (inl f) =
      let (same_sku, same_location) = lies_at_place _ _ x f.1 in
      rw
        (
          test_yes k item.id f.0,
          f.1,
          test_yes x.location_id item.location_id same_location,
          test_yes item.location_id _ refl,
        )
        (omega arith)
  load_at-insert item ((k, x) ∷ items) (inr f) =
      elim (Bool-cases (x.location_id == item.location_id)) [
        | inl e ↦ rw (test_no k item.id f.0, f.1, e) (omega (arith, load_at-insert item items f.2))
        | inr e ↦ rw (test_no k item.id f.0, f.1, e) (load_at-insert item items f.2)
      ]

  pub load_at-insert_place :
      (item : InventoryItem) (items : Items) (sku location : ℕ)
      → Fits item items
      → item.sku ≡ sku
      → item.location_id ≡ location
      → load_at location (insert item.id item items)
          + found_load (find_by_sku_and_location sku location items)
        ≡ load_at location items + item.quantity.amount * measure sku
  load_at-insert_place item items sku location f p q =
      subst
        (λ l.
          load_at l (insert item.id item items) + found_load (find_by_sku_and_location sku l items)
          ≡ load_at l items + item.quantity.amount * measure sku)
        q
        (subst
          (λ k.
            load_at item.location_id (insert item.id item items)
              + found_load (find_by_sku_and_location k item.location_id items)
            ≡ load_at item.location_id items + item.quantity.amount * measure k)
          p (load_at-insert item items f))

  -- What is found at a place weighs what is on hand there.
  pub found_load-on_hand :
      (sku location : ℕ) (items : Items)
      → found_load (find_by_sku_and_location sku location items)
        ≡ (levels_of (find_by_sku_and_location sku location items)).on_hand * measure sku
  unfolding find_by_sku_and_location
  found_load-on_hand sku location [] = sym (no_load (measure sku))
  found_load-on_hand sku location ((k, x) ∷ items) = elim (Bool-cases (lies_at sku location x)) [
    | inl e ↦ rw e (ap (λ j. x.quantity.amount * measure j) (lies_at_place _ _ x e).0)
    | inr e ↦ rw e (found_load-on_hand sku location items)
  ]
