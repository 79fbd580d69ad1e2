-- ===== src/Stock/Repository/Batch.antt =====
-- A batch of items saved in order: what the repository then holds.
use gql_ddd_inventory.Prelude.{
  ℕ, ◌≡◌, ◌≢◌, refl, sym, ◌∙◌, true, false, Option, some, List, [], ◌∷◌, ok, arith, ◌==◌,
  if◌then◌else◌, Bool-cases, inl, inr,
}
use gql_ddd_inventory.Prelude.Maps.{insert}
use gql_ddd_inventory.Stock.Item.{InventoryItem}
use gql_ddd_inventory.Stock.Repository.{
  Items, clone_item, lies_at, find_by_sku_and_location, save_batch,
}
use gql_ddd_inventory.Stock.Repository.Saving.{
  IsValid, Fits, save-Fits, insert-IsValid, find-insert, lies_at-sym, test_no,
}

-- An item of another identifier and another place than those of a list.
unfoldable pub IsApart : InventoryItem → List InventoryItem → Type 0
IsApart x [] = Unit
IsApart x (y ∷ ys) = (x.id ≢ y.id) × (lies_at x.sku x.location_id y ≡ false) × IsApart x ys

-- A list of items that all fit a repository and are apart from one another.
unfoldable pub AllFit : List InventoryItem → Items → Type 0
unfolding IsApart
AllFit [] items = Unit
AllFit (y ∷ ys) items = Fits y items × IsApart y ys × AllFit ys items

unfoldable pub insert_all : List InventoryItem → Items → Items
insert_all [] items = items
insert_all (y ∷ ys) items = insert_all ys (insert y.id y items)

-- What a batch has at a place: the copy of its item there, or what the repository had.
unfoldable pub stored : (sku location : ℕ) → List InventoryItem → Items → Option InventoryItem
stored sku location [] items = find_by_sku_and_location sku location items
stored sku location (y ∷ ys) items =
    if lies_at sku location y then some (clone_item y) else stored sku location ys items

-- An item that fits still fits once another, apart from it, is saved.
Fits-insert :
    (x y : InventoryItem) (items : Items)
    → Fits x items
    → y.id ≢ x.id
    → lies_at x.sku x.location_id y ≡ false
    → Fits x (insert y.id y items)
unfolding Fits insert
Fits-insert x y [] f n h = inr (n, h, tt)
Fits-insert x y ((k, z) ∷ items) (inl f) n h = rw (test_no k y.id (λ e. n (sym e ∙ f.0))) (inl f)
Fits-insert x y ((k, z) ∷ items) (inr f) n h = elim (Bool-cases (k == y.id)) [
  | inl e ↦ rw e (inr (f.0, h, f.2))
  | inr e ↦ rw e (inr (f.0, f.1, Fits-insert x y items f.2 n h))
]

AllFit-insert :
    (y : InventoryItem) (ys : List InventoryItem) (items : Items)
    → IsApart y ys
    → AllFit ys items
    → AllFit ys (insert y.id y items)
unfolding AllFit IsApart
AllFit-insert y [] items a f = tt
AllFit-insert y (x ∷ ys) items a f =
    (Fits-insert x y items f.0 a.0 (lies_at-sym x y ∙ a.1), f.1, AllFit-insert y ys items a.2 f.2)

-- Items that all fit are all saved.
pub save_batch-AllFit :
    (ys : List InventoryItem) (items : Items)
    → AllFit ys items
    → save_batch ys items ≡ (ok tt, insert_all ys items)
unfolding save_batch AllFit insert_all
save_batch-AllFit [] items f = refl
save_batch-AllFit (y ∷ ys) items f =
    rw (save-Fits y items f.0)
      (save_batch-AllFit ys (insert y.id y items) (AllFit-insert y ys items f.1 f.2))

pub insert_all-IsValid :
    (ys : List InventoryItem) (items : Items)
    → AllFit ys items
    → IsValid items
    → IsValid (insert_all ys items)
unfolding AllFit insert_all
insert_all-IsValid [] items f v = v
insert_all-IsValid (y ∷ ys) items f v =
    insert_all-IsValid ys (insert y.id y items) (AllFit-insert y ys items f.1 f.2)
      (insert-IsValid y items f.0 v)

-- A place that an item of the list has not, where an apart item is.
stored_apart :
    (sku location : ℕ) (y : InventoryItem) (ys : List InventoryItem) (items : Items)
    → lies_at sku location y ≡ true
    → IsApart y ys
    → stored sku location ys items ≡ find_by_sku_and_location sku location items
unfolding stored IsApart
stored_apart sku location y [] items h a = refl
stored_apart sku location y (x ∷ ys) items h a =
    ground (arith, stored_apart sku location y ys items, h, a)

stored_same :
    (sku location : ℕ) (ys : List InventoryItem) (a b : Items)
    → find_by_sku_and_location sku location a ≡ find_by_sku_and_location sku location b
    → stored sku location ys a ≡ stored sku location ys b
unfolding stored
stored_same sku location [] a b e = e
stored_same sku location (y ∷ ys) a b e = rw (stored_same sku location ys a b e) refl

stored-insert :
    (sku location : ℕ) (y : InventoryItem) (ys : List InventoryItem) (items : Items)
    → Fits y items
    → IsApart y ys
    → stored sku location ys (insert y.id y items)
      ≡ (if lies_at sku location y then some (clone_item y) else stored sku location ys items)
stored-insert sku location y ys items f a =
    let found = find-insert y items f sku location in
    elim (Bool-cases (lies_at sku location y)) [
      | inl h ↦ rw h (stored_apart sku location y ys (insert y.id y items) h a ∙ (rw h at found))
      | inr h ↦ rw h (stored_same sku location ys (insert y.id y items) items (rw h at found))
    ]

pub find-insert_all :
    (sku location : ℕ) (ys : List InventoryItem) (items : Items)
    → AllFit ys items
    → find_by_sku_and_location sku location (insert_all ys items) ≡ stored sku location ys items
unfolding AllFit insert_all stored
find-insert_all sku location [] items f = refl
find-insert_all sku location (y ∷ ys) items f =
    find-insert_all sku location ys (insert y.id y items) (AllFit-insert y ys items f.1 f.2)
    ∙ stored-insert sku location y ys items f.0 f.1
