-- ===== src/Stock/Repository/Saving.antt =====
-- What a repository of inventory items holds after a save.
use gql_ddd_inventory.Prelude.{
  ℕ, ◌+◌, ◌≡◌, ◌≢◌, ◌⊎◌, refl, sym, ap, ◌∙◌, true, false, none, some, [], ◌∷◌, ok, arith, ◌==◌,
  if◌then◌else◌, Bool-cases, inl, inr,
}
use gql_ddd_inventory.Prelude.Maps.{lookup, insert}
use mathlib.Core.Option.{some-injective}
use gql_ddd_inventory.Stock.Item.{InventoryItem}
use gql_ddd_inventory.Stock.Repository.{
  Items, clone_item, lies_at, find_by_sku_and_location, is_stale, save,
}

-- Nothing is stored under the identifier, nor at the SKU and location.
unfoldable pub IsFresh : (id sku location : ℕ) → Items → Type 0
IsFresh id sku location [] = Unit
IsFresh id sku location ((k, x) ∷ items) =
    (k ≢ id) × (lies_at sku location x ≡ false) × IsFresh id sku location items

-- Every item is stored once, under its own identifier, and is the only one of its SKU and location.
unfoldable pub IsValid : Items → Type 0
unfolding IsFresh
IsValid [] = Unit
IsValid ((k, x) ∷ items) = (x.id ≡ k) × IsFresh k x.sku x.location_id items × IsValid items

-- The place for an item: the entry of its identifier is that of its SKU and location, one version
-- behind, or neither has an entry.
unfoldable pub Fits : InventoryItem → Items → Type 0
Fits item [] = Unit
Fits item ((k, x) ∷ items) =
    ((k ≡ item.id) × (lies_at item.sku item.location_id x ≡ true) × (x.version + 1 ≡ item.version))
    ⊎ ((k ≢ item.id) × (lies_at item.sku item.location_id x ≡ false) × Fits item items)

pub Fits-not-stale :
    (item : InventoryItem) (items : Items)
    → Fits item items
    → is_stale item (lookup item.id items) ≡ false
unfolding Fits lookup
Fits-not-stale item [] f = refl
Fits-not-stale item ((k, x) ∷ items) (inl f) = ground arith
Fits-not-stale item ((k, x) ∷ items) (inr f) = ground (arith, Fits-not-stale item items f.2)

pub save-Fits :
    (item : InventoryItem) (items : Items)
    → Fits item items
    → save item items ≡ (ok tt, insert item.id item items)
unfolding save
save-Fits item items f = rw (Fits-not-stale item items f) refl

-- A lookup that finds nothing at the SKU and location, for an identifier that is new.
pub Fits-new :
    (item : InventoryItem) (items : Items)
    → lookup item.id items ≡ none
    → find_by_sku_and_location item.sku item.location_id items ≡ none
    → Fits item items
unfolding Fits lookup find_by_sku_and_location
Fits-new item [] h n = tt
Fits-new item ((k, x) ∷ items) h n = ground (arith, Fits-new item items)

-- What is found is the copy of an entry of that SKU and location, or what the rest has.
pub find-here :
    (s l k : ℕ) (y : InventoryItem) (items : Items) {x : InventoryItem}
    → lies_at s l y ≡ true
    → find_by_sku_and_location s l ((k, y) ∷ items) ≡ some x
    → clone_item y ≡ x
unfolding find_by_sku_and_location
find-here s l k y items h e = some-injective _ _ (rw h at e)

pub find-there :
    (s l k : ℕ) (y : InventoryItem) (items : Items)
    → lies_at s l y ≡ false
    → find_by_sku_and_location s l ((k, y) ∷ items) ≡ find_by_sku_and_location s l items
unfolding find_by_sku_and_location
find-there s l k y items h = rw h refl

-- The item found has another identifier than one that is fresh.
pub find-IsFresh :
    (id sku location : ℕ) (items : Items) {x : InventoryItem}
    → IsFresh id sku location items
    → IsValid items
    → (s l : ℕ) → find_by_sku_and_location s l items ≡ some x
    → x.id ≢ id
unfolding IsFresh IsValid find_by_sku_and_location
find-IsFresh id sku location [] f v s l e = cc
find-IsFresh id sku location ((k, y) ∷ items) {x} f v s l e = elim (Bool-cases (lies_at s l y)) [
  | inl h ↦ λ same. f.0 (sym v.0 ∙ ap (λ z. z.id) (find-here s l k y items h e) ∙ same)
  | inr h ↦ find-IsFresh id sku location items f.2 v.2 s l (sym (find-there s l k y items h) ∙ e)
]

-- A changed copy of what was found, one version on.
pub Fits-found :
    (item x : InventoryItem) (items : Items)
    → IsValid items
    → find_by_sku_and_location item.sku item.location_id items ≡ some x
    → item.id ≡ x.id
    → x.version + 1 ≡ item.version
    → Fits item items
unfolding Fits IsValid
Fits-found item x [] v e i n = tt
Fits-found item x ((k, y) ∷ items) v e i n =
    elim (Bool-cases (lies_at item.sku item.location_id y)) [
      | inl h ↦
          let same = find-here _ _ k y items h e in
          inl (sym v.0 ∙ ap (λ z. z.id) same ∙ sym i, h, ap (λ z. z.version + 1) same ∙ n)
      | inr h ↦
          let e' = sym (find-there _ _ k y items h) ∙ e in
          inr (
            λ same. find-IsFresh k y.sku y.location_id items v.1 v.2 _ _ e' (sym i ∙ sym same),
            h,
            Fits-found item x items v.2 e' i n,
          )
    ]

IsFresh-insert :
    (id sku location : ℕ) (item : InventoryItem) (items : Items)
    → IsFresh id sku location items
    → item.id ≢ id
    → lies_at sku location item ≡ false
    → IsFresh id sku location (insert item.id item items)
unfolding IsFresh insert
IsFresh-insert id sku location item [] f n h = (n, h, tt)
IsFresh-insert id sku location item ((k, x) ∷ items) f n h = elim (Bool-cases (k == item.id)) [
  | inl e ↦ rw e (f.0, h, f.2)
  | inr e ↦ rw e (f.0, f.1, IsFresh-insert id sku location item items f.2 n h)
]

pub lies_at-sym :
    (x y : InventoryItem) → lies_at x.sku x.location_id y ≡ lies_at y.sku y.location_id x
lies_at-sym x y = ground arith

pub lies_at_place :
    (s l : ℕ) (x : InventoryItem) → lies_at s l x ≡ true → (x.sku ≡ s) × (x.location_id ≡ l)
lies_at_place s l x h = (ground arith, ground arith)

pub test_no : (a b : ℕ) → a ≢ b → (a == b) ≡ false
test_no a b h = ground arith

pub test_yes : (a b : ℕ) → a ≡ b → (a == b) ≡ true
test_yes a b h = ground arith

pub insert-IsValid :
    (item : InventoryItem) (items : Items)
    → Fits item items
    → IsValid items
    → IsValid (insert item.id item items)
unfolding Fits IsValid insert IsFresh
insert-IsValid item [] f v = (refl, tt, tt)
insert-IsValid item ((k, x) ∷ items) (inl f) v =
    let (same_sku, same_location) = lies_at_place _ _ x f.1 in
    rw (test_yes k item.id f.0) (sym f.0, rw (sym same_sku, sym same_location) v.1, v.2)
insert-IsValid item ((k, x) ∷ items) (inr f) v = rw (test_no k item.id f.0) (
  v.0,
  IsFresh-insert k x.sku x.location_id item items v.1 (λ e. f.0 (sym e)) (lies_at-sym x item ∙ f.1),
  insert-IsValid item items f.2 v.2,
)

-- After a save the item is found at its place, and every other place has what it had.
pub find-insert :
    (item : InventoryItem) (items : Items)
    → Fits item items
    → (sku location : ℕ)
    → find_by_sku_and_location sku location (insert item.id item items) ≡ (
        if lies_at sku location item
        then some (clone_item item)
        else find_by_sku_and_location sku location items)
unfolding Fits find_by_sku_and_location insert
find-insert item [] f s l = refl
find-insert item ((k, x) ∷ items) (inl f) s l = ground (arith, f)
find-insert item ((k, x) ∷ items) (inr f) s l = ground (arith, f, find-insert item items f.2 s l)
