-- ===== src/Stock/Shelves.antt =====
-- The items that a repository holds at one location, by SKU, and what calls on them do to their levels.
use gql_ddd_inventory.Prelude.{
  ℕ, ◌+◌, ◌-◌, ◌≤◌, ◌≡◌, ◌≢◌, refl, Option, none, some, ok, arith, Option-cases, inl, inr,
}
use gql_ddd_inventory.Prelude.Maps.{Map, lookup, insert, lookup-insert, get_or}
use gql_ddd_inventory.Prelude.Methods.{kept}
use gql_ddd_inventory.Stock.Item.{InventoryItem, new_inventory_item}
use gql_ddd_inventory.Stock.Item.Laws.{
  Op, Levels, levels, promised, IsCounted, call, call-Implements, promise_of_kept,
}

-- The levels under a SKU; an item that is not there counts as empty.
abbrev pub no_stock : Levels
no_stock = record { on_hand = 0; reserved = 0; incoming = 0 }

abbrev pub levels_of : Option InventoryItem → Levels
levels_of none = no_stock
levels_of (some item) = levels item

abbrev pub levels_at : ℕ → Map InventoryItem → Levels
levels_at sku m = levels_of (lookup sku m)

abbrev pub AreCounted : Map InventoryItem → Type 0
AreCounted m = (sku : ℕ) (item : InventoryItem) → lookup sku m ≡ some item → IsCounted item

-- The stock under one SKU is given new levels, and every other SKU keeps its own.
pub record Becomes (sku : ℕ) (l : Levels) (m m' : Map InventoryItem) : Type 0 where
  pub there : levels_at sku m' ≡ l
  pub elsewhere : (k : ℕ) → k ≢ sku → levels_at k m' ≡ levels_at k m
  pub counted : AreCounted m'

pub insert-Becomes :
    (sku : ℕ) (item : InventoryItem) (m : Map InventoryItem)
    → AreCounted m
    → IsCounted item
    → Becomes sku (levels item) m (insert sku item m)
insert-Becomes sku item m c i = record {
  there = rw (lookup-insert sku sku item m) (ground arith);
  elsewhere = λ k h. rw (lookup-insert sku k item m) (ground arith);
  counted = λ k x e. ground (arith, lookup-insert sku k item m, c k x);
}

pub found_or_new-levels :
    (id location sku : ℕ) (m : Map InventoryItem)
    → AreCounted m
    → let item = get_or (lookup sku m) (new_inventory_item id sku location) in
      (levels item ≡ levels_at sku m) × IsCounted item
unfolding new_inventory_item
found_or_new-levels id location sku m c = elim (Option-cases (lookup sku m)) [
  | inl e ↦ rw e (refl, ground arith)
  | inr (item, e) ↦ rw e (refl, c sku item e)
]

-- A call whose result is put back under its SKU.
pub called-Becomes :
    (op : Op) (sku : ℕ) (item : InventoryItem) {item' : InventoryItem} (m : Map InventoryItem)
    → AreCounted m
    → IsCounted item
    → kept (call op item) ≡ ok item'
    → (promised op (levels item) ≡ some (levels item'))
      × Becomes sku (levels item') m (insert sku item' m)
called-Becomes op sku item {item'} m c i e =
    let (p, i') = promise_of_kept _ item (call op item) (call-Implements op item i) e in
    (p, insert-Becomes sku item' m c i')

abbrev pub less_on_hand : ℕ → Levels → Levels
less_on_hand n l = record l { on_hand = l.on_hand - n }

abbrev pub more_on_hand : ℕ → Levels → Levels
more_on_hand n l = record l { on_hand = l.on_hand + n }

abbrev pub less_incoming : ℕ → Levels → Levels
less_incoming n l = record l { incoming = l.incoming - n }

abbrev pub more_incoming : ℕ → Levels → Levels
more_incoming n l = record l { incoming = l.incoming + n }

pub promised-dispatch :
    (n : ℕ) (l l' : Levels)
    → promised (Op.dispatch n) l ≡ some l'
    → (n ≤ l.on_hand) × (l' ≡ less_on_hand n l)
promised-dispatch n l l' e = ground arith

pub promised_arrive :
    (n : ℕ) (l l' : Levels)
    → promised (Op.arrive n) l ≡ some l'
    → (n ≤ l.incoming) × (l' ≡ more_on_hand n (less_incoming n l))
promised_arrive n l l' e = ground arith

pub promised-cancel :
    (n : ℕ) (l l' : Levels)
    → promised (Op.cancel n) l ≡ some l'
    → (n ≤ l.incoming) × (l' ≡ less_incoming n l)
promised-cancel n l l' e = ground arith

pub promised_expect :
    (n : ℕ) (l k l' : Levels) → l ≡ k → promised (Op.expect n) l ≡ some l' → l' ≡ more_incoming n k
promised_expect n l k l' h e = ground arith

pub promised-receive :
    (n : ℕ) (l k l' : Levels) → l ≡ k → promised (Op.receive n) l ≡ some l' → l' ≡ more_on_hand n k
promised-receive n l k l' h e = ground arith

pub unchanged-Becomes :
    (sku : ℕ) (m : Map InventoryItem) → AreCounted m → Becomes sku (levels_at sku m) m m
unchanged-Becomes sku m c = record { there = refl; elsewhere = λ k h. refl; counted = c }
