-- ===== src/Stock/Count/Loop.antt =====
-- The loop over counts of distinct places: the items that it is to save, and what it reports.
use gql_ddd_inventory.Prelude.{
  ℕ, ◌+◌, ◌≡◌, refl, sym, ap, ◌∙◌, Bool, true, false, Option, none, some, List, [], ◌∷◌, ◌++◌, map,
  ok, arith, ◌==◌, ◌&&◌, if◌then◌else◌, Bool-cases, inl, inr, All, All-both,
}
use gql_ddd_inventory.Prelude.Int.{pos, pos_part, ltb_ℤ, sub_ℕ, ◌-ℤ◌}
use gql_ddd_inventory.Prelude.Maps.{lookup}
use gql_ddd_inventory.Stock.Quantity.{pieces}
use gql_ddd_inventory.Stock.Sku.{new_sku}
use gql_ddd_inventory.Stock.Item.{InventoryItem, reconcile_stock}
use gql_ddd_inventory.Stock.Repository.{
  Items, clone_item, lies_at, find_by_sku_and_location, find_by_sku_and_location_batch, is_asked,
}
use gql_ddd_inventory.Stock.Repository.Saving.{lies_at_place, IsFresh, IsValid}
use gql_ddd_inventory.Stock.UseCases.Ready.{
  found_or_made, or_new-ok, IsReady, found_or_made-IsReady, append_nil,
}
use gql_ddd_inventory.Stock.UseCases.Serving.{amount-cases}
use gql_ddd_inventory.Stock.Count.{
  absolute_value, CountItem, CountResult, held_at, hold, hold_all, Counting, count_line, count_each,
}

-- A write to a map of items by place, as a read sees it.
pub held_at-hold :
    (sku location : ℕ) (item : InventoryItem) (held : List InventoryItem)
    → held_at sku location (hold item held)
      ≡ (if lies_at sku location item then some item else held_at sku location held)
unfolding held_at hold
held_at-hold sku location item [] = refl
held_at-hold sku location item (x ∷ held) = ground (arith, held_at-hold sku location item held)

-- A new place goes to the end.
hold_new :
    (item : InventoryItem) (held : List InventoryItem)
    → held_at item.sku item.location_id held ≡ none
    → hold item held ≡ held ++ (item ∷ [])
unfolding held_at hold
hold_new item [] h = refl
hold_new item (x ∷ held) h = ground (arith, hold_new item held)

find_fresh :
    (id sku location : ℕ) (items : Items)
    → IsFresh id sku location items
    → find_by_sku_and_location sku location items ≡ none
unfolding IsFresh find_by_sku_and_location
find_fresh id sku location [] f = refl
find_fresh id sku location ((k, x) ∷ items) f = rw f.1 (find_fresh id sku location items f.2)

-- What the map of the items that were read has at a place: what the repository has, where the place
-- was asked for.
abbrev pub or_held : Option InventoryItem → Option InventoryItem → Option InventoryItem
or_held none o = o
or_held (some x) o = some x

fresh_here :
    (sku location : ℕ) (items : Items) (x y : InventoryItem)
    → find_by_sku_and_location x.sku x.location_id items ≡ none
    → lies_at sku location x ≡ true
    → or_held (find_by_sku_and_location sku location items) (some y) ≡ some y
fresh_here sku location items x y n h =
    let (p, q) = lies_at_place sku location x h in let n' = rw (p, q) at n in rw n' refl

pub held_at-batch :
    (pairs : List (ℕ × ℕ)) (sku location : ℕ) (items : Items) (held : List InventoryItem)
    → ((x : InventoryItem) → lies_at sku location x ≡ true → is_asked pairs x ≡ true)
    → IsValid items
    → held_at sku location (hold_all (find_by_sku_and_location_batch pairs items) held)
      ≡ or_held (find_by_sku_and_location sku location items) (held_at sku location held)
unfolding hold_all find_by_sku_and_location_batch find_by_sku_and_location IsValid
held_at-batch pairs sku location [] held a v = refl
held_at-batch pairs sku location ((k, x) ∷ items) held a v = elim (Bool-cases (is_asked pairs x)) [
  | inl e ↦ elim (Bool-cases (lies_at sku location x)) [
    | inl h ↦
        rw
          (
            e,
            h,
            held_at-batch pairs sku location items (hold (clone_item x) held) a v.2,
            held_at-hold sku location (clone_item x) held,
            h,
          )
          (fresh_here sku location items x _ (find_fresh k x.sku x.location_id items v.1) h)
    | inr h ↦
        rw
          (
            e,
            h,
            held_at-batch pairs sku location items (hold (clone_item x) held) a v.2,
            held_at-hold sku location (clone_item x) held,
            h,
          )
          refl
  ]
  | inr e ↦ elim (Bool-cases (lies_at sku location x)) [
    | inl h ↦ cc (sym (a x h) ∙ e)
    | inr h ↦ rw (e, h) (held_at-batch pairs sku location items held a v.2)
  ]
]

append_one :
    {A : Type 0} (xs : List A) (x : A) (ys : List A) → (xs ++ (x ∷ [])) ++ ys ≡ xs ++ (x ∷ ys)
append_one [] x ys = refl
append_one (y ∷ xs) x ys = ap (λ zs. y ∷ zs) (append_one xs x ys)

-- Two counts of one place.
abbrev pub same_place : CountItem → CountItem → Bool
same_place c d = c.sku == d.sku && c.location_id == d.location_id

unfoldable pub IsDistinct : List CountItem → Type 0
IsDistinct [] = Unit
IsDistinct (c ∷ counts) = All (λ d. same_place c d ≡ false) counts × IsDistinct counts

-- The item after a count, and the report of the count.
unfoldable pub after_count : CountItem → InventoryItem → InventoryItem
unfolding reconcile_stock
after_count c item = (reconcile_stock (pieces (pos_part c.actual_quantity)) item).1

unfoldable pub report : CountItem → InventoryItem → CountResult
report c item = record {
  sku = c.sku;
  location_id = c.location_id;
  expected = item.quantity.amount;
  actual = pos_part c.actual_quantity;
  variance = sub_ℕ (pos_part c.actual_quantity) item.quantity.amount;
}

module _ (uuid : (sku location : ℕ) → ℕ) (items : Items) (v : IsValid items)
    (fresh : (sku location : ℕ) → lookup (uuid sku location) items ≡ none) where
  -- The item that a count finds in the repository, or makes.
  abbrev pub item_of : CountItem → InventoryItem
  item_of c = found_or_made (uuid c.sku c.location_id) c.sku c.location_id items

  -- The maps before the counts of a list: at their places, what the repository has, and nothing to
  -- save yet.
  pub record IsBefore (counts : List CountItem) (w : Counting) : Type 0 where
    pub reads :
        All
          (λ c.
            held_at c.sku c.location_id w.items_map
            ≡ find_by_sku_and_location c.sku c.location_id items)
          counts
    pub unsaved : All (λ c. held_at c.sku c.location_id w.items_to_save ≡ none) counts

  count_line-ok :
      (c : CountItem) (w : Counting)
      → ltb_ℤ c.actual_quantity (pos 0) ≡ false
      → held_at c.sku c.location_id w.items_map ≡ find_by_sku_and_location c.sku c.location_id items
      → new_sku c.sku ≡ some c.sku
      → count_line uuid c w
        ≡ ok (record {
          items_map = hold (after_count c (item_of c)) w.items_map;
          items_to_save = hold (after_count c (item_of c)) w.items_to_save;
          total_absolute_variance =
              w.total_absolute_variance
              + absolute_value (c.actual_quantity -ℤ pos (item_of c).quantity.amount);
          results = w.results ++ (report c (item_of c) ∷ []);
        })
  unfolding count_line after_count report reconcile_stock
  count_line-ok c w n h stored = elim (amount-cases c.actual_quantity) [
    | inl (m, q) ↦ cc (sym m ∙ n)
    | inr (m, q) ↦
        rw
          (
            h,
            or_new-ok (uuid c.sku c.location_id) c.sku c.location_id
                (find_by_sku_and_location c.sku c.location_id items) stored,
            q,
          )
          refl
  ]

  -- What the count leaves is ready to be saved at the place of the count.
  pub ready : (c : CountItem) → IsReady c.sku c.location_id items (item_of c)
  ready c =
      found_or_made-IsReady (uuid c.sku c.location_id) c.sku c.location_id items v
        (fresh c.sku c.location_id)

  unfoldable pub saved_item : CountItem → InventoryItem
  saved_item c = after_count c (item_of c)

  pub saved_item-place :
      (c : CountItem) → ((saved_item c).sku ≡ c.sku) × ((saved_item c).location_id ≡ c.location_id)
  unfolding saved_item after_count reconcile_stock
  saved_item-place c = (ready c).place

  pub lies_at-saved_item :
      (c d : CountItem) → lies_at d.sku d.location_id (saved_item c) ≡ same_place c d
  lies_at-saved_item c d = let (p, q) = saved_item-place c in rw (p, q) refl

  -- A read at another place, after a write.
  held_at-other :
      (c d : CountItem) (held : List InventoryItem) (o : Option InventoryItem)
      → same_place c d ≡ false
      → held_at d.sku d.location_id held ≡ o
      → held_at d.sku d.location_id (hold (saved_item c) held) ≡ o
  held_at-other c d held o n h =
      rw (held_at-hold d.sku d.location_id (saved_item c) held, lies_at-saved_item c d, n) h

  -- The maps after one count, and before the others.
  after_line : CountItem → Counting → Counting
  after_line c w = record {
    items_map = hold (saved_item c) w.items_map;
    items_to_save = hold (saved_item c) w.items_to_save;
    total_absolute_variance =
        w.total_absolute_variance
        + absolute_value (c.actual_quantity -ℤ pos (item_of c).quantity.amount);
    results = w.results ++ (report c (item_of c) ∷ []);
  }

  after_line-IsBefore :
      (c : CountItem) (counts : List CountItem) (w : Counting)
      → All (λ d. same_place c d ≡ false) counts
      → IsBefore (c ∷ counts) w
      → IsBefore counts (after_line c w)
  unfolding after_line
  after_line-IsBefore c counts w d b = record {
    reads = All-both _ _ _ counts (λ e n h. held_at-other c e w.items_map _ n h) d b.reads.1;
    unsaved =
        All-both _ _ _ counts (λ e n h. held_at-other c e w.items_to_save _ n h) d b.unsaved.1;
  }

  saved_last :
      (c : CountItem) (held : List InventoryItem)
      → held_at c.sku c.location_id held ≡ none
      → hold (saved_item c) held ≡ held ++ (saved_item c ∷ [])
  saved_last c held h =
      let (p, q) = saved_item-place c in
      hold_new (saved_item c) held (
        ap (λ k. held_at k (saved_item c).location_id held) p
        ∙ ap (λ l. held_at c.sku l held) q
        ∙ h)

  pub count_each-ok :
      (counts : List CountItem) (w : Counting)
      → IsDistinct counts
      → All (λ c. ltb_ℤ c.actual_quantity (pos 0) ≡ false) counts
      → All (λ c. new_sku c.sku ≡ some c.sku) counts
      → IsBefore counts w
      → (w' : Counting) × (count_each uuid counts w ≡ ok w')
        × (w'.items_to_save ≡ w.items_to_save ++ map saved_item counts)
        × (w'.results ≡ w.results ++ map (λ c. report c (item_of c)) counts)
  unfolding count_each IsDistinct after_line saved_item
  count_each-ok [] w d n stored b =
      (w, refl, sym (append_nil w.items_to_save), sym (append_nil w.results))
  count_each-ok (c ∷ counts) w d n stored b =
      let (w', e, saves, reports) =
        count_each-ok counts (after_line c w) d.1 n.1 stored.1
          (after_line-IsBefore c counts w d.0 b) in
      (
        w',
        rw (count_line-ok c w n.0 b.reads.0 stored.0) e,
        saves
            ∙ ap (λ l. l ++ map saved_item counts) (saved_last c w.items_to_save b.unsaved.0)
            ∙ append_one w.items_to_save (saved_item c) (map saved_item counts),
        reports ∙ append_one w.results (report c (item_of c)) _,
      )
