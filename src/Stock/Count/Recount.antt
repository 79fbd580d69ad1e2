-- ===== src/Stock/Count/Recount.antt =====
-- What the submission of counts of distinct places does to the repository.
use gql_ddd_inventory.Prelude.{
  ℕ, ◌≡◌, ◌≢◌, refl, sym, ap, ◌∙◌, Bool, true, false, Option, none, some, List, [], ◌∷◌, map, arith,
  ◌==◌, ◌&&◌, ◌||◌, Bool-cases, Option-cases, inl, inr, All, All-both, any, is_none,
}
use gql_ddd_inventory.Prelude.Maps.{lookup}
use gql_ddd_inventory.Stock.Item.{InventoryItem, new_inventory_item, reconcile_stock}
use gql_ddd_inventory.Stock.Repository.{
  Items, clone_item, lies_at, find_by_sku_and_location, find_by_sku_and_location_batch, is_asked,
}
use gql_ddd_inventory.Stock.Repository.Saving.{
  IsValid, Fits, lies_at_place, find-here, find-there, find-IsFresh, test_yes, test_no,
}
use gql_ddd_inventory.Stock.Repository.Batch.{IsApart, AllFit, stored}
use gql_ddd_inventory.Stock.Count.{CountItem, held_at}
use gql_ddd_inventory.Stock.Count.Submit.{start}
use gql_ddd_inventory.Stock.Count.Loop.{
  same_place, IsDistinct, after_count, IsBefore, ready, saved_item, saved_item-place,
  lies_at-saved_item, held_at-batch, or_held,
}

-- Two items that fit under one identifier at two places: it is stored nowhere.
apart-ids :
    (x y : InventoryItem) (items : Items)
    → Fits x items
    → Fits y items
    → lies_at x.sku x.location_id y ≡ false
    → x.id ≡ y.id
    → lookup x.id items ≡ none
unfolding Fits lookup
apart-ids x y [] f g n e = refl
apart-ids x y ((k, z) ∷ items) (inl f) (inl g) n e =
    let (p, q) = lies_at_place x.sku x.location_id z f.1 in
    let (p', q') = lies_at_place y.sku y.location_id z g.1 in ground (arith, n)
apart-ids x y ((k, z) ∷ items) (inl f) (inr g) n e = elim (g.0 (f.0 ∙ e)) [ ]
apart-ids x y ((k, z) ∷ items) (inr f) (inl g) n e = elim (f.0 (g.0 ∙ sym e)) [ ]
apart-ids x y ((k, z) ∷ items) (inr f) (inr g) n e =
    rw (test_no k x.id f.0) (apart-ids x y items f.2 g.2 n e)

-- What is found is stored under its identifier.
find-lookup :
    (sku location : ℕ) (items : Items) {x : InventoryItem}
    → IsValid items
    → find_by_sku_and_location sku location items ≡ some x
    → is_none (lookup x.id items) ≡ false
unfolding IsValid lookup find_by_sku_and_location
find-lookup sku location [] v e = cc
find-lookup sku location ((k, y) ∷ items) {x} v e = elim (Bool-cases (lies_at sku location y)) [
  | inl h ↦
      let same : k ≡ x.id = sym v.0 ∙ ap (λ z. z.id) (find-here sku location k y items h e) in
      rw (test_yes k x.id same) refl
  | inr h ↦
      let e' = sym (find-there sku location k y items h) ∙ e in
      rw
        (test_no k x.id
          (λ same. find-IsFresh k y.sku y.location_id items v.1 v.2 _ _ e' (sym same)))
        (find-lookup sku location items v.2 e')
]

same_place-sym : (c d : CountItem) → same_place d c ≡ same_place c d
same_place-sym c d = ground arith

same_of_parts :
    (c d : CountItem) → c.sku ≡ d.sku → c.location_id ≡ d.location_id → same_place c d ≡ true
same_of_parts c d p q = ground arith

or_right : (a b : Bool) → b ≡ true → (a || b) ≡ true
or_right true b h = refl
or_right false b h = h

lies_at_both :
    (c d : CountItem) (x : InventoryItem)
    → same_place c d ≡ true
    → lies_at c.sku c.location_id x ≡ true
    → lies_at d.sku d.location_id x ≡ true
lies_at_both c d x h l = ground arith

-- The items read for the counts, at the place of a count.
pub asked_for :
    (counts : List CountItem) (c : CountItem)
    → any (same_place c) counts ≡ true
    → (x : InventoryItem) → lies_at c.sku c.location_id x ≡ true
    → is_asked (map (λ d. (d.sku, d.location_id)) counts) x ≡ true
asked_for [] c h x l = cc
asked_for (d ∷ counts) c h x l = elim (Bool-cases (same_place c d)) [
  | inl e ↦ rw (lies_at_both c d x e l) refl
  | inr e ↦ or_right (lies_at d.sku d.location_id x) _ (asked_for counts c (rw e at h) x l)
]

all_asked :
    (part counts : List CountItem)
    → ((c : CountItem) → any (same_place c) part ≡ true → any (same_place c) counts ≡ true)
    → All (λ c. any (same_place c) counts ≡ true) part
all_asked [] counts h = tt
all_asked (c ∷ part) counts h = (
  h c (rw (same_of_parts c c refl refl) refl),
  all_asked part counts (λ d e. h d (or_right (same_place d c) _ e)),
)

nothing_held : (counts : List CountItem) → All (λ c. held_at c.sku c.location_id [] ≡ none) counts
unfolding held_at
nothing_held [] = tt
nothing_held (c ∷ counts) = (refl, nothing_held counts)

pub or_nothing :
    (c : CountItem) (o : Option InventoryItem) → or_held o (held_at c.sku c.location_id []) ≡ o
unfolding held_at
or_nothing c none = refl
or_nothing c (some x) = refl

module _ (uuid : (sku location : ℕ) → ℕ) (items : Items) (v : IsValid items)
    (fresh : (sku location : ℕ) → lookup (uuid sku location) items ≡ none)
    (unique : (sku location k l : ℕ)
      → uuid sku location ≡ uuid k l
      → (sku ≡ k) × (location ≡ l)) where
  abbrev pub counted_item : CountItem → InventoryItem
  counted_item = saved_item uuid items v fresh

  saved-Fits : (c : CountItem) → Fits (counted_item c) items
  unfolding saved_item after_count reconcile_stock
  saved-Fits c =
      (ready uuid items v fresh c).fits (counted_item c)
        (record { same_id = refl; same_sku = refl; same_location = refl }) refl

  -- An item whose identifier is not stored was made for the count.
  made_new :
      (c : CountItem)
      → lookup (counted_item c).id items ≡ none
      → (counted_item c).id ≡ uuid c.sku c.location_id
  unfolding saved_item after_count reconcile_stock new_inventory_item
  made_new c h = elim (Option-cases (find_by_sku_and_location c.sku c.location_id items)) [
    | inl e ↦ rw e refl
    | inr (x, e) ↦
        let found = find-lookup c.sku c.location_id items v e in
        let h' = rw e at h in cc (sym found ∙ ap is_none h')
  ]

  apart-places :
      (c d : CountItem)
      → same_place c d ≡ false
      → lies_at (counted_item c).sku (counted_item c).location_id (counted_item d) ≡ false
  apart-places c d n =
      let (p, q) = saved_item-place uuid items v fresh c in
      ap (λ k. lies_at k (counted_item c).location_id (counted_item d)) p
      ∙ ap (λ l. lies_at c.sku l (counted_item d)) q
      ∙ lies_at-saved_item uuid items v fresh d c
      ∙ same_place-sym c d
      ∙ n

  saved-ids : (c d : CountItem) → same_place c d ≡ false → (counted_item c).id ≢ (counted_item d).id
  saved-ids c d n e =
      let h =
        apart-ids (counted_item c) (counted_item d) items (saved-Fits c) (saved-Fits d)
          (apart-places c d n) e in
      let h' = ap (λ k. lookup k items) (sym e) ∙ h in
      let same = unique _ _ _ _ (sym (made_new c h) ∙ e ∙ made_new d h') in
      cc (sym n ∙ same_of_parts c d same.0 same.1)

  saved-IsApart :
      (c : CountItem) (counts : List CountItem)
      → All (λ d. same_place c d ≡ false) counts
      → IsApart (counted_item c) (map counted_item counts)
  unfolding IsApart
  saved-IsApart c [] d = tt
  saved-IsApart c (e ∷ counts) d =
      (saved-ids c e d.0, apart-places c e d.0, saved-IsApart c counts d.1)

  pub saved-AllFit :
      (counts : List CountItem) → IsDistinct counts → AllFit (map counted_item counts) items
  unfolding AllFit IsDistinct
  saved-AllFit [] d = tt
  saved-AllFit (c ∷ counts) d = (saved-Fits c, saved-IsApart c counts d.0, saved-AllFit counts d.1)

  stored_past :
      (c e : CountItem) (counts : List CountItem) {o : Option InventoryItem}
      → same_place c e ≡ false
      → stored e.sku e.location_id (map counted_item counts) items ≡ o
      → stored e.sku e.location_id (map counted_item (c ∷ counts)) items ≡ o
  unfolding stored
  stored_past c e counts n h = rw (lies_at-saved_item uuid items v fresh c e ∙ n) h

  -- What the batch has at the place of one of the counts, and at a place of none.
  pub stored_counted :
      (counts : List CountItem)
      → IsDistinct counts
      → All
          (λ c.
            stored c.sku c.location_id (map counted_item counts) items
            ≡ some (clone_item (counted_item c)))
          counts
  unfolding IsDistinct stored
  stored_counted [] d = tt
  stored_counted (c ∷ counts) d = (
    rw (lies_at-saved_item uuid items v fresh c c ∙ same_of_parts c c refl refl) refl,
    All-both _ _ _ counts (λ e n h. stored_past c e counts n h) d.0 (stored_counted counts d.1),
  )

  pub stored_elsewhere :
      (k l : ℕ) (counts : List CountItem)
      → All (λ c. (c.sku == k && c.location_id == l) ≡ false) counts
      → stored k l (map counted_item counts) items ≡ find_by_sku_and_location k l items
  unfolding stored
  stored_elsewhere k l [] n = refl
  stored_elsewhere k l (c ∷ counts) n =
      let (p, q) = saved_item-place uuid items v fresh c in
      let there : lies_at k l (counted_item c) ≡ false =
        ap (λ j. j == k && (counted_item c).location_id == l) p
        ∙ ap (λ j. c.sku == k && j == l) q
        ∙ n.0 in
      rw there (stored_elsewhere k l counts n.1)

  pub start-IsBefore :
      (counts : List CountItem)
      → IsBefore uuid items v fresh counts
          (start (find_by_sku_and_location_batch (map (λ c. (c.sku, c.location_id)) counts) items))
  start-IsBefore counts = record {
    reads =
        All-both _ _ _ counts
          (λ c a b.
            held_at-batch _ c.sku c.location_id items [] (asked_for counts c a) v ∙ or_nothing c _)
          (all_asked counts counts (λ c h. h)) (all_asked counts counts (λ c h. h));
    unsaved = nothing_held counts;
  }
