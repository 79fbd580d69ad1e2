-- ===== src/Stock/Count/Repeated.antt =====
-- A submission that counts one stored item twice.
use gql_ddd_inventory.Prelude.{
  ℕ, ◌+◌, ◌≡◌, refl, sym, ap, ◌∙◌, Bool, true, false, Option, some, [], ◌∷◌, ◌++◌, ok-injective, ok,
  err, arith, ◌==◌, ◌&&◌, ◌||◌, inl, inr, Result-cases, Bool-cases,
}
use gql_ddd_inventory.Prelude.Int.{ℤ, pos, ltb_ℤ, ◌-ℤ◌}
use gql_ddd_inventory.Prelude.Maps.{lookup}
use gql_ddd_inventory.Prelude.Methods.{returned}
use gql_ddd_inventory.Stock.Item.{InventoryItem, reconcile_stock}
use gql_ddd_inventory.Stock.Repository.{
  Items, lies_at, find_by_sku_and_location, find_by_sku_and_location_batch, save_batch, save,
  concurrency_error,
}
use gql_ddd_inventory.Stock.Repository.Saving.{
  lies_at_place, IsValid, find-here, find-there, find-IsFresh, test_yes, test_no,
}
use gql_ddd_inventory.Stock.Capacity.{WmsCapacityService}
use gql_ddd_inventory.Stock.UseCases.{
  Store, StockUseCaseError, quantity_of, of_quantity, of_repository,
}
use gql_ddd_inventory.Stock.Quantity.{negative_amount}
use gql_ddd_inventory.Stock.UseCases.Serving.{amount-cases}
use gql_ddd_inventory.Stock.UseCases.Retry.{with_retries, with_retries-throws, is_concurrency_error}
use gql_ddd_inventory.Stock.Count.{
  absolute_value, CountItem, Counting, count_line, count_each, counts_by_location, check_locations,
  hold, held_at,
}
use gql_ddd_inventory.Stock.Count.Submit.{Interception, ask_approval, start, execute_submit_count}
use gql_ddd_inventory.Stock.Count.Loop.{report, after_count, held_at-batch, or_held, held_at-hold}
use gql_ddd_inventory.Stock.Count.Recount.{asked_for}

-- What is found is stored under its identifier, at the same version.
stored_version :
    (sku location : ℕ) (items : Items) {x : InventoryItem}
    → IsValid items
    → find_by_sku_and_location sku location items ≡ some x
    → (z : InventoryItem) × (lookup x.id items ≡ some z) × (z.version ≡ x.version)
unfolding IsValid lookup find_by_sku_and_location
stored_version sku location [] v e = cc
stored_version sku location ((k, y) ∷ items) {x} v e = elim (Bool-cases (lies_at sku location y)) [
  | inl h ↦
      let same = find-here sku location k y items h e in
      (y, rw (test_yes k x.id (sym v.0 ∙ ap (λ z. z.id) same)) refl, ap (λ z. z.version) same)
  | inr h ↦
      let e' = sym (find-there sku location k y items h) ∙ e in
      let (z, l, n) = stored_version sku location items v.2 e' in
      (
        z,
        rw
            (test_no k x.id
              (λ same. find-IsFresh k y.sku y.location_id items v.1 v.2 _ _ e' (sym same)))
            l,
        n,
      )
]

stale_test :
    (stored read saved : ℕ) → stored ≡ read → saved ≡ read + 1 + 1 → (stored + 1 == saved) ≡ false
stale_test stored read saved h n = ground arith

-- An item two versions on is not saved.
stale_batch :
    (x y : InventoryItem) (items : Items) {z : InventoryItem}
    → lookup x.id items ≡ some z
    → z.version ≡ x.version
    → y.id ≡ x.id
    → y.version ≡ x.version + 1 + 1
    → save_batch (y ∷ []) items ≡ (err (concurrency_error y.sku y.location_id), items)
unfolding save_batch save
stale_batch x y items l z i n = rw (i, l) (rw (stale_test _ _ _ z n) refl)

abbrev line_result : CountItem → InventoryItem → Counting → Counting
line_result c x w = record {
  items_map = hold (after_count c x) w.items_map;
  items_to_save = hold (after_count c x) w.items_to_save;
  total_absolute_variance =
      w.total_absolute_variance + absolute_value (c.actual_quantity -ℤ pos x.quantity.amount);
  results = w.results ++ (report c x ∷ []);
}

-- One line of a count, on an item that the map has.
one_line :
    (uuid : (sku location : ℕ) → ℕ) (c : CountItem) (w : Counting) (x : InventoryItem)
    → held_at c.sku c.location_id w.items_map ≡ some x
    → ltb_ℤ c.actual_quantity (pos 0) ≡ false
    → (w' : Counting) × (count_line uuid c w ≡ ok w')
      × (w'.items_map ≡ hold (after_count c x) w.items_map)
      × (w'.items_to_save ≡ hold (after_count c x) w.items_to_save)
unfolding count_line after_count report reconcile_stock
one_line uuid c w x h n = elim (amount-cases c.actual_quantity) [
  | inl (m, q) ↦ cc (sym m ∙ n)
  | inr (m, q) ↦ (line_result c x w, rw (h, q) refl, refl, refl)
]

after_count_place :
    (c : CountItem) (x : InventoryItem)
    → let y = after_count c x in
      (y.id ≡ x.id)
      × (y.sku ≡ x.sku)
      × (y.location_id ≡ x.location_id)
      × (y.version ≡ x.version + 1)
unfolding after_count reconcile_stock
after_count_place c x = (refl, refl, refl, refl)

same_self : (sku location : ℕ) (r : Bool) → ((sku == sku && location == location) || r) ≡ true
same_self sku location r = ground arith

lies_self : (k l : ℕ) → (k == k && l == l) ≡ true
lies_self k l = ground arith

find-lies_at :
    (sku location : ℕ) (items : Items) {x : InventoryItem}
    → find_by_sku_and_location sku location items ≡ some x
    → lies_at sku location x ≡ true
unfolding find_by_sku_and_location
find-lies_at sku location [] e = cc
find-lies_at sku location ((k, y) ∷ items) e = elim (Bool-cases (lies_at sku location y)) [
  | inl h ↦ ap (lies_at sku location) (sym (find-here sku location k y items h e)) ∙ h
  | inr h ↦ find-lies_at sku location items (sym (find-there sku location k y items h) ∙ e)
]

abbrev pub count_at : (sku location : ℕ) → ℤ → CountItem
count_at sku location n = record { sku = sku; location_id = location; actual_quantity = n }

module _ (uuid : (sku location : ℕ) → ℕ) (sku location : ℕ) (a b : ℤ) (s : Store)
    (x : InventoryItem) (v : IsValid s.items)
    (e : find_by_sku_and_location sku location s.items ≡ some x) where
  abbrev first : CountItem
  first = count_at sku location a

  abbrev second : CountItem
  second = count_at sku location b

  abbrev before : Counting
  before = start (find_by_sku_and_location_batch ((sku, location) ∷ (sku, location) ∷ []) s.items)

  held_before : held_at sku location before.items_map ≡ some x
  held_before =
      held_at-batch _ sku location s.items []
        (asked_for (first ∷ second ∷ []) first (same_self sku location _)) v
      ∙ ap (λ o. or_held o (held_at sku location [])) e

  lies_after : (c : CountItem) → lies_at sku location (after_count c x) ≡ true
  unfolding after_count reconcile_stock
  lies_after c = find-lies_at sku location s.items e

  in_its_place :
      hold (after_count second (after_count first x)) (hold (after_count first x) [])
      ≡ after_count second (after_count first x) ∷ []
  unfolding hold after_count reconcile_stock
  in_its_place = rw (lies_self x.sku x.location_id) refl

  refused :
      (c : CountItem) (w : Counting) (y : InventoryItem)
      → held_at c.sku c.location_id w.items_map ≡ some y
      → quantity_of c.actual_quantity ≡ err (of_quantity negative_amount)
      → count_line uuid c w ≡ err (of_quantity negative_amount)
  unfolding count_line
  refused c w y h q = rw (h, q) refl

  held_after :
      (w : Counting)
      → w.items_map ≡ hold (after_count first x) before.items_map
      → held_at sku location w.items_map ≡ some (after_count first x)
  held_after w mapped =
      ap (held_at sku location) mapped
      ∙ held_at-hold sku location (after_count first x) before.items_map
      ∙ rw (lies_after first) refl

  -- The item that the two lines are to save.
  two_lines :
      ltb_ℤ a (pos 0) ≡ false
      → ltb_ℤ b (pos 0) ≡ false
      → (w : Counting) × (count_each uuid (first ∷ second ∷ []) before ≡ ok w)
        × (w.items_to_save ≡ after_count second (after_count first x) ∷ [])
  unfolding count_each hold
  two_lines m n =
      let (w, l, mapped, saves) = one_line uuid first before x held_before m in
      let (w', l', mapped', saves') =
        one_line uuid second w (after_count first x) (held_after w mapped) n in
      (
        w',
        rw (l, l') refl,
        saves' ∙ ap (hold (after_count second (after_count first x))) saves ∙ in_its_place,
      )

  -- The submission throws and leaves the store as it was.
  not_negative :
      (w : Counting)
      → count_each uuid (first ∷ second ∷ []) before ≡ ok w
      → (ltb_ℤ a (pos 0) ≡ false) × (ltb_ℤ b (pos 0) ≡ false)
  unfolding count_each
  not_negative w q = elim (amount-cases a) [
    | inl (m, r) ↦ cc (rw (refused first before x held_before r) at q)
    | inr (m, r) ↦ elim (amount-cases b) [
      | inl (n, t) ↦
          let (w', l, mapped, saves) = one_line uuid first before x held_before m in
          cc (rw (l, refused second w' (after_count first x) (held_after w' mapped) t) at q)
      | inr (n, t) ↦ (m, n)
    ]
  ]

  stale_after :
      (z : InventoryItem)
      → lookup x.id s.items ≡ some z
      → z.version ≡ x.version
      → save_batch (after_count second (after_count first x) ∷ []) s.items
        ≡ (err (concurrency_error x.sku x.location_id), s.items)
  unfolding after_count reconcile_stock
  stale_after z l version = stale_batch x _ s.items l version refl refl

  -- Where the lines are counted, the batch is not saved.
  unsaved :
      (w : Counting)
      → count_each uuid (first ∷ second ∷ []) before ≡ ok w
      → save_batch w.items_to_save s.items ≡ (err (concurrency_error sku location), s.items)
  unsaved w q =
      let (m, n) = not_negative w q in
      let (w', q', only) = two_lines m n in
      let (z, l, version) = stored_version sku location s.items v e in
      let (p, r) = lies_at_place sku location x (find-lies_at sku location s.items e) in
      ap (λ ys. save_batch ys s.items)
        (ap (λ u. u.items_to_save) (ok-injective (sym q ∙ q')) ∙ only)
      ∙ stale_after z l version
      ∙ ap (λ k. (err (concurrency_error k x.location_id), s.items)) p
      ∙ ap (λ k. (err (concurrency_error sku k), s.items)) r

  submission_throws :
      (capacity : Option WmsCapacityService) (approval : Option Interception)
      → (x : StockUseCaseError) × (execute_submit_count capacity approval uuid
            (first ∷ second ∷ [])
            s
          ≡ (err x, s))
  unfolding execute_submit_count
  submission_throws capacity approval =
      elim (Result-cases
        (check_locations capacity (counts_by_location (first ∷ second ∷ []) []) s.items)) [
          | inr (x, r) ↦ (x, rw r refl)
          | inl (t, r) ↦ elim (Result-cases (count_each uuid (first ∷ second ∷ []) before)) [
            | inr (x, q) ↦ (x, rw (r, q) refl)
            | inl (w, q) ↦
                elim (Result-cases
                  (ask_approval approval w.total_absolute_variance (first ∷ second ∷ []))) [
                    | inr (x, p) ↦ (x, rw (r, q, p) refl)
                    | inl (u, p) ↦ (
                      of_repository (concurrency_error sku location),
                      rw (r, q, p, unsaved w q) refl,
                    )
                  ]
          ]
        ]

-- A submission of two counts of one place where an item is stored, on a valid repository, throws
-- whatever the amounts, the check of the capacity and the approval service, also after any number of
-- retries, and leaves the store as it was.
pub execute_submit_count-repeated :
    (capacity : Option WmsCapacityService) (approval : Option Interception)
    (uuid : (sku location : ℕ) → ℕ) (sku location : ℕ) (a b : ℤ) (retries : ℕ) (s : Store)
    {x : InventoryItem}
    → IsValid s.items
    → find_by_sku_and_location sku location s.items ≡ some x
    → let submit =
        execute_submit_count capacity approval uuid
          (count_at sku location a ∷ count_at sku location b ∷ []) in
      let out = with_retries is_concurrency_error retries submit s in
      (returned out ≡ false) × (out.1 ≡ s)
execute_submit_count-repeated capacity approval uuid sku location a b retries s {x} v e =
    let (problem, throws) = submission_throws uuid sku location a b s x v e capacity approval in
    let all = with_retries-throws is_concurrency_error retries _ s throws in
    (ap returned all, ap (λ out. out.1) all)
