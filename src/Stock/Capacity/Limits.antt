-- ===== src/Stock/Capacity/Limits.antt =====
-- A receipt that passed the check of the capacity keeps its location within the limits.
use gql_ddd_inventory.Prelude.{
  ℕ, ◌+◌, ◌*◌, ◌≤◌, ◌≡◌, refl, ap, ◌∙◌, true, Option, none, some, List, [], ◌∷◌, Result, throw_if,
  bind-ok, ok, err, arith, ltb, ◌==◌, all, Bool-cases, Result-cases, inl, inr,
}
use native.Mathlib.Nat.{add-mul}
use gql_ddd_inventory.Prelude.Int.{ℤ, pos, negsuc, leb_ℤ, ◌+ℤ◌}
use gql_ddd_inventory.Prelude.Maps.{Map, lookup, insert, lookup-insert, get_or}
use gql_ddd_inventory.Prelude.Methods.{returned, kept}
use gql_ddd_inventory.Stock.Quantity.{pieces, new_quantity, negative_amount}
use gql_ddd_inventory.Stock.Sku.{new_sku}
use gql_ddd_inventory.Stock.Item.{InventoryItem, StockError}
use gql_ddd_inventory.Stock.Item.Laws.{Op, levels, call, promised}
use gql_ddd_inventory.Stock.Repository.{Items, find_by_location, find_by_sku_and_location}
use gql_ddd_inventory.Stock.Repository.Saving.{IsValid, save-Fits}
use gql_ddd_inventory.Stock.Capacity.{
  quantity_map, apply_adjustments, Adjustment, relative, total_of, WmsCapacityService,
  WarehouseLocation, weight_of, volume_of, validate_capacity, check_limits, check_skus,
}
use gql_ddd_inventory.Stock.Capacity.Load.{
  load_at, total_of-insert, IsClear-empty, total_of-quantity_map, load_at-insert_place,
  found_load-on_hand,
}
use gql_ddd_inventory.Stock.UseCases.{
  Store, StockUseCaseError, of_capacity, of_quantity, raised_as, call_and_save, check_capacity,
  quantity_of, execute_receive_stock,
}
use gql_ddd_inventory.Stock.UseCases.Ready.{
  or_new-ok, IsReady, Kept, call-Kept, found_or_made-IsReady, stock_at,
}

-- The quantities that are read from a repository are not negative.
IsCount : Option ℤ → Type 0
IsCount none = Unit
IsCount (some (pos n)) = Unit
IsCount (some (negsuc n)) = ⊥

IsCount-quantity_map :
    (items : List InventoryItem) (m : Map ℤ)
    → ((k : ℕ) → IsCount (lookup k m))
    → (k : ℕ) → IsCount (lookup k (quantity_map items m))
unfolding quantity_map IsCount
IsCount-quantity_map [] m c k = c k
IsCount-quantity_map (item ∷ items) m c k =
    IsCount-quantity_map items _
      (λ j.
        rw (lookup-insert item.sku j (pos item.quantity.amount) m)
          (elim (Bool-cases (item.sku == j)) [ inl e ↦ rw e tt | inr e ↦ rw e (c j) ]))
      k

pos_add : (q n : ℕ) → pos q +ℤ pos n ≡ pos (q + n)
unfolding ◌+ℤ◌
pos_add q n = ground arith

nothing_counted : (k : ℕ) → IsCount (lookup k [])
unfolding IsCount lookup
nothing_counted k = tt

module _ (measure : ℕ → ℕ) where
  -- The total after a receipt of n pieces is added to what a map has.
  received_total :
      (sku n : ℕ) (m : Map ℤ) (current : Option ℤ)
      → lookup sku m ≡ current
      → IsCount current
      → total_of measure (insert sku (get_or current (pos 0) +ℤ pos n) m)
        ≡ total_of measure m + n * measure sku
  unfolding IsCount
  received_total sku n m none e c =
      let step = total_of-insert measure sku (pos (0 + n)) m in
      let step' = rw e at step in rw (pos_add 0 n) (omega (arith, step'))
  received_total sku n m (some (pos q)) e c =
      let step = total_of-insert measure sku (pos (q + n)) m in
      let step' = rw e at step in rw (pos_add q n) (omega (arith, step', add-mul q n (measure sku)))
  received_total sku n m (some (negsuc q)) e c = elim c [ ]

  -- What the location weighs after a receipt of n pieces is saved.
  received_load :
      (sku location n : ℕ) (s : Store) (item : InventoryItem) (r : Result StockError InventoryItem)
      → kept (call (Op.receive n) item) ≡ r
      → Kept (promised (Op.receive n) (levels item)) item r
      → IsReady sku location s.items item
      → load_at measure location (call_and_save (call (Op.receive n)) item s).1.items
        ≡ load_at measure location s.items + n * measure sku
  unfolding call_and_save
  received_load sku location n s item (err x) e k ready = elim k [ ]
  received_load sku location n s item (ok item') e (l, same, version) ready =
      let f = ready.fits item' same version in
      let on_hand : item'.quantity.amount ≡ (stock_at sku location s.items).on_hand + n =
        ap (λ x. x.on_hand) l ∙ ap (λ x. x.on_hand + n) ready.stands in
      let saved =
        load_at-insert_place measure item' s.items sku location f (same.same_sku ∙ ready.place.0)
          (same.same_location ∙ ready.place.1)
        ∙ ap (λ q. load_at measure location s.items + q * measure sku) on_hand in
      rw (e, save-Fits item' s.items f)
        (omega (
          arith,
          saved,
          found_load-on_hand measure sku location s.items,
          add-mul (stock_at sku location s.items).on_hand n (measure sku),
        ))

-- What the check compares, where it lets a receipt through.
idle_total :
    (measure : ℕ → ℕ) (m : Map ℤ)
    → all (λ (sku, quantity). leb_ℤ quantity (pos 0)) m ≡ true
    → total_of measure m ≡ 0
unfolding total_of
idle_total measure [] h = refl
idle_total measure ((sku, q) ∷ m) h = elim (Bool-cases (leb_ℤ q (pos 0))) [
  | inl e ↦ rw e (idle_total measure m (rw e at h))
  | inr e ↦ cc (rw e at h)
]

not_above :
    {E : Type 0} (bound n : ℕ) (e : E) {t : Unit {0}} → throw_if (ltb bound n) e ≡ ok t → n ≤ bound
not_above bound n e h = ground arith

check_limits-ok :
    (service : WmsCapacityService) (location : ℕ) (place : WarehouseLocation) (m : Map ℤ)
    {t : Unit {0}}
    → check_limits service location (some place) m ≡ ok t
    → (total_of (weight_of service) m ≤ place.max_weight_grams)
      × (total_of (volume_of service) m ≤ place.max_volume_cubic_meters)
check_limits-ok service location place m h =
    elim (Bool-cases (all (λ (sku, quantity). leb_ℤ quantity (pos 0)) m)) [
      | inl e ↦ (
        omega (arith, idle_total (weight_of service) m e),
        omega (arith, idle_total (volume_of service) m e),
      )
      | inr e ↦
          let h' = rw e at h in
          let (u, form, h1) = bind-ok (check_skus m) _ h' in
          let (a, f, h2) =
            bind-ok (throw_if (ltb place.max_weight_grams (total_of (weight_of service) m)) _) _
              h1 in
          (not_above _ _ _ f, not_above _ _ _ h2)
    ]

no_entries : (measure : ℕ → ℕ) → total_of measure [] ≡ 0
unfolding total_of
no_entries measure = refl

zero_first : (a b : ℕ) → 0 + a + b ≡ a + b
zero_first a b = omega arith

not_raised :
    {E : Type 0} (f : E → StockUseCaseError) (r : Result E (Unit {0})) {t : Unit {0}}
    → raised_as f r ≡ ok t
    → r ≡ ok tt
not_raised f (ok a) h = refl
not_raised f (err e) h = cc

-- What the check computes for a receipt is what the location weighs after it.
checked_total :
    (measure : ℕ → ℕ) (sku location n : ℕ) (items : Items)
    → IsValid items
    → total_of measure (
        apply_adjustments
          (record { sku = sku; mode = relative; quantity = pos n } ∷ [])
          (quantity_map (find_by_location location items) []))
      ≡ load_at measure location items + n * measure sku
unfolding apply_adjustments
checked_total measure sku location n items v =
    let m = quantity_map (find_by_location location items) [] in
    received_total measure sku n m (lookup sku m) refl
      (IsCount-quantity_map _ [] nothing_counted sku)
    ∙ ap (λ t. t + n * measure sku)
        (total_of-quantity_map measure location items [] v (IsClear-empty measure location items)
          ∙ ap (λ t. t + load_at measure location items) (no_entries measure))
    ∙ zero_first _ _

new_quantity-pos : (n : ℕ) → quantity_of (pos n) ≡ ok (pieces n)
unfolding new_quantity
new_quantity-pos n = ground arith

new_quantity-neg : (n : ℕ) → quantity_of (negsuc n) ≡ err (of_quantity negative_amount)
unfolding new_quantity
new_quantity-neg n = ground arith

abbrev receipt : (sku : ℕ) → ℤ → List Adjustment
receipt sku amount = record { sku = sku; mode = relative; quantity = amount } ∷ []

passed_check :
    (service : WmsCapacityService) (location : ℕ) (place : WarehouseLocation)
    (adjustments : List Adjustment) (items : Items)
    → service.find_location location ≡ some place
    → validate_capacity service location adjustments items ≡ ok tt
    → check_limits service location
        (some place)
        (apply_adjustments adjustments (quantity_map (find_by_location location items) []))
      ≡ ok tt
unfolding validate_capacity
passed_check service location place adjustments items here h = rw here at h

-- A receipt that the use case answers, with the service of the capacity given and for a SKU in the
-- form that `Sku` stores, leaves the location
-- within its limits: by weight and by volume, over all items that the repository then has there, the
-- stock is at most what the location allows.
pub execute_receive_stock-WithinLimits :
    (service : WmsCapacityService) (uuid sku location : ℕ) (amount : ℤ) (s : Store)
    (place : WarehouseLocation)
    → IsValid s.items
    → lookup uuid s.items ≡ none
    → new_sku sku ≡ some sku
    → service.find_location location ≡ some place
    → let out = execute_receive_stock (some service) uuid sku location amount s in
      returned out ≡ true
      → (load_at (weight_of service) location out.1.items ≤ place.max_weight_grams)
        × (load_at (volume_of service) location out.1.items ≤ place.max_volume_cubic_meters)
unfolding execute_receive_stock
execute_receive_stock-WithinLimits service uuid sku location (negsuc n) s place v fresh stored here
      h =
    elim (Result-cases (check_capacity (some service) location (receipt sku (negsuc n)) s.items)) [
      | inl (t, e) ↦ cc (rw (e, new_quantity-neg n) at h)
      | inr (x, e) ↦ cc (rw e at h)
    ]
execute_receive_stock-WithinLimits service uuid sku location (pos n) s place v fresh stored here h =
    elim (Result-cases (check_capacity (some service) location (receipt sku (pos n)) s.items)) [
      | inl (t, e) ↦
          rw
            (
              e,
              new_quantity-pos n,
              or_new-ok uuid sku location (find_by_sku_and_location sku location s.items) stored,
            )
            (let m = quantity_map (find_by_location location s.items) [] in
              let passed = not_raised of_capacity _ e in
              let (w, l) =
                check_limits-ok service location place (apply_adjustments (receipt sku (pos n)) m)
                  (passed_check service location place _ s.items here passed) in
              let ready = found_or_made-IsReady uuid sku location s.items v fresh in
              let kept_call = call-Kept (Op.receive n) _ ready.counted in
              let weighs =
                received_load (weight_of service) sku location n s _ _ refl kept_call ready in
              let fills =
                received_load (volume_of service) sku location n s _ _ refl kept_call ready in
              (
                omega
                    (arith, w, weighs, checked_total (weight_of service) sku location n s.items v),
                omega (arith, l, fills, checked_total (volume_of service) sku location n s.items v),
              ))
      | inr (x, e) ↦ cc (rw e at h)
    ]
