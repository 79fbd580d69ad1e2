-- ===== src/Stock/Tests.antt =====
-- The use cases of the stock on a small repository: 12 pieces of SKU 55, that is "7", and 3 of SKU
-- 56 at location 2.
use gql_ddd_inventory.Prelude.{
  ℕ, ◌+◌, ◌*◌, ◌≤◌, ◌<◌, ◌≡◌, ◌≢◌, refl, ap, true, false, none, some, List, [], ◌∷◌, map, ok, arith,
  ltb, Bool-cases, inl, inr,
}
use native.Mathlib.Nat.{mul-le-mul, add-mul, mul-add}
use gql_ddd_inventory.Prelude.Int.{pos, ◌+ℤ◌}
use gql_ddd_inventory.Prelude.Maps.{lookup, insert}
use gql_ddd_inventory.Prelude.Methods.{returned}
use gql_ddd_inventory.Stock.Quantity.{pieces, new_quantity, add, subtract, same_unit}
use gql_ddd_inventory.Stock.Sku.{new_sku}
use gql_ddd_inventory.Stock.Item.{InventoryItem, low_stock_alert, dispatch_stock, receive_stock}
use gql_ddd_inventory.Stock.Repository.{Items, find_by_sku_and_location, find_by_location, save}
use gql_ddd_inventory.Stock.Repository.Saving.{IsValid, IsFresh}
use gql_ddd_inventory.Stock.Capacity.{
  WmsCapacityService, weight_of, volume_of, quantity_map, total_of, validate_capacity,
  apply_adjustments, check_skus,
}
use gql_ddd_inventory.Stock.Capacity.Load.{load_at}
use gql_ddd_inventory.Stock.Capacity.Limits.{execute_receive_stock-WithinLimits}
use gql_ddd_inventory.Stock.UseCases.{
  Store, call_and_save, execute_receive_stock, execute_dispatch_stock,
}
use gql_ddd_inventory.Stock.UseCases.Retry.{with_retries, is_concurrency_error}
use gql_ddd_inventory.Stock.Count.{CountItem, check_locations, counts_by_location}
use gql_ddd_inventory.Stock.Count.Submit.{execute_submit_count}
use gql_ddd_inventory.Stock.Count.Loop.{IsDistinct}
use gql_ddd_inventory.Stock.Count.Submitted.{reported, Recounts, execute_submit_count-Recounts}
use gql_ddd_inventory.Stock.Count.Repeated.{count_at, execute_submit_count-repeated}
use gql_ddd_inventory.Stock.UseCases.Ready.{Answers}
use gql_ddd_inventory.Stock.UseCases.Serving.{
  dispatching, request, alerts, execute, execute-Answers,
}

abbrev article : (id sku on_hand version : ℕ) → InventoryItem
article id sku on_hand version = record {
  id = id;
  sku = sku;
  location_id = 2;
  quantity = pieces on_hand;
  allocated = pieces 0;
  in_transit = pieces 0;
  version = version;
  domain_events = [];
}

abbrev small_items : Items
small_items = (1, article 1 55 12 5) ∷ (2, article 2 56 3 1) ∷ []

abbrev small_store : Store
small_store = record { items = small_items; published = [] }

two_not_one : ◌≢◌ {A = ℕ} 2 1
two_not_one = λ h. omega (arith, h)

small_items-IsValid : IsValid small_items
unfolding IsValid IsFresh
small_items-IsValid = (refl, (two_not_one, refl, tt), (refl, tt, tt))

-- A new identifier for each place.
abbrev uuid : ℕ → ℕ → ℕ
uuid sku location = 10 + ((sku + location) * (sku + location) + sku)

square_suc : (n : ℕ) → (n + 1) * (n + 1) ≡ n * n + n + n + 1
square_suc n = omega (arith, add-mul n 1 (n + 1), mul-add n n 1)

below_square : (s n k p : ℕ) → s ≤ n → n < p → n * n + s < p * p + k
below_square s n k p h l =
    let step : (n + 1) * (n + 1) ≤ p * p = mul-le-mul (omega arith) (omega arith) in
    omega (arith, square_suc n, step)

sums_agree : (s l k m : ℕ) → uuid s l ≡ uuid k m → s + l ≡ k + m
sums_agree s l k m h = elim (Bool-cases (ltb (s + l) (k + m))) [
  | inl a ↦
      let lt = below_square s (s + l) k (k + m) (omega arith) (ground arith) in omega (arith, lt)
  | inr a ↦ elim (Bool-cases (ltb (k + m) (s + l))) [
    | inl b ↦
        let lt = below_square k (k + m) s (s + l) (omega arith) (ground arith) in omega (arith, lt)
    | inr b ↦ ground arith
  ]
]

uuid_unique : (s l k m : ℕ) → uuid s l ≡ uuid k m → (s ≡ k) × (l ≡ m)
uuid_unique s l k m h =
    let same = sums_agree s l k m h in
    let squares : (s + l) * (s + l) ≡ (k + m) * (k + m) = ap (λ n. n * n) same in
    (omega (arith, same, squares), omega (arith, same, squares))

uuid_fresh : (s l : ℕ) → lookup (uuid s l) small_items ≡ none
unfolding lookup
uuid_fresh s l = ground arith

new_id : lookup 10 small_items ≡ none
unfolding lookup
new_id = refl

-- The texts "7" and "9".
seven : new_sku 55 ≡ some 55
unfolding new_sku
seven = refl

nine : new_sku 57 ≡ some 57
unfolding new_sku
nine = refl

-- A dispatch of 5 leaves 7, and alerts.
execute-Answers_example :
    Answers 55 2
      (request dispatching true (find_by_sku_and_location 55 2 small_items) (pos 5))
      (alerts dispatching 55 2)
      small_store
      (execute none 10 55 2 dispatching (pos 5) small_store)
execute-Answers_example =
    execute-Answers none 10 55 2 dispatching (pos 5) small_store small_items-IsValid new_id seven

dispatched_test :
    (execute none 10 55 2 dispatching (pos 5) small_store).1.published ≡ low_stock_alert 55 2 7 ∷ []
unfolding execute_dispatch_stock find_by_sku_and_location new_quantity dispatch_stock subtract
    same_unit save lookup insert
dispatched_test = refl

-- 100 grams a piece, and 2 kilograms allowed.
abbrev service : WmsCapacityService
service = record {
  find_location =
      λ location. some (record { max_weight_grams = 2000; max_volume_cubic_meters = 50 });
  find_variant = λ sku. some (record { weight_grams = some 100; volume_cubic_meters = none });
}

receipt_returns : returned (execute_receive_stock (some service) 10 55 2 (pos 5) small_store) ≡ true
unfolding execute_receive_stock validate_capacity find_by_location quantity_map apply_adjustments
    check_skus new_sku total_of new_quantity find_by_sku_and_location receive_stock add same_unit
    call_and_save save lookup insert ◌+ℤ◌
receipt_returns = refl

receipt_over_test :
    returned (execute_receive_stock (some service) 10 55 2 (pos 6) small_store) ≡ false
unfolding execute_receive_stock validate_capacity find_by_location quantity_map apply_adjustments
    check_skus new_sku total_of lookup insert ◌+ℤ◌
receipt_over_test = refl

execute_receive_stock-WithinLimits_example :
    (load_at
        (weight_of service)
        2
        (execute_receive_stock (some service) 10 55 2 (pos 5) small_store).1.items
      ≤ 2000)
    × (load_at
          (volume_of service)
          2
          (execute_receive_stock (some service) 10 55 2 (pos 5) small_store).1.items
        ≤ 50)
execute_receive_stock-WithinLimits_example =
    execute_receive_stock-WithinLimits service 10 55 2 (pos 5) small_store
      (record { max_weight_grams = 2000; max_volume_cubic_meters = 50 }) small_items-IsValid new_id
      seven refl receipt_returns

-- Ten of SKU 55 and four of a SKU that is not there yet.
abbrev two_counts : List CountItem
two_counts = count_at 55 2 (pos 10) ∷ count_at 57 2 (pos 4) ∷ []

two_counts-IsDistinct : IsDistinct two_counts
unfolding IsDistinct
two_counts-IsDistinct = ((refl, tt), (tt, tt))

two_counts_room : check_locations none (counts_by_location two_counts []) small_items ≡ ok tt
unfolding check_locations counts_by_location lookup insert
two_counts_room = refl

execute_submit_count-Recounts_example :
    (s' : Store) × (execute_submit_count none none uuid two_counts small_store
      ≡ (ok (map (reported small_items) two_counts), s'))
    × Recounts two_counts small_store s'
execute_submit_count-Recounts_example =
    execute_submit_count-Recounts none none uuid two_counts small_store small_items-IsValid
      uuid_fresh uuid_unique two_counts-IsDistinct (refl, (refl, tt)) (seven, (nine, tt))
      two_counts_room (λ total. refl)

found_seven : find_by_sku_and_location 55 2 small_items ≡ some (article 1 55 12 5)
unfolding find_by_sku_and_location
found_seven = refl

execute_submit_count-repeated_example :
    let submit =
      execute_submit_count none none uuid (count_at 55 2 (pos 10) ∷ count_at 55 2 (pos 11) ∷ []) in
    let out = with_retries is_concurrency_error 3 submit small_store in
    (returned out ≡ false) × (out.1 ≡ small_store)
execute_submit_count-repeated_example =
    execute_submit_count-repeated none none uuid 55 2 (pos 10) (pos 11) 3 small_store
      small_items-IsValid found_seven
