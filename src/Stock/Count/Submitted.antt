-- ===== src/Stock/Count/Submitted.antt =====
-- The submission of counts of distinct places, as a change of the levels that the repository has.
use gql_ddd_inventory.Prelude.{
  ℕ, ◌≡◌, refl, sym, ap, ◌∙◌, false, Option, none, some, List, [], ◌∷◌, ◌++◌, map, ok, ◌==◌, ◌&&◌,
  All, All-both,
}
use gql_ddd_inventory.Prelude.Int.{pos, pos_part, ltb_ℤ, sub_ℕ}
use gql_ddd_inventory.Prelude.Maps.{lookup}
use gql_ddd_inventory.Stock.Sku.{new_sku}
use gql_ddd_inventory.Stock.Item.{InventoryItem, Event, inventory_reconciled, reconcile_stock}
use gql_ddd_inventory.Stock.Item.Laws.{Levels, levels}
use gql_ddd_inventory.Stock.Shelves.{levels_of}
use gql_ddd_inventory.Stock.Repository.{Items, find_by_sku_and_location}
use gql_ddd_inventory.Stock.Repository.Saving.{IsValid}
use gql_ddd_inventory.Stock.Repository.Batch.{
  insert_all, save_batch-AllFit, insert_all-IsValid, find-insert_all,
}
use gql_ddd_inventory.Stock.Capacity.{WmsCapacityService}
use gql_ddd_inventory.Stock.UseCases.{Store}
use gql_ddd_inventory.Stock.UseCases.Ready.{stock_at, append_nil}
use gql_ddd_inventory.Stock.Count.{CountItem, CountResult, counts_by_location, check_locations}
use gql_ddd_inventory.Stock.Count.Submit.{
  Interception, ask_approval, item_events, execute_submit_count,
}
use gql_ddd_inventory.Stock.Count.Loop.{
  IsDistinct, after_count, report, item_of, ready, saved_item, count_each-ok,
}
use gql_ddd_inventory.Stock.Count.Recount.{
  counted_item, saved-AllFit, stored_counted, stored_elsewhere, start-IsBefore,
}

-- What a count reports and publishes, from the levels before it.
abbrev pub report_at : CountItem → (before : ℕ) → CountResult
report_at c before = record {
  sku = c.sku;
  location_id = c.location_id;
  expected = before;
  actual = pos_part c.actual_quantity;
  variance = sub_ℕ (pos_part c.actual_quantity) before;
}

abbrev pub reported : Items → CountItem → CountResult
reported items c = report_at c (stock_at c.sku c.location_id items).on_hand

abbrev pub event_at : CountItem → (sku location before : ℕ) → Event
event_at c sku location before =
    let actual = pos_part c.actual_quantity in
    inventory_reconciled sku location before actual (sub_ℕ actual before)

abbrev pub reconciled : Items → CountItem → Event
reconciled items c = event_at c c.sku c.location_id (stock_at c.sku c.location_id items).on_hand

event_same :
    (c : CountItem) (k l n n' : ℕ)
    → k ≡ c.sku
    → l ≡ c.location_id
    → n ≡ n'
    → event_at c k l n ≡ event_at c c.sku c.location_id n'
event_same c k l n n' p q r =
    ap (λ j. event_at c j l n) p
    ∙ ap (λ j. event_at c c.sku j n) q
    ∙ ap (event_at c c.sku c.location_id) r

one_event :
    (es rest rest' : List Event) (e e' : Event)
    → es ≡ []
    → e ≡ e'
    → rest ≡ rest'
    → (es ++ (e ∷ [])) ++ rest ≡ e' ∷ rest'
one_event es rest rest' e e' p q r = rw (p, q, r) refl

abbrev recount : ℕ → Levels → Levels
recount n l = record l { on_hand = n }

-- Every counted place has the counted number on hand, reserved and incoming as before; every other
-- place has what it had; one event is published for each count.
pub record Recounts (counts : List CountItem) (s s' : Store) : Type 0 where
  pub there :
      All
        (λ c.
          stock_at c.sku c.location_id s'.items
          ≡ record (stock_at c.sku c.location_id s.items) { on_hand = pos_part c.actual_quantity })
        counts
  pub elsewhere :
      (k l : ℕ)
      → All (λ c. (c.sku == k && c.location_id == l) ≡ false) counts
      → find_by_sku_and_location k l s'.items ≡ find_by_sku_and_location k l s.items
  pub valid : IsValid s'.items
  pub published : s'.published ≡ s.published ++ map (reconciled s.items) counts

module _ (uuid : (sku location : ℕ) → ℕ) (s : Store) (v : IsValid s.items)
    (fresh : (sku location : ℕ) → lookup (uuid sku location) s.items ≡ none)
    (unique : (sku location k l : ℕ)
      → uuid sku location ≡ uuid k l
      → (sku ≡ k) × (location ≡ l)) where
  abbrev kept_item : CountItem → InventoryItem
  kept_item = counted_item uuid s.items v fresh unique

  counted_levels :
      (c : CountItem)
      → levels (kept_item c)
        ≡ record (stock_at c.sku c.location_id s.items) { on_hand = pos_part c.actual_quantity }
  unfolding saved_item after_count reconcile_stock
  counted_levels c = ap (recount (pos_part c.actual_quantity)) (ready uuid s.items v fresh c).stands

  counted_report : (c : CountItem) → report c (item_of uuid s.items v fresh c) ≡ reported s.items c
  unfolding report
  counted_report c = ap (report_at c) (ap (λ l. l.on_hand) (ready uuid s.items v fresh c).stands)

  counted_reports :
      (counts : List CountItem)
      → map (λ c. report c (item_of uuid s.items v fresh c)) counts ≡ map (reported s.items) counts
  counted_reports [] = refl
  counted_reports (c ∷ counts) = rw (counted_report c, counted_reports counts) refl

  counted_events :
      (counts : List CountItem)
      → item_events (map kept_item counts) ≡ map (reconciled s.items) counts
  unfolding saved_item after_count reconcile_stock
  counted_events [] = refl
  counted_events (c ∷ counts) =
      let r = ready uuid s.items v fresh c in
      one_event _ _ _ _ _ r.quiet
        (event_same c _ _ _ _ r.place.0 r.place.1 (ap (λ l. l.on_hand) r.stands))
        (counted_events counts)

  recounted :
      (counts : List CountItem) (d : IsDistinct counts)
      → Recounts counts s (record {
        items = insert_all (map kept_item counts) s.items;
        published = s.published ++ item_events (map kept_item counts);
      })
  recounted counts d =
      let fits = saved-AllFit uuid s.items v fresh unique counts d in
      record {
        there =
            All-both _ _ _ counts
              (λ c e f.
                ap levels_of (find-insert_all c.sku c.location_id _ s.items fits ∙ e)
                ∙ counted_levels c)
              (stored_counted uuid s.items v fresh unique counts d)
              (stored_counted uuid s.items v fresh unique counts d);
        elsewhere = λ k l n.
            find-insert_all k l _ s.items fits
            ∙ stored_elsewhere uuid s.items v fresh unique k l counts n;
        valid = insert_all-IsValid _ s.items fits v;
        published = ap (λ es. s.published ++ es) (counted_events counts);
      }

-- Counts of distinct places, none of them negative, of SKUs in the form that `Sku` stores, that pass the check of the capacity and that the
-- approval service does not intercept, on a valid repository and with identifiers that are new and
-- differ: the submission returns the reports of the counts in order; every counted place then has the
-- counted number on hand, and reserved and incoming as before; every other place has what it had; the
-- repository is valid; one event is published for each count.
pub execute_submit_count-Recounts :
    (capacity : Option WmsCapacityService) (approval : Option Interception)
    (uuid : (sku location : ℕ) → ℕ) (counts : List CountItem) (s : Store)
    → IsValid s.items
    → ((sku location : ℕ) → lookup (uuid sku location) s.items ≡ none)
    → ((sku location k l : ℕ) → uuid sku location ≡ uuid k l → (sku ≡ k) × (location ≡ l))
    → IsDistinct counts
    → All (λ c. ltb_ℤ c.actual_quantity (pos 0) ≡ false) counts
    → All (λ c. new_sku c.sku ≡ some c.sku) counts
    → check_locations capacity (counts_by_location counts []) s.items ≡ ok tt
    → ((total : ℕ) → ask_approval approval total counts ≡ ok tt)
    → (s' : Store) × (execute_submit_count capacity approval uuid counts s
        ≡ (ok (map (reported s.items) counts), s'))
      × Recounts counts s s'
unfolding execute_submit_count
execute_submit_count-Recounts capacity approval uuid [] s v fresh unique d n stored room free = (
  s,
  refl,
  record {
    there = tt;
    elsewhere = λ k l h. refl;
    valid = v;
    published = sym (append_nil s.published);
  },
)
execute_submit_count-Recounts capacity approval uuid (c ∷ rest) s v fresh unique d n stored room
      free =
    let counts = c ∷ rest in
    let (w, e, saves, reports) =
      count_each-ok uuid s.items v fresh counts _ d n stored
        (start-IsBefore uuid s.items v fresh unique counts) in
    let all_saved =
      save_batch-AllFit _ s.items (saved-AllFit uuid s.items v fresh unique counts d) in
    (
      _,
      rw
          (
            room,
            e,
            free w.total_absolute_variance,
            saves,
            all_saved,
            reports ∙ counted_reports uuid s v fresh unique counts,
          )
          refl,
      recounted uuid s v fresh unique counts d,
    )
