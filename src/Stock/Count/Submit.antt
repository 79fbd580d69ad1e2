-- ===== src/Stock/Count/Submit.antt =====
-- `SubmitInventoryCountUseCase.execute`.
use gql_ddd_inventory.Prelude.{
  ℕ, Option, none, some, List, [], ◌∷◌, ◌++◌, map, Result, ok, err, ltb, if◌then◌else◌,
}
use gql_ddd_inventory.Prelude.Methods.{Method, ◌>>=◌, ◌>>◌, return, this, assign, lift}
use gql_ddd_inventory.Stock.Item.{InventoryItem, Event}
use gql_ddd_inventory.Stock.Repository.{find_by_sku_and_location_batch, save_batch}
use gql_ddd_inventory.Stock.Capacity.{WmsCapacityService}
use gql_ddd_inventory.Stock.UseCases.{Store, StockUseCaseError, requires_approval, on_items}
use gql_ddd_inventory.Stock.Count.{
  CountItem, CountResult, counts_by_location, check_locations, hold_all, Counting, count_each,
}

-- What a tenant's approval service answers for a total of variances: the request that it opens, where
-- it intercepts.
abbrev pub Interception : Type 0
Interception = (total : ℕ) → List CountItem → Option ℕ

abbrev pub answer : Option ℕ → Result StockUseCaseError (Unit {0})
answer none = ok tt
answer (some request) = err (requires_approval request)

-- `approvalService && tenantId && actorId && totalAbsoluteVariance > 0`
abbrev pub ask_approval :
    Option Interception → (total : ℕ) → List CountItem → Result StockUseCaseError (Unit {0})
ask_approval none total counts = ok tt
ask_approval (some intercept) total counts =
    if ltb 0 total then answer (intercept total counts) else ok tt

abbrev pub item_events : List InventoryItem → List Event
item_events [] = []
item_events (item ∷ items) = item.domain_events ++ item_events items

-- The counts, the maps before the loop.
abbrev pub start : List InventoryItem → Counting
start existing = record {
  items_map = hold_all existing [];
  items_to_save = [];
  total_absolute_variance = 0;
  results = [];
}

unfoldable pub execute_submit_count :
    Option WmsCapacityService
    → Option Interception
    → (uuid : (sku location : ℕ) → ℕ) → List CountItem
    → Method Store StockUseCaseError (List CountResult)
execute_submit_count capacity approval uuid [] = return []
execute_submit_count capacity approval uuid (c ∷ rest) = do
  s ← this
  let counts = c ∷ rest
  lift (check_locations capacity (counts_by_location counts []) s.items)
  let pairs = map (λ c. (c.sku, c.location_id)) counts
  w ← lift (count_each uuid counts (start (find_by_sku_and_location_batch pairs s.items)))
  lift (ask_approval approval w.total_absolute_variance counts)
  on_items (save_batch w.items_to_save)
  s' ← this
  assign (record s' { published = s'.published ++ item_events w.items_to_save })
  return w.results
