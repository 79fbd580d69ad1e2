-- ===== src/Ledger/Opening.antt =====
-- src/domain/entities/StockOnboarding.ts, src/domain/valueObjects/StockOnboardingItem.ts,
-- src/domain/services/OpeningBalanceService.ts and src/application/useCases/SubmitOpeningBalance.ts:
-- the first quantities of the variants at a location. Amounts are whole numbers. The event of a
-- submission is left out: it stays in the onboarding, and nothing reads it.
pub mod Posted
use gql_ddd_inventory.Prelude.{
  ℕ, Bool, true, false, not, ◌&&◌, Option, none, some, List, [], ◌∷◌, ◌++◌, any, map, Result, ok,
  err, ◌==◌, if◌then◌else◌, ◌>>=◌, ◌>>◌, throw_if,
}
use gql_ddd_inventory.Prelude.Int.{ℤ, pos, ltb_ℤ, pos_part}
use gql_ddd_inventory.Prelude.Maps.{Map, lookup, insert, erase, get_or}
use gql_ddd_inventory.Ledger.Entry.{LedgerEntry, LedgerError, opening_balance, new_ledger_entry}

pub data OnboardingError : Type 0 where
  negative_quantity negative_cost already_submitted no_items not_submitted : OnboardingError
  balance_conflict : (variant location : ℕ) → OnboardingError
  of_entry : LedgerError → OnboardingError

pub record OnboardingItem : Type 0 where
  pub quantity : ℕ
  pub unit_cost_cents : ℕ

pub record OpeningBalancePosted : Type 0 where
  pub variant_id : ℕ
  pub quantity : ℕ
  pub onboarding_id : ℕ

-- The items are a map by variant.
pub record StockOnboarding : Type 0 where
  pub id : ℕ
  pub tenant_id : ℕ
  pub location_id : ℕ
  pub as_of_date : ℕ
  pub is_submitted : Bool
  pub items : Map OnboardingItem

-- `new StockOnboardingItem(variantId, quantity, unitCostCents)`
unfoldable pub new_onboarding_item : (quantity cost : ℤ) → Result OnboardingError OnboardingItem
new_onboarding_item quantity cost = do
  throw_if (ltb_ℤ quantity (pos 0)) negative_quantity
  throw_if (ltb_ℤ cost (pos 0)) negative_cost
  ok (record { quantity = pos_part quantity; unit_cost_cents = pos_part cost })

unfoldable pub set_item :
    (variant : ℕ) → (quantity cost : ℤ) → StockOnboarding → Result OnboardingError StockOnboarding
set_item variant quantity cost o = do
  throw_if o.is_submitted already_submitted
  item ← new_onboarding_item quantity cost
  ok (record o { items = insert variant item o.items })

unfoldable pub remove_item :
    (variant : ℕ) → StockOnboarding → Result OnboardingError StockOnboarding
remove_item variant o = do
  throw_if o.is_submitted already_submitted
  ok (record o { items = erase variant o.items })

abbrev pub is_empty_map : Map OnboardingItem → Bool
is_empty_map [] = true
is_empty_map (x ∷ m) = false

unfoldable pub submit_onboarding : StockOnboarding → Result OnboardingError StockOnboarding
submit_onboarding o = do
  throw_if o.is_submitted already_submitted
  throw_if (is_empty_map o.items) no_items
  ok (record o { is_submitted = true })

-- `hasAnyEntriesBatch`: false at every variant asked for, then true at those with an entry there.
unfoldable pub no_entries_yet : List ℕ → Map Bool → Map Bool
no_entries_yet [] m = m
no_entries_yet (v ∷ variants) m = no_entries_yet variants (insert v false m)

unfoldable pub mark_entries : List ℕ → (location : ℕ) → List LedgerEntry → Map Bool → Map Bool
mark_entries variants location [] m = m
mark_entries variants location (e ∷ entries) m = mark_entries variants location entries (
    if e.location_id == location && any (λ v. v == e.variant_id) variants
    then insert e.variant_id true m
    else m)

unfoldable pub has_any_entries_batch : List ℕ → (location : ℕ) → List LedgerEntry → Map Bool
has_any_entries_batch variants location entries =
    mark_entries variants location entries (no_entries_yet variants [])

-- The first pass: no variant has an entry yet.
unfoldable pub assert_no_entries :
    (location : ℕ) → Map Bool → Map OnboardingItem → Result OnboardingError (Unit {0})
assert_no_entries location has [] = ok tt
assert_no_entries location has ((v, item) ∷ items) = do
  throw_if (get_or (lookup v has) false) (balance_conflict v location)
  assert_no_entries location has items

abbrev raised : Result LedgerError LedgerEntry → Result OnboardingError LedgerEntry
raised (ok e) = ok e
raised (err e) = err (of_entry e)

abbrev pub entry_of_item :
    StockOnboarding → (actor variant : ℕ) → OnboardingItem → Result OnboardingError LedgerEntry
entry_of_item o actor variant item = raised (
    new_ledger_entry o.tenant_id o.location_id variant (pos item.quantity) opening_balance actor
      o.as_of_date (some o.id))

-- The second pass: an entry for each item.
unfoldable pub opening_entries :
    StockOnboarding → (actor : ℕ) → Map OnboardingItem → Result OnboardingError (List LedgerEntry)
opening_entries o actor [] = ok []
opening_entries o actor ((v, item) ∷ items) = do
  e ← entry_of_item o actor v item
  es ← opening_entries o actor items
  ok (e ∷ es)

-- The ledger, and the events that were dispatched.
pub record OpeningBooks : Type 0 where
  pub entries : List LedgerEntry
  pub dispatched : List OpeningBalancePosted

abbrev posted_event : (onboarding : ℕ) → ℕ × OnboardingItem → OpeningBalancePosted
posted_event onboarding (v, item) = record {
  variant_id = v;
  quantity = item.quantity;
  onboarding_id = onboarding;
}

-- A throw leaves the ledger as it was, since its only write comes last.
unfoldable pub process :
    StockOnboarding → (actor : ℕ) → OpeningBooks → Result OnboardingError OpeningBooks
process o actor books = do
  throw_if (not o.is_submitted) not_submitted
  let variants = map (λ x. x.0) o.items
  assert_no_entries o.location_id (has_any_entries_batch variants o.location_id books.entries)
      o.items
  es ← opening_entries o actor o.items
  ok (record {
    entries = books.entries ++ es;
    dispatched = books.dispatched ++ map (posted_event o.id) o.items;
  })

-- A line of the input: a variant, a quantity and a cost.
unfoldable pub set_items :
    List (ℕ × ℤ × ℤ) → StockOnboarding → Result OnboardingError StockOnboarding
set_items [] o = ok o
set_items ((variant, quantity, cost) ∷ lines) o = do
  o' ← set_item variant quantity cost o
  set_items lines o'

unfoldable pub execute_opening :
    (uuid tenant location as_of actor : ℕ)
    → List (ℕ × ℤ × ℤ)
    → OpeningBooks
    → Result OnboardingError OpeningBooks
execute_opening uuid tenant location as_of actor lines books = do
  o ← set_items lines (record {
    id = uuid;
    tenant_id = tenant;
    location_id = location;
    as_of_date = as_of;
    is_submitted = false;
    items = [];
  })
  o' ← submit_onboarding o
  process o' actor books
