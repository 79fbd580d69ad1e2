-- ===== src/Costing/Repository.antt =====
-- src/infrastructure/persistence/PostgresInventoryCostLayerRepository.ts: rows under their identifiers.
-- Rows that compare as equal come in the order in which they are stored.
pub mod Loaded
pub mod Saving
use gql_ddd_inventory.Prelude.{
  ℕ, Bool, true, false, not, ◌&&◌, ◌||◌, Option, none, some, List, [], ◌∷◌, ◌==◌, ltb,
  if◌then◌else◌,
}
use gql_ddd_inventory.Prelude.Maps.{Map, insert, values}
use gql_ddd_inventory.Costing.Layer.{InventoryCostLayer}
use gql_ddd_inventory.Costing.Sort.{sort, received_before, received_after, expires_before}

abbrev pub Rows : Type 0
Rows = Map InventoryCostLayer

-- `received_at ASC`, `received_at DESC` and `expiration_date ASC`.
pub data OrderBy : Type 0 where
  received_ascending received_descending expiration_ascending : OrderBy

-- The order of a query; equal expiry dates are ordered by receipt, and rows without one come last.
abbrev pub comes_before : OrderBy → InventoryCostLayer → InventoryCostLayer → Bool
comes_before received_ascending a b = received_before a b
comes_before received_descending a b = received_after a b
comes_before expiration_ascending a b =
    expires_before a b || (not (expires_before b a) && received_before a b)

-- The `where` of the query.
abbrev pub is_active : (variant : ℕ) → InventoryCostLayer → Bool
is_active variant l = l.variant_id == variant && ltb l.consumed_quantity l.initial_quantity

unfoldable pub select :
    (InventoryCostLayer → Bool) → List InventoryCostLayer → List InventoryCostLayer
select p [] = []
select p (l ∷ ls) = let rest = select p ls in if p l then l ∷ rest else rest

unfoldable pub get_active_layers : (variant : ℕ) → OrderBy → Rows → List InventoryCostLayer
get_active_layers variant order rows =
    sort (comes_before order) (select (is_active variant) (values rows))

-- The batch upsert. The fields that it does not update are read-only.
unfoldable pub save_batch : List InventoryCostLayer → Rows → Rows
save_batch [] rows = rows
save_batch (l ∷ ls) rows = save_batch ls (insert l.id l rows)
