-- ===== src/Stock/Capacity.antt =====
-- src/domain/services/WMSCapacityService.ts: the check that a location can carry what it is to hold.
-- Weights and volumes are whole numbers of a unit. The catalogue's `findBySkus`, with the map of the
-- variants by SKU, and the warehouse's `findById` are given as functions: a
-- text has the variant whose stored SKU is that very text.
pub mod Load
pub mod Limits
use gql_ddd_inventory.Prelude.{
  ℕ, ◌+◌, ◌*◌, Bool, true, not, ◌&&◌, is_none, Option, none, some, List, [], ◌∷◌, Result, ok, ◌>>◌,
  throw_if, ltb, all, if◌then◌else◌,
}
use gql_ddd_inventory.Prelude.Int.{ℤ, pos, pos_part, ◌+ℤ◌, leb_ℤ}
use gql_ddd_inventory.Prelude.Maps.{Map, lookup, insert, get_or}
use gql_ddd_inventory.Stock.Sku.{new_sku}
use gql_ddd_inventory.Stock.Item.{InventoryItem}
use gql_ddd_inventory.Stock.Repository.{Items, find_by_location}

pub record Variant : Type 0 where
  pub weight_grams : Option ℕ
  pub volume_cubic_meters : Option ℕ

pub record WarehouseLocation : Type 0 where
  pub max_weight_grams : ℕ
  pub max_volume_cubic_meters : ℕ

pub data Mode : Type 0 where
  relative absolute : Mode

-- `WMSCapacityAdjustment`
pub record Adjustment : Type 0 where
  pub sku : ℕ
  pub mode : Mode
  pub quantity : ℤ

pub data Limit : Type 0 where
  weight volume : Limit

pub data CapacityError : Type 0 where
  malformed_sku : (text : ℕ) → CapacityError
  capacity_exceeded : (location : ℕ) → Limit → (allowed total : ℕ) → CapacityError

pub record WmsCapacityService : Type 0 where
  pub find_location : (location : ℕ) → Option WarehouseLocation
  pub find_variant : (sku : ℕ) → Option Variant

-- `quantityMap`, before the adjustments.
unfoldable pub quantity_map : List InventoryItem → Map ℤ → Map ℤ
quantity_map [] m = m
quantity_map (item ∷ items) m = quantity_map items (insert item.sku (pos item.quantity.amount) m)

abbrev pub adjusted : Mode → (current quantity : ℤ) → ℤ
adjusted relative current quantity = current +ℤ quantity
adjusted absolute current quantity = quantity

unfoldable pub apply_adjustments : List Adjustment → Map ℤ → Map ℤ
apply_adjustments [] m = m
apply_adjustments (a ∷ rest) m =
    let current = get_or (lookup a.sku m) (pos 0) in
    apply_adjustments rest (insert a.sku (adjusted a.mode current a.quantity) m)

-- `variant.weightGrams ?? 0`, and 0 where no variant is known.
abbrev pub measure_of : (Variant → Option ℕ) → Option Variant → ℕ
measure_of f none = 0
measure_of f (some variant) = get_or (f variant) 0

-- `totalWeight` and `totalVolume`: entries that are not above zero are passed over.
unfoldable pub total_of : (measure : ℕ → ℕ) → Map ℤ → ℕ
total_of measure [] = 0
total_of measure ((sku, quantity) ∷ m) =
    let rest = total_of measure m in
    if leb_ℤ quantity (pos 0) then rest else pos_part quantity * measure sku + rest

-- `new Sku(skuStr)` of every entry above zero.
unfoldable pub check_skus : Map ℤ → Result CapacityError (Unit {0})
check_skus [] = ok tt
check_skus ((sku, quantity) ∷ m) = do
  throw_if (not (leb_ℤ quantity (pos 0)) && is_none (new_sku sku)) (malformed_sku sku)
  check_skus m

module _ (service : WmsCapacityService) where
  abbrev pub weight_of : ℕ → ℕ
  weight_of sku = measure_of (λ v. v.weight_grams) (service.find_variant sku)

  abbrev pub volume_of : ℕ → ℕ
  volume_of sku = measure_of (λ v. v.volume_cubic_meters) (service.find_variant sku)

  -- `if (!location) return`, then the totals against the limits.
  abbrev pub check_limits :
      (location : ℕ) → Option WarehouseLocation → Map ℤ → Result CapacityError (Unit {0})
  check_limits location none m = ok tt
  check_limits location (some place) m =
      if all (λ (sku, quantity). leb_ℤ quantity (pos 0)) m then ok tt else do
        check_skus m
        throw_if (ltb place.max_weight_grams (total_of weight_of m))
            (capacity_exceeded location weight place.max_weight_grams (total_of weight_of m))
        throw_if (ltb place.max_volume_cubic_meters (total_of volume_of m))
            (capacity_exceeded location volume place.max_volume_cubic_meters (total_of volume_of m))

  unfoldable pub validate_capacity :
      (location : ℕ) → List Adjustment → Items → Result CapacityError (Unit {0})
  validate_capacity location adjustments items =
      check_limits location (service.find_location location)
        (apply_adjustments adjustments (quantity_map (find_by_location location items) []))
