-- ===== src/Purchase/CrossDock.antt =====
-- src/domain/services/CrossDockingEngine.ts: what an arrival gives to the orders that wait for it. The
-- list of a variant is sorted again for each arrival; that it is sorted in place does not show, since
-- sorting twice is sorting once.
pub mod Filling
use gql_ddd_inventory.Prelude.{
  ℕ, ◌+◌, ◌-◌, min, Bool, Option, none, some, List, [], ◌∷◌, ◌++◌, ltb, leb, if◌then◌else◌,
}
use gql_ddd_inventory.Prelude.Maps.{Map, lookup, insert, get_or}
use gql_ddd_inventory.Costing.Sort.{sort}

pub record InboundItem : Type 0 where
  pub variant_id : ℕ
  pub quantity : ℕ

pub record Backorder : Type 0 where
  pub order_id : ℕ
  pub variant_id : ℕ
  pub quantity : ℕ
  pub priority : Option ℕ

pub record Assignment : Type 0 where
  pub order_id : ℕ
  pub required_quantity : ℕ
  pub priority : ℕ

pub record CrossDockOpportunity : Type 0 where
  pub purchase_order_id : ℕ
  pub variant_id : ℕ
  pub inbound_quantity : ℕ
  pub matching_backorders : List Assignment
  pub recommended_quantity : ℕ

unfoldable pub backorders_by_variant : List Backorder → Map (List Backorder) → Map (List Backorder)
backorders_by_variant [] m = m
backorders_by_variant (b ∷ backorders) m =
    let list = get_or (lookup b.variant_id m) [] in
    backorders_by_variant backorders (insert b.variant_id (list ++ (b ∷ [])) m)

-- `(b.priority ?? 0) - (a.priority ?? 0)`: the higher priority comes first.
abbrev pub comes_first : Backorder → Backorder → Bool
comes_first a b = ltb (get_or b.priority 0) (get_or a.priority 0)

-- The loop over the sorted list: the assignments, and what remains of the arrival.
unfoldable pub assign_each : List Backorder → ℕ → List Assignment × ℕ
assign_each [] remaining = ([], remaining)
assign_each (b ∷ backorders) remaining =
    let assigned = min remaining b.quantity in
    let (rest, left) = assign_each backorders (remaining - assigned) in
    if leb remaining 0 then ([], remaining) else (
      record { order_id = b.order_id; required_quantity = assigned; priority = get_or b.priority 1 }
          ∷ rest,
      left,
    )

-- `if (matching && matching.length > 0)`
unfoldable pub opportunity :
    (purchase_order : ℕ) → InboundItem → Option (List Backorder) → List CrossDockOpportunity
opportunity purchase_order item none = []
opportunity purchase_order item (some []) = []
opportunity purchase_order item (some (b ∷ matching)) =
    let (assigned, left) = assign_each (sort comes_first (b ∷ matching)) item.quantity in
    record {
      purchase_order_id = purchase_order;
      variant_id = item.variant_id;
      inbound_quantity = item.quantity;
      matching_backorders = assigned;
      recommended_quantity = item.quantity - left;
    }
    ∷ []

unfoldable pub opportunities :
    (purchase_order : ℕ) → List InboundItem → Map (List Backorder) → List CrossDockOpportunity
opportunities purchase_order [] by_variant = []
opportunities purchase_order (item ∷ items) by_variant =
    opportunity purchase_order item (lookup item.variant_id by_variant)
    ++ opportunities purchase_order items by_variant

unfoldable pub evaluate :
    (purchase_order : ℕ) → List InboundItem → List Backorder → List CrossDockOpportunity
evaluate purchase_order items backorders =
    opportunities purchase_order items (backorders_by_variant backorders [])
