-- ===== src/Kit/Tests.antt =====
-- Kits built by a few calls.
use gql_ddd_inventory.Prelude.{◌≡◌, refl, false, [], ◌∷◌}
use gql_ddd_inventory.Prelude.Int.{pos, negsuc, ◌+ℤ◌}
use gql_ddd_inventory.Prelude.Methods.{returned}
use gql_ddd_inventory.Kit.{
  Kit, new_kit, new_component, find_component, replace_component, remove_first, add_component,
  remove_component,
}
use gql_ddd_inventory.Kit.Reachable.{
  Reachable, Reachable.created, Reachable.acted, Reachable-IsValidKit, IsValidKit, act, adds,
  removes,
}

-- Two of variant 1, three of variant 2, then one more of variant 1, and none of variant 2.
abbrev toolbox : Kit
toolbox =
    (act (removes 2)
      (act (adds 1 (pos 1)) (act (adds 2 (pos 3)) (act (adds 1 (pos 2)) (new_kit 7 70)).1).1).1).1

toolbox_test : toolbox.components ≡ (record { variant_id = 1; quantity = 3 }) ∷ []
unfolding add_component remove_component find_component replace_component remove_first new_component
    ◌+ℤ◌
toolbox_test = refl

negative_test : returned (act (adds 1 (negsuc 2)) toolbox) ≡ false
unfolding add_component remove_component find_component replace_component remove_first new_component
    ◌+ℤ◌
negative_test = refl

toolbox-Reachable : Reachable toolbox
toolbox-Reachable =
    acted (acted (acted (acted (created 7 70) (adds 1 (pos 2))) (adds 2 (pos 3))) (adds 1 (pos 1)))
      (removes 2)

Reachable-IsValidKit_example : IsValidKit toolbox
Reachable-IsValidKit_example = Reachable-IsValidKit toolbox-Reachable
