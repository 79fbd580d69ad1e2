-- ===== src/Approval/Workflow/Tests.antt =====
-- A workflow for purchases from 50,000 cents on.
use gql_ddd_inventory.Prelude.{◌≡◌, refl, true, false, none, some, [], ◌∷◌, ◌↔◌, All}
use gql_ddd_inventory.Prelude.Int.{pos}
use gql_ddd_inventory.Approval.Workflow.{
  ApprovalWorkflow, Payload, at_least, should_trigger, Meets, should_trigger-Meets,
}

abbrev purchases : ApprovalWorkflow
purchases = record {
  id = 1;
  tenant_id = 1;
  trigger_event = some 3;
  is_active = true;
  config = record {
    thresholds = record { field = 0; operator = at_least; value = pos 50000 } ∷ [];
    steps = record { approver_roles = 2 ∷ []; required_count = 2; timeout_hours = 24 } ∷ [];
  };
}

abbrev large : Payload
large field = some (pos 60000)

abbrev empty : Payload
empty field = none

large_test : should_trigger purchases large ≡ true
unfolding should_trigger
large_test = refl

empty_test : should_trigger purchases empty ≡ false
unfolding should_trigger
empty_test = refl

should_trigger-Meets_example :
    (should_trigger purchases large ≡ true)
    ↔ ((purchases.is_active ≡ true) × All (Meets large) purchases.config.thresholds)
should_trigger-Meets_example = should_trigger-Meets purchases large
