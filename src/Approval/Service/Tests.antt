-- ===== src/Approval/Service/Tests.antt =====
-- A repository with one workflow and one request.
use gql_ddd_inventory.Prelude.{◌≡◌, refl, true, some, [], ◌∷◌, ok, err}
use gql_ddd_inventory.Prelude.Int.{pos}
use gql_ddd_inventory.Prelude.Maps.{lookup}
use gql_ddd_inventory.Approval.Workflow.{ApprovalWorkflow, Payload, at_least, should_trigger}
use gql_ddd_inventory.Approval.Request.{
  ApprovalRequest, pending, approved, escalated, approves, approve, cannot_escalate,
}
use gql_ddd_inventory.Approval.Service.{
  Repository, loaded_request, process_decision, check_expired_requests, evaluate_and_intercept,
  request_error,
}
use gql_ddd_inventory.Approval.Service.Decisions.{Decided, process_decision-Decided}
use gql_ddd_inventory.Approval.Service.Sweep.{
  check_expired_requests-returns, check_expired_requests-stops, swept_requests,
}

abbrev purchases : ApprovalWorkflow
purchases = record {
  id = 4;
  tenant_id = 1;
  trigger_event = some 3;
  is_active = true;
  config = record {
    thresholds = record { field = 0; operator = at_least; value = pos 50000 } ∷ [];
    steps =
        record { approver_roles = 2 ∷ []; required_count = 1; timeout_hours = 24 }
        ∷ record { approver_roles = 3 ∷ []; required_count = 1; timeout_hours = 24 }
        ∷ [];
  };
}

abbrev waiting : ApprovalRequest
waiting = record {
  id = 8;
  tenant_id = 1;
  workflow_id = 4;
  requester_id = 9;
  total_steps = 2;
  status = pending;
  current_step = 1;
  decisions = [];
  expires_at = some 100;
}

abbrev bumped : ApprovalRequest
bumped = record waiting { id = 9; status = escalated }

abbrev office : Repository
office = record {
  workflows = (4, purchases) ∷ [];
  requests = (8, waiting) ∷ (9, bumped) ∷ [];
  dispatched = [];
}

abbrev large : Payload
large field = some (pos 60000)

intercept_test : (evaluate_and_intercept 20 0 9 (some purchases) large office).0 ≡ ok (some 20)
unfolding evaluate_and_intercept should_trigger
intercept_test = refl

final_approval_test : (process_decision 8 30 5 50 approves office).0 ≡ ok approved
unfolding process_decision approve lookup
final_approval_test = refl

process_decision-Decided_example :
    Decided (loaded_request office 8) 8 5 office (process_decision 8 30 5 50 approves office)
process_decision-Decided_example = process_decision-Decided 8 30 5 50 approves office

check_expired_requests-returns_example :
    (check_expired_requests 200 ((waiting, purchases) ∷ []) 0 office).0 ≡ ok 1
check_expired_requests-returns_example =
    check_expired_requests-returns 200 ((waiting, purchases) ∷ []) 0 office (refl, tt)

check_expired_requests-stops_example :
    check_expired_requests 200 ((waiting, purchases) ∷ (bumped, purchases) ∷ []) 0 office ≡ (
      err (request_error (cannot_escalate escalated)),
      record office { requests = swept_requests 200 ((waiting, purchases) ∷ []) office.requests },
    )
check_expired_requests-stops_example =
    check_expired_requests-stops 200 ((waiting, purchases) ∷ []) (bumped, purchases) [] 0 office
      (refl, tt) refl
