-- ===== src/Approval/Request/Tests.antt =====
-- A request with two steps, two approvals at the first and one at the second.
use gql_ddd_inventory.Prelude.{ℕ, zero, suc, ◌≡◌, ◌≤◌, ◌<◌, refl, false, none, [], arith}
use gql_ddd_inventory.Approval.Request.{
  ApprovalRequest, ApprovalDecisionRecord, pending, approved, escalated, expired, approves, approve,
  escalate, is_pending, approvals,
}
use gql_ddd_inventory.Approval.Request.Laws.{
  approves_with, act, Required, Reachable, fresh, acted, approved-HasApprovals,
}

abbrev order_request : ApprovalRequest
order_request = record {
  id = 1;
  tenant_id = 1;
  workflow_id = 1;
  requester_id = 9;
  total_steps = 2;
  status = pending;
  current_step = 0;
  decisions = [];
  expires_at = none;
}

abbrev two_then_one : Required
two_then_one zero = 2
two_then_one (suc n) = 1

abbrev approval : (step decider : ℕ) → ApprovalDecisionRecord
approval step decider = record {
  id = decider;
  step_index = step;
  decider_id = decider;
  decision = approves;
  decided_at = 0;
}

abbrev by : ApprovalDecisionRecord → ApprovalRequest → ApprovalRequest
by d r = (act two_then_one (approves_with d) r).1

abbrev granted : ApprovalRequest
granted = by (approval 1 5) (by (approval 0 4) (by (approval 0 3) order_request))

two_steps : 0 < 2
two_steps = omega arith

granted-Reachable : Reachable two_then_one granted
granted-Reachable = acted (approves_with (approval 1 5)) (
    acted (approves_with (approval 0 4))
      (acted (approves_with (approval 0 3)) (fresh (refl, refl, two_steps))))

granted_is_approved : granted.status ≡ approved
unfolding approve
granted_is_approved = refl

granted_has_steps : 0 < granted.total_steps
unfolding approve
granted_has_steps = omega arith

approved-HasApprovals_example : 2 ≤ approvals 0 granted.decisions
approved-HasApprovals_example =
    approved-HasApprovals two_then_one granted-Reachable granted_is_approved 0 granted_has_steps

abbrev waiting : ApprovalRequest
waiting = record order_request { status = escalated; current_step = 1 }

escalation_test : (escalate order_request).1 ≡ waiting
unfolding escalate
escalation_test = refl

abbrev closed : ApprovalRequest
closed = record order_request { status = expired }

closed_is_not_pending : is_pending closed ≡ false
unfolding is_pending
closed_is_not_pending = refl
