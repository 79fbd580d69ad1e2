-- ===== src/Approval/Service.antt =====
-- src/domain/services/ApprovalWorkflowService.ts over its repository, whose writes are those of
-- src/infrastructure/persistence/PostgresApprovalWorkflowRepository.ts. The event dispatcher is present;
-- what it was given is a list. Times are milliseconds.
pub mod Decisions
pub mod Sweep
mod Tests
use gql_ddd_inventory.Prelude.{
  ℕ, ◌+◌, ◌*◌, ◌≡◌, Bool, true, false, not, ◌&&◌, Option, none, some, List, [], ◌∷◌, ◌++◌, ltb,
  length, get_elem?, if◌then◌else◌, Result, ok, err, or_throw,
}
use gql_ddd_inventory.Prelude.Maps.{Map, lookup, insert}
use gql_ddd_inventory.Prelude.Methods.{Method, ◌>>=◌, ◌>>◌, return, this, assign, lift, kept}
use gql_ddd_inventory.Approval.Workflow.{
  ApprovalWorkflow, ApprovalStepConfig, Payload, should_trigger, get_step,
}
use gql_ddd_inventory.Approval.Request.{
  ApprovalRequest, ApprovalRequestStatus, pending, approved, rejected, ApprovalDecisionRecord,
  Decision, approves, rejects, RequestError, approve, reject, escalate, is_pending,
}

pub data ServiceError : Type 0 where
  request_not_found : ℕ → ServiceError
  request_error : RequestError → ServiceError

pub data ApprovalEvent : Type 0 where
  request_approved request_rejected : (request tenant : ℕ) → ApprovalEvent

pub record Repository : Type 0 where
  pub workflows : Map ApprovalWorkflow
  pub requests : Map ApprovalRequest
  pub dispatched : List ApprovalEvent

abbrev pub Service : Type 0 → Type 0
Service A = Method Repository ServiceError A

abbrev of_request : Result RequestError ApprovalRequest → Result ServiceError ApprovalRequest
of_request (ok r) = ok r
of_request (err e) = err (request_error e)

-- When a step that starts now runs out: never, where its timeout is 0 or the step is not there.
abbrev pub expiry : (now : ℕ) → Option ApprovalStepConfig → Option ℕ
expiry now none = none
expiry now (some step) =
    if ltb 0 step.timeout_hours then some (now + step.timeout_hours * 60 * 60 * 1000) else none

abbrev pub required_of : Option ApprovalStepConfig → ℕ
required_of none = 1
required_of (some step) = step.required_count

-- `evaluateAndIntercept`, from the workflow that `findWorkflowByTrigger` found.
unfoldable pub evaluate_and_intercept :
    (uuid now requester : ℕ) → Option ApprovalWorkflow → Payload → Service (Option ℕ)
evaluate_and_intercept uuid now requester none payload = return none
evaluate_and_intercept uuid now requester (some w) payload =
    if not (should_trigger w payload) then return none else do
      repo ← this
      assign (record repo {
        requests =
            insert uuid
              (record {
                id = uuid;
                tenant_id = w.tenant_id;
                workflow_id = w.id;
                requester_id = requester;
                total_steps = length w.config.steps;
                status = pending;
                current_step = 0;
                decisions = [];
                expires_at = expiry now (get_step w 0);
              })
              repo.requests;
      })
      return (some uuid)

abbrev pub decide :
    ApprovalDecisionRecord
    → Option ApprovalStepConfig
    → ApprovalRequest
    → Result RequestError ApprovalRequest
decide d step r = elim d.decision [
  | rejects ↦ kept (reject d r)
  | approves ↦ kept (approve d (required_of step) r)
]

abbrev pub events_of : ApprovalRequest → ApprovalRequestStatus → List ApprovalEvent
events_of r approved = request_approved r.id r.tenant_id ∷ []
events_of r rejected = request_rejected r.id r.tenant_id ∷ []
events_of r _ = []

-- The workflow of a stored request, with which it is loaded.
abbrev pub loaded_request : Repository → ℕ → Option (ApprovalRequest × ApprovalWorkflow)
loaded_request repo id = elim (lookup id repo.requests) [
  | none ↦ none
  | some r ↦ elim (lookup r.workflow_id repo.workflows) [
    | none ↦ none
    | some w ↦ some (record r { total_steps = length w.config.steps }, w)
  ]
]

-- The record of a decision, always at the step where the request stands.
abbrev pub decision_at : (id decider now : ℕ) → Decision → ApprovalRequest → ApprovalDecisionRecord
decision_at id decider now decision r = record {
  id = id;
  step_index = r.current_step;
  decider_id = decider;
  decision = decision;
  decided_at = now;
}

unfoldable pub process_decision :
    (request_id decision_id decider now : ℕ) → Decision → Service ApprovalRequestStatus
process_decision id decision_id decider now decision = do
  repo ← this
  both ← lift (or_throw (loaded_request repo id) (request_not_found id))
  let r = both.0
  let d = decision_at decision_id decider now decision r
  r' ← lift (of_request (decide d (get_elem? both.1.config.steps r.current_step) r))
  assign (record repo {
    requests = insert id r' repo.requests;
    dispatched = repo.dispatched ++ events_of r' r'.status;
  })
  return r'.status

-- A stale request after its escalation, as `updateApprovalRequest` stores it.
abbrev pub renewed : (now : ℕ) → ApprovalWorkflow → ApprovalRequest → ApprovalRequest
renewed now w r = record r {
  expires_at = if is_pending r then expiry now (get_elem? w.config.steps r.current_step) else none;
}

-- The loop of `checkExpiredRequests` over what `findStaleRequests` returned, with the count so far. It
-- passes over a record whose workflow is gone, which the list leaves out.
unfoldable pub check_expired_requests :
    (now : ℕ) → List (ApprovalRequest × ApprovalWorkflow) → (processed : ℕ) → Service ℕ
check_expired_requests now [] processed = return processed
check_expired_requests now ((r, w) ∷ stale) processed = do
  r' ← lift (of_request (kept (escalate (record r { total_steps = length w.config.steps }))))
  repo ← this
  assign (record repo { requests = insert r.id (renewed now w r') repo.requests })
  check_expired_requests now stale (processed + 1)
