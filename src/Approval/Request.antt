-- ===== src/Approval/Request.antt =====
-- src/domain/entities/ApprovalRequest.ts: a request for approval and its state machine.
pub mod Laws
mod Tests
use gql_ddd_inventory.Prelude.{
  ℕ, suc, ◌+◌, Bool, true, false, not, ◌&&◌, ◌||◌, Option, none, some, List, [], ◌∷◌, ◌++◌, ◌==◌,
  leb, if◌then◌else◌,
}
use gql_ddd_inventory.Prelude.Methods.{Method, ◌>>=◌, ◌>>◌, this, assign, reject_if}

pub data ApprovalRequestStatus : Type 0 where
  pending approved rejected escalated expired : ApprovalRequestStatus

pub data Decision : Type 0 where
  approves rejects : Decision

pub record ApprovalDecisionRecord : Type 0 where
  pub id : ℕ
  pub step_index : ℕ
  pub decider_id : ℕ
  pub decision : Decision
  pub decided_at : ℕ

pub record ApprovalRequest : Type 0 where
  pub id : ℕ
  pub tenant_id : ℕ
  pub workflow_id : ℕ
  pub requester_id : ℕ
  pub total_steps : ℕ
  pub status : ApprovalRequestStatus
  pub current_step : ℕ
  pub decisions : List ApprovalDecisionRecord
  pub expires_at : Option ℕ

pub data RequestError : Type 0 where
  cannot_approve cannot_reject cannot_escalate cannot_expire : ApprovalRequestStatus → RequestError
  wrong_step : (decided current : ℕ) → RequestError
  not_a_rejection : RequestError

abbrev pub is_exactly_pending : ApprovalRequestStatus → Bool
is_exactly_pending pending = true
is_exactly_pending _ = false

abbrev pub is_escalated : ApprovalRequestStatus → Bool
is_escalated escalated = true
is_escalated _ = false

abbrev pub is_approval : Decision → Bool
is_approval approves = true
is_approval rejects = false

-- The approvals of a step among the decisions.
abbrev pub approvals : ℕ → List ApprovalDecisionRecord → ℕ
approvals step [] = 0
approvals step (d ∷ ds) =
    (if d.step_index == step && is_approval d.decision then 1 else 0) + approvals step ds

abbrev pub Call : Type 0
Call = Method ApprovalRequest RequestError (Unit {0})

-- What `approve` does once the approvals of the step suffice.
abbrev pub advance : ApprovalRequest → ApprovalRequest
advance r =
    if leb r.total_steps (r.current_step + 1)
    then record r { status = approved }
    else record r { current_step = r.current_step + 1 }

unfoldable pub approve : ApprovalDecisionRecord → (required_count : ℕ) → Call
approve decision required = do
  r ← this
  reject_if (not (is_exactly_pending r.status)) (cannot_approve r.status)
  reject_if (not (decision.step_index == r.current_step))
      (wrong_step decision.step_index r.current_step)
  let r' = record r { decisions = r.decisions ++ (decision ∷ []) }
  assign (if leb required (approvals r.current_step r'.decisions) then advance r' else r')

unfoldable pub reject : ApprovalDecisionRecord → Call
reject decision = do
  r ← this
  reject_if (not (is_exactly_pending r.status)) (cannot_reject r.status)
  reject_if (is_approval decision.decision) not_a_rejection
  assign (record r { decisions = r.decisions ++ (decision ∷ []); status = rejected })

unfoldable pub escalate : Call
escalate = do
  r ← this
  reject_if (not (is_exactly_pending r.status)) (cannot_escalate r.status)
  assign (
      if leb r.total_steps (r.current_step + 1)
      then record r { status = expired }
      else record r { current_step = r.current_step + 1; status = escalated })

unfoldable pub expire : Call
expire = do
  r ← this
  reject_if (not (is_exactly_pending r.status) && not (is_escalated r.status))
      (cannot_expire r.status)
  assign (record r { status = expired })

-- The getter `isPending`.
unfoldable pub is_pending : ApprovalRequest → Bool
is_pending r = is_exactly_pending r.status || is_escalated r.status
