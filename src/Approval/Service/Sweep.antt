-- ===== src/Approval/Service/Sweep.antt =====
-- The sweep of stale requests: as far as it gets, and where it stops.
use gql_ddd_inventory.Prelude.{
  ℕ, ◌+◌, ◌≡◌, refl, List, [], ◌∷◌, ◌++◌, ok, err, arith, length, All, ap, ◌∙◌, leb, if◌then◌else◌,
  none, Bool-cases, inl, inr, get_elem?,
}
use gql_ddd_inventory.Prelude.Maps.{Map, insert}
use gql_ddd_inventory.Prelude.Methods.{kept}
use gql_ddd_inventory.Approval.Workflow.{ApprovalWorkflow}
use gql_ddd_inventory.Approval.Request.{
  ApprovalRequest, pending, escalated, expired, cannot_escalate, escalate, is_pending,
}
use gql_ddd_inventory.Approval.Service.{
  Repository, request_error, check_expired_requests, renewed, expiry,
}

-- A stale request with its workflow.
abbrev pub Stale : Type 0
Stale = ApprovalRequest × ApprovalWorkflow

abbrev pub IsPending : Stale → Type 0
IsPending s = s.0.status ≡ pending

abbrev loaded : Stale → ApprovalRequest
loaded s = record (s.0) { total_steps = length s.1.config.steps }

-- A pending request after its escalation.
abbrev raised : ApprovalRequest → ApprovalRequest
raised r =
    if leb r.total_steps (r.current_step + 1)
    then record r { status = expired }
    else record r { current_step = r.current_step + 1; status = escalated }

escalate_pending : (r : ApprovalRequest) → r.status ≡ pending → kept (escalate r) ≡ ok (raised r)
unfolding escalate
escalate_pending r p = ground arith

escalate_escalated :
    (r : ApprovalRequest)
    → r.status ≡ escalated
    → kept (escalate r) ≡ err (cannot_escalate escalated)
unfolding escalate
escalate_escalated r p = ground arith

abbrev swept : (now : ℕ) → Stale → Repository → Repository
swept now s repo = record repo {
  requests = insert s.0.id (renewed now s.1 (raised (loaded s))) repo.requests;
}

sweep_one :
    (now : ℕ) (s : Stale) (rest : List Stale) (n : ℕ) (repo : Repository)
    → IsPending s
    → check_expired_requests now (s ∷ rest) n repo
      ≡ check_expired_requests now rest (n + 1) (swept now s repo)
unfolding check_expired_requests
sweep_one now s rest n repo p = rw (escalate_pending (loaded s) p) refl

-- A sweep of requests that are all pending returns, and counts each of them.
pub check_expired_requests-returns :
    (now : ℕ) (stale : List Stale) (n : ℕ) (repo : Repository)
    → All IsPending stale
    → (check_expired_requests now stale n repo).0 ≡ ok (n + length stale)
unfolding check_expired_requests
check_expired_requests-returns now [] n repo p = ap ok (omega arith)
check_expired_requests-returns now (s ∷ stale) n repo p =
    ap (λ out. out.0) (sweep_one now s stale n repo p.0)
    ∙ check_expired_requests-returns now stale (n + 1) (swept now s repo) p.1
    ∙ ap ok (omega arith)

-- A stale request as it is stored: past the last step it has expired, and else it stands at the next
-- step, escalated, with the deadline of that step.
abbrev pub swept_request : (now : ℕ) → Stale → ApprovalRequest
swept_request now (r, w) =
    let steps = w.config.steps in
    if leb (length steps) (r.current_step + 1)
    then record r { total_steps = length steps; status = expired; expires_at = none }
    else record r {
      total_steps = length steps;
      current_step = r.current_step + 1;
      status = escalated;
      expires_at = expiry now (get_elem? steps (r.current_step + 1));
    }

abbrev pub swept_requests : (now : ℕ) → List Stale → Map ApprovalRequest → Map ApprovalRequest
swept_requests now [] m = m
swept_requests now (s ∷ stale) m = swept_requests now stale (insert s.0.id (swept_request now s) m)

renewed-raised : (now : ℕ) (s : Stale) → renewed now s.1 (raised (loaded s)) ≡ swept_request now s
unfolding is_pending
renewed-raised now (r, w) = elim (Bool-cases (leb (length w.config.steps) (r.current_step + 1))) [
  | inl h ↦ rw h refl
  | inr h ↦ rw h refl
]

-- At the first escalated request that the sweep meets it throws: the pending requests before it have
-- been swept and stored, each as expired where it stood at the last step and else escalated to the next
-- step with the deadline of that, and nothing else is changed: it and all those after it are left as
-- they were.
pub check_expired_requests-stops :
    (now : ℕ) (before : List Stale) (s : Stale) (after : List Stale) (n : ℕ) (repo : Repository)
    → All IsPending before
    → s.0.status ≡ escalated
    → check_expired_requests now (before ++ (s ∷ after)) n repo ≡ (
      err (request_error (cannot_escalate escalated)),
      record repo { requests = swept_requests now before repo.requests },
    )
unfolding check_expired_requests
check_expired_requests-stops now [] s after n repo p e = rw (escalate_escalated (loaded s) e) refl
check_expired_requests-stops now (b ∷ before) s after n repo p e =
    sweep_one now b (before ++ (s ∷ after)) n repo p.0
    ∙ check_expired_requests-stops now before s after (n + 1) (swept now b repo) p.1 e
    ∙ ap
        (λ x. (
          err (request_error (cannot_escalate escalated)),
          record repo { requests = swept_requests now before (insert b.0.id x repo.requests) },
        ))
        (renewed-raised now b)
