-- ===== src/Approval/Service/Decisions.antt =====
-- What a decision does, on every request that the repository may hold.
use gql_ddd_inventory.Prelude.{
  ℕ, ◌≡◌, refl, false, Option, none, some, [], ◌∷◌, ◌++◌, ok, err, arith, get_elem?, ◌⊎◌, inl, inr,
  Bool-cases, Result,
}
use gql_ddd_inventory.Prelude.Methods.{kept}
use gql_ddd_inventory.Prelude.Maps.{insert}
use gql_ddd_inventory.Approval.Workflow.{ApprovalWorkflow, ApprovalStepConfig}
use gql_ddd_inventory.Approval.Request.{
  ApprovalRequest, ApprovalRequestStatus, pending, ApprovalDecisionRecord, Decision, approves,
  rejects, cannot_approve, cannot_reject, approve, reject, is_exactly_pending, RequestError,
}
use gql_ddd_inventory.Approval.Service.{
  Repository, ServiceError, request_not_found, request_error, loaded_request, process_decision,
  events_of, decide, decision_at,
}

-- How a decision leaves the repository.
abbrev pub Decided :
    Option (ApprovalRequest × ApprovalWorkflow)
    → (id decider : ℕ) → Repository
    → Result ServiceError ApprovalRequestStatus × Repository
    → Type 0
Decided none id decider repo (r, repo') = (r ≡ err (request_not_found id)) × (repo' ≡ repo)
Decided (some (q, w)) id decider repo (r, repo') =
    ((q.status ≡ pending)
      × (q' : ApprovalRequest) × (d : ApprovalDecisionRecord) × (r ≡ ok q'.status)
      × (repo'.requests ≡ insert id q' repo.requests)
      × (repo'.workflows ≡ repo.workflows)
      × (repo'.dispatched ≡ repo.dispatched ++ events_of q' q'.status)
      × (q'.decisions ≡ q.decisions ++ (d ∷ []))
      × (d.step_index ≡ q.current_step)
      × (d.decider_id ≡ decider))
    ⊎ ((is_exactly_pending q.status ≡ false) × (e : ServiceError) × (r ≡ err e) × (repo' ≡ repo))

abbrev Settles :
    ApprovalDecisionRecord → ApprovalRequest → Result RequestError ApprovalRequest → Type 0
Settles d q r =
    ((q.status ≡ pending)
      × (q' : ApprovalRequest) × (r ≡ ok q')
      × (q'.decisions ≡ q.decisions ++ (d ∷ [])))
    ⊎ ((is_exactly_pending q.status ≡ false) × (e : RequestError) × (r ≡ err e))

approve-Settles :
    (d : ApprovalDecisionRecord) (n : ℕ) (q : ApprovalRequest)
    → d.step_index ≡ q.current_step
    → Settles d q (kept (approve d n q))
unfolding approve
approve-Settles d n q h = elim (Bool-cases (is_exactly_pending q.status)) [
  | inl e ↦ inl (ground arith, (approve d n q).1, ground arith, ground arith)
  | inr e ↦ inr (e, cannot_approve q.status, ground arith)
]

reject-Settles :
    (d : ApprovalDecisionRecord) (q : ApprovalRequest)
    → d.decision ≡ rejects
    → Settles d q (kept (reject d q))
unfolding reject
reject-Settles d q h = elim (Bool-cases (is_exactly_pending q.status)) [
  | inl e ↦ inl (ground arith, (reject d q).1, ground arith, ground arith)
  | inr e ↦ inr (e, cannot_reject q.status, ground arith)
]

decide-Settles :
    (id decider now : ℕ) (decision : Decision) (step : Option ApprovalStepConfig)
    (q : ApprovalRequest)
    → Settles
        (decision_at id decider now decision q)
        q
        (decide (decision_at id decider now decision q) step q)
decide-Settles id decider now approves step q = approve-Settles _ _ q refl
decide-Settles id decider now rejects step q = reject-Settles _ q refl

Decided-at :
    (loaded : Option (ApprovalRequest × ApprovalWorkflow)) (id decision_id decider now : ℕ)
    (decision : Decision) (repo : Repository)
    → loaded_request repo id ≡ loaded
    → Decided loaded id decider repo (process_decision id decision_id decider now decision repo)
unfolding process_decision
Decided-at none id decision_id decider now decision repo e = rw e (refl, refl)
Decided-at (some (q, w)) id decision_id decider now decision repo e =
    let d = decision_at decision_id decider now decision q in
    elim (decide-Settles decision_id decider now decision (get_elem? w.config.steps q.current_step)
      q) [
        | inl (p, q', r, l) ↦ rw (e, r) (inl (p, q', d, refl, refl, refl, refl, l, refl, refl))
        | inr (p, x, r) ↦ rw (e, r) (inr (p, request_error x, refl, refl))
      ]

-- A decision on a request that is not stored, or whose workflow is not, throws and changes nothing.
-- On a pending request it always returns: one decision of the decider at the current step is added
-- to the request, the request is stored, and the event of its new status, if it has one, is
-- dispatched. On any other request it throws and changes nothing.
pub process_decision-Decided :
    (id decision_id decider now : ℕ) (decision : Decision) (repo : Repository)
    → Decided
        (loaded_request repo id)
        id
        decider
        repo
        (process_decision id decision_id decider now decision repo)
process_decision-Decided id decision_id decider now decision repo =
    Decided-at (loaded_request repo id) id decision_id decider now decision repo refl
