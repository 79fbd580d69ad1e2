-- ===== src/Approval/Request/Laws.antt =====
-- The state machine of an approval request, and what an approved request has behind it.
use mathlib.Core.Path.{subst}
use gql_ddd_inventory.Prelude.{
  ℕ, ◌+◌, ◌≡◌, sym, ap, true, false, List, [], ◌∷◌, ◌++◌, leb, if◌then◌else◌, ◌≤◌, ◌<◌, arith, inl,
  inr, ◌⊎◌, Bool-cases,
}
use gql_ddd_inventory.Prelude.Methods.{returned}
use gql_ddd_inventory.Approval.Request.{
  ApprovalRequest, ApprovalDecisionRecord, ApprovalRequestStatus, pending, approved, escalated,
  expired, Call, approve, reject, escalate, expire, is_pending, approvals, is_exactly_pending,
  advance,
}

pub data Action : Type 0 where
  approves_with rejects_with : ApprovalDecisionRecord → Action
  times_out expires : Action

-- How many approvals each step asks for.
abbrev pub Required : Type 0
Required = ℕ → ℕ

-- The calls as the service makes them: an approval comes with the count of the current step.
abbrev pub act : Required → Action → Call
act required (approves_with d) r = approve d (required r.current_step) r
act required (rejects_with d) r = reject d r
act required times_out r = escalate r
act required expires r = expire r

-- A request as the service creates it.
abbrev pub IsFresh : ApprovalRequest → Type 0
IsFresh r = (r.status ≡ pending) × (r.current_step ≡ 0) × (0 < r.total_steps)

-- The requests that a fresh one becomes by calls that return or throw.
pub data Reachable (required : Required) : ApprovalRequest → Type 0 where
  fresh : {r : ApprovalRequest} → IsFresh r → Reachable required r
  acted :
      {r : ApprovalRequest} (a : Action)
      → Reachable required r
      → Reachable required (act required a r).1

abbrev HasPassed : Required → ApprovalRequest → ℕ → Type 0
HasPassed required r i = required i ≤ approvals i r.decisions

-- Which steps have their approvals, by the status.
abbrev Progress : ApprovalRequestStatus → Required → ApprovalRequest → Type 0
Progress pending required r = (i : ℕ) → i < r.current_step → HasPassed required r i
Progress approved required r = (i : ℕ) → i < r.total_steps → HasPassed required r i
Progress _ required r = Unit

record IsValid (required : Required) (r : ApprovalRequest) : Type 0 where
  in_range : r.current_step < r.total_steps
  progress : Progress r.status required r

approvals-append :
    (i : ℕ) (ds es : List ApprovalDecisionRecord)
    → approvals i (ds ++ es) ≡ approvals i ds + approvals i es
approvals-append i [] es = omega arith
approvals-append i (d ∷ ds) es = omega (arith, approvals-append i ds es)

is_exactly_pending→eq : (s : ApprovalRequestStatus) → is_exactly_pending s ≡ true → s ≡ pending
is_exactly_pending→eq s e = ground arith

-- A request that is still at a step of its own, the steps before it passed.
at_step-IsValid :
    (required : Required) (r : ApprovalRequest)
    → r.status ≡ pending
    → r.current_step < r.total_steps
    → ((i : ℕ) → i < r.current_step → HasPassed required r i)
    → IsValid required r
at_step-IsValid required r p in_range passed = record {
  in_range = in_range;
  progress = subst (λ s. Progress s required r) (sym p) passed;
}

advance-IsValid :
    (required : Required) (r : ApprovalRequest)
    → r.status ≡ pending
    → r.current_step < r.total_steps
    → ((i : ℕ) → i < r.current_step + 1 → HasPassed required r i)
    → IsValid required (advance r)
advance-IsValid required r p in_range passed =
    elim (Bool-cases (leb r.total_steps (r.current_step + 1))) [
      | inl h ↦
          subst (IsValid required)
            (sym (
              ap
                (λ b.
                  if b
                  then record r { status = approved }
                  else record r { current_step = r.current_step + 1 })
                h))
            (record { in_range = in_range; progress = λ i lt. passed i (ground arith) })
      | inr h ↦
          subst (IsValid required)
            (sym (
              ap
                (λ b.
                  if b
                  then record r { status = approved }
                  else record r { current_step = r.current_step + 1 })
                h))
            (at_step-IsValid required (record r { current_step = r.current_step + 1 }) p
              (ground arith) passed)
    ]

abbrev recorded : ApprovalDecisionRecord → ApprovalRequest → ApprovalRequest
recorded d r = record r { decisions = r.decisions ++ (d ∷ []) }

-- What an approval comes to: nothing, a record, or a record that completes the step.
approve-cases :
    (d : ApprovalDecisionRecord) (n : ℕ) (r : ApprovalRequest)
    → ((approve d n r).1 ≡ r)
      ⊎ (((approve d n r).1 ≡ recorded d r)
          ⊎ (((approve d n r).1 ≡ advance (recorded d r))
              × (n ≤ approvals r.current_step (r.decisions ++ (d ∷ [])))))
unfolding approve
approve-cases d n r =
    elim (Bool-cases (leb n (approvals r.current_step (r.decisions ++ (d ∷ []))))) [
      | inl h ↦ ground arith
      | inr h ↦ ground arith
    ]

still_passed :
    (required : Required) (d : ApprovalDecisionRecord) (r : ApprovalRequest) (i : ℕ)
    → HasPassed required r i
    → HasPassed required (recorded d r) i
still_passed required d r i h = omega (arith, approvals-append i r.decisions (d ∷ []))

lt-cases : (i n : ℕ) → i < n + 1 → (i < n) ⊎ (i ≡ n)
lt-cases i n h = ground arith

up_to :
    (required : Required) (r : ApprovalRequest) (n : ℕ)
    → ((i : ℕ) → i < n → HasPassed required r i)
    → HasPassed required r n
    → (i : ℕ) → i < n + 1
    → HasPassed required r i
up_to required r n below at i lt = elim (lt-cases i n lt) [
  | inl h ↦ below i h
  | inr e ↦ subst (HasPassed required r) (sym e) at
]

recorded-IsValid :
    (required : Required) (d : ApprovalDecisionRecord) (r : ApprovalRequest)
    → r.current_step < r.total_steps
    → r.status ≡ pending
    → ((i : ℕ) → i < r.current_step → HasPassed required r i)
    → IsValid required (approve d (required r.current_step) r).1
recorded-IsValid required d r in_range p passed =
    let still : (i : ℕ) → i < r.current_step → HasPassed required (recorded d r) i =
      λ i lt. still_passed required d r i (passed i lt) in
    elim (approve-cases d (required r.current_step) r) [
      | inl e ↦ subst (IsValid required) (sym e) (at_step-IsValid required r p in_range passed)
      | inr (inl e) ↦
          subst (IsValid required) (sym e)
            (at_step-IsValid required (recorded d r) p in_range still)
      | inr (inr h) ↦ subst (IsValid required) (sym h.0) (
          advance-IsValid required (recorded d r) p in_range
            (λ i lt. up_to required (recorded d r) r.current_step still h.1 i lt))
    ]

approve-IsValid :
    (required : Required) (d : ApprovalDecisionRecord) (r : ApprovalRequest)
    → IsValid required r
    → IsValid required (approve d (required r.current_step) r).1
unfolding approve
approve-IsValid required d r v = elim (Bool-cases (is_exactly_pending r.status)) [
  | inl h ↦
      let p = is_exactly_pending→eq r.status h in
      recorded-IsValid required d r v.in_range p (subst (λ s. Progress s required r) p v.progress)
  | inr h ↦ ground arith
]

act-IsValid :
    (required : Required) (a : Action) (r : ApprovalRequest)
    → IsValid required r
    → IsValid required (act required a r).1
unfolding reject escalate expire
act-IsValid required (approves_with d) r v = approve-IsValid required d r v
act-IsValid required (rejects_with d) r v = ground arith
act-IsValid required times_out r v = ground arith
act-IsValid required expires r v = ground arith

Reachable-IsValid :
    (required : Required) {r : ApprovalRequest} → Reachable required r → IsValid required r
Reachable-IsValid required (fresh {r = r} h) =
    at_step-IsValid required r h.0 (ground arith) (λ i lt. ground arith)
Reachable-IsValid required (acted a h) = act-IsValid required a _ (Reachable-IsValid required h)

-- A request that any calls on a fresh one have made approved has, at every one of its steps, at least
-- as many recorded approvals as the step asks for.
pub approved-HasApprovals :
    (required : Required) {r : ApprovalRequest}
    → Reachable required r
    → r.status ≡ approved
    → (i : ℕ) → i < r.total_steps
    → required i ≤ approvals i r.decisions
approved-HasApprovals required {r} h e =
    subst (λ s. Progress s required r) e (Reachable-IsValid required h).progress

-- On an escalated request approving, rejecting and escalating throw and change nothing, although the
-- request reports itself pending; expiring it returns.
escalated-OnlyExpires :
    (required : Required) (r : ApprovalRequest) (d : ApprovalDecisionRecord)
    → r.status ≡ escalated
    → (is_pending r ≡ true)
      × ((returned (approve d (required r.current_step) r) ≡ false)
          × ((approve d (required r.current_step) r).1 ≡ r))
      × ((returned (reject d r) ≡ false) × ((reject d r).1 ≡ r))
      × ((returned (escalate r) ≡ false) × ((escalate r).1 ≡ r))
      × ((returned (expire r) ≡ true) × ((expire r).1.status ≡ expired))
unfolding approve reject escalate expire is_pending
escalated-OnlyExpires required r d e = ground arith

-- A request that is approved, rejected or expired is closed: every call on it throws and leaves it as
-- it was.
pub closed-IsFinal :
    (required : Required) (a : Action) (r : ApprovalRequest)
    → is_pending r ≡ false
    → (returned (act required a r) ≡ false) × ((act required a r).1 ≡ r)
unfolding approve reject escalate expire is_pending
closed-IsFinal required (approves_with d) r h = ground arith
closed-IsFinal required (rejects_with d) r h = ground arith
closed-IsFinal required times_out r h = ground arith
closed-IsFinal required expires r h = ground arith
