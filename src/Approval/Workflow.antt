-- ===== src/Approval/Workflow.antt =====
-- src/domain/entities/ApprovalWorkflow.ts. Names, roles and payload fields are identifiers; payload
-- values and thresholds are whole numbers.
mod Tests
use gql_ddd_inventory.Prelude.{
  ℕ, ◌≡◌, ◌≢◌, refl, Bool, true, false, not, ◌&&◌, ◌||◌, Option, none, some, List, [], ◌∷◌, Result,
  ok, err, ◌==◌, if◌then◌else◌, length, get_elem?, all, All, ◌↔◌, arith, Option-cases, inl, inr,
  sym, ap, ◌∙◌,
}
use gql_ddd_inventory.Prelude.Int.{ℤ, pos, negsuc, leb_ℤ, ltb_ℤ, ◌≤ℤ◌}

pub record ApprovalStepConfig : Type 0 where
  pub approver_roles : List ℕ
  pub required_count : ℕ
  pub timeout_hours : ℕ

-- `>=`, `>`, `<=`, `<`, `==` and `!=`.
pub data Operator : Type 0 where
  at_least more_than at_most less_than equal_to unequal_to : Operator

pub record ThresholdCondition : Type 0 where
  pub field : ℕ
  pub operator : Operator
  pub value : ℤ

pub record ApprovalWorkflowConfig : Type 0 where
  pub thresholds : List ThresholdCondition
  pub steps : List ApprovalStepConfig

pub data WorkflowError : Type 0 where
  no_trigger_event no_steps : WorkflowError

-- A trigger event of `none` is a blank one.
pub record ApprovalWorkflow : Type 0 where
  pub id : ℕ
  pub tenant_id : ℕ
  pub trigger_event : Option ℕ
  pub is_active : Bool
  pub config : ApprovalWorkflowConfig

-- The constructor.
unfoldable pub new_workflow :
    (id tenant : ℕ)
    → Option ℕ
    → Bool
    → ApprovalWorkflowConfig
    → Result WorkflowError ApprovalWorkflow
new_workflow i t event active config = elim event [
  | none ↦ err no_trigger_event
  | some e ↦
      if length config.steps == 0
      then err no_steps
      else ok (record {
        id = i;
        tenant_id = t;
        trigger_event = some e;
        is_active = active;
        config = config;
      })
]

abbrev equal_ℤ : ℤ → ℤ → Bool
equal_ℤ a b = leb_ℤ a b && leb_ℤ b a

abbrev pub compares : Operator → ℤ → ℤ → Bool
compares at_least v w = leb_ℤ w v
compares more_than v w = ltb_ℤ w v
compares at_most v w = leb_ℤ v w
compares less_than v w = ltb_ℤ v w
compares equal_to v w = equal_ℤ v w
compares unequal_to v w = not (equal_ℤ v w)

-- What a payload holds under a field; `none` is `undefined` or `null`.
abbrev pub Payload : Type 0
Payload = ℕ → Option ℤ

abbrev pub value_meets : ThresholdCondition → Option ℤ → Bool
value_meets t none = false
value_meets t (some v) = compares t.operator v t.value

unfoldable pub should_trigger : ApprovalWorkflow → Payload → Bool
should_trigger w payload =
    if not w.is_active
    then false
    else if length w.config.thresholds == 0
    then true
    else all (λ t. value_meets t (payload t.field)) w.config.thresholds

unfoldable pub get_step : ApprovalWorkflow → ℕ → Option ApprovalStepConfig
get_step w index = get_elem? w.config.steps index

-- What it is for a value to stand in the relation of a threshold.
abbrev pub Stands : Operator → ℤ → ℤ → Type 0
Stands at_least v w = w ≤ℤ v
Stands more_than v w = ¬ (v ≤ℤ w)
Stands at_most v w = v ≤ℤ w
Stands less_than v w = ¬ (w ≤ℤ v)
Stands equal_to v w = v ≡ w
Stands unequal_to v w = v ≢ w

abbrev pub Meets : Payload → ThresholdCondition → Type 0
Meets payload t = (v : ℤ) × (payload t.field ≡ some v) × Stands t.operator v t.value

compares-Stands : (o : Operator) (v w : ℤ) → (compares o v w ≡ true) ↔ Stands o v w
compares-Stands at_least v w = ground arith
compares-Stands more_than v w = ground arith
compares-Stands at_most v w = ground arith
compares-Stands less_than v w = ground arith
compares-Stands equal_to v w = ground arith
compares-Stands unequal_to v w = ground arith

value_meets-Meets :
    (payload : Payload) (t : ThresholdCondition)
    → (value_meets t (payload t.field) ≡ true) ↔ Meets payload t
value_meets-Meets payload t = elim (Option-cases (payload t.field)) [
  | inl h ↦ (λ e. cc, λ m. cc)
  | inr h ↦ (
    λ e. (h.0, h.1, (compares-Stands t.operator h.0 t.value).0 (sym (ap (value_meets t) h.1) ∙ e)),
    λ m. ap (value_meets t) m.1 ∙ (compares-Stands t.operator m.0 t.value).1 m.2,
  )
]

and-true : (a b : Bool) → (a && b) ≡ true → (a ≡ true) × (b ≡ true)
and-true a b e = ground arith

true-and : (a b : Bool) → a ≡ true → b ≡ true → (a && b) ≡ true
true-and a b h k = ground arith

all_meet-All :
    (payload : Payload) (ts : List ThresholdCondition)
    → (all (λ t. value_meets t (payload t.field)) ts ≡ true) ↔ All (Meets payload) ts
all_meet-All payload [] = (λ e. tt, λ m. refl)
all_meet-All payload (t ∷ ts) =
    let first = value_meets-Meets payload t in
    let rest = all_meet-All payload ts in
    (
      λ e. let both = and-true _ _ e in (first.0 both.0, rest.0 both.1),
      λ m. true-and _ _ (first.1 m.0) (rest.1 m.1),
    )

shortcut-all :
    (active : Bool) (p : ThresholdCondition → Bool) (ts : List ThresholdCondition)
    → (if not active then false else if length ts == 0 then true else all p ts)
      ≡ (active && all p ts)
shortcut-all true p [] = refl
shortcut-all false p [] = refl
shortcut-all active p (t ∷ ts) = ground arith

-- A workflow is triggered exactly when it is active and the payload holds, under the field of every
-- threshold, a value in the relation of the threshold to its bound. A missing field is never enough,
-- and without thresholds every payload is.
pub should_trigger-Meets :
    (w : ApprovalWorkflow) (payload : Payload)
    → (should_trigger w payload ≡ true)
      ↔ ((w.is_active ≡ true) × All (Meets payload) w.config.thresholds)
unfolding should_trigger
should_trigger-Meets w payload =
    let whole = all_meet-All payload w.config.thresholds in
    let eq : should_trigger w payload
        ≡ (w.is_active && all (λ t. value_meets t (payload t.field)) w.config.thresholds) =
      shortcut-all w.is_active (λ t. value_meets t (payload t.field)) w.config.thresholds in
    (
      λ e. let both = and-true _ _ (sym eq ∙ e) in (both.0, whole.0 both.1),
      λ m. eq ∙ true-and _ _ m.0 (whole.1 m.1),
    )
