-- ===== src/Serial.antt =====
-- src/domain/entities/SerializedItem.ts, src/domain/enums/SerializedItemStatus.ts and
-- src/domain/valueObjects/StatusTransition.ts: an article with a serial number. Reasons are left out.
pub mod History
pub mod Service
mod Tests
use gql_ddd_inventory.Prelude.{
  ℕ, Bool, true, false, not, Option, none, some, List, [], ◌∷◌, ◌++◌, any, Result, ok, err,
}
use gql_ddd_inventory.Prelude.Methods.{Method, ◌>>=◌, ◌>>◌, return, this, assign, reject_if}

pub data SerializedItemStatus : Type 0 where
  pending in_stock sold returned quarantined transferred damaged written_off : SerializedItemStatus

abbrev pub same_status : SerializedItemStatus → SerializedItemStatus → Bool
same_status pending pending = true
same_status in_stock in_stock = true
same_status sold sold = true
same_status returned returned = true
same_status quarantined quarantined = true
same_status transferred transferred = true
same_status damaged damaged = true
same_status written_off written_off = true
same_status _ _ = false

abbrev pub allowed_transitions : SerializedItemStatus → List SerializedItemStatus
allowed_transitions pending = in_stock ∷ quarantined ∷ written_off ∷ []
allowed_transitions in_stock = sold ∷ transferred ∷ quarantined ∷ damaged ∷ written_off ∷ []
allowed_transitions sold = returned ∷ []
allowed_transitions returned = in_stock ∷ quarantined ∷ damaged ∷ written_off ∷ []
allowed_transitions quarantined = in_stock ∷ damaged ∷ written_off ∷ []
allowed_transitions transferred = in_stock ∷ quarantined ∷ damaged ∷ []
allowed_transitions damaged = quarantined ∷ written_off ∷ []
allowed_transitions written_off = []

abbrev pub can_transition_to : SerializedItemStatus → SerializedItemStatus → Bool
can_transition_to current next = any (same_status next) (allowed_transitions current)

pub record StatusTransition : Type 0 where
  pub from_status : SerializedItemStatus
  pub to_status : SerializedItemStatus
  pub actor : ℕ
  pub occurred_at : ℕ
  pub reference_id : Option ℕ

pub data SerialEvent : Type 0 where
  status_changed : (variant serial : ℕ) (old new : SerializedItemStatus) → SerialEvent

pub data SerialError : Type 0 where
  invalid_transition : (current target : SerializedItemStatus) → SerialError

pub record SerializedItem : Type 0 where
  pub id : ℕ
  pub variant_id : ℕ
  pub serial_number : ℕ
  pub location_id : ℕ
  pub status : SerializedItemStatus
  pub history : List StatusTransition
  pub domain_events : List SerialEvent

abbrev pub Call : Type 0
Call = Method SerializedItem SerialError (Unit {0})

-- The item after a transition that is allowed.
abbrev pub moved_to :
    SerializedItemStatus → (actor now : ℕ) → Option ℕ → SerializedItem → SerializedItem
moved_to target actor now reference item = record item {
  history =
      item.history
      ++ (record {
        from_status = item.status;
        to_status = target;
        actor = actor;
        occurred_at = now;
        reference_id = reference;
      }
          ∷ []);
  status = target;
  domain_events =
      item.domain_events
      ++ (status_changed item.variant_id item.serial_number item.status target ∷ []);
}

-- `if (b) return;` before the rest.
abbrev pub unless : Bool → Call → Call
unless true rest = return tt
unless false rest = rest

-- A transition to the status that the item has returns at once.
unfoldable pub transition_to : SerializedItemStatus → (actor now : ℕ) → Option ℕ → Call
transition_to target actor now reference = do
  item ← this
  unless (same_status item.status target) do
    reject_if (not (can_transition_to item.status target)) (invalid_transition item.status target)
    assign (moved_to target actor now reference item)

unfoldable pub receive : (location actor now purchase_order : ℕ) → Call
receive location actor now purchase_order = do
  transition_to in_stock actor now (some purchase_order)
  item ← this
  assign (record item { location_id = location })

unfoldable pub sell : (sale actor now : ℕ) → Call
sell sale actor now = transition_to sold actor now (some sale)

unfoldable pub is_available : SerializedItem → Bool
is_available item = same_status item.status in_stock

unfoldable pub pull_domain_events : Method SerializedItem SerialError (List SerialEvent)
pull_domain_events = do
  item ← this
  assign (record item { domain_events = [] })
  return item.domain_events
