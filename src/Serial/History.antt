-- ===== src/Serial/History.antt =====
-- What the status and the history of a serialized item say of each other.
use gql_ddd_inventory.Prelude.{
  ℕ, ◌≡◌, refl, sym, ap, ◌∙◌, true, false, ◌&&◌, Option, none, some, List, [], ◌∷◌, ◌++◌, ok, err,
  arith, if◌then◌else◌, ◌⊎◌, inl, inr, Bool-cases, Result,
}
use mathlib.Core.Option.{some-injective}
use gql_ddd_inventory.Prelude.Methods.{followed_by}
use gql_ddd_inventory.Serial.{
  SerializedItemStatus, written_off, in_stock, sold, same_status, can_transition_to,
  StatusTransition, SerializedItem, Call, SerialError, transition_to, receive, sell,
}

pub data Action : Type 0 where
  transitions : SerializedItemStatus → (actor now : ℕ) → Option ℕ → Action
  receives : (location actor now purchase_order : ℕ) → Action
  sells : (sale actor now : ℕ) → Action

abbrev pub act : Action → Call
act (transitions target actor now reference) = transition_to target actor now reference
act (receives location actor now order) = receive location actor now order
act (sells sale actor now) = sell sale actor now

-- `Reaches start item`: calls that return or throw lead from one to the other.
pub data Reaches (start : SerializedItem) : SerializedItem → Type 0 where
  here : Reaches start start
  next : {item : SerializedItem} → Reaches start item → (a : Action) → Reaches start (act a item).1

-- The status that a list of transitions leads to, if each starts where the one before it ended and is
-- allowed.
abbrev pub replay : SerializedItemStatus → List StatusTransition → Option SerializedItemStatus
replay s [] = some s
replay s (t ∷ ts) =
    let rest = replay t.to_status ts in
    if same_status s t.from_status && can_transition_to t.from_status t.to_status
    then rest
    else none

pub same_status→eq : (s t : SerializedItemStatus) → same_status s t ≡ true → s ≡ t
same_status→eq s t e = ground arith

same_status_refl : (s : SerializedItemStatus) → same_status s s ≡ true
same_status_refl s = ground arith

replay-append :
    (start : SerializedItemStatus) (ts : List StatusTransition) (t : StatusTransition)
    → replay start ts ≡ some t.from_status
    → can_transition_to t.from_status t.to_status ≡ true
    → replay start (ts ++ (t ∷ [])) ≡ some t.to_status
replay-append start [] t e a =
    let same : start ≡ t.from_status = some-injective _ _ e in
    rw (same, same_status_refl t.from_status, a) refl
replay-append start (x ∷ xs) t e a =
    elim (Bool-cases
      (same_status start x.from_status && can_transition_to x.from_status x.to_status)) [
        | inl h ↦ rw h (replay-append x.to_status xs t (rw h at e) a)
        | inr h ↦ cc (rw h at e)
      ]

-- An item has moved along one allowed transition, or kept its status and history.
abbrev pub Moves : SerializedItem → SerializedItem → Type 0
Moves item item' =
    ((item'.status ≡ item.status) × (item'.history ≡ item.history))
    ⊎ ((t : StatusTransition) × (t.from_status ≡ item.status)
        × (can_transition_to t.from_status t.to_status ≡ true)
        × (item'.status ≡ t.to_status)
        × (item'.history ≡ item.history ++ (t ∷ [])))

transition_to-Moves :
    (target : SerializedItemStatus) (actor now : ℕ) (reference : Option ℕ) (item : SerializedItem)
    → Moves item (transition_to target actor now reference item).1
unfolding transition_to
transition_to-Moves target actor now reference item =
    elim (Bool-cases (same_status item.status target)) [
      | inl e ↦ rw e (inl (refl, refl))
      | inr e ↦ elim (Bool-cases (can_transition_to item.status target)) [
        | inr n ↦ rw (e, n) (inl (refl, refl))
        | inl y ↦
            rw (e, y)
              (inr (
                record {
                  from_status = item.status;
                  to_status = target;
                  actor = actor;
                  occurred_at = now;
                  reference_id = reference;
                },
                refl,
                y,
                refl,
                refl,
              ))
      ]
    ]

-- The location that `receive` sets after the transition is no part of the move.
placed :
    (location : ℕ) (item : SerializedItem) (out : Result SerialError (Unit {0}) × SerializedItem)
    → Moves item out.1
    → Moves item (followed_by out (λ _ x. (ok tt, record x { location_id = location }))).1
placed location item (ok a, x) m = m
placed location item (err e, x) m = m

act-Moves : (a : Action) (item : SerializedItem) → Moves item (act a item).1
unfolding receive sell
act-Moves (transitions target actor now reference) item =
    transition_to-Moves target actor now reference item
act-Moves (sells sale actor now) item = transition_to-Moves sold actor now (some sale) item
act-Moves (receives location actor now order) item =
    placed location item (transition_to in_stock actor now (some order) item)
      (transition_to-Moves in_stock actor now (some order) item)

replay-Moves :
    (start : SerializedItemStatus) (item item' : SerializedItem)
    → Moves item item'
    → replay start item.history ≡ some item.status
    → replay start item'.history ≡ some item'.status
replay-Moves start item item' (inl (s, h)) e = rw (s, h) e
replay-Moves start item item' (inr (t, f, allowed, s, h)) e =
    rw (s, h) (replay-append start item.history t (e ∙ ap some (sym f)) allowed)

-- Whatever calls were made on an item that had no history, returning or throwing, its history is a
-- chain of allowed transitions from the status that it had then to the status that it has.
pub Reaches-replay :
    {first item : SerializedItem}
    → first.history ≡ []
    → Reaches first item
    → replay first.status item.history ≡ some item.status
Reaches-replay h here = rw h refl
Reaches-replay {first = first} h (next {item = item} r a) =
    replay-Moves first.status item (act a item).1 (act-Moves a item) (Reaches-replay h r)

no_way_out :
    (t : StatusTransition)
    → t.from_status ≡ written_off
    → can_transition_to t.from_status t.to_status ≡ false
no_way_out t e = rw e refl

-- No call takes an item that is written off to another status, or adds to its history.
written_off-IsFinal :
    {first item : SerializedItem}
    → first.status ≡ written_off
    → Reaches first item
    → (item.status ≡ written_off) × (item.history ≡ first.history)
written_off-IsFinal w here = (w, refl)
written_off-IsFinal w (next {item = item} r a) =
    let (s, h) = written_off-IsFinal w r in
    elim (act-Moves a item) [
      | inl (s', h') ↦ (s' ∙ s, h' ∙ h)
      | inr (t, f, allowed, s', h') ↦ cc (sym allowed ∙ no_way_out t (f ∙ s))
    ]
