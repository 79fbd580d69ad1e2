-- ===== src/Returns/Rma/Completion.antt =====
-- How a return authorisation comes to be completed.
use mathlib.Core.List.{append_assoc}
use gql_ddd_inventory.Prelude.{
  ℕ, ◌+◌, ◌≡◌, ◌≢◌, refl, sym, ◌∙◌, true, false, some, List, [], ◌∷◌, ◌++◌, ◌==◌, ltb, leb, ok, all,
  All, All-both, All-snoc, inl, inr, arith, ◌⊎◌, if◌then◌else◌,
}
use gql_ddd_inventory.Prelude.Int.{pos}
use gql_ddd_inventory.Prelude.Methods.{◌>>◌, return, returned}
use gql_ddd_inventory.Returns.Item
use gql_ddd_inventory.Returns.Item.{RmaItem, RmaDisposition, is_fully_processed, IsUntouched}
use gql_ddd_inventory.Returns.Rma.{
  Rma, RmaStatus, authorized, received, completed, Call, receive_first, receive_item,
}

-- No two items are of one variant.
abbrev pub AreDistinct : List RmaItem → Type 0
AreDistinct [] = Unit
AreDistinct (i ∷ items) = All (λ j. j.variant_id ≢ i.variant_id) items × AreDistinct items

-- Receiving all of each item in turn.
abbrev pub receive_each : (RmaItem → RmaDisposition) → List RmaItem → Call
receive_each d [] = return tt
receive_each d (i ∷ items) =
    receive_item i.variant_id (pos i.quantity) (d i) >> receive_each d items

abbrev finished : RmaDisposition → RmaItem → RmaItem
finished d i = record i {
  received_quantity = i.quantity;
  disposition = some d;
  status = Item.RmaItemStatus.received;
}

receive_all :
    (d : RmaDisposition) (i : RmaItem)
    → IsUntouched i
    → Item.receive (pos i.quantity) d i ≡ ok (finished d i)
unfolding Item.receive
receive_all d i (positive, e, z) =
    let above : leb (i.quantity + 0) 0 ≡ false = ground arith in
    let total : i.received_quantity + i.quantity ≡ i.quantity = omega arith in
    let fits : ltb i.quantity i.quantity ≡ false = ground arith in
    let full : (i.quantity == i.quantity) ≡ true = ground arith in
    rw (above, total, fits, full) refl

abbrev AreProcessed : List RmaItem → Type 0
AreProcessed items = All (λ i. is_fully_processed i ≡ true) items

abbrev IsAbsent : (variant : ℕ) → List RmaItem → Type 0
IsAbsent v items = All (λ i. i.variant_id ≢ v) items

processed-append :
    (before after : List RmaItem)
    → AreProcessed before
    → all is_fully_processed (before ++ after) ≡ all is_fully_processed after
processed-append [] after h = refl
processed-append (i ∷ before) after h = rw h.0 (processed-append before after h.1)

-- A receipt passes over what is of another variant.
receive_first-append :
    (d : RmaDisposition) (i : RmaItem) (before after : List RmaItem)
    → IsUntouched i
    → IsAbsent i.variant_id before
    → receive_first i.variant_id (pos i.quantity) d (before ++ (i ∷ after))
      ≡ ok (before ++ (finished d i ∷ after))
unfolding receive_first
receive_first-append d i [] after u h =
    let same : (i.variant_id == i.variant_id) ≡ true = ground arith in
    rw (same, receive_all d i u) refl
receive_first-append d i (j ∷ before) after u h =
    let other : (j.variant_id == i.variant_id) ≡ false = ground arith in
    rw (other, receive_first-append d i before after u h.1) refl

abbrev IsOpen : RmaStatus → Type 0
IsOpen s = (s ≡ authorized) ⊎ (s ≡ received)

receive_item-next :
    (d : RmaDisposition) (i : RmaItem) (before after : List RmaItem) (rma : Rma)
    → IsOpen rma.status
    → rma.items ≡ before ++ (i ∷ after)
    → IsUntouched i
    → IsAbsent i.variant_id before
    → AreProcessed before
    → receive_item i.variant_id (pos i.quantity) d rma ≡ (
      ok tt,
      record rma {
        items = before ++ (finished d i ∷ after);
        status = if all is_fully_processed after then completed else received;
      },
    )
unfolding receive_item
receive_item-next d i before after rma o e u a p =
    let items = receive_first-append d i before after u a in
    let done = processed-append before (finished d i ∷ after) p in
    elim o [ inl s ↦ rw (s, e, items, done) refl | inr s ↦ rw (s, e, items, done) refl ]

-- Each item that is left is of a variant that no item before it has.
abbrev AreFresh : (before left : List RmaItem) → Type 0
AreFresh before left = All (λ i. IsAbsent i.variant_id before) left

AreFresh-snoc :
    (d : RmaDisposition) (before left : List RmaItem) (i : RmaItem)
    → AreFresh before left
    → All (λ j. j.variant_id ≢ i.variant_id) left
    → AreFresh (before ++ (finished d i ∷ [])) left
AreFresh-snoc d before left i h n =
    All-both (λ j. IsAbsent j.variant_id before) (λ j. j.variant_id ≢ i.variant_id)
      (λ j. IsAbsent j.variant_id (before ++ (finished d i ∷ []))) left
      (λ j a ne.
        All-snoc (λ k. k.variant_id ≢ j.variant_id) before (finished d i) a (λ p. ne (sym p)))
      h n

Completes : (RmaItem → RmaDisposition) → List RmaItem → Rma → Type 0
Completes d left rma =
    (returned (receive_each d left rma) ≡ true) × ((receive_each d left rma).1.status ≡ completed)

receive_left-Completes :
    (d : RmaItem → RmaDisposition) (before left : List RmaItem) (i : RmaItem) (rma : Rma)
    → IsOpen rma.status
    → rma.items ≡ before ++ (i ∷ left)
    → All IsUntouched (i ∷ left)
    → AreFresh before (i ∷ left)
    → AreDistinct (i ∷ left)
    → AreProcessed before
    → Completes d (i ∷ left) rma
unfolding Completes
receive_left-Completes d before [] i rma o e u a n p =
    rw (receive_item-next (d i) i before [] rma o e u.0 a.0 p) (refl, refl)
receive_left-Completes d before (j ∷ left) i rma o e u a n p =
    let pending : is_fully_processed j ≡ false = rw u.1.0.1 refl in
    let rma' : Rma = record rma {
      items = before ++ (finished (d i) i ∷ j ∷ left);
      status = received;
    } in
    let next : receive_item i.variant_id (pos i.quantity) (d i) rma ≡ (ok tt, rma') =
      receive_item-next (d i) i before (j ∷ left) rma o e u.0 a.0 p ∙ rw pending refl in
    rw next (
      receive_left-Completes d (before ++ (finished (d i) i ∷ [])) left j rma' (inr refl)
        (sym (append_assoc before (finished (d i) i ∷ []) (j ∷ left))) u.1
        (AreFresh-snoc (d i) before (j ∷ left) i a.1 n.0) n.1
        (All-snoc (λ k. is_fully_processed k ≡ true) before (finished (d i) i) p refl))

all_fresh : (items : List RmaItem) → AreFresh [] items
all_fresh [] = tt
all_fresh (i ∷ items) = (tt, all_fresh items)

from_start :
    (d : RmaItem → RmaDisposition) (items : List RmaItem) (rma : Rma)
    → rma.items ≡ items
    → items ≢ []
    → rma.status ≡ authorized
    → All IsUntouched items
    → AreDistinct items
    → Completes d items rma
from_start d [] rma e ne o u n = absurd (ne refl)
from_start d (i ∷ items) rma e ne o u n =
    receive_left-Completes d [] items i rma (inl o) e u (all_fresh (i ∷ items)) n tt

-- An authorised return with items of different variants, of which none was received, can always be
-- completed: receiving all of each item in turn, with any dispositions, returns at each of them,
-- and leaves it completed. It has at least one item.
pub receive_each-Completes :
    (dispositions : RmaItem → RmaDisposition) (rma : Rma)
    → rma.status ≡ authorized
    → rma.items ≢ []
    → All IsUntouched rma.items
    → AreDistinct rma.items
    → let out = receive_each dispositions rma.items rma in
      (returned out ≡ true) × (out.1.status ≡ completed)
unfolding Completes
receive_each-Completes d rma o ne u n = from_start d rma.items rma refl ne o u n
