-- ===== src/Serial/Service/Moves.antt =====
-- What each move of the service does to the item and to the ledger, on every branch.
use gql_ddd_inventory.Prelude.{
  ℕ, ◌≡◌, ◌≢◌, refl, sym, ap, ◌∙◌, Bool, true, false, ◌&&◌, ◌||◌, Option, some, List, [], ◌∷◌, ◌++◌,
  All, Result, ok, err, arith, ◌==◌, if◌then◌else◌, Bool-cases, inl, inr,
}
use mathlib.Core.Path.{subst}
use mathlib.Core.Option.{some-injective}
use gql_ddd_inventory.Prelude.Int.{ℤ, pos, negsuc, ◌+ℤ◌}
use gql_ddd_inventory.Prelude.Methods
use gql_ddd_inventory.Prelude.Methods.{◌>>=◌, ◌>>◌, kept, followed_by}
use gql_ddd_inventory.Ledger.Entry.{
  LedgerEntry, ReasonCode, purchase_receipt, new_ledger_entry, is_zero,
}
use gql_ddd_inventory.Ledger.Repository.{current_quantity, sum_from, current_quantity-append}
use gql_ddd_inventory.Serial
use gql_ddd_inventory.Serial.History.{same_status→eq}
use gql_ddd_inventory.Serial.{
  SerializedItem, SerializedItemStatus, SerialError, in_stock, sold, returned, same_status,
  can_transition_to, transition_to,
}
use gql_ddd_inventory.Serial.Service.{
  Store, ServiceError, ServiceCall, find_by_serial, save_serial, book_and_save, receive_serial,
  sell_serial, return_serial, restock_serial, raised_as, of_item,
}

pub data Move : Type 0 where
  receives : (location order : ℕ) → Move
  sells : (sale : ℕ) → Move
  returns : (reference : ℕ) → Move
  restocks : (location reference : ℕ) → Move

abbrev pub perform : Move → (serial tenant actor now : ℕ) → ServiceCall (Unit {0})
perform (receives location order) serial tenant actor now =
    receive_serial serial tenant location order actor now
perform (sells sale) serial tenant actor now = sell_serial serial tenant sale actor now
perform (returns reference) serial tenant actor now =
    return_serial serial tenant reference actor now
perform (restocks location reference) serial tenant actor now =
    restock_serial serial tenant location reference actor now

-- The status that a move leads to, the location of its entry, and the location of the item after it.
abbrev pub status_after : Move → SerializedItemStatus
status_after (receives location order) = in_stock
status_after (sells sale) = sold
status_after (returns reference) = returned
status_after (restocks location reference) = in_stock

abbrev pub entry_place : Move → SerializedItem → ℕ
entry_place (receives location order) item = location
entry_place (sells sale) item = item.location_id
entry_place (returns reference) item = item.location_id
entry_place (restocks location reference) item = location

abbrev pub new_place : Move → SerializedItem → ℕ
new_place (receives location order) item = location
new_place _ item = item.location_id

-- What the move adds to the ledger.
abbrev pub change : Move → ℤ
change (sells sale) = negsuc 0
change _ = pos 1

-- Whether the item lets a move through: also where it has the status already.
abbrev pub lets_through : SerializedItemStatus → SerializedItemStatus → Bool
lets_through current next = same_status current next || can_transition_to current next

-- Every item has an identifier and a serial number of its own.
unfoldable pub IsUnique : List SerializedItem → Type 0
IsUnique [] = Unit
IsUnique (x ∷ items) =
    All (λ y. (x.id ≢ y.id) × (x.serial_number ≢ y.serial_number)) items × IsUnique items

record IsSame (x y : SerializedItem) : Type 0 where
  same_id : y.id ≡ x.id
  same_serial : y.serial_number ≡ x.serial_number
  same_variant : y.variant_id ≡ x.variant_id

-- What a call on the item leaves, where it is let through.
abbrev Allowed :
    Bool
    → (status : SerializedItemStatus) (place : ℕ) → SerializedItem
    → Result SerialError SerializedItem
    → Type 0
Allowed true status place x (ok y) = IsSame x y × (y.status ≡ status) × (y.location_id ≡ place)
Allowed true status place x (err e) = ⊥
Allowed false status place x (ok y) = ⊥
Allowed false status place x (err e) = Unit

transition-Allowed :
    (t : SerializedItemStatus) (actor now : ℕ) (reference : Option ℕ) (x : SerializedItem)
    → Allowed
        (lets_through x.status t)
        t
        x.location_id
        x
        (kept (transition_to t actor now reference x))
unfolding transition_to
transition-Allowed t actor now reference x = elim (Bool-cases (same_status x.status t)) [
  | inl s ↦ rw s (
    record { same_id = refl; same_serial = refl; same_variant = refl },
    same_status→eq x.status t s,
    refl,
  )
  | inr s ↦ elim (Bool-cases (can_transition_to x.status t)) [
    | inl c ↦
        rw (s, c) (record { same_id = refl; same_serial = refl; same_variant = refl }, refl, refl)
    | inr c ↦ rw (s, c) tt
  ]
]

sell-Allowed :
    (order actor now : ℕ) (x : SerializedItem)
    → Allowed
        (lets_through x.status sold)
        sold
        x.location_id
        x
        (kept (Serial.sell order actor now x))
unfolding Serial.sell
sell-Allowed order actor now x = transition-Allowed sold actor now (some order) x

receive-Allowed :
    (location actor now order : ℕ) (x : SerializedItem)
    → Allowed
        (lets_through x.status in_stock)
        in_stock
        location
        x
        (kept (Serial.receive location actor now order x))
unfolding Serial.receive transition_to
receive-Allowed location actor now order x = elim (Bool-cases (same_status x.status in_stock)) [
  | inl s ↦ rw s (
    record { same_id = refl; same_serial = refl; same_variant = refl },
    same_status→eq x.status in_stock s,
    refl,
  )
  | inr s ↦ elim (Bool-cases (can_transition_to x.status in_stock)) [
    | inl c ↦
        rw (s, c) (record { same_id = refl; same_serial = refl; same_variant = refl }, refl, refl)
    | inr c ↦ rw (s, c) tt
  ]
]

yes : (a b : ℕ) → a ≡ b → (a == b) ≡ true
yes a b h = ground arith

no : (a b : ℕ) → a ≢ b → (a == b) ≡ false
no a b h = ground arith

differs :
    (z x item : SerializedItem)
    → IsSame x item
    → (z.serial_number == x.serial_number) ≡ false
    → z.serial_number ≢ item.serial_number
differs z x item s h q = ground (arith, s.same_serial)

-- A changed item is found at its serial number, and every other serial number has its own.
All-fresh :
    (k : ℕ) (x : SerializedItem) (items : List SerializedItem) {y : SerializedItem}
    → All (λ y. (x.id ≢ y.id) × (x.serial_number ≢ y.serial_number)) items
    → find_by_serial k items ≡ some y
    → x.id ≢ y.id
unfolding find_by_serial
All-fresh k x [] a e = cc
All-fresh k x (z ∷ items) {y} a e = elim (Bool-cases (z.serial_number == k)) [
  | inl h ↦
      let same : z ≡ y = some-injective _ _ (rw h at e) in
      λ q. a.0.0 (q ∙ ap (λ w. w.id) (sym same))
  | inr h ↦ All-fresh k x items a.1 (rw h at e)
]

find-save_serial :
    (item x : SerializedItem) (items : List SerializedItem)
    → IsUnique items
    → find_by_serial x.serial_number items ≡ some x
    → IsSame x item
    → (k : ℕ)
    → find_by_serial k (save_serial item items)
      ≡ (if x.serial_number == k then some item else find_by_serial k items)
unfolding IsUnique find_by_serial save_serial
find-save_serial item x [] u e s k = cc
find-save_serial item x (z ∷ items) u e s k =
    elim (Bool-cases (z.serial_number == x.serial_number)) [
      | inl h ↦
          let same : z ≡ x = some-injective _ _ (rw h at e) in
          rw (yes z.id item.id (ap (λ w. w.id) same ∙ sym s.same_id))
            (rw (s.same_serial, ap (λ w. w.serial_number) same) (ground (arith)))
      | inr h ↦
          let e' : find_by_serial x.serial_number items ≡ some x = rw h at e in
          let apart = All-fresh x.serial_number z items u.0 e' in
          rw (no z.id item.id (λ q. apart (q ∙ s.same_id)))
            (ground (arith, h, find-save_serial item x items u.1 e' s k))
    ]

IsApart : SerializedItem → List SerializedItem → Type 0
IsApart x items = All (λ y. (x.id ≢ y.id) × (x.serial_number ≢ y.serial_number)) items

save-IsApart :
    (z item : SerializedItem) (items : List SerializedItem)
    → z.id ≢ item.id
    → z.serial_number ≢ item.serial_number
    → IsApart z items
    → IsApart z (save_serial item items)
unfolding save_serial IsApart
save-IsApart z item [] n m a = ((n, m), tt)
save-IsApart z item (y ∷ items) n m a = elim (Bool-cases (y.id == item.id)) [
  | inl h ↦ rw h ((n, m), a.1)
  | inr h ↦ rw h (a.0, save-IsApart z item items n m a.1)
]

same-IsApart :
    (x item : SerializedItem) (items : List SerializedItem)
    → IsSame x item
    → IsApart x items
    → IsApart item items
unfolding IsApart
same-IsApart x item [] s a = tt
same-IsApart x item (y ∷ items) s a = (
  (λ q. a.0.0 (sym s.same_id ∙ q), λ q. a.0.1 (sym s.same_serial ∙ q)),
  same-IsApart x item items s a.1,
)

save-IsUnique :
    (item x : SerializedItem) (items : List SerializedItem)
    → IsUnique items
    → find_by_serial x.serial_number items ≡ some x
    → IsSame x item
    → IsUnique (save_serial item items)
unfolding IsUnique find_by_serial save_serial IsApart
save-IsUnique item x [] u e s = cc
save-IsUnique item x (z ∷ items) u e s = elim (Bool-cases (z.serial_number == x.serial_number)) [
  | inl h ↦
      let same : z ≡ x = some-injective _ _ (rw h at e) in
      rw (yes z.id item.id (ap (λ w. w.id) same ∙ sym s.same_id))
        (same-IsApart x item items s (subst (λ w. IsApart w items) same u.0), u.1)
  | inr h ↦
      let e' : find_by_serial x.serial_number items ≡ some x = rw h at e in
      let apart = All-fresh x.serial_number z items u.0 e' in
      rw (no z.id item.id (λ q. apart (q ∙ s.same_id))) (
        save-IsApart z item items (λ q. apart (q ∙ s.same_id)) (differs z x item s h) u.0,
        save-IsUnique item x items u.1 e' s,
      )
]

abbrev cleared : SerializedItem → SerializedItem
cleared y = record y { domain_events = [] }

-- One more entry counts for its variant at its place.
appended :
    (variant place v l : ℕ) (q : ℤ) (entries : List LedgerEntry) (e : LedgerEntry)
    → (e.variant_id ≡ variant) × (e.location_id ≡ place) × (e.quantity ≡ q)
    → current_quantity v l (entries ++ (e ∷ [])) ≡ (
        if variant == v && place == l
        then current_quantity v l entries +ℤ q
        else current_quantity v l entries)
unfolding sum_from
appended variant place v l q entries e (a, b, c) =
    current_quantity-append v l entries (e ∷ []) ∙ rw (a, b, c) refl

-- The store after a move of an item: the item has the status of the move, every other serial number
-- has what it had, and the ledger has one entry more, at the place of the move.
pub record Moved (m : Move) (item : SerializedItem) (s s' : Store) : Type 0 where
  pub after : SerializedItem
  pub there : find_by_serial item.serial_number s'.items ≡ some after
  pub serial : after.serial_number ≡ item.serial_number
  pub status : after.status ≡ status_after m
  pub place : after.location_id ≡ new_place m item
  pub variant : after.variant_id ≡ item.variant_id
  pub elsewhere :
      (k : ℕ)
      → (item.serial_number == k) ≡ false
      → find_by_serial k s'.items ≡ find_by_serial k s.items
  pub counted :
      (v l : ℕ)
      → current_quantity v l s'.ledger ≡ (
          if item.variant_id == v && entry_place m item == l
          then current_quantity v l s.ledger +ℤ change m
          else current_quantity v l s.ledger)
  pub unique : IsUnique s'.items

-- A refusal leaves the store; a move that is let through moves the item.
abbrev pub Performs :
    Bool → Move → SerializedItem → Store → Result ServiceError (Unit {0}) × Store → Type 0
Performs false m item s (r, s') = (Methods.returned (r, s') ≡ false) × (s' ≡ s)
Performs true m item s (r, s') = (Methods.returned (r, s') ≡ true) × Moved m item s s'

module _ (s : Store) (item : SerializedItem) (u : IsUnique s.items)
    (e : find_by_serial item.serial_number s.items ≡ some item) where
  -- The entry, the save and the events, after the call on the item.
  booked :
      (m : Move) (b : Bool) (r : Result SerialError SerializedItem) (tenant actor now reference : ℕ)
      (q : ℤ) (reason : ReasonCode)
      → Allowed b (status_after m) (new_place m item) item r
      → change m ≡ q
      → is_zero q ≡ false
      → (place : SerializedItem → ℕ)
      → ((y : SerializedItem) → y.location_id ≡ new_place m item → place y ≡ entry_place m item)
      → Performs b m item s (
          followed_by
            (raised_as of_item r, s)
            (λ y. book_and_save tenant (place y) q reason actor now reference y))
  unfolding book_and_save new_ledger_entry
  booked m true (ok y) tenant actor now reference q reason (same, st, pl) c z place p =
      let same' : IsSame item (cleared y) = record {
        same_id = same.same_id;
        same_serial = same.same_serial;
        same_variant = same.same_variant;
      } in
      rw z (
        refl,
        record {
          after = cleared y;
          there =
              find-save_serial (cleared y) item s.items u e same' item.serial_number
              ∙ rw (yes item.serial_number _ refl) refl;
          serial = same.same_serial;
          status = st;
          place = pl;
          variant = same.same_variant;
          elsewhere = λ k h. find-save_serial (cleared y) item s.items u e same' k ∙ rw h refl;
          counted = λ v l.
              appended item.variant_id (entry_place m item) v l (change m) s.ledger _
                (same.same_variant, p y pl, sym c);
          unique = save-IsUnique (cleared y) item s.items u e same';
        },
      )
  booked m true (err x) tenant actor now reference q reason a c z place p = elim a [ ]
  booked m false (ok y) tenant actor now reference q reason a c z place p = elim a [ ]
  booked m false (err x) tenant actor now reference q reason a c z place p = (refl, refl)

pub perform-Performs :
    (m : Move) (tenant actor now : ℕ) (item : SerializedItem) (s : Store)
    → IsUnique s.items
    → find_by_serial item.serial_number s.items ≡ some item
    → Performs
        (lets_through item.status (status_after m))
        m
        item
        s
        (perform m item.serial_number tenant actor now s)
unfolding receive_serial sell_serial return_serial restock_serial
perform-Performs (receives location order) tenant actor now item s u e = rw e (
    booked s item u e (receives location order) _ _ tenant actor now order (pos 1) purchase_receipt
      (receive-Allowed location actor now order item) refl refl (λ y. location) (λ y h. refl))
perform-Performs (sells sale) tenant actor now item s u e = rw e (
    booked s item u e (sells sale) _ _ tenant actor now sale (negsuc 0) _
      (sell-Allowed sale actor now item) refl refl (λ y. y.location_id) (λ y h. h))
perform-Performs (returns reference) tenant actor now item s u e = rw e (
    booked s item u e (returns reference) _ _ tenant actor now reference (pos 1) _
      (transition-Allowed returned actor now (some reference) item) refl refl (λ y. y.location_id)
      (λ y h. h))
perform-Performs (restocks location reference) tenant actor now item s u e = rw e (
    booked s item u e (restocks location reference) _ _ tenant actor now reference (pos 1)
      purchase_receipt (transition-Allowed in_stock actor now (some reference) item) refl refl
      (λ y. location) (λ y h. refl))
