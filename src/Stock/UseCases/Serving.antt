-- ===== src/Stock/UseCases/Serving.antt =====
-- What each use case of the stock does to the levels at its place, and when it refuses.
use gql_ddd_inventory.Prelude.{
  ℕ, ◌≡◌, refl, sym, ap, ◌∙◌, Bool, true, false, not, ◌&&◌, Option, none, some, List, [], ◌∷◌, ◌++◌,
  Result, Result-cases, ok, err, arith, ltb, ◌||◌, ◌⊎◌, is_ok, is_none, if◌then◌else◌, Option-cases,
  inl, inr,
}
use gql_ddd_inventory.Prelude.Int.{ℤ, pos, negsuc, ltb_ℤ, pos_part}
use gql_ddd_inventory.Prelude.Maps.{lookup, insert}
use gql_ddd_inventory.Prelude.Methods.{◌>>=◌, kept, lift, this, assign, return, ◌>>◌}
use mathlib.Core.Path.{subst}
use gql_ddd_inventory.Stock.Quantity.{
  Quantity, subtract, same_unit_refl, pieces, each, new_quantity, negative_amount,
}
use gql_ddd_inventory.Stock.Capacity.{WmsCapacityService, relative}
use gql_ddd_inventory.Stock.Sku.{new_sku}
use gql_ddd_inventory.Stock.Item.{
  InventoryItem, Event, StockError, Call, low_stock_alert, dispatch_stock, allocate_stock,
  release_allocation, fulfill_allocation, create_in_transit, receive_in_transit,
}
use gql_ddd_inventory.Stock.Item.Laws.{Op, Levels, levels, promised, call}
use gql_ddd_inventory.Stock.Shelves.{levels_of}
use gql_ddd_inventory.Stock.Repository.{Items, find_by_sku_and_location, save}
use gql_ddd_inventory.Stock.Repository.Saving.{IsValid, save-Fits}
use gql_ddd_inventory.Stock.UseCases.{
  Store, to_dto, UseCase, found_or_new, found_or_throw, call_and_save, on_items, raised_as, of_item,
  of_quantity, quantity_of, check_capacity, execute_receive_stock, execute_dispatch_stock,
  execute_allocate_stock, execute_release_allocation, execute_fulfill_allocation,
  execute_create_in_transit, execute_receive_in_transit,
}
use gql_ddd_inventory.Stock.UseCases.Ready.{
  found_or_made, or_new-ok, Answers, IsReady, Kept, Serves, call-Kept, call_and_save-Answers,
  found-IsReady, found_or_made-IsReady, no_more, saved-Serves, stock_at,
}

pub data Action : Type 0 where
  receiving dispatching allocating releasing fulfilling expecting arriving : Action

module _ (capacity : Option WmsCapacityService) (uuid sku location : ℕ) where
  abbrev pub execute : Action → ℤ → UseCase
  execute receiving = execute_receive_stock capacity uuid sku location
  execute dispatching = execute_dispatch_stock sku location
  execute allocating = execute_allocate_stock uuid sku location
  execute releasing = execute_release_allocation sku location
  execute fulfilling = execute_fulfill_allocation sku location
  execute expecting = execute_create_in_transit uuid sku location
  execute arriving = execute_receive_in_transit sku location

  -- Whether the check of the capacity lets the action through, which only a receipt makes.
  abbrev pub has_room : Action → ℤ → Items → Bool
  has_room receiving amount items = is_ok (
      check_capacity capacity location
        (record { sku = sku; mode = relative; quantity = amount } ∷ []) items)
  has_room _ amount items = true

abbrev pub op_of : Action → ℕ → Op
op_of receiving n = Op.receive n
op_of dispatching n = Op.dispatch n
op_of allocating n = Op.allocate n
op_of releasing n = Op.release n
op_of fulfilling n = Op.fulfill n
op_of expecting n = Op.expect n
op_of arriving n = Op.arrive n

-- Whether the action throws where no item is stored.
abbrev pub needs_item : Action → Bool
needs_item receiving = false
needs_item allocating = false
needs_item expecting = false
needs_item _ = true

-- What a request promises: nothing where there is no room, no item that it needs, or the amount is
-- negative; else what the operation on the levels does.
abbrev pub request : Action → (room : Bool) → Option InventoryItem → ℤ → Option Levels
request a room found amount =
    if not room || (needs_item a && is_none found) || ltb_ℤ amount (pos 0)
    then none
    else promised (op_of a (pos_part amount)) (levels_of found)

-- The alert of a dispatch that leaves less than ten.
abbrev pub alerts : Action → (sku location : ℕ) → Levels → List Event
alerts dispatching sku location l =
    if ltb l.on_hand 10 then low_stock_alert sku location l.on_hand ∷ [] else []
alerts _ sku location l = []

-- The shapes of the use cases: the amount, the item found or a new one, and a call on it.
abbrev on_found : (Quantity → Call) → (sku location : ℕ) → ℤ → UseCase
on_found c sku location amount = do
  quantity ← lift (quantity_of amount)
  s ← this
  item ← lift (found_or_throw sku location s.items)
  call_and_save (c quantity) item

abbrev on_found_or_new : (Quantity → Call) → (uuid sku location : ℕ) → ℤ → UseCase
on_found_or_new c uuid sku location amount = do
  quantity ← lift (quantity_of amount)
  s ← this
  item ← lift (found_or_new uuid sku location s.items)
  call_and_save (c quantity) item

abbrev dispatch_found : Quantity → InventoryItem → UseCase
dispatch_found quantity item = do
  item' ← lift (raised_as of_item (kept (dispatch_stock quantity item)))
  on_items (save item')
  s' ← this
  assign (record s' { published = s'.published ++ item'.domain_events })
  return (to_dto item')

-- A dispatch raises the alert of what it leaves, and no other event.
dispatch-alerts :
    (n : ℕ) (x : InventoryItem) {item' : InventoryItem}
    → kept (dispatch_stock (pieces n) x) ≡ ok item'
    → x.domain_events ≡ []
    → item'.domain_events ≡ alerts dispatching x.sku x.location_id (levels item')
unfolding dispatch_stock subtract
dispatch-alerts n x e q = ground (arith, same_unit_refl each)

-- The amount of a request, or a refusal that leaves the store.
pub amount-cases :
    (amount : ℤ)
    → ((ltb_ℤ amount (pos 0) ≡ true) × (quantity_of amount ≡ err (of_quantity negative_amount)))
      ⊎ ((ltb_ℤ amount (pos 0) ≡ false) × (quantity_of amount ≡ ok (pieces (pos_part amount))))
unfolding new_quantity
amount-cases (pos n) = inr (ground arith, ground arith)
amount-cases (negsuc n) = inl (ground arith, ground arith)

module _ (sku location : ℕ) (s : Store) (v : IsValid s.items) where
  -- A call on the item found or a new one, and a call on the item found.
  creating-Answers :
      (uuid : ℕ) (op : Op)
      → lookup uuid s.items ≡ none
      → Answers sku location
          (promised op (stock_at sku location s.items))
          no_more
          s
          (call_and_save (call op) (found_or_made uuid sku location s.items) s)
  creating-Answers uuid op h =
      call_and_save-Answers sku location s _ op
        (found_or_made-IsReady uuid sku location s.items v h) v

  finding-Answers :
      (op : Op) (item : InventoryItem)
      → find_by_sku_and_location sku location s.items ≡ some item
      → Answers sku location (promised op (levels item)) no_more s (call_and_save (call op) item s)
  finding-Answers op item e =
      let ready = found-IsReady sku location s.items item v e in
      subst (λ l. Answers sku location (promised op l) no_more s (call_and_save (call op) item s))
        (sym ready.stands) (call_and_save-Answers sku location s item op ready v)

  -- The use cases that read the item after the amount, by the call that they make.
  on_found-Answers :
      (c : Quantity → Call) (op : ℕ → Op) (amount : ℤ)
      → ((n : ℕ) → c (pieces n) ≡ call (op n))
      → let found = find_by_sku_and_location sku location s.items in
        Answers sku location
          (if is_none found || ltb_ℤ amount (pos 0)
            then none
            else promised (op (pos_part amount)) (levels_of found))
          no_more
          s
          (on_found c sku location amount s)
  on_found-Answers c op amount same =
      let found = Option-cases (find_by_sku_and_location sku location s.items) in
      elim (amount-cases amount) [
        | inl (n, q) ↦ elim found [
          | inl e ↦ rw (n, q, e) (refl, refl)
          | inr (x, e) ↦ rw (n, q, e) (refl, refl)
        ]
        | inr (n, q) ↦ elim found [
          | inl e ↦ rw (n, q, e) (refl, refl)
          | inr (x, e) ↦
              rw (n, q, e, same (pos_part amount)) (finding-Answers (op (pos_part amount)) x e)
        ]
      ]

  on_found_or_new-Answers :
      (uuid : ℕ) (c : Quantity → Call) (op : ℕ → Op) (amount : ℤ)
      → ((n : ℕ) → c (pieces n) ≡ call (op n))
      → lookup uuid s.items ≡ none
      → new_sku sku ≡ some sku
      → let found = find_by_sku_and_location sku location s.items in
        Answers sku location
          (if ltb_ℤ amount (pos 0) then none else promised (op (pos_part amount)) (levels_of found))
          no_more
          s
          (on_found_or_new c uuid sku location amount s)
  on_found_or_new-Answers uuid c op amount same h stored = elim (amount-cases amount) [
    | inl (n, q) ↦ rw (n, q) (refl, refl)
    | inr (n, q) ↦
        rw
          (
            n,
            q,
            or_new-ok uuid sku location (find_by_sku_and_location sku location s.items) stored,
            same (pos_part amount),
          )
          (creating-Answers uuid (op (pos_part amount)) h)
  ]

  receiving-Answers :
      (capacity : Option WmsCapacityService) (uuid : ℕ) (amount : ℤ)
      → lookup uuid s.items ≡ none
      → new_sku sku ≡ some sku
      → Answers sku location
          (request receiving
            (has_room capacity uuid sku location receiving amount s.items)
            (find_by_sku_and_location sku location s.items)
            amount)
          no_more
          s
          (execute_receive_stock capacity uuid sku location amount s)
  unfolding execute_receive_stock
  receiving-Answers capacity uuid amount h stored =
      elim (Result-cases (
        check_capacity capacity location
          (record { sku = sku; mode = relative; quantity = amount } ∷ []) s.items)) [
            | inl (t, e) ↦ elim (amount-cases amount) [
              | inl (n, q) ↦ rw (e, n, q) (refl, refl)
              | inr (n, q) ↦
                  rw
                    (
                      e,
                      n,
                      q,
                      or_new-ok uuid sku location (find_by_sku_and_location sku location s.items)
                          stored,
                    )
                    (creating-Answers uuid (Op.receive (pos_part amount)) h)
            ]
            | inr (x, e) ↦ rw e (refl, refl)
          ]

  dispatched-Answers :
      (n : ℕ) (x : InventoryItem) (o : Option Levels) (r : Result StockError InventoryItem)
      → kept (dispatch_stock (pieces n) x) ≡ r
      → Kept o x r
      → IsReady sku location s.items x
      → Answers sku location o (alerts dispatching sku location) s (dispatch_found (pieces n) x s)
  dispatched-Answers n x none (ok item') e k ready = elim k [ ]
  dispatched-Answers n x none (err y) e k ready = rw e (refl, refl)
  dispatched-Answers n x (some l) (err y) e k ready = elim k [ ]
  dispatched-Answers n x (some l) (ok item') e (levels_are, same, version) ready =
      let f = ready.fits item' same version in
      let events =
        dispatch-alerts n x e ready.quiet
        ∙ ap (λ k. alerts dispatching k x.location_id (levels item')) ready.place.0
        ∙ ap (λ k. alerts dispatching sku k (levels item')) ready.place.1
        ∙ ap (alerts dispatching sku location) levels_are in
      rw (e, save-Fits item' s.items f)
        (
          subst
              (λ k. Serves sku location k s (to_dto item') (record {
                items = insert item'.id item' s.items;
                published = s.published ++ item'.domain_events;
              }))
              levels_are
              (saved-Serves sku location s item' _ v f
                (same.same_sku ∙ ready.place.0, same.same_location ∙ ready.place.1)),
          ap (λ es. s.published ++ es) events,
        )

  -- The published alert is that of the item that was saved.
  dispatching-Answers :
      (amount : ℤ)
      → Answers sku location
          (request dispatching true (find_by_sku_and_location sku location s.items) amount)
          (alerts dispatching sku location)
          s
          (execute_dispatch_stock sku location amount s)
  unfolding execute_dispatch_stock
  dispatching-Answers amount =
      let found = Option-cases (find_by_sku_and_location sku location s.items) in
      elim found [
        | inl e ↦ rw e (refl, refl)
        | inr (x, e) ↦
            let ready = found-IsReady sku location s.items x v e in
            elim (amount-cases amount) [
              | inl (n, q) ↦ rw (e, n, q) (refl, refl)
              | inr (n, q) ↦
                  rw (e, n, q)
                    (dispatched-Answers (pos_part amount) x _ _ refl
                      (call-Kept (Op.dispatch (pos_part amount)) x ready.counted) ready)
            ]
      ]

-- Every use case of the stock, on a valid repository, for a SKU in the form that `Sku` stores, that is
-- valid and in upper case, and with an identifier that is not in use,
-- refuses exactly where the request does and then leaves the store as it was: where the check of the
-- capacity throws, where the item that it needs is not stored, where the amount is negative, and where
-- the operation on the levels refuses. Otherwise it returns the promised levels, which the repository
-- then has at that SKU and location, every other place has what it had, the repository is valid, and
-- what is published besides is the alert of a dispatch that leaves less than ten.
pub execute-Answers :
    (capacity : Option WmsCapacityService) (uuid sku location : ℕ) (a : Action) (amount : ℤ)
    (s : Store)
    → IsValid s.items
    → lookup uuid s.items ≡ none
    → new_sku sku ≡ some sku
    → let found = find_by_sku_and_location sku location s.items in
      let room = has_room capacity uuid sku location a amount s.items in
      Answers sku location
        (request a room found amount)
        (alerts a sku location)
        s
        (execute capacity uuid sku location a amount s)
unfolding execute_release_allocation execute_fulfill_allocation execute_receive_in_transit
    execute_allocate_stock execute_create_in_transit
execute-Answers capacity uuid sku location receiving amount s v h stored =
    receiving-Answers sku location s v capacity uuid amount h stored
execute-Answers capacity uuid sku location dispatching amount s v h stored =
    dispatching-Answers sku location s v amount
execute-Answers capacity uuid sku location allocating amount s v h stored =
    on_found_or_new-Answers sku location s v uuid allocate_stock Op.allocate amount (λ n. refl) h
      stored
execute-Answers capacity uuid sku location releasing amount s v h stored =
    on_found-Answers sku location s v release_allocation Op.release amount (λ n. refl)
execute-Answers capacity uuid sku location fulfilling amount s v h stored =
    on_found-Answers sku location s v fulfill_allocation Op.fulfill amount (λ n. refl)
execute-Answers capacity uuid sku location expecting amount s v h stored =
    on_found_or_new-Answers sku location s v uuid create_in_transit Op.expect amount (λ n. refl) h
      stored
execute-Answers capacity uuid sku location arriving amount s v h stored =
    on_found-Answers sku location s v receive_in_transit Op.arrive amount (λ n. refl)
