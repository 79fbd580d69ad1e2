-- ===== src/Stock/UseCases/Ready.antt =====
-- An item that a use case of the stock read or made, and the store after its call and its save.
use gql_ddd_inventory.Prelude.{
  ℕ, ◌+◌, ◌≡◌, refl, sym, ap, ◌∙◌, false, ◌&&◌, Option, none, some, List, [], ◌∷◌, ◌++◌, Result, ok,
  err, arith, ◌==◌, Option-cases, Bool-cases, inl, inr,
}
use gql_ddd_inventory.Prelude.Maps.{get_or, lookup, insert}
use gql_ddd_inventory.Prelude.Methods.{returned, kept}
use mathlib.Core.Path.{subst}
use mathlib.Core.Option.{some-injective}
use gql_ddd_inventory.Stock.Sku.{new_sku}
use gql_ddd_inventory.Stock.Item.{
  InventoryItem, Event, StockError, Call, create_new, new_inventory_item,
}
use gql_ddd_inventory.Stock.Item.Laws.{
  Op, Levels, levels, promised, IsCounted, IsSameArticle, call, Implements, call-Implements,
}
use gql_ddd_inventory.Stock.Shelves.{levels_of}
use gql_ddd_inventory.Stock.Repository.{Items, clone_item, lies_at, find_by_sku_and_location}
use gql_ddd_inventory.Stock.Repository.Saving.{
  IsValid, Fits, Fits-new, Fits-found, save-Fits, insert-IsValid, find-insert,
}
use gql_ddd_inventory.Stock.UseCases.{
  Store, StockUseCaseError, InventoryItemDto, to_dto, or_new, call_and_save,
}

-- The levels at a SKU and location, all zero where nothing is stored.
abbrev pub stock_at : (sku location : ℕ) → Items → Levels
stock_at sku location items = levels_of (find_by_sku_and_location sku location items)

-- The answer of a use case that succeeded: the levels at its place are `l`, every other place has
-- what it had, and the repository is still valid.
pub record Serves (sku location : ℕ) (l : Levels) (s : Store) (dto : InventoryItemDto) (s' : Store)
    : Type 0 where
  pub there : stock_at sku location s'.items ≡ l
  pub elsewhere :
      (k m : ℕ)
      → (k == sku && m == location) ≡ false
      → find_by_sku_and_location k m s'.items ≡ find_by_sku_and_location k m s.items
  pub answered :
      (dto.quantity ≡ l.on_hand) × (dto.allocated ≡ l.reserved) × (dto.in_transit ≡ l.incoming)
  pub valid : IsValid s'.items

-- Refused: the store is as it was. Otherwise served, with the published events `more`.
abbrev pub Answers :
    (sku location : ℕ)
    → Option Levels
    → (more : Levels → List Event) → (s : Store) → Result StockUseCaseError InventoryItemDto × Store
    → Type 0
Answers sku location none more s (r, s') = (returned (r, s') ≡ false) × (s' ≡ s)
Answers sku location (some l) more s (ok dto, s') =
    Serves sku location l s dto s' × (s'.published ≡ s.published ++ more l)
Answers sku location (some l) more s (err e, s') = ⊥

-- A method of the item that the caller keeps, where its promise is kept.
abbrev pub Kept : Option Levels → InventoryItem → Result StockError InventoryItem → Type 0
Kept none item (ok item') = ⊥
Kept none item (err e) = Unit
Kept (some l) item (ok item') =
    (levels item' ≡ l) × IsSameArticle item item' × (item'.version ≡ item.version + 1)
Kept (some l) item (err e) = ⊥

kept_of :
    (o : Option Levels) (item : InventoryItem) (out : Result StockError (Unit {0}) × InventoryItem)
    → Implements o item out
    → Kept o item (kept out)
kept_of none item (ok a, x) i = cc i.0
kept_of none item (err e, x) i = tt
kept_of (some l) item (ok a, x) i = (i.1, i.3, i.4)
kept_of (some l) item (err e, x) i = cc i.0

pub call-Kept :
    (op : Op) (item : InventoryItem)
    → IsCounted item
    → Kept (promised op (levels item)) item (kept (call op item))
call-Kept op item c = kept_of _ item _ (call-Implements op item c)

-- An item ready for a call: counted in pieces, standing for what is stored at its place, and fitting
-- the repository once it is one version on.
pub record IsReady (sku location : ℕ) (items : Items) (item : InventoryItem) : Type 0 where
  pub counted : IsCounted item
  pub place : (item.sku ≡ sku) × (item.location_id ≡ location)
  pub quiet : item.domain_events ≡ []
  pub stands : levels item ≡ stock_at sku location items
  pub fits :
      (item' : InventoryItem)
      → IsSameArticle item item'
      → item'.version ≡ item.version + 1
      → Fits item' items

clone-IsCounted : (x : InventoryItem) → IsCounted (clone_item x)
clone-IsCounted x = record { on_hand_unit = refl; reserved_unit = refl; incoming_unit = refl }

-- What a lookup finds lies there and is counted in pieces.
found-IsCounted :
    (sku location : ℕ) (items : Items) {x : InventoryItem}
    → find_by_sku_and_location sku location items ≡ some x
    → IsCounted x × (x.sku ≡ sku) × (x.location_id ≡ location) × (x.domain_events ≡ [])
unfolding find_by_sku_and_location
found-IsCounted sku location [] e = cc
found-IsCounted sku location ((k, y) ∷ items) {x} e = elim (Bool-cases (lies_at sku location y)) [
  | inl h ↦
      let same : clone_item y ≡ x = some-injective _ _ (rw h at e) in
      subst (λ z. IsCounted z × (z.sku ≡ sku) × (z.location_id ≡ location) × (z.domain_events ≡ []))
        same (clone-IsCounted y, ground arith, ground arith, refl)
  | inr h ↦ found-IsCounted sku location items (rw h at e)
]

pub found-IsReady :
    (sku location : ℕ) (items : Items) (x : InventoryItem)
    → IsValid items
    → find_by_sku_and_location sku location items ≡ some x
    → IsReady sku location items x
found-IsReady sku location items x v e =
    let (c, p, q, r) = found-IsCounted sku location items e in
    record {
      counted = c;
      place = (p, q);
      quiet = r;
      stands = rw e refl;
      fits = λ item' same n.
          Fits-found item' x items v (rw (same.same_sku ∙ p, same.same_location ∙ q) e) same.same_id
            (sym n);
    }

new-IsReady :
    (uuid sku location : ℕ) (items : Items)
    → lookup uuid items ≡ none
    → find_by_sku_and_location sku location items ≡ none
    → IsReady sku location items (new_inventory_item uuid sku location)
unfolding new_inventory_item
new-IsReady uuid sku location items h e = record {
  counted = record { on_hand_unit = refl; reserved_unit = refl; incoming_unit = refl };
  place = (refl, refl);
  quiet = refl;
  stands = rw e refl;
  fits = λ item' same n.
      Fits-new item' items (rw same.same_id h) (rw (same.same_sku, same.same_location) e);
}

-- The item that is found, or a new one under the SKU as it is given.
abbrev pub found_or_made : (uuid sku location : ℕ) → Items → InventoryItem
found_or_made uuid sku location items =
    get_or (find_by_sku_and_location sku location items) (new_inventory_item uuid sku location)

-- A SKU in the form that `Sku` stores is kept as it is.
pub or_new-ok :
    (uuid sku location : ℕ) (found : Option InventoryItem)
    → new_sku sku ≡ some sku
    → or_new uuid sku location found ≡ ok (get_or found (new_inventory_item uuid sku location))
unfolding create_new
or_new-ok uuid sku location none h = rw h refl
or_new-ok uuid sku location (some item) h = refl

pub found_or_made-IsReady :
    (uuid sku location : ℕ) (items : Items)
    → IsValid items
    → lookup uuid items ≡ none
    → IsReady sku location items (found_or_made uuid sku location items)
found_or_made-IsReady uuid sku location items v h =
    elim (Option-cases (find_by_sku_and_location sku location items)) [
      | inl e ↦ rw e (new-IsReady uuid sku location items h e)
      | inr (x, e) ↦ rw e (found-IsReady sku location items x v e)
    ]

-- After the save of what fits, the store serves the levels of what was saved.
pub saved-Serves :
    (sku location : ℕ) (s : Store) (item' : InventoryItem) (published : List Event)
    → IsValid s.items
    → Fits item' s.items
    → (item'.sku ≡ sku) × (item'.location_id ≡ location)
    → Serves sku location
        (levels item')
        s
        (to_dto item')
        (record { items = insert item'.id item' s.items; published = published })
unfolding to_dto
saved-Serves sku location s item' published v f p = record {
  there = rw (find-insert item' s.items f sku location) (ground (arith, p));
  elsewhere = λ k m h. rw (find-insert item' s.items f k m) (ground (arith, p, h));
  answered = (refl, refl, refl);
  valid = insert-IsValid item' s.items f v;
}

abbrev pub no_more : Levels → List Event
no_more l = []

pub append_nil : {A : Type 0} (xs : List A) → xs ++ [] ≡ xs
append_nil [] = refl
append_nil (x ∷ xs) = ap (λ ys. x ∷ ys) (append_nil xs)

module _ (sku location : ℕ) (s : Store) (item : InventoryItem) where
  -- The save and the answer, after a call that the caller keeps or not.
  saving-Answers :
      (o : Option Levels) (r : Result StockError InventoryItem) (c : Call)
      → kept (c item) ≡ r
      → Kept o item r
      → IsReady sku location s.items item
      → IsValid s.items
      → Answers sku location o no_more s (call_and_save c item s)
  unfolding call_and_save
  saving-Answers none (ok item') c e k ready v = elim k [ ]
  saving-Answers none (err x) c e k ready v = rw e (refl, refl)
  saving-Answers (some l) (err x) c e k ready v = elim k [ ]
  saving-Answers (some l) (ok item') c e (levels_are, same, version) ready v =
      let f = ready.fits item' same version in
      rw (e, save-Fits item' s.items f)
        (
          subst
              (λ k.
                Serves sku location k s (to_dto item')
                  (record s { items = insert item'.id item' s.items }))
              levels_are
              (saved-Serves sku location s item' _ v f
                (same.same_sku ∙ ready.place.0, same.same_location ∙ ready.place.1)),
          sym (append_nil s.published),
        )

  pub call_and_save-Answers :
      (op : Op)
      → IsReady sku location s.items item
      → IsValid s.items
      → Answers sku location
          (promised op (stock_at sku location s.items))
          no_more
          s
          (call_and_save (call op) item s)
  call_and_save-Answers op ready v =
      saving-Answers _ _ (call op) refl
        (subst (λ l. Kept (promised op l) item (kept (call op item))) ready.stands
          (call-Kept op item ready.counted))
        ready v
