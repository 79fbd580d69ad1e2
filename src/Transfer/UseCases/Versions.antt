-- ===== src/Transfer/UseCases/Versions.antt =====
-- When the save of a dispatch finds no item changed twice: the lines are of different SKUs.
use mathlib.Core.Path.{subst}
use gql_ddd_inventory.Prelude.{
  ℕ, ◌+◌, ◌≡◌, ◌≢◌, refl, sym, ◌∙◌, false, Option, none, some, List, [], ◌∷◌, ◌++◌, ok, arith, All,
  inl, inr, Option-cases, Result-cases, ok-injective, bind-ok,
}
use gql_ddd_inventory.Prelude.Maps.{Map, lookup, insert, lookup-insert, get_or}
use gql_ddd_inventory.Prelude.Methods.{kept}
use gql_ddd_inventory.Stock.Item.{InventoryItem, new_inventory_item}
use gql_ddd_inventory.Stock.Item.Laws.{
  Op, levels, promised, IsCounted, call, call-Implements, version_of_kept,
}
use gql_ddd_inventory.Stock.Shelves.{AreCounted}
use gql_ddd_inventory.Transfer.Entity.{StockTransfer}
use gql_ddd_inventory.Transfer.UseCases.{
  Repositories, Line, Working, Side, at_source, at_destination, is_behind, is_refused,
  check_versions, each_line, dispatch_line, find_or_create, loaded,
}
use gql_ddd_inventory.Transfer.UseCases.Lines.{find_or_create-levels, dispatch_line-Moves}

-- The lines are of different SKUs.
abbrev pub AreApart : List Line → Type 0
AreApart [] = Unit
AreApart (l ∷ ls) = All (λ x. x.0 ≢ l.0) ls × AreApart ls

ahead_of_call :
    (op : Op) (item : InventoryItem) {item' : InventoryItem}
    → IsCounted item
    → kept (call op item) ≡ ok item'
    → item'.version ≡ item.version + 1
ahead_of_call op item c e =
    version_of_kept (promised op (levels item)) item (call op item) (call-Implements op item c) e

one_ahead :
    (new old : InventoryItem)
    → new.version ≡ old.version + 1
    → is_behind (some new) (some old) ≡ false
one_ahead new old h = ground arith

one_ahead_of_found :
    (new : InventoryItem) (id sku location : ℕ) (stored : Option InventoryItem)
    → new.version ≡ (get_or stored (new_inventory_item id sku location)).version + 1
    → is_behind (some new) stored ≡ false
one_ahead_of_found new id sku location none h = refl
one_ahead_of_found new id sku location (some old) h = one_ahead new old h

module _ (t : StockTransfer) (repos : Repositories) where
  -- No item that was changed under a SKU.
  pub record IsUntouched (sku : ℕ) (w : Working) : Type 0 where
    pub source : lookup sku w.source ≡ lookup sku (repos.stock t.source_location_id)
    pub destination : lookup sku w.destination ≡ lookup sku (repos.stock t.destination_location_id)
    pub unnamed : All (λ i. i.1 ≢ sku) w.items_to_save

  abbrev pub Passes : Working → Side × ℕ → Type 0
  Passes w i = is_refused t w repos i ≡ false

  pub check_versions-ok :
      (w : Working) (is : List (Side × ℕ)) → All (Passes w) is → check_versions t w repos is ≡ ok tt
  unfolding check_versions
  check_versions-ok w [] h = refl
  check_versions-ok w (i ∷ is) h = rw h.0 (check_versions-ok w is h.1)

  -- A line's changes do not touch another SKU.
  still-Passes :
      (w w' : Working) (sku : ℕ) (is : List (Side × ℕ))
      → ((k : ℕ) → k ≢ sku → lookup k w'.source ≡ lookup k w.source)
      → ((k : ℕ) → k ≢ sku → lookup k w'.destination ≡ lookup k w.destination)
      → All (λ i. i.1 ≢ sku) is
      → All (Passes w) is
      → All (Passes w') is
  still-Passes w w' sku [] s d n p = tt
  still-Passes w w' sku ((at_source, k) ∷ is) s d n p =
      (rw (s k n.0) p.0, still-Passes w w' sku is s d n.1 p.1)
  still-Passes w w' sku ((at_destination, k) ∷ is) s d n p =
      (rw (d k n.0) p.0, still-Passes w w' sku is s d n.1 p.1)

All-two :
    {A : Type 0} (P : A → Type 0) (xs : List A) (a b : A)
    → All P xs
    → P a
    → P b
    → All P (xs ++ (a ∷ b ∷ []))
All-two P [] a b h p q = (p, (q, tt))
All-two P (x ∷ xs) a b h p q = (h.0, All-two P xs a b h.1 p q)

insert_elsewhere :
    (sku k : ℕ) (item : InventoryItem) (m : Map InventoryItem)
    → k ≢ sku
    → lookup k (insert sku item m) ≡ lookup k m
insert_elsewhere sku k item m h = lookup-insert sku k item m ∙ ground (arith, h)

insert_there :
    (sku : ℕ) (item : InventoryItem) (m : Map InventoryItem)
    → lookup sku (insert sku item m) ≡ some item
insert_there sku item m = lookup-insert sku sku item m ∙ ground arith

module _ (t : StockTransfer) (repos : Repositories) (uuid : ℕ → ℕ) where
  -- A line of a SKU that was untouched leaves the save possible, and other SKUs untouched.
  dispatch_line-Passes :
      (source destination sku n : ℕ) (w : Working) {w' : Working}
      → AreCounted w.source
      → AreCounted w.destination
      → IsUntouched t repos sku w
      → All (Passes t repos w) w.items_to_save
      → dispatch_line uuid source destination (sku, n) w ≡ ok w'
      → All (Passes t repos w') w'.items_to_save
        × ((k : ℕ) → k ≢ sku → IsUntouched t repos k w → IsUntouched t repos k w')
  unfolding dispatch_line
  dispatch_line-Passes source destination sku n w {w'} cs cd u p e =
      let dest = find_or_create uuid destination sku w.destination in
      let (empty, fresh) = find_or_create-levels uuid destination sku w.destination cd in
      elim (Option-cases (lookup sku w.source)) [
        | inl e₁ ↦ cc (rw e₁ at e)
        | inr (item, e₁) ↦ elim (Result-cases (kept (call (Op.dispatch n) item))) [
          | inr (x, e₂) ↦ cc (rw (e₁, e₂) at e)
          | inl (item', e₂) ↦ elim (Result-cases (kept (call (Op.expect n) dest))) [
            | inr (x, e₃) ↦ cc (rw (e₁, e₂, e₃) at e)
            | inl (dest', e₃) ↦
                let done : Working = record {
                  source = insert sku item' w.source;
                  destination = insert sku dest' w.destination;
                  items_to_save =
                      w.items_to_save ++ ((at_source, sku) ∷ (at_destination, sku) ∷ []);
                  movements = _;
                } in
                let same : done ≡ w' = ok-injective (rw (e₁, e₂, e₃) at e) in
                let ahead = ahead_of_call (Op.dispatch n) item (cs sku item e₁) e₂ in
                let ahead' = ahead_of_call (Op.expect n) dest fresh e₃ in
                let stored : lookup sku (repos.stock t.source_location_id) ≡ some item =
                  sym u.source ∙ e₁ in
                let first : Passes t repos done (at_source, sku) =
                  rw (insert_there sku item' w.source, stored) (one_ahead item' item ahead) in
                let second : Passes t repos done (at_destination, sku) =
                  rw (insert_there sku dest' w.destination, sym u.destination)
                    (one_ahead_of_found dest' (uuid sku) sku destination (lookup sku w.destination)
                      ahead') in
                subst
                  (λ x.
                    All (Passes t repos x) x.items_to_save
                    × ((k : ℕ) → k ≢ sku → IsUntouched t repos k w → IsUntouched t repos k x))
                  same
                  (
                    All-two (Passes t repos done) w.items_to_save (at_source, sku)
                        (at_destination, sku)
                        (still-Passes t repos w done sku w.items_to_save
                          (λ k h. insert_elsewhere sku k item' w.source h)
                          (λ k h. insert_elsewhere sku k dest' w.destination h) u.unnamed p)
                        first second,
                    λ k h v. record {
                      source = insert_elsewhere sku k item' w.source h ∙ v.source;
                      destination = insert_elsewhere sku k dest' w.destination h ∙ v.destination;
                      unnamed =
                          All-two (λ (i : Side × ℕ). i.1 ≢ k) w.items_to_save (at_source, sku)
                            (at_destination, sku) v.unnamed (λ q. h (sym q)) (λ q. h (sym q));
                    },
                  )
          ]
        ]
      ]

  IsUntouched-on :
      (sku : ℕ) (w w' : Working) (ls : List Line)
      → ((k : ℕ) → k ≢ sku → IsUntouched t repos k w → IsUntouched t repos k w')
      → All (λ l. l.0 ≢ sku) ls
      → All (λ l. IsUntouched t repos l.0 w) ls
      → All (λ l. IsUntouched t repos l.0 w') ls
  IsUntouched-on sku w w' [] f a u = tt
  IsUntouched-on sku w w' (l ∷ ls) f a u = (f l.0 a.0 u.0, IsUntouched-on sku w w' ls f a.1 u.1)

  pub each_line-Passes :
      (source destination : ℕ) (ls : List Line) (w : Working) {w' : Working}
      → AreCounted w.source
      → AreCounted w.destination
      → AreApart ls
      → All (λ l. IsUntouched t repos l.0 w) ls
      → All (Passes t repos w) w.items_to_save
      → each_line (dispatch_line uuid source destination) ls w ≡ ok w'
      → All (Passes t repos w') w'.items_to_save
  unfolding each_line
  each_line-Passes source destination [] w cs cd a u p e =
      subst (λ x. All (Passes t repos x) x.items_to_save) (ok-injective e) p
  each_line-Passes source destination ((sku, n) ∷ ls) w cs cd a u p e =
      let (v, e₁, e₂) =
        bind-ok (dispatch_line uuid source destination (sku, n) w)
          (each_line (dispatch_line uuid source destination) ls) e in
      let (le, m) = dispatch_line-Moves uuid source destination sku n w cs cd e₁ in
      let (p', f) = dispatch_line-Passes source destination sku n w cs cd u.0 p e₁ in
      each_line-Passes source destination ls v m.at_source.counted m.at_destination.counted a.1
        (IsUntouched-on sku w v ls f a.0 u.1) p' e₂

-- Nothing was touched before the first line.
pub all-IsUntouched :
    (t : StockTransfer) (repos : Repositories) (ls : List Line)
    → All (λ l. IsUntouched t repos l.0 (loaded repos t)) ls
all-IsUntouched t repos [] = tt
all-IsUntouched t repos (l ∷ ls) =
    (record { source = refl; destination = refl; unnamed = tt }, all-IsUntouched t repos ls)
