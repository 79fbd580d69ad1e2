-- ===== src/Serial/Service/Round.antt =====
-- An article that is sold, returned and put back into stock.
use gql_ddd_inventory.Prelude.{
  ℕ, ◌≡◌, refl, sym, ap, ◌∙◌, true, ◌&&◌, Option, some, List, ◌==◌, arith,
}
use mathlib.Core.Path.{subst}
use gql_ddd_inventory.Prelude.Int.{ℤ, pos, negsuc, ◌+ℤ◌, +ℤ_parts, eq_of_parts}
use gql_ddd_inventory.Prelude.Methods
use gql_ddd_inventory.Ledger.Repository.{current_quantity}
use gql_ddd_inventory.Serial.{SerializedItem, in_stock, sold, returned}
use gql_ddd_inventory.Serial.Service.{Store, find_by_serial}
use gql_ddd_inventory.Serial.Service.Moves.{
  Move, sells, returns, restocks, perform, status_after, entry_place, change, lets_through,
  IsUnique, Moved, Performs, perform-Performs,
}

-- A move that is let through, for the serial number of the item.
moves_on :
    (m : Move) (serial tenant actor now : ℕ) (item : SerializedItem) (s : Store)
    → IsUnique s.items
    → item.serial_number ≡ serial
    → find_by_serial serial s.items ≡ some item
    → lets_through item.status (status_after m) ≡ true
    → let out = perform m serial tenant actor now s in
      (Methods.returned out ≡ true) × Moved m item s out.1
moves_on m serial tenant actor now item s u n e t =
    let e' = ap (λ k. find_by_serial k s.items) n ∙ e in
    subst
      (λ k.
        let out = perform m k tenant actor now s in
        (Methods.returned out ≡ true) × Moved m item s out.1)
      n
      (subst (λ b. Performs b m item s (perform m item.serial_number tenant actor now s)) t
        (perform-Performs m tenant actor now item s u e'))

both : (a b c d : ℕ) → a ≡ b → c ≡ d → (a == b && c == d) ≡ true
both a b c d p q = ground arith

-- The entry of a move at the place and of the variant that are asked for.
counted_here :
    (m : Move) (item : SerializedItem) (s s' : Store) (variant place : ℕ)
    → Moved m item s s'
    → item.variant_id ≡ variant
    → entry_place m item ≡ place
    → current_quantity variant place s'.ledger ≡ current_quantity variant place s.ledger +ℤ change m
counted_here m item s s' variant place moved v l =
    moved.counted variant place
    ∙ rw (both item.variant_id variant (entry_place m item) place v l) refl

found_as :
    (items : List SerializedItem) (j k : ℕ) {o : Option SerializedItem}
    → j ≡ k
    → find_by_serial j items ≡ o
    → find_by_serial k items ≡ o
found_as items j k p h = ap (λ i. find_by_serial i items) (sym p) ∙ h

one_more : (a : ℤ) → ((a +ℤ negsuc 0) +ℤ pos 1) +ℤ pos 1 ≡ a +ℤ pos 1
one_more a = eq_of_parts _ _ (
    omega (
      arith,
      +ℤ_parts a (negsuc 0),
      +ℤ_parts (a +ℤ negsuc 0) (pos 1),
      +ℤ_parts ((a +ℤ negsuc 0) +ℤ pos 1) (pos 1),
      +ℤ_parts a (pos 1),
    ))

-- An article that is in stock, each serial number and identifier being one item's, can be sold,
-- returned and restocked where it lies, and is then in stock there as before; but the ledger counts
-- one article more than before, since the return and the restocking both add one.
pub round-Inflates :
    (tenant actor now sale return_reference restock_reference : ℕ) (item : SerializedItem)
    (s : Store)
    → IsUnique s.items
    → find_by_serial item.serial_number s.items ≡ some item
    → item.status ≡ in_stock
    → let serial = item.serial_number in
      let place = item.location_id in
      let a = perform (sells sale) serial tenant actor now s in
      let b = perform (returns return_reference) serial tenant actor now a.1 in
      let c = perform (restocks place restock_reference) serial tenant actor now b.1 in
      (Methods.returned c ≡ true)
      × ((after : SerializedItem) × (find_by_serial serial c.1.items ≡ some after)
          × (after.status ≡ in_stock)
          × (after.location_id ≡ place))
      × (current_quantity item.variant_id place c.1.ledger
          ≡ current_quantity item.variant_id place s.ledger +ℤ pos 1)
round-Inflates tenant actor now sale ref ref' item s u e h =
    let serial = item.serial_number in
    let place = item.location_id in
    let (ra, a) =
      moves_on (sells sale) serial tenant actor now item s u refl e
        (ap (λ x. lets_through x sold) h) in
    let (rb, b) =
      moves_on (returns ref) serial tenant actor now a.after _ a.unique a.serial a.there
        (ap (λ x. lets_through x returned) a.status) in
    let at_b : b.after.location_id ≡ place = b.place ∙ a.place in
    let (rc, c) =
      moves_on (restocks place ref') serial tenant actor now b.after _ b.unique
        (b.serial ∙ a.serial) (found_as _ _ _ a.serial b.there)
        (ap (λ x. lets_through x in_stock) b.status) in
    (
      rc,
      (c.after, found_as _ _ _ (b.serial ∙ a.serial) c.there, c.status, c.place ∙ at_b),
      counted_here (restocks place ref') b.after _ _ item.variant_id place c (b.variant ∙ a.variant)
            refl
          ∙ ap (λ q. q +ℤ pos 1)
              (counted_here (returns ref) a.after _ _ item.variant_id place b a.variant a.place
                ∙ ap (λ q. q +ℤ pos 1)
                    (counted_here (sells sale) item _ _ item.variant_id place a refl refl))
          ∙ one_more _,
    )
