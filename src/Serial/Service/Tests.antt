-- ===== src/Serial/Service/Tests.antt =====
-- One article that is registered, received, sold, returned and restocked.
use gql_ddd_inventory.Prelude.{◌≡◌, refl, true, some, [], ◌∷◌, err}
use gql_ddd_inventory.Prelude.Int.{pos, ◌+ℤ◌}
use gql_ddd_inventory.Prelude.Methods
use gql_ddd_inventory.Ledger.Repository.{current_quantity}
use gql_ddd_inventory.Serial.{SerializedItem, in_stock}
use gql_ddd_inventory.Serial.Service.{
  Store, find_by_serial, is_registered, register, save_serial, new_serial, already_registered,
}
use gql_ddd_inventory.Serial.Service.Moves.{sells, returns, restocks, perform, IsUnique}
use gql_ddd_inventory.Serial.Service.Round.{round-Inflates}

abbrev phone : SerializedItem
phone = record (new_serial 1 99 7 3) { status = in_stock }

abbrev shop : Store
shop = record { items = phone ∷ []; ledger = []; dispatched = [] }

shop-IsUnique : IsUnique shop.items
unfolding IsUnique
shop-IsUnique = (tt, tt)

phone_there : find_by_serial 99 shop.items ≡ some phone
unfolding find_by_serial
phone_there = refl

register_again_test : register 2 99 7 3 shop ≡ (err (already_registered 99), shop)
unfolding register is_registered
register_again_test = refl

register_test : (register 2 98 7 3 shop).1.items ≡ phone ∷ new_serial 2 98 7 3 ∷ []
unfolding register is_registered save_serial
register_test = refl

round-Inflates_example :
    let a = perform (sells 60) 99 1 9 10 shop in
    let b = perform (returns 61) 99 1 9 10 a.1 in
    let c = perform (restocks 3 62) 99 1 9 10 b.1 in
    (Methods.returned c ≡ true)
    × ((after : SerializedItem) × (find_by_serial 99 c.1.items ≡ some after)
        × (after.status ≡ in_stock)
        × (after.location_id ≡ 3))
    × (current_quantity 7 3 c.1.ledger ≡ current_quantity 7 3 [] +ℤ pos 1)
round-Inflates_example = round-Inflates 1 9 10 60 61 62 phone shop shop-IsUnique phone_there refl
