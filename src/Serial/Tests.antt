-- ===== src/Serial/Tests.antt =====
-- One serialized item that is received, sold and returned.
use gql_ddd_inventory.Prelude.{◌≡◌, refl, some, [], err}
use gql_ddd_inventory.Serial.{
  SerializedItem, pending, sold, written_off, transition_to, receive, sell, invalid_transition,
}
use gql_ddd_inventory.Serial.History.{
  receives, sells, act, Reaches, here, next, replay, Reaches-replay,
}

abbrev phone : SerializedItem
phone = record {
  id = 1;
  variant_id = 7;
  serial_number = 99;
  location_id = 1;
  status = pending;
  history = [];
  domain_events = [];
}

abbrev received_phone : SerializedItem
received_phone = (act (receives 3 9 10 50) phone).1

abbrev sold_phone : SerializedItem
sold_phone = (act (sells 60 9 11) received_phone).1

sold_test : sold_phone.status ≡ sold
unfolding sell receive transition_to
sold_test = refl

location_test : sold_phone.location_id ≡ 3
unfolding sell receive transition_to
location_test = refl

sell_pending_test : sell 60 9 11 phone ≡ (err (invalid_transition pending sold), phone)
unfolding sell transition_to
sell_pending_test = refl

sold_phone-Reaches : Reaches phone sold_phone
sold_phone-Reaches = next (next here (receives 3 9 10 50)) (sells 60 9 11)

Reaches-replay_example : replay pending sold_phone.history ≡ some sold_phone.status
Reaches-replay_example = Reaches-replay refl sold_phone-Reaches

abbrev scrap : SerializedItem
scrap = record phone { status = written_off }
