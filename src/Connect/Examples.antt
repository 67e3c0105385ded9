-- ===== src/Connect/Examples.antt =====
-- Connections of api/pmb.go at concrete inputs.
use pmb.Base.{String, ◌≡◌, refl, true, false, none, List, [], ◌∷◌}
use pmb.Base.Go.{done}
use pmb.Json.{Fields, str, end, field, get}
use pmb.Keys.{is_key_char, key_at, find_all, parse_keys}
use pmb.Client.{Effect, sends, incoming, is_reply, await, test_auth, Connection}
use pmb.Connect.{typed, Outside, transport_of, connect, verify_keys, settle_keys, connect_with_key}
use pmb.Connect.Keyed.{Settled, tests_of, connect_with_key-Settled}

abbrev key_a : String
key_a = "0123456789abcdef0123456789abcdef"

abbrev auth_valid : Fields
auth_valid = field "type" (str "AuthValid") (field "origin" (str "ann") end)

abbrev outside : Outside
outside = record {
  dial = λ t uri id sub. none;
  events = incoming auth_valid ∷ [];
  rounds = record { prompt = typed key_a; events = incoming auth_valid ∷ [] } ∷ [];
}

abbrev conn : Connection
conn = record { id = "ann"; keys = key_a ∷ [] }

abbrev test_sent : List Effect
test_sent = sends (key_a ∷ []) (field "type" (str "TestAuth") end) ∷ []

connected : connect_with_key outside "amqp://host" "ann" "" key_a false true ≡ done test_sent conn
unfolding connect_with_key connect transport_of settle_keys verify_keys test_auth await is_reply get
    parse_keys find_all key_at is_key_char
connected = refl

connect_with_key-Settled_example :
    (conn.id ≡ "ann") × Settled "ann" true (outside.events ∷ tests_of outside.rounds) (key_a ∷ [])
connect_with_key-Settled_example =
    connect_with_key-Settled outside "amqp://host" "ann" "" key_a false true conn connected
