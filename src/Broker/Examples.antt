-- ===== src/Broker/Examples.antt =====
-- A broker of broker.go at concrete inputs.
use pmb.Base.{◌≡◌, refl, true, some, [], ◌∷◌}
use pmb.Broker.{Broker, add, send, round, on_add, new_broker}
use pmb.Broker.Broadcast.{Served}
use pmb.Broker.Relay.{relayed}
use pmb.Broker.Relay.Frames.{relayed-panic}
use pmb.Wire.{Codec, panic, parse_message}
use pmb.Json.{obj, end}
use pmb.Broker.Reach.{Reach, start, inputs, Reach-send}

abbrev one_client : Broker
one_client = on_add 1 new_broker

one_client-Reach : Reach one_client
unfolding on_add round
one_client-Reach = inputs (add 1) start (refl, refl) refl

Reach-send_example :
    (b' : Broker) × (round (send (7 ∷ [])) one_client ≡ some b')
    × Served (7 ∷ []) one_client one_client.clients b'
Reach-send_example = Reach-send one_client-Reach (7 ∷ [])

-- A codec that ciphers nothing.
abbrev plain : Codec
plain = record {
  new_cipher_ok = λ k. true;
  cfb_encrypt = λ k iv p. p;
  cfb_decrypt = λ k iv p. p;
  base64_encode = λ b. b;
  base64_decode = λ b. b;
  marshal = λ v. some [];
  unmarshal = λ b. some (obj end);
}

relayed-panic_example :
    (relayed (9 ∷ 10 ∷ []) ≡ [])
    × (parse_message plain (relayed (9 ∷ 10 ∷ [])) ("key" ∷ []) "id" ≡ panic)
relayed-panic_example = relayed-panic plain ("key" ∷ []) "id" (9 ∷ 10 ∷ []) (refl, (refl, tt))
