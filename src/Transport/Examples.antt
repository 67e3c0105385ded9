-- ===== src/Transport/Examples.antt =====
-- The listeners at concrete inputs.
use pmb.Base.{true, false, some, none, List, [], ◌∷◌}
use pmb.Json.{str, obj, end, field}
use pmb.Transport.{Receiver}
use pmb.Http.{Answer, get_error, answered}
use pmb.Amqp.{Server}
use pmb.Amqp.Listen.{Feed, delivery, closes}

-- A receiver without keys; every body is a request for keys.
abbrev receiver : Receiver
receiver = record {
  codec = record {
    new_cipher_ok = λ k. true;
    cfb_encrypt = λ k iv p. p;
    cfb_decrypt = λ k iv p. p;
    base64_encode = λ b. b;
    base64_decode = λ b. b;
    marshal = λ v. some [];
    unmarshal = λ b. some (obj (field "type" (str "RequestAuth") (field "id" (str "ann") end)));
  };
  keys = [];
  id = "bob";
}

abbrev answers : List Answer
answers = answered 408 [] ∷ get_error ∷ answered 200 (b'{' ∷ b'}' ∷ []) ∷ []

abbrev server : Server
server = record {
  dial_error = none;
  channel_error = none;
  exchange_error = none;
  queue_exists = false;
  second_channel_error = none;
  queue_error = none;
  bind_error = none;
  consume_error = none;
}

-- The connection is lost between two deliveries.
abbrev feeds : List Feed
feeds = delivery (b'{' ∷ b'}' ∷ []) ∷ closes (server ∷ []) ∷ delivery (b'{' ∷ []) ∷ []
