-- ===== src/EndToEnd.antt =====
-- A client's request to an introducer and the reply, over the program's own broker: api/util.go and
-- processReads of broker.go between runIntroducer of introducer.go and a client of api/pmb.go.
pub mod Requests
mod Examples
use pmb.Base.{
  ℕ, String, ◌≡◌, ◌≢◌, sym, subst, ap, Option, some, List, ◌∷◌, ◌++◌, Bytes, Any, All, utf8, length,
}
use pmb.Json.{Fields, obj}
use pmb.Wire.{
  Codec, IsCodec, Host, Message, deliver, encrypt, prepare_message, parse_message, tag, try_keys,
  unopened,
}
use pmb.Wire.Sent.{Draws}
use pmb.Wire.RoundTrip.{received}
use pmb.Broker.Relay.{relayed}
use pmb.Broker.Relay.Frames.{Visible}
use pmb.Broker.Relay.Delivered.{parse_message-relayed}

-- One end of the bus: its connection's id and keys, its host, and the random source.
pub record End : Type 0 where
  pub id : String
  pub keys : List String
  pub host : Host
  pub draw : ℕ → Option Bytes

-- `r` can read what `s` says in `m` at the time `now`, with the JSON `json`: they share a key of 32
-- bytes that none of the earlier keys of `r` hides, their ids differ, the random source of `s` works,
-- and JSON reads back what it wrote.
pub record Link (c : Codec) (s r : End) (now : String) (m : Fields) (json : Bytes) : Type 0 where
  pub key : String
  pub sent_before : List String
  pub sent_after : List String
  pub before : List String
  pub after : List String
  pub sent_keys : s.keys ≡ sent_before ++ key ∷ sent_after
  pub own_keys : r.keys ≡ before ++ key ∷ after
  pub key_32 : length (utf8 key) ≡ 32
  pub draws : Draws s.draw
  pub written : c.marshal (obj (tag s.host now s.id m)) ≡ some json
  pub read : c.unmarshal json ≡ some (obj (tag s.host now s.id m))
  pub misses :
      (iv body : Bytes)
      → encrypt c (some iv) (utf8 key) json ≡ some body
      → try_keys c body before ≡ unopened
  pub apart : s.id ≢ r.id

-- `s` sends `m`, and `r` gets `n`: prepareMessage makes bodies, one of which, as the broker passes it
-- on, parseMessage of `r` delivers as `n`.
abbrev pub Arrives : Codec → End → End → String → Fields → Message → Type 0
Arrives c s r now m n =
    (bodies : List Bytes) × (prepare_message c s.host now s.draw m s.keys s.id ≡ some bodies)
    × Any (λ body. parse_message c (relayed body) r.keys r.id ≡ deliver n) bodies

pub Link-Arrives :
    (c : Codec) (l : IsCodec c) (s r : End) (now : String) (m : Fields) (json : Bytes)
    → ((b : Bytes) → All Visible (c.base64_encode b))
    → Link c s r now m json
    → Arrives c s r now m (received (tag s.host now s.id m) json)
Link-Arrives c l s r now m json v k =
    subst
      (λ ks.
        (bodies : List Bytes) × (prepare_message c s.host now s.draw m ks s.id ≡ some bodies)
        × Any
            (λ body.
              parse_message c (relayed body) r.keys r.id
              ≡ deliver (received (tag s.host now s.id m) json))
            bodies)
      (sym k.sent_keys)
      (rw k.own_keys (
        parse_message-relayed c l s.host now s.draw m k.sent_before k.sent_after k.before k.after
          k.key s.id r.id json v k.key_32 k.draws k.written k.read k.misses k.apart))
