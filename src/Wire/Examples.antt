-- ===== src/Wire/Examples.antt =====
-- Messages of api/util.go between two ends, with a codec that stands for the library's: its cipher
-- does nothing, its base64 shifts each byte, and its JSON knows one message.
use pmb.Base.{
  ℕ, ◌+◌, ◌-◌, String, ◌≡◌, refl, Option, some, List, [], ◌∷◌, ◌++◌, Bytes, All, utf8, utf8_char,
  length, nat_eq,
}
use pmb.Json.{Value, Fields, str, obj, end, field, get, put}
use pmb.Wire.{
  Codec, Host, deliver, tag, decrypt, local_net_info, prepare_message, parse_message, parse_sealed,
  try_keys, route,
}
use pmb.Wire.Safety.{Admitted, parse_message-Admitted}
use pmb.Wire.Sent.{SealedBy, prepare_message-SealedBy}
use pmb.Wire.RoundTrip.{received}

abbrev shift : Bytes → Bytes
shift [] = []
shift (b ∷ bs) = (b + 200) ∷ shift bs

abbrev unshift : Bytes → Bytes
unshift [] = []
unshift (b ∷ bs) = (b - 200) ∷ unshift bs

abbrev json : Bytes
json = b'{' ∷ b'}' ∷ []

-- The codec whose JSON is this value.
abbrev codec : Value → Codec
codec v = record {
  new_cipher_ok = λ k. nat_eq (length k) 32;
  cfb_encrypt = λ k iv p. p;
  cfb_decrypt = λ k iv p. p;
  base64_encode = shift;
  base64_decode = unshift;
  marshal = λ x. some json;
  unmarshal = λ b. some v;
}

abbrev host : Host
host = record { hostname = some "box"; addrs = some ("10.0.0.1" ∷ []) }

abbrev key_a : String
key_a = "0123456789abcdef0123456789abcdef"

abbrev key_b : String
key_b = "zzzzzzzzzzzzzzzz0123456789abcdef"

abbrev copy_data : Fields
copy_data = field "type" (str "CopyData") (field "data" (str "text") end)

abbrev tagged : Fields
tagged = tag host "now" "ann" copy_data

abbrev iv : Bytes
iv = 0 ∷ 1 ∷ 2 ∷ 3 ∷ 4 ∷ 5 ∷ 6 ∷ 7 ∷ 8 ∷ 9 ∷ 10 ∷ 11 ∷ 12 ∷ 13 ∷ 14 ∷ 15 ∷ []

abbrev draw : ℕ → Option Bytes
draw i = some iv

abbrev sealed : Bytes
sealed = shift (iv ++ json)

sealed_arrives :
    parse_message (codec (obj tagged)) sealed (key_a ∷ []) "bob" ≡ deliver (received tagged json)
unfolding parse_message parse_sealed try_keys decrypt route tag local_net_info get put utf8
    utf8_char
sealed_arrives = refl

parse_message-Admitted_example :
    Admitted (codec (obj tagged)) sealed (key_a ∷ []) "bob" (received tagged json)
parse_message-Admitted_example =
    parse_message-Admitted (codec (obj tagged)) sealed (key_a ∷ []) "bob" (received tagged json)
      sealed_arrives

prepare_message-SealedBy_example :
    (bodies : List Bytes) × (prepare_message
        (codec (obj tagged))
        host
        "now"
        draw
        copy_data
        (key_a ∷ key_b ∷ [])
        "ann"
      ≡ some bodies)
    × All (SealedBy (codec (obj tagged)) draw json (key_a ∷ key_b ∷ [])) bodies
prepare_message-SealedBy_example =
    prepare_message-SealedBy (codec (obj tagged)) host "now" draw copy_data key_a (key_b ∷ []) "ann"
      json refl
