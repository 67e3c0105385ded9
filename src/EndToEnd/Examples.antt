-- ===== src/EndToEnd/Examples.antt =====
-- Requests over the broker at concrete inputs. The codec's JSON knows two messages; its cipher does
-- nothing.
use pmb.Base.{
  ℕ, eq_iff, String, ◌≡◌, ◌≢◌, refl, Option, none, some, [], ◌∷◌, Bytes, Any, utf8, utf8_char,
  length, nat_eq, ◌==◌, if◌then◌else◌, true, false,
}
use pmb.Base.Go.{done, trace}
use pmb.Base.Float.{whole}
use pmb.Json.{Value, Fields, obj, as_object, text_at, get, put}
use pmb.Wire.{Codec, IsCodec, Message, tag, try_keys, local_net_info}
use pmb.Wire.Sent.{Draws}
use pmb.Broker.Relay.Letters.{
  spell, unspell, unspell-spell, spell-nonempty, spell_no_brace, spell-Visible,
}
use pmb.Client.{incoming, test_auth}
use pmb.Client
use pmb.Desktop.{sends}
use pmb.Introducer.{Setup, reply, step, message}
use pmb.EndToEnd.{End, Link, Arrives}
use pmb.EndToEnd.Requests.{test, test_auth-Arrives}

abbrev key : String
key = "0123456789abcdef0123456789abcdef"

abbrev draw : ℕ → Option Bytes
draw i = some (0 ∷ 1 ∷ 2 ∷ 3 ∷ 4 ∷ 5 ∷ 6 ∷ 7 ∷ 8 ∷ 9 ∷ 10 ∷ 11 ∷ 12 ∷ 13 ∷ 14 ∷ 15 ∷ [])

draw-Draws : Draws draw
draw-Draws i =
    (0 ∷ 1 ∷ 2 ∷ 3 ∷ 4 ∷ 5 ∷ 6 ∷ 7 ∷ 8 ∷ 9 ∷ 10 ∷ 11 ∷ 12 ∷ 13 ∷ 14 ∷ 15 ∷ [], refl, refl)

length-key : length (utf8 key) ≡ 32
unfolding utf8 utf8_char
length-key = refl

abbrev end_of : String → End
end_of id = record {
  id = id;
  keys = key ∷ [];
  host = record { hostname = some "box"; addrs = some ("10.0.0.1" ∷ []) };
  draw = draw;
}

abbrev ann : End
ann = end_of "ann"

abbrev bob : End
bob = end_of "bob"

abbrev tagged : End → Fields → Fields
tagged e m = tag e.host "now" e.id m

-- JSON for what ann asks, which has no origin, and what bob answers.
abbrev marshal : Value → Option Bytes
marshal v = elim (as_object v) [
  | none ↦ none
  | some m ↦ elim (text_at "origin" m) [
    | none ↦ some (b'{' ∷ b'}' ∷ [])
    | some o ↦ some (b'{' ∷ b' ' ∷ b'}' ∷ [])
  ]
]

abbrev unmarshal : Fields → Fields → Bytes → Option Value
unmarshal asked answered b =
    if nat_eq (length b) 2 then some (obj (tagged ann asked)) else some (obj (tagged bob answered))

abbrev codec : Fields → Fields → Codec
codec asked answered = record {
  new_cipher_ok = λ k. nat_eq (length k) 32;
  cfb_encrypt = λ k iv p. p;
  cfb_decrypt = λ k iv p. p;
  base64_encode = spell;
  base64_decode = unspell 0;
  marshal = marshal;
  unmarshal = unmarshal asked answered;
}

codec-IsCodec : (asked answered : Fields) → IsCodec (codec asked answered)
codec-IsCodec asked answered = record {
  cipher_32 = λ k h. rw h;
  cfb_inverse = λ k iv p. refl;
  base64_inverse = unspell-spell;
  base64_nonempty = spell-nonempty;
  base64_no_brace = spell_no_brace;
}

-- Two ends with this key and no other can read each other.
link :
    (c : Codec) (id id' : String) (m : Fields) (json : Bytes)
    → c.marshal (obj (tagged (end_of id) m)) ≡ some json
    → c.unmarshal json ≡ some (obj (tagged (end_of id) m))
    → id ≢ id'
    → Link c (end_of id) (end_of id') "now" m json
unfolding try_keys
link c id id' m json w u n = record {
  key = key;
  sent_before = [];
  sent_after = [];
  before = [];
  after = [];
  sent_keys = refl;
  own_keys = refl;
  key_32 = length-key;
  draws = draw-Draws;
  written = w;
  read = u;
  misses = λ iv body e. refl;
  apart = n;
}

abbrev setup : Setup
setup = record {
  level = whole 2;
  level_sticky = whole 4;
  keys = key ∷ [];
  desk = record {
    look = λ name. name == "tmux";
    temp_name = "/tmp/pmb1";
    temp_error = none;
    write_error = none;
    close_error = none;
    rename_error = none;
    browse_error = none;
  };
  screen_saver = false;
}

test_auth-Arrives_example :
    (n back : Message) × Arrives (codec test (reply "AuthValid" "ann")) ann bob "now" test n
    × Any (λ a. a ≡ sends (reply "AuthValid" "ann")) (trace (step setup true (message n.contents)))
    × Arrives (codec test (reply "AuthValid" "ann")) bob ann "now" (reply "AuthValid" "ann") back
    × (test_auth (key ∷ []) "ann" (incoming back.contents ∷ [])
        ≡ done (Client.sends (key ∷ []) test ∷ []) tt)
unfolding get put tag local_net_info
test_auth-Arrives_example =
    test_auth-Arrives (codec test (reply "AuthValid" "ann"))
      (codec-IsCodec test (reply "AuthValid" "ann")) spell-Visible setup ann bob "now" "now"
      (b'{' ∷ b'}' ∷ []) (b'{' ∷ b' ' ∷ b'}' ∷ []) (key ∷ []) [] []
      (link (codec test (reply "AuthValid" "ann")) "ann" "bob" test (b'{' ∷ b'}' ∷ []) refl refl
        (λ e. cc ((eq_iff "ann" "bob").1 e)))
      (link (codec test (reply "AuthValid" "ann")) "bob" "ann" (reply "AuthValid" "ann")
        (b'{' ∷ b' ' ∷ b'}' ∷ []) refl refl (λ e. cc ((eq_iff "bob" "ann").1 e)))
      tt
