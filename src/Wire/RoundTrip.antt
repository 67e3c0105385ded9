-- ===== src/Wire/RoundTrip.antt =====
-- prepareMessage on one side and parseMessage on the other, of api/util.go.
use pmb.Base.{
  ℕ, suc, String, ◌≡◌, ◌≢◌, refl, sym, ◌∙◌, inl, inr, true, false, Option, some, List, [], ◌∷◌,
  ◌++◌, Bytes, Any, utf8, length, nat_eq, Option-cases, Bool-cases, eq_iff, arith,
}
use pmb.Json.{Value, Fields, obj, text_at}
use pmb.Wire.{
  Codec, IsCodec, Host, Message, deliver, tag, encrypt, encrypt_all, prepare_message, try_keys,
  unopened, opened, route, parse_sealed, parse_message,
}
use pmb.Wire.Seal.{encrypt-total, encrypt_lem, decrypt-encrypt, try_keys-hit}
use pmb.Wire.Sent.{Draws, tag-id, prepare_message-encrypt_all}

-- The message that a receiver gets.
abbrev pub received : Fields → Bytes → Message
received m raw = record { contents = m; raw = raw; done = false; internal = false }

route_sealed :
    (raw : Bytes) (m : Fields) (id sender : String)
    → text_at "id" m ≡ some sender
    → sender ≢ id
    → route true raw (obj m) id ≡ deliver (received m raw)
unfolding route
route_sealed raw m id sender e n = ground (arith, eq_iff sender id)

sealed_hit :
    (c : Codec) (body : Bytes) (before after : List String) (key id : String) (raw : Bytes)
    (v : Value)
    → try_keys c body (before ++ key ∷ after) ≡ opened raw v
    → parse_sealed c body (before ++ key ∷ after) id ≡ route true raw v id
unfolding parse_sealed
sealed_hit c body [] after key id raw v h = rw h
sealed_hit c body (k ∷ before) after key id raw v h = rw h

parse_message-sealed :
    (c : Codec) (body : Bytes) (keys : List String) (id : String)
    → body ≢ []
    → ((rest : Bytes) → body ≢ b'{' ∷ rest)
    → parse_message c body keys id ≡ parse_sealed c body keys id
unfolding parse_message
parse_message-sealed c [] keys id n b = absurd (n refl)
parse_message-sealed c (x ∷ bs) keys id n b = elim (Bool-cases (nat_eq x b'{')) [
  | inl e ↦ absurd (b bs (ground arith))
  | inr e ↦ rw (parse_message, e)
]

iv_nonempty : (iv t : Bytes) → length iv ≡ 16 → iv ++ t ≢ []
iv_nonempty [] t h x = absurd (omega arith)
iv_nonempty (y ∷ ys) t h x = cc

-- One body: what was encrypted under `key` reaches a receiver that has `key`, unless one of its
-- earlier keys opens the body too.
pub parse_message-encrypt :
    (c : Codec) (l : IsCodec c) (iv json body : Bytes) (before after : List String)
    (key id sender : String) (m : Fields)
    → length (utf8 key) ≡ 32
    → length iv ≡ 16
    → encrypt c (some iv) (utf8 key) json ≡ some body
    → try_keys c body before ≡ unopened
    → c.unmarshal json ≡ some (obj m)
    → text_at "id" m ≡ some sender
    → sender ≢ id
    → parse_message c body (before ++ key ∷ after) id ≡ deliver (received m json)
parse_message-encrypt c l iv json body before after key id sender m hk hi e miss u s n =
    let text = iv ++ c.cfb_encrypt (utf8 key) iv json in
    let shape = encrypt_lem c iv (utf8 key) json body e in
    let hit =
      try_keys-hit c body before after key json (obj m) miss (omega arith)
        (decrypt-encrypt c l iv (utf8 key) json body hk hi e, u) in
    parse_message-sealed c body (before ++ key ∷ after) id
      (λ b. l.base64_nonempty text (iv_nonempty iv _ hi) (sym shape ∙ b))
      (λ rest b. l.base64_no_brace text rest (sym shape ∙ b))
    ∙ sealed_hit c body before after key id json (obj m) hit
    ∙ route_sealed json m id sender s n

-- The body under `key` stands among those that the loop over the keys makes.
encrypt_all-Any :
    (c : Codec) (l : IsCodec c) (draw : ℕ → Option Bytes) (json : Bytes) (i : ℕ)
    (before after : List String) (key : String) (P : Bytes → Type 0)
    → Draws draw
    → length (utf8 key) ≡ 32
    → ((iv body : Bytes)
        → length iv ≡ 16
        → encrypt c (some iv) (utf8 key) json ≡ some body
        → P body)
    → Any P (encrypt_all c draw i json (before ++ key ∷ after))
unfolding encrypt_all
encrypt_all-Any c l draw json i [] after key P d k hit =
    let (iv, e, n) = d i in
    let shape = encrypt-total c l iv (utf8 key) json k in
    rw (encrypt_all, e, shape) (inl (hit iv _ n shape))
encrypt_all-Any c l draw json i (x ∷ before) after key P d k hit =
    let rest = encrypt_all-Any c l draw json (suc i) before after key P d k hit in
    elim (Option-cases (encrypt c (draw i) (utf8 x) json)) [
      | inl e ↦ rw (encrypt_all, e) rest
      | inr (b, e) ↦ rw (encrypt_all, e) (inr rest)
    ]

append-ne-nil : (before after : List String) (key : String) → before ++ key ∷ after ≢ []
append-ne-nil [] after key x = cc
append-ne-nil (b ∷ before) after key x = cc

-- The round trip. Two ends share a 32-byte key, each among other keys. JSON reads back what it
-- wrote, the random source works, no earlier key of the receiver opens what this key encrypts, and
-- the ids differ. Then prepareMessage succeeds, and one of the bodies that it makes is delivered,
-- with the sender's tagged contents.
pub parse_message-prepare_message :
    (c : Codec) (l : IsCodec c) (h : Host) (now : String) (draw : ℕ → Option Bytes) (m : Fields)
    (sent_before sent_after before after : List String) (key sender id : String) (json : Bytes)
    → length (utf8 key) ≡ 32
    → Draws draw
    → c.marshal (obj (tag h now sender m)) ≡ some json
    → c.unmarshal json ≡ some (obj (tag h now sender m))
    → ((iv body : Bytes)
        → encrypt c (some iv) (utf8 key) json ≡ some body
        → try_keys c body before ≡ unopened)
    → sender ≢ id
    → (bodies : List Bytes) × (prepare_message c h now draw m
          (sent_before ++ key ∷ sent_after)
          sender
        ≡ some bodies)
      × Any
          (λ body.
            parse_message c body (before ++ key ∷ after) id
            ≡ deliver (received (tag h now sender m) json))
          bodies
parse_message-prepare_message c l h now draw m sb sa before after key sender id json k d w u miss
      n =
    (
      encrypt_all c draw 0 json (sb ++ key ∷ sa),
      prepare_message-encrypt_all c h now draw m (sb ++ key ∷ sa) sender json
          (append-ne-nil sb sa key) w,
      encrypt_all-Any c l draw json 0 sb sa key _ d k (λ iv body hi e.
          parse_message-encrypt c l iv json body before after key id sender (tag h now sender m) k
            hi e (miss iv body e) u (tag-id h now sender m) n),
    )
