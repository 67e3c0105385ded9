-- ===== src/Broker/Relay/Delivered.antt =====
-- A message from prepareMessage of api/util.go over the broker of broker.go to parseMessage.
use Prim.Native.Nat.{suc}
use mathlib.Core.Option.{some-injective}
use pmb.Base.{
  subst, length, ℕ, String, ◌≡◌, ◌≢◌, refl, sym, ap, ◌∙◌, inl, inr, Option, none, some, List, [],
  ◌∷◌, ◌++◌, Bytes, utf8, length, All, All-map, Any, Option-cases, arith, Bool-cases,
}
use pmb.Json.{Fields, obj}
use pmb.Wire.{
  Codec, IsCodec, Host, deliver, unopened, encrypt, encrypt_all, try_keys, prepare_message,
  parse_message, tag,
}
use pmb.Wire.Sent.{Draws, prepare_message-encrypt_all}
use pmb.Wire.RoundTrip.{received, parse_message-prepare_message}
use pmb.Broker.Relay.{relayed, trim_space, skip_spaces}
use pmb.Broker.Relay.Frames.{Visible, relayed-IsClean}

-- The last element of a list that is not empty.
ending :
    (P : ℕ → Type 0) (x : ℕ) (xs : Bytes)
    → P x
    → All P xs
    → (front : Bytes) × (last : ℕ) × (x ∷ xs ≡ front ++ last ∷ []) × P last
ending P x [] h k = ([], x, refl, h)
ending P x (y ∷ ys) h k =
    let (front, last, e, p) = ending P y ys k.0 k.1 in (x ∷ front, last, ap (λ t. x ∷ t) e, p)

pub relayed-Visible : (frame : Bytes) → All Visible frame → relayed frame ≡ frame
unfolding relayed trim_space skip_spaces
relayed-Visible [] h = refl
relayed-Visible (b ∷ bs) h =
    let (front, last, e, v) = ending Visible b bs h.0 h.1 in
    relayed-IsClean (b ∷ bs) (record {
      first = b;
      rest = bs;
      starts = refl;
      first_visible = h.0;
      front = front;
      last = last;
      ends = e;
      last_visible = v;
      no_newline = All-map (λ x w z. absurd (omega (arith, w.0, z))) (b ∷ bs) h;
    })

module _ (c : Codec) (visible : (b : Bytes) → All Visible (c.base64_encode b)) where
  relayed-encrypt :
      (draw : Option Bytes) (key text body : Bytes)
      → encrypt c draw key text ≡ some body
      → relayed body ≡ body
  unfolding encrypt
  relayed-encrypt none key text body h = absurd (ground arith)
  relayed-encrypt (some iv) key text body h = elim (Bool-cases (c.new_cipher_ok key)) [
    | inl e ↦
        let sealed = c.base64_encode (iv ++ c.cfb_encrypt key iv text) in
        let same : sealed ≡ body = some-injective sealed body (rw (encrypt, e) at h) in
        rw (sym same) (relayed-Visible sealed (visible (iv ++ c.cfb_encrypt key iv text)))
    | inr e ↦ absurd (ground arith)
  ]

  relayed-encrypt_all :
      (draw : ℕ → Option Bytes) (i : ℕ) (json : Bytes) (keys : List String)
      → All (λ b. relayed b ≡ b) (encrypt_all c draw i json keys)
  unfolding encrypt_all
  relayed-encrypt_all draw i json [] = tt
  relayed-encrypt_all draw i json (key ∷ keys) =
      elim (Option-cases (encrypt c (draw i) (utf8 key) json)) [
        | inl e ↦ rw (encrypt_all, e) (relayed-encrypt_all draw (suc i) json keys)
        | inr (b, e) ↦
            rw (encrypt_all, e)
              (
                relayed-encrypt (draw i) (utf8 key) json b e,
                relayed-encrypt_all draw (suc i) json keys,
              )
      ]

Any-relayed :
    (P : Bytes → Type 0) (bodies : List Bytes)
    → All (λ b. relayed b ≡ b) bodies
    → Any P bodies
    → Any (λ b. P (relayed b)) bodies
Any-relayed P [] h x = elim x [ ]
Any-relayed P (b ∷ bs) h (inl p) = inl (rw h.0 p)
Any-relayed P (b ∷ bs) h (inr p) = inr (Any-relayed P bs h.1 p)

ne-nil : (before after : List String) (key : String) → before ++ key ∷ after ≢ []
ne-nil [] after key x = cc
ne-nil (b ∷ before) after key x = cc

-- Over the program's own broker: two ends share a 32-byte key, each among other keys, JSON reads back
-- what it wrote, base64 has only visible characters, the random source works, no earlier key of the
-- receiver opens what this key encrypts, and the ids differ. Then prepareMessage succeeds, and one of
-- its bodies, as processReads of the sender's client passes it on, is delivered to the receiver with
-- the tagged contents.
pub parse_message-relayed :
    (c : Codec) (l : IsCodec c) (h : Host) (now : String) (draw : ℕ → Option Bytes) (m : Fields)
    (sent_before sent_after before after : List String) (key sender id : String) (json : Bytes)
    → ((b : Bytes) → All Visible (c.base64_encode b))
    → length (utf8 key) ≡ 32
    → Draws draw
    → c.marshal (obj (tag h now sender m)) ≡ some json
    → c.unmarshal json ≡ some (obj (tag h now sender m))
    → ((iv body : Bytes)
        → encrypt c (some iv) (utf8 key) json ≡ some body
        → try_keys c body before ≡ unopened)
    → sender ≢ id
    → (bodies : List Bytes) × (prepare_message c h now draw m
          (sent_before ++ key ∷ sent_after)
          sender
        ≡ some bodies)
      × Any
          (λ body.
            parse_message c (relayed body) (before ++ key ∷ after) id
            ≡ deliver (received (tag h now sender m) json))
          bodies
parse_message-relayed c l h now draw m sb sa before after key sender id json v k d w u miss n =
    let (bodies, e, hit) =
      parse_message-prepare_message c l h now draw m sb sa before after key sender id json k d w u
        miss n in
    let sealed = encrypt_all c draw 0 json (sb ++ key ∷ sa) in
    let same : sealed ≡ bodies = some-injective sealed bodies (
      sym (
        prepare_message-encrypt_all c h now draw m (sb ++ key ∷ sa) sender json (ne-nil sb sa key)
          w)
      ∙ e) in
    (
      bodies,
      e,
      Any-relayed
          (λ body.
            parse_message c body (before ++ key ∷ after) id
            ≡ deliver (received (tag h now sender m) json))
          bodies
          (subst (λ x. All (λ b. relayed b ≡ b) x) same
            (relayed-encrypt_all c v draw 0 json (sb ++ key ∷ sa)))
          hit,
    )
