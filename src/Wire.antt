-- ===== src/Wire.antt =====
-- api/util.go and the Message of api/pmb.go: how a message becomes the bodies that are sent, and
-- how a body that was received becomes a message. AES, base64 and JSON belong to Go's library: they
-- are the parameter `Codec`.
pub mod Seal
pub mod Sent
pub mod Safety
pub mod RoundTrip
pub mod Crash
mod Examples
use pmb.Base.{
  ℕ, suc, ◌+◌, String, ◌≡◌, ◌≢◌, Bool, true, false, Option, none, some, List, [], ◌∷◌, ◌++◌, Bytes,
  utf8, length, take, drop, ltb, nat_eq, ◌==◌, if◌then◌else◌,
}
use pmb.Json.{Value, Fields, str, obj, put, as_object, text_at}

-- crypto/aes, crypto/cipher, encoding/base64 and encoding/json. `base64_decode` returns the bytes
-- that DecodeString gives beside its error, which the program drops.
pub record Codec : Type 0 where
  pub new_cipher_ok : Bytes → Bool
  pub cfb_encrypt : Bytes → Bytes → Bytes → Bytes
  pub cfb_decrypt : Bytes → Bytes → Bytes → Bytes
  pub base64_encode : Bytes → Bytes
  pub base64_decode : Bytes → Bytes
  pub marshal : Value → Option Bytes
  pub unmarshal : Bytes → Option Value

-- What these packages document: AES takes a key of 32 bytes, CFB decryption undoes encryption
-- under the same key and vector, base64 decoding undoes encoding, and its alphabet has no brace.
pub record IsCodec (c : Codec) : Type 0 where
  pub cipher_32 : (k : Bytes) → length k ≡ 32 → c.new_cipher_ok k ≡ true
  pub cfb_inverse : (k iv p : Bytes) → c.cfb_decrypt k iv (c.cfb_encrypt k iv p) ≡ p
  pub base64_inverse : (b : Bytes) → c.base64_decode (c.base64_encode b) ≡ b
  pub base64_nonempty : (b : Bytes) → b ≢ [] → c.base64_encode b ≢ []
  pub base64_no_brace : (b rest : Bytes) → c.base64_encode b ≢ b'{' ∷ rest

-- `done` tells whether the channel Done is there; Raw is kept as its bytes.
pub record Message : Type 0 where
  pub contents : Fields
  pub raw : Bytes
  pub done : Bool
  pub internal : Bool

abbrev pub block_size : ℕ
block_size = 16

-- encrypt: the last argument but two is what reading the random vector gave.
unfoldable pub encrypt : Codec → Option Bytes → Bytes → Bytes → Option Bytes
encrypt c draw key text =
    if c.new_cipher_ok key
    then (elim draw [
      | none ↦ none
      | some iv ↦ some (c.base64_encode (iv ++ c.cfb_encrypt key iv text))
    ])
    else none

unfoldable pub decrypt : Codec → Bytes → Bytes → Option Bytes
decrypt c key crypto_text =
    let ciphertext = c.base64_decode crypto_text in
    if c.new_cipher_ok key
    then (if ltb (length ciphertext) block_size
        then none
        else some (c.cfb_decrypt key (take block_size ciphertext) (drop block_size ciphertext)))
    else none

-- What os.Hostname and net.LookupHost give; `none` is their error.
pub record Host : Type 0 where
  pub hostname : Option String
  pub addrs : Option (List String)

-- localNetInfo: host name, address, and whether an error came with them.
unfoldable pub local_net_info : Host → String × String × Bool
local_net_info h = elim h.hostname [
  | none ↦ ("", "", true)
  | some name ↦ elim h.addrs [
    | none ↦ (name, "", true)
    | some [] ↦ (name, "-.-.-.-", false)
    | some (a ∷ rest) ↦ (name, a, false)
  ]
]

-- What prepareMessage writes into the contents: sender, host name, address, time.
unfoldable pub tag : Host → String → String → Fields → Fields
unfolding local_net_info
tag h now id m =
    let (hostname, ip, _) = local_net_info h in
    put "sent" (str now) (put "ip" (str ip) (put "hostname" (str hostname) (put "id" (str id) m)))

-- The loop over the keys; `draw i` is the i-th read of the random source. A key that fails is skipped.
unfoldable pub encrypt_all : Codec → (ℕ → Option Bytes) → ℕ → Bytes → List String → List Bytes
encrypt_all c draw i json [] = []
encrypt_all c draw i json (key ∷ keys) =
    let rest = encrypt_all c draw (suc i) json keys in
    elim (encrypt c (draw i) (utf8 key) json) [ none ↦ rest | some body ↦ body ∷ rest ]

-- prepareMessage; `none` is its error.
unfoldable pub prepare_message :
    Codec → Host → String → (ℕ → Option Bytes) → Fields → List String → String → Option (List Bytes)
prepare_message c h now draw m keys id = elim (c.marshal (obj (tag h now id m))) [
  | none ↦ none
  | some json ↦ elim keys [
    | [] ↦ some (json ∷ [])
    | key ∷ rest ↦ some (encrypt_all c draw 0 json (key ∷ rest))
  ]
]

-- The loop of parseMessage over the keys. `slice_panic` is the log line's `key[0:10]`.
pub data Attempt : Type 0 where
  opened : Bytes → Value → Attempt
  unopened slice_panic : Attempt

unfoldable pub try_keys : Codec → Bytes → List String → Attempt
try_keys c body [] = unopened
try_keys c body (key ∷ keys) =
    let rest = try_keys c body keys in
    elim (decrypt c (utf8 key) body) [
      | none ↦ rest
      | some decrypted ↦ elim (c.unmarshal decrypted) [
        | none ↦ rest
        | some v ↦ if ltb (length (utf8 key)) 10 then slice_panic else opened decrypted v
      ]
    ]

-- What a received body leads to: a message on the channel In, nothing, or a run-time panic.
pub data Received : Type 0 where
  deliver : Message → Received
  discard panic : Received

-- The end of parseMessage, from the type assertion on.
unfoldable pub route : Bool → Bytes → Value → String → Received
route was_encrypted raw v id = elim (as_object v) [
  | none ↦ panic
  | some m ↦ elim (text_at "id" m) [
    | none ↦ panic
    | some sender ↦
        let last =
          if sender == id
          then discard
          else deliver (record { contents = m; raw = raw; done = false; internal = false }) in
        if was_encrypted then last else (elim (text_at "type" m) [
          | none ↦ panic
          | some type ↦ if type == "RequestAuth" then last else discard
        ])
  ]
]

abbrev pub route_attempt : Attempt → String → Received
route_attempt (opened raw v) id = route true raw v id
route_attempt unopened id = discard
route_attempt slice_panic id = panic

-- A body that begins with a brace, and any other.
unfoldable pub parse_plain : Codec → Bytes → String → Received
unfolding route
parse_plain c body id = elim (c.unmarshal body) [ none ↦ discard | some v ↦ route false body v id ]

unfoldable pub parse_sealed : Codec → Bytes → List String → String → Received
unfolding route try_keys
parse_sealed c body [] id = discard
parse_sealed c body (key ∷ keys) id = route_attempt (try_keys c body (key ∷ keys)) id

unfoldable pub parse_message : Codec → Bytes → List String → String → Received
unfolding parse_plain parse_sealed
parse_message c [] keys id = panic
parse_message c (b ∷ bs) keys id =
    if nat_eq b b'{' then parse_plain c (b ∷ bs) id else parse_sealed c (b ∷ bs) keys id
