-- ===== src/Wire/Seal.antt =====
-- encrypt and decrypt of api/util.go, and the loop of parseMessage over the keys.
use pmb.Base.{
  ◌≤◌, String, ◌≡◌, ◌≢◌, refl, inl, inr, some, List, [], ◌∷◌, ◌++◌, Bytes, Any, utf8, length,
  take-append, drop-append, length-append, Option-cases, arith,
}
use pmb.Json.{Value}
use pmb.Wire.{Codec, IsCodec, encrypt, decrypt, block_size, opened, unopened, slice_panic, try_keys}

module _ (c : Codec) where
  -- What encrypt returned is the base64 text of the vector and the ciphertext.
  pub encrypt_lem :
      (iv key text body : Bytes)
      → encrypt c (some iv) key text ≡ some body
      → body ≡ c.base64_encode (iv ++ c.cfb_encrypt key iv text)
  unfolding encrypt
  encrypt_lem iv key text body h = ground arith

  pub encrypt-total :
      (l : IsCodec c) (iv key text : Bytes)
      → length key ≡ 32
      → encrypt c (some iv) key text ≡ some (c.base64_encode (iv ++ c.cfb_encrypt key iv text))
  unfolding encrypt
  encrypt-total l iv key text h = ground (arith, l.cipher_32 key h)

  -- decrypt with the same key undoes encrypt, for every text.
  pub decrypt-encrypt :
      (l : IsCodec c) (iv key text body : Bytes)
      → length key ≡ 32
      → length iv ≡ block_size
      → encrypt c (some iv) key text ≡ some body
      → decrypt c key body ≡ some text
  unfolding decrypt
  decrypt-encrypt l iv key text body hk hi h =
      let coded = iv ++ c.cfb_encrypt key iv text in
      ground (
        arith,
        encrypt_lem iv key text body h,
        l.base64_inverse coded,
        l.cipher_32 key hk,
        length-append iv (c.cfb_encrypt key iv text),
        take-append block_size iv (c.cfb_encrypt key iv text) hi,
        drop-append block_size iv (c.cfb_encrypt key iv text) hi,
        l.cfb_inverse key iv text,
      )

  -- What `key` makes of a body: its plain text and the JSON value in it.
  abbrev pub Opens : Bytes → Bytes → Value → String → Type 0
  Opens body raw v key = (decrypt c (utf8 key) body ≡ some raw) × (c.unmarshal raw ≡ some v)

  -- The loop opens a body only with one of its keys.
  pub try_keys-opened :
      (body : Bytes) (keys : List String) {raw : Bytes} {v : Value}
      → try_keys c body keys ≡ opened raw v
      → Any (Opens body raw v) keys
  unfolding try_keys
  try_keys-opened body [] h = cc
  try_keys-opened body (key ∷ keys) h = elim (Option-cases (decrypt c (utf8 key) body)) [
    | inl shut ↦ inr (try_keys-opened body keys (ground arith))
    | inr (plain, e) ↦ elim (Option-cases (c.unmarshal plain)) [
      | inl bad ↦ inr (try_keys-opened body keys (ground arith))
      | inr (w, g) ↦ inl (ground arith, ground arith)
    ]
  ]

  -- The first key that opens a body decides.
  pub try_keys-hit :
      (body : Bytes) (before after : List String) (key : String) (raw : Bytes) (v : Value)
      → try_keys c body before ≡ unopened
      → 10 ≤ length (utf8 key)
      → Opens body raw v key
      → try_keys c body (before ++ key ∷ after) ≡ opened raw v
  unfolding try_keys
  try_keys-hit body [] after key raw v h n o = ground arith
  try_keys-hit body (k ∷ before) after key raw v h n o =
      ground (arith, try_keys-hit body before after key raw v)

  -- With keys of ten bytes or more the loop does not panic.
  pub try_keys-ne-panic :
      (body : Bytes) (keys : List String)
      → ((key : String) → Any (λ k. k ≡ key) keys → 10 ≤ length (utf8 key))
      → try_keys c body keys ≢ slice_panic
  unfolding try_keys
  try_keys-ne-panic body [] long e = cc
  try_keys-ne-panic body (key ∷ keys) long e =
      ground (arith, long key (inl refl), try_keys-ne-panic body keys (λ k m. long k (inr m)))
