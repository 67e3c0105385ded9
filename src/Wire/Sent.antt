-- ===== src/Wire/Sent.antt =====
-- prepareMessage of api/util.go: what goes out.
use pmb.Base.{
  ℕ, suc, String, ◌≡◌, ◌≢◌, refl, inl, inr, Option, some, List, [], ◌∷◌, Bytes, Any, All, utf8,
  length, Option-cases, arith,
}
use pmb.Json.{Fields, obj, get-put, text_at}
use pmb.Wire.{Codec, IsCodec, Host, tag, encrypt, encrypt_all, prepare_message}
use pmb.Wire.Seal.{encrypt-total}

-- The random source gives 16 bytes at each read.
abbrev pub Draws : (ℕ → Option Bytes) → Type 0
Draws draw = (i : ℕ) → (iv : Bytes) × (draw i ≡ some iv) × (length iv ≡ 16)

-- `body` is `json` encrypted under one of the keys.
abbrev pub SealedBy : Codec → (ℕ → Option Bytes) → Bytes → List String → Bytes → Type 0
SealedBy c draw json keys body =
    Any (λ key. (i : ℕ) × (encrypt c (draw i) (utf8 key) json ≡ some body)) keys

module _ (c : Codec) (draw : ℕ → Option Bytes) (json : Bytes) where
  SealedBy-cons :
      (key : String) (keys : List String) (bodies : List Bytes)
      → All (SealedBy c draw json keys) bodies
      → All (SealedBy c draw json (key ∷ keys)) bodies
  SealedBy-cons key keys [] h = tt
  SealedBy-cons key keys (b ∷ bs) h = (inr h.0, SealedBy-cons key keys bs h.1)

  encrypt_all-SealedBy :
      (i : ℕ) (keys : List String)
      → All (SealedBy c draw json keys) (encrypt_all c draw i json keys)
  unfolding encrypt_all
  encrypt_all-SealedBy i [] = tt
  encrypt_all-SealedBy i (key ∷ keys) = elim (Option-cases (encrypt c (draw i) (utf8 key) json)) [
    | inl e ↦ rw (encrypt_all, e) (SealedBy-cons key keys _ (encrypt_all-SealedBy (suc i) keys))
    | inr (body, e) ↦
        rw (encrypt_all, e)
          (inl (i, e), SealedBy-cons key keys _ (encrypt_all-SealedBy (suc i) keys))
  ]

  length-encrypt_all :
      (l : IsCodec c) (i : ℕ) (keys : List String)
      → Draws draw
      → All (λ key. length (utf8 key) ≡ 32) keys
      → length (encrypt_all c draw i json keys) ≡ length keys
  unfolding encrypt_all
  length-encrypt_all l i [] d h = refl
  length-encrypt_all l i (key ∷ keys) d h =
      let (iv, e, _) = d i in
      ground
        (arith, encrypt-total c l iv (utf8 key) json h.0, length-encrypt_all l (suc i) keys d h.1)

-- With a key or more, prepareMessage is its loop over the keys.
pub prepare_message-encrypt_all :
    (c : Codec) (h : Host) (now : String) (draw : ℕ → Option Bytes) (m : Fields)
    (keys : List String) (id : String) (json : Bytes)
    → keys ≢ []
    → c.marshal (obj (tag h now id m)) ≡ some json
    → prepare_message c h now draw m keys id ≡ some (encrypt_all c draw 0 json keys)
unfolding prepare_message
prepare_message-encrypt_all c h now draw m [] id json n e = absurd (n refl)
prepare_message-encrypt_all c h now draw m (key ∷ keys) id json n e = ground arith

-- With a key or more, and if the tagged message has a JSON, prepareMessage succeeds, and every body
-- that goes out is this JSON under one of the keys: nothing is sent in the clear.
pub prepare_message-SealedBy :
    (c : Codec) (h : Host) (now : String) (draw : ℕ → Option Bytes) (m : Fields) (key : String)
    (keys : List String) (id : String) (json : Bytes)
    → c.marshal (obj (tag h now id m)) ≡ some json
    → (bodies : List Bytes) × (prepare_message c h now draw m (key ∷ keys) id ≡ some bodies)
      × All (SealedBy c draw json (key ∷ keys)) bodies
prepare_message-SealedBy c h now draw m key keys id json e = (
  encrypt_all c draw 0 json (key ∷ keys),
  prepare_message-encrypt_all c h now draw m (key ∷ keys) id json (λ x. cc) e,
  encrypt_all-SealedBy c draw json 0 (key ∷ keys),
)

-- With keys of 32 bytes and a working random source, a message that has a JSON goes out once under
-- each key.
pub prepare_message-length :
    (c : Codec) (l : IsCodec c) (h : Host) (now : String) (draw : ℕ → Option Bytes) (m : Fields)
    (key : String) (keys : List String) (id : String) (json : Bytes)
    → c.marshal (obj (tag h now id m)) ≡ some json
    → Draws draw
    → All (λ k. length (utf8 k) ≡ 32) (key ∷ keys)
    → (bodies : List Bytes) × (prepare_message c h now draw m (key ∷ keys) id ≡ some bodies)
      × (length bodies ≡ length (key ∷ keys))
prepare_message-length c l h now draw m key keys id json e d k = (
  encrypt_all c draw 0 json (key ∷ keys),
  prepare_message-encrypt_all c h now draw m (key ∷ keys) id json (λ x. cc) e,
  length-encrypt_all c draw json l 0 (key ∷ keys) d k,
)

-- The tagged contents name the sender, whatever the caller put there, and keep the type.
pub tag-id : (h : Host) (now id : String) (m : Fields) → text_at "id" (tag h now id m) ≡ some id
unfolding tag
tag-id h now id m = simp get-put

pub tag-type :
    (h : Host) (now id : String) (m : Fields) → text_at "type" (tag h now id m) ≡ text_at "type" m
unfolding tag
tag-type h now id m = simp get-put
