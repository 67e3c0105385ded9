-- ===== src/Wire/Safety.antt =====
-- What parseMessage of api/util.go lets through.
use pmb.Base.{
  String, ◌≡◌, ◌≢◌, refl, ◌⊎◌, inl, inr, Bool, true, false, some, List, [], ◌∷◌, Bytes, Any, nat_eq,
  subst, sym, ◌∙◌, ap, eq_iff, Option-cases, Bool-cases, arith,
}
use pmb.Json.{Value, obj, text_at}
use pmb.Wire.{
  Codec, Message, Attempt, opened, unopened, slice_panic, try_keys, deliver, route, route_attempt,
  parse_message, parse_plain, parse_sealed,
}
use pmb.Wire.Seal.{Opens, try_keys-opened}

-- A message that `route` delivers has a sender that is not `id`, holds the value that was read, and
-- is a RequestAuth if it came unencrypted.
pub record Routed (was_encrypted : Bool) (raw : Bytes) (v : Value) (id : String) (m : Message)
    : Type 0 where
  pub value : v ≡ obj m.contents
  pub raw_kept : m.raw ≡ raw
  pub foreign : text_at "id" m.contents ≢ some id
  pub plain_auth : was_encrypted ≡ false → text_at "type" m.contents ≡ some "RequestAuth"

pub route-Routed :
    (b : Bool) (raw : Bytes) (v : Value) (id : String) (m : Message)
    → route b raw v id ≡ deliver m
    → Routed b raw v id m
unfolding route
route-Routed b raw (obj fs) id m h = elim (Option-cases (text_at "id" fs)) [
  | inl e ↦ ground arith
  | inr (s, e) ↦ elim (Option-cases (text_at "type" fs)) [
    | inl g ↦ ground (arith, eq_iff s id)
    | inr (t, g) ↦ ground (arith, eq_iff s id, eq_iff t "RequestAuth")
  ]
]
route-Routed b raw _ id m h = cc

-- A message reached the channel In: it was encrypted under one of the keys, or it is RequestAuth.
pub record Admitted (c : Codec) (body : Bytes) (keys : List String) (id : String) (m : Message)
    : Type 0 where
  pub foreign : text_at "id" m.contents ≢ some id
  pub origin :
      Any (Opens c body m.raw (obj m.contents)) keys
      ⊎ ((m.raw ≡ body)
          × (c.unmarshal body ≡ some (obj m.contents))
          × (text_at "type" m.contents ≡ some "RequestAuth"))

parse_plain-Admitted :
    (c : Codec) (body : Bytes) (keys : List String) (id : String) (m : Message)
    → parse_plain c body id ≡ deliver m
    → Admitted c body keys id m
unfolding parse_plain
parse_plain-Admitted c body keys id m h = elim (Option-cases (c.unmarshal body)) [
  | inl e ↦ ground arith
  | inr (v, e) ↦
      let r : Routed false body v id m = route-Routed false body v id m (ground arith) in
      record {
        foreign = r.foreign;
        origin = inr (r.raw_kept, e ∙ ap some r.value, r.plain_auth refl);
      }
]

route_attempt-Admitted :
    (c : Codec) (body : Bytes) (keys : List String) (id : String) (m : Message) (a : Attempt)
    → try_keys c body keys ≡ a
    → route_attempt a id ≡ deliver m
    → Admitted c body keys id m
route_attempt-Admitted c body keys id m (opened raw v) e h =
    let r = route-Routed true raw v id m h in
    record {
      foreign = r.foreign;
      origin = inl (
          subst (λ x. Any (Opens c body x (obj m.contents)) keys) (sym r.raw_kept)
            (subst (λ x. Any (Opens c body raw x) keys) r.value (try_keys-opened c body keys e)));
    }
route_attempt-Admitted c body keys id m unopened e h = cc
route_attempt-Admitted c body keys id m slice_panic e h = cc

parse_sealed-Admitted :
    (c : Codec) (body : Bytes) (keys : List String) (id : String) (m : Message)
    → parse_sealed c body keys id ≡ deliver m
    → Admitted c body keys id m
unfolding parse_sealed
parse_sealed-Admitted c body [] id m h = cc
parse_sealed-Admitted c body (k ∷ ks) id m h = route_attempt-Admitted c body (k ∷ ks) id m _ refl h

-- Whatever bytes come in: a message that is delivered does not carry the receiver's own id as its
-- sender, and either one of the keys decrypts the body to its raw text, which is the JSON of its
-- contents, or the body itself is the JSON of its contents and its type is RequestAuth.
pub parse_message-Admitted :
    (c : Codec) (body : Bytes) (keys : List String) (id : String) (m : Message)
    → parse_message c body keys id ≡ deliver m
    → Admitted c body keys id m
unfolding parse_message
parse_message-Admitted c [] keys id m h = cc
parse_message-Admitted c (b ∷ bs) keys id m h = elim (Bool-cases (nat_eq b b'{')) [
  | inl e ↦ parse_plain-Admitted c (b ∷ bs) keys id m (rw (parse_message, e) at h)
  | inr e ↦ parse_sealed-Admitted c (b ∷ bs) keys id m (rw (parse_message, e) at h)
]
