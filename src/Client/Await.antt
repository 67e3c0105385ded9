-- ===== src/Client/Await.antt =====
-- The waiting loop of api/pmb.go: testAuth, SendNotification, runRemoteCopy, runOpenURL.
use pmb.Base.{
  String, ◌≡◌, refl, inl, inr, Bool, true, false, Option, none, some, List, [], ◌∷◌, ◌++◌, map, All,
  eq_iff, Option-cases, arith,
}
use pmb.Base.Go.{Go, done, fails, panics, waits}
use pmb.Json.{Fields, text_at}
use pmb.Client.{Effect, Event, incoming, timeout, is_reply, await}

-- `m` is the awaited reply.
abbrev pub IsReply : String → String → Fields → Type 0
IsReply type id m = (text_at "type" m ≡ some type) × (text_at "origin" m ≡ some id)

-- `m` has a type, and is another message or is meant for another id.
abbrev pub IsOther : String → String → Fields → Type 0
IsOther type id m = is_reply type id m ≡ some false

pub is_reply_lem :
    (type id : String) (m : Fields) → is_reply type id m ≡ some true → IsReply type id m
unfolding is_reply
is_reply_lem type id m h = elim (Option-cases (text_at "type" m)) [
  | inl e ↦ ground arith
  | inr (t, e) ↦ elim (Option-cases (text_at "origin" m)) [
    | inl g ↦ ground (arith, eq_iff t type)
    | inr (o, g) ↦ ground (arith, eq_iff t type, eq_iff o id)
  ]
]

pub is_reply-IsReply :
    (type id : String) (m : Fields) → IsReply type id m → is_reply type id m ≡ some true
unfolding is_reply
is_reply-IsReply type id m (e, f) = ground (arith, eq_iff type type, eq_iff id id)

-- The events begin with messages that are not the reply, and `e` comes next.
abbrev pub First : String → String → Event → List Event → Type 0
First type id e es =
    (others : List Fields) × (rest : List Event) × (es ≡ map incoming others ++ e ∷ rest)
    × All (IsOther type id) others

module _ (type id problem : String) where
  First-cons :
      (m : Fields) (e : Event) (es : List Event)
      → IsOther type id m
      → First type id e es
      → First type id e (incoming m ∷ es)
  First-cons m e es o (others, rest, shape, all) = (m ∷ others, rest, ground arith, (o, all))

  -- How the loop ended, and what came first: the reply, the timer, or a message that panics.
  abbrev pub Ended : List Event → Go Effect Unit → Type 0
  Ended es (done t u) = (m : Fields) × IsReply type id m × First type id (incoming m) es
  Ended es (fails t e) = First type id timeout es
  Ended es (panics t) = (m : Fields) × (is_reply type id m ≡ none) × First type id (incoming m) es
  Ended es (waits t) =
      (others : List Fields) × (es ≡ map incoming others) × All (IsOther type id) others

  Ended-cons :
      (m : Fields) (es : List Event) (g : Go Effect Unit)
      → IsOther type id m
      → Ended es g
      → Ended (incoming m ∷ es) g
  Ended-cons m es (done t u) o (n, r, f) = (n, r, First-cons m (incoming n) es o f)
  Ended-cons m es (fails t e) o f = First-cons m timeout es o f
  Ended-cons m es (panics t) o (n, r, f) = (n, r, First-cons m (incoming n) es o f)
  Ended-cons m es (waits t) o (others, e, all) = (m ∷ others, ground arith, (o, all))

  -- Whatever arrives: the loop returns only after a reply of the awaited type and origin that came
  -- before the timer, it fails only if the timer came first, it panics only at a message with no
  -- type, or of the awaited type with no origin, and otherwise it has skipped all that came.
  pub await-Ended : (es : List Event) → Ended es (await type id problem es)
  unfolding await
  await-Ended [] = ([], refl, tt)
  await-Ended (timeout ∷ es) = ([], es, refl, tt)
  await-Ended (incoming m ∷ es) = by_reply (is_reply type id m) refl (await-Ended es)
    where
      by_reply :
          (r : Option Bool)
          → is_reply type id m ≡ r
          → Ended es (await type id problem es)
          → Ended (incoming m ∷ es) (await type id problem (incoming m ∷ es))
      by_reply none e rest = rw (await, e) (m, e, ([], es, refl, tt))
      by_reply (some true) e rest = rw (await, e) (m, is_reply_lem type id m e, ([], es, refl, tt))
      by_reply (some false) e rest = rw (await, e) (Ended-cons m es _ e rest)
