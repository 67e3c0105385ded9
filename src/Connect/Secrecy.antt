-- ===== src/Connect/Secrecy.antt =====
-- What a connecting client of api/pmb.go sends in the clear, and which keys it stores.
use pmb.Base.{String, ◌≡◌, ◌≢◌, refl, none, some, List, [], ◌∷◌, All, arith}
use pmb.Base.Go.{Go, trace}
use pmb.Json.{text_at}
use pmb.Keys.{parse_keys}
use pmb.Client.{Effect, sends, stores, runs, Event, incoming, timeout, await}

-- A message that goes out with no keys is a request for the key, and only texts with a key in them
-- are stored.
abbrev pub IsDiscreet : Effect → Type 0
IsDiscreet (sends [] m) = text_at "type" m ≡ some "RequestAuth"
IsDiscreet (sends (k ∷ ks) m) = Unit
IsDiscreet (stores text) = parse_keys text ≢ none
IsDiscreet (runs args) = Unit

abbrev AllDiscreet : {A : Type 0} → Go Effect A → Type 0
AllDiscreet g = All IsDiscreet (trace g)

pub await-silent :
    (type id problem : String) (es : List Event) → trace (await type id problem es) ≡ []
unfolding await
await-silent type id problem [] = refl
await-silent type id problem (timeout ∷ es) = refl
await-silent type id problem (incoming m ∷ es) = ground (arith, await-silent type id problem es)
