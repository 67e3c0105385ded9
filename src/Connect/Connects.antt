-- ===== src/Connect/Connects.antt =====
-- When connectWithKey of api/pmb.go succeeds with a configured key.
use pmb.Base.{String, ◌≡◌, true, false, none, some, List, [], ◌∷◌, ◌++◌, map, All, is_set, arith}
use pmb.Base.Go.{done}
use pmb.Json.{Fields, str, end, field}
use pmb.Keys.{parse_keys}
use pmb.Client.{Event, incoming, sends, await, test_auth}
use pmb.Connect.{
  Transport, Outside, transport_of, connect, verify_keys, settle_keys, connect_with_key,
}
use pmb.Client.Await.{IsReply, IsOther, First, is_reply-IsReply}

pub await-reply :
    (type id problem : String) (m : Fields) (others : List Fields) (rest : List Event)
    → IsReply type id m
    → All (IsOther type id) others
    → await type id problem (map incoming others ++ incoming m ∷ rest) ≡ done [] tt
unfolding await
await-reply type id problem m [] rest r a = rw (await, is_reply-IsReply type id m r)
await-reply type id problem m (n ∷ others) rest r a =
    rw (await, a.0) (await-reply type id problem m others rest r a.1)

pub await-First :
    (type id problem : String) (m : Fields) (es : List Event)
    → IsReply type id m
    → First type id (incoming m) es
    → await type id problem es ≡ done [] tt
await-First type id problem m es r (others, rest, e, a) =
    rw e (await-reply type id problem m others rest r a)

-- A client with a configured text of keys connects, when its transport does and an AuthValid for its
-- id arrives before the timer and behind nothing but other messages: it has sent one TestAuth under
-- the keys, and the connection has these keys.
pub connect_with_key-First :
    (o : Outside) (uri id sub key : String) (keys : List String) (via : Transport) (m : Fields)
    → transport_of uri ≡ some via
    → o.dial via uri id sub ≡ none
    → is_set key ≡ true
    → parse_keys key ≡ some keys
    → IsReply "AuthValid" id m
    → First "AuthValid" id (incoming m) o.events
    → connect_with_key o uri id sub key false true
      ≡ done (sends keys (field "type" (str "TestAuth") end) ∷ []) (record { id = id; keys = keys })
unfolding connect_with_key connect settle_keys verify_keys test_auth
connect_with_key-First o uri id sub key keys via m t d s p r f =
    let ok : await "AuthValid" id "Auth key was invalid." o.events ≡ done [] tt =
      await-First "AuthValid" id "Auth key was invalid." m o.events r f in
    ground (arith, ok)
