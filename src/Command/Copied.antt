-- ===== src/Command/Copied.antt =====
-- `pmb remotecopy` from its arguments to the reply.
use pmb.Base.{String, ◌≡◌, ◌⊎◌, true, false, none, some, List, [], ◌∷◌, is_set}
use pmb.Base.Go.{done}
use pmb.Base.Trim.{trim_space}
use pmb.Json.{Fields, str, end, field}
use pmb.Keys.{parse_keys}
use pmb.Run.{join_words}
use pmb.Client.{Event, incoming, sends, await, run_remote_copy}
use pmb.Client.Await.{IsReply, First}
use pmb.Connect.{Transport, transport_of, connect_client}
use pmb.Connect.Connects.{connect_with_key-First, await-First}
use pmb.Command.{Bus, grab, execute_remote_copy}

-- With a broker that is reached and keys that are confirmed, `pmb remotecopy` of arguments sends under
-- these keys a test of them and then one CopyData with the arguments, joined by spaces and without the
-- white space around them; it succeeds when a DataCopied for its id comes before the timer and behind
-- nothing but other messages.
pub execute_remote_copy-First :
    (b : Bus) (arg : String) (args : List String) (stdin : String ⊎ String) (es : List Event)
    (keys : List String) (via : Transport) (valid copied : Fields)
    → is_set b.config.broker ≡ true
    → b.trust_key ≡ false
    → transport_of b.config.broker ≡ some via
    → b.outside.dial via b.config.broker b.id "" ≡ none
    → is_set b.config.key ≡ true
    → parse_keys b.config.key ≡ some keys
    → IsReply "AuthValid" b.id valid
    → First "AuthValid" b.id (incoming valid) b.outside.events
    → IsReply "DataCopied" b.id copied
    → First "DataCopied" b.id (incoming copied) es
    → execute_remote_copy b (arg ∷ args) stdin es
      ≡ done
          (sends keys (field "type" (str "TestAuth") end)
            ∷ sends keys (
                field "type"
                  (str "CopyData")
                  (field "data" (str (trim_space (join_words (arg ∷ args)))) end))
            ∷ [])
          tt
unfolding execute_remote_copy grab connect_client run_remote_copy
execute_remote_copy-First b arg args stdin es keys via valid copied u c t d s p r f r' f' =
    let conn =
      connect_with_key-First b.outside b.config.broker b.id "" b.config.key keys via valid t d s p r
        f in
    let reply : await "DataCopied" b.id "Unable to determine if data was copied..." es
        ≡ done [] tt =
      await-First "DataCopied" b.id "Unable to determine if data was copied..." copied es r' f' in
    rw (connect_client, u, c, conn, run_remote_copy, reply)
