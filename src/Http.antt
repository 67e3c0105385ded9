-- ===== src/Http.antt =====
-- api/http.go: the transport over a long-polling web server. The package net/http is not modelled: what
-- Get gives and how Post ends are arguments, and the posts are effects.
pub mod Polls
use pmb.Base.{
  ℕ, String, Bool, Option, none, some, List, [], ◌∷◌, Bytes, nat_eq, is_set, ◌<>◌, if◌then◌else◌,
}
use pmb.Base.Go.{◌>>=◌, ◌>>◌, Go, done, waits, after}
use pmb.Transport.{Arrival, Receiver, Opened, pass}

-- The URI of connectHTTP, and the one that its listener asks.
unfoldable pub final_uri : String → String → String
final_uri uri sub = if is_set sub then uri <> "-" <> sub else uri

-- connectHTTP: its listener and its sender report no error.
unfoldable pub connect_http : String → String → String → Opened
unfolding final_uri
connect_http uri id sub = record { uri = final_uri uri sub; prefix = ""; id = id }

abbrev pub listen_uri : String → String → String
listen_uri uri id = uri <> "/" <> id

-- What http.Get and then ioutil.ReadAll give.
pub data Answer : Type 0 where
  get_error : Answer
  read_error : Answer
  answered : ℕ → Bytes → Answer

-- The loop of listenToHTTP.
unfoldable pub listen_to_http : Receiver → List Answer → Go Arrival Unit
listen_to_http r [] = waits []
listen_to_http r (get_error ∷ rs) = listen_to_http r rs
listen_to_http r (read_error ∷ rs) = listen_to_http r rs
listen_to_http r (answered status body ∷ rs) =
    let rest = listen_to_http r rs in if nat_eq status 200 then pass r body >> rest else rest

-- A body that was posted, with whether Post had no error, and `message.Done <- nil`.
pub data Act : Type 0 where
  posts : String → Bytes → Bool → Act
  signals_done : Act

-- The loop of sendToHTTP over the bodies; an error of Post is only logged.
unfoldable pub post_bodies : String → List Bytes → List Bool → Go Act (List Bool)
post_bodies uri [] os = done [] os
post_bodies uri (b ∷ bs) [] = waits []
post_bodies uri (b ∷ bs) (o ∷ os) = after (posts uri b o ∷ []) (post_bodies uri bs os)

-- One message in sendToHTTP; `none` is an error of prepareMessage, which skips the message.
unfoldable pub send_to_http : String → Bool → Option (List Bytes) → List Bool → Go Act (List Bool)
send_to_http uri has_done none os = done [] os
send_to_http uri has_done (some bodies) os = do
  rest ← post_bodies uri bodies os
  if has_done then done (signals_done ∷ []) rest else done [] rest
