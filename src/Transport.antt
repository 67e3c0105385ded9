-- ===== src/Transport.antt =====
-- What the listeners of api/amqp.go, api/ws.go and api/http.go have in common: parseMessage on each
-- body, and the messages that come on the channel In.
pub mod Admitted
pub mod Agree
mod Examples
use pmb.Base.{String, List, [], ◌∷◌, Bytes}
use pmb.Base.Go.{◌>>=◌, ◌>>◌, Go, done, panics, waits}
use pmb.Wire.{Codec, Message, Received, deliver, discard, panic, parse_message}

-- A message that was received, or the internal one that tells of a reconnection.
pub data Arrival : Type 0 where
  arrives : Message → Arrival
  reconnected : Arrival

-- What connectHTTP and connectWS put into the Connection that they give; its channels are the events and
-- effects of the listeners and senders.
pub record Opened : Type 0 where
  pub uri : String
  pub prefix : String
  pub id : String

-- A connection while it has these keys, and the id that its listener was given.
pub record Receiver : Type 0 where
  pub codec : Codec
  pub keys : List String
  pub id : String

abbrev pub arrival : Received → Go Arrival Unit
arrival (deliver m) = done (arrives m ∷ []) tt
arrival discard = done [] tt
arrival panic = panics []

-- `parseMessage(body, pmbConn.Keys, pmbConn.In, id)`
unfoldable pub pass : Receiver → Bytes → Go Arrival Unit
pass r body = arrival (parse_message r.codec body r.keys r.id)

-- Every body in turn, and then a wait.
unfoldable pub hear : Receiver → List Bytes → Go Arrival Unit
hear r [] = waits []
hear r (b ∷ bs) = pass r b >> hear r bs
