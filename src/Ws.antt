-- ===== src/Ws.antt =====
-- api/ws.go: the transport over a websocket. The library gorilla/websocket is not modelled: the error
-- of each dial and write is an argument, and the writes are effects.
pub mod Writer
pub mod Reader
pub mod Loop
pub mod Kept
mod Examples
use pmb.Base.{ℕ, zero, suc, String, Bool, Option, none, some, List, [], ◌∷◌, Bytes, if◌then◌else◌}
use pmb.Transport.{Opened}
use pmb.Base.Go.{◌>>=◌, ◌>>◌, Go, done, fails, waits, emit, after}

-- A text frame that was written, a Reconnected message on the channel In, `message.Done <- nil`, and
-- the start of processSocket on a new socket.
pub data Act : Type 0 where
  writes : Bytes → Act
  reconnected : Act
  signals_done : Act
  serves_socket : Act

-- The loop of the writer over the bodies; the outcomes of WriteMessage come in order. The first that
-- fails ends the writer.
unfoldable pub write_bodies : List Bytes → List (Option String) → Go Act (List (Option String))
write_bodies [] os = done [] os
write_bodies (b ∷ bs) [] = waits []
write_bodies (b ∷ bs) (none ∷ os) = after (writes b ∷ []) (write_bodies bs os)
write_bodies (b ∷ bs) (some e ∷ os) = fails [] e

-- The writer on one message; `bodies` is what prepareMessage gives, `none` an error that skips the
-- message.
unfoldable pub write_message :
    Bool → Option (List Bytes) → List (Option String) → Go Act (List (Option String))
write_message has_done none os = done [] os
write_message has_done (some bodies) os = do
  rest ← write_bodies bodies os
  if has_done then done (signals_done ∷ []) rest else done [] rest

-- connectSocketForever: the dials, until one has no error.
unfoldable pub connect_socket_forever : List (Option String) → Go Act (List (Option String))
connect_socket_forever [] = waits []
connect_socket_forever (none ∷ dials) = done [] dials
connect_socket_forever (some e ∷ dials) = connect_socket_forever dials

-- The loop of openWS; the number of sockets that break while it runs. The last is served on.
unfoldable pub serve_sockets : ℕ → List (Option String) → Go Act Unit
serve_sockets zero dials = waits (serves_socket ∷ [])
serve_sockets (suc n) dials = do
  emit serves_socket
  rest ← connect_socket_forever dials
  emit reconnected
  serve_sockets n rest

-- openWS
unfoldable pub open_ws : ℕ → List (Option String) → Go Act Unit
open_ws breaks [] = waits []
open_ws breaks (some e ∷ dials) = fails [] e
open_ws breaks (none ∷ dials) = serve_sockets breaks dials

-- connectWS: it waits for the report of openWS; the third argument, `sub`, is not used.
unfoldable pub connect_ws : String → String → String → List (Option String) → Go Act Opened
connect_ws uri id sub [] = waits []
connect_ws uri id sub (some e ∷ dials) = fails [] e
connect_ws uri id sub (none ∷ dials) = done [] record { uri = uri; prefix = ""; id = id }
