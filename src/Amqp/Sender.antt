-- ===== src/Amqp/Sender.antt =====
-- sendToAMQP of api/amqp.go over all messages on the channel Out.
pub mod Order
use pmb.Base.{String, Bool, Option, none, some, List, [], ◌∷◌, Bytes}
use pmb.Base.Go.{◌>>=◌, ◌>>◌, Go, done, waits, lift, emit, rescue}
use pmb.Amqp.{Call, Server, setup_send, Sent, send_message}

-- A message, with whether its channel Done is there and what prepareMessage makes of it; `none` is its
-- error.
pub record Outgoing : Type 0 where
  pub has_done : Bool
  pub bodies : Option (List Bytes)

-- The loop over the messages, with the outcomes of the calls of Publish; a message that cannot be
-- prepared is skipped.
unfoldable pub send_all : List Outgoing → List Bool → Go Sent Unit
send_all [] os = waits []
send_all (m ∷ ms) os = elim m.bodies [
  | none ↦ send_all ms os
  | some bodies ↦ send_message m.has_done bodies os >>= λ rest. send_all ms rest
]

-- The calls of the set-up, `done <- err`, and what goes out.
pub data Act : Type 0 where
  calls : Call → Act
  reports : Option String → Act
  sends : Sent → Act

-- sendToAMQP: it ends only if the set-up fails.
unfoldable pub send_to_amqp : Server → String → List Outgoing → List Bool → Go Act Unit
send_to_amqp s prefix ms os = do
  err ← lift calls (rescue (setup_send s prefix))
  emit (reports err)
  elim err [ some e ↦ done [] tt | none ↦ lift sends (send_all ms os) ]
