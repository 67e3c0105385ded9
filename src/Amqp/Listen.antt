-- ===== src/Amqp/Listen.antt =====
-- connectAMQP and the listener of api/amqp.go.
use pmb.Base.{
  ◌⊎◌, inl, inr, String, Bool, true, false, Option, none, some, List, [], ◌∷◌, Bytes, if◌then◌else◌,
}
use pmb.Base.Go.{◌>>=◌, ◌>>◌, Go, done, fails, waits, after, emit, lift}
use pmb.Transport.{Arrival, Receiver, pass}
use pmb.Transport
use pmb.Amqp.{Call, Server, prefix_of, setup_send, setup_listen}

-- setupListenForever: the tries, each with the server that it meets.
unfoldable pub setup_listen_forever : List Server → String → String → Go Call Bool
setup_listen_forever [] prefix id = waits []
setup_listen_forever (s ∷ ss) prefix id =
    let again = setup_listen_forever ss prefix id in
    elim (setup_listen s prefix id) [
      | done t live ↦ done t live
      | fails t e ↦ after t again
      | other ↦ other
    ]

-- A delivery, or that the channel of deliveries is closed, with the servers that the tries to connect
-- again meet.
pub data Feed : Type 0 where
  delivery : Bytes → Feed
  closes : List Server → Feed

-- What the listener does: its calls, and the messages on the channel In.
pub data Act : Type 0 where
  calls : Call → Act
  puts : Arrival → Act

-- The loop of listenToAMQP; without a channel of deliveries it waits for ever.
unfoldable pub listen_to_amqp : Receiver → String → Bool → List Feed → Go Act Unit
listen_to_amqp r prefix false fs = waits []
listen_to_amqp r prefix true [] = waits []
listen_to_amqp r prefix true (delivery body ∷ fs) =
    lift puts (pass r body) >> listen_to_amqp r prefix true fs
listen_to_amqp r prefix true (closes servers ∷ fs) = do
  live ← lift calls (setup_listen_forever servers prefix r.id)
  emit (puts Transport.reconnected)
  listen_to_amqp r prefix live fs

-- What a goroutine of connectAMQP sends on `done`.
abbrev pub report : {A : Type 0} → Go Call A → Option String
report (fails t e) = some e
report other = none

-- The first error of two reports, in the order in which they come.
abbrev pub first_error : Option String → Option String → Option String
first_error (some e) later = some e
first_error none later = later

pub data Dialled : Type 0 where
  connected : String → Dialled
  refused : String → Dialled

abbrev pub dialled : String → Option String → Dialled
dialled prefix none = connected prefix
dialled prefix (some e) = refused e

-- connectAMQP, with the user's name that ParseURI finds, or its error, the servers that the
-- listener and the sender meet, and whether the listener reports first.
unfoldable pub connect_amqp : (String ⊎ String) → String → String → Server → Server → Bool → Dialled
connect_amqp (inl e) sub id listener sender listener_first = refused e
connect_amqp (inr username) sub id listener sender listener_first =
    let prefix = prefix_of username sub in
    let listens = report (setup_listen listener prefix id) in
    let sends = report (setup_send sender prefix) in
    dialled prefix (if listener_first then first_error listens sends else first_error sends listens)
