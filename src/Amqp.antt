-- ===== src/Amqp.antt =====
-- api/amqp.go: the transport over a RabbitMQ broker. The library streadway/amqp is not modelled: the
-- error of each of its calls is an argument, and the calls are the effects.
pub mod Setup
pub mod Delivery
pub mod Listen
pub mod Heard
pub mod Sender
mod Examples
use text.Mathlib.Text.{find?}
use pmb.Base.{
  String, Bool, true, false, Option, none, some, List, [], ◌∷◌, Bytes, is_set, ◌<>◌, if◌then◌else◌,
}
use pmb.Base.Go.{◌>>=◌, ◌>>◌, Go, done, fails, waits, emit, after}

pub data Call : Type 0 where
  dials : Call
  opens_channel : Call
  declares_exchange : String → Call
  probes_queue : String → Call
  declares_queue : String → Call
  binds_queue : String → String → Call
  consumes : String → Call

-- The dial of connectToAMQP: plain, or over TLS, where PMB_SSL_INSECURE_SKIP_VERIFY turns off the check of
-- the certificate.
pub data Dial : Type 0 where
  plain : Dial
  over_tls : Bool → Dial

unfoldable pub dial_of : String → String → Dial
dial_of uri skip_verify = elim (find? uri "amqps") [
  | none ↦ plain
  | some at ↦ over_tls (is_set skip_verify)
]

-- How the calls end: the text of their error, and whether a queue of the name is there.
pub record Server : Type 0 where
  pub dial_error : Option String
  pub channel_error : Option String
  pub exchange_error : Option String
  pub queue_exists : Bool
  pub second_channel_error : Option String
  pub queue_error : Option String
  pub bind_error : Option String
  pub consume_error : Option String

abbrev pub call : Call → Option String → Go Call Unit
call c none = done (c ∷ []) tt
call c (some e) = fails (c ∷ []) e

-- `fmt.Sprintf("%s-%s", prefix, topicSuffix)`, and the name of a client's queue.
abbrev pub exchange_name : String → String
exchange_name prefix = prefix <> "-" <> "pmb"

abbrev pub queue_name : String → String → String
queue_name prefix id = prefix <> "-" <> id

-- The prefix of connectAMQP: the user's name, with the name of the sub-connection.
unfoldable pub prefix_of : String → String → String
prefix_of username sub = if is_set sub then username <> "-" <> sub else username

-- setupSend
unfoldable pub setup_send : Server → String → Go Call Unit
setup_send s prefix = do
  call dials s.dial_error
  call opens_channel s.channel_error
  call (declares_exchange (exchange_name prefix)) s.exchange_error

-- The queue is declared only if no queue of that name is there.
unfoldable pub claim_queue : Server → String → String → Go Call Unit
claim_queue s prefix id = do
  emit (probes_queue (queue_name prefix id))
  if s.queue_exists
      then fails [] ("Another connection with the same id (" <> id <> ") already exists.")
      else (do
        call opens_channel s.second_channel_error
        call (declares_queue (queue_name prefix id)) s.queue_error)

-- setupListen. The error of Consume is dropped; the result tells whether there is a channel of
-- deliveries.
unfoldable pub setup_listen : Server → String → String → Go Call Bool
setup_listen s prefix id = do
  call dials s.dial_error
  call opens_channel s.channel_error
  call (declares_exchange (exchange_name prefix)) s.exchange_error
  claim_queue s prefix id
  call (binds_queue (queue_name prefix id) (exchange_name prefix)) s.bind_error
  emit (consumes (queue_name prefix id))
  elim s.consume_error [ none ↦ done [] true | some e ↦ done [] false ]

-- setupSendForever and setupListenForever: the tries, each with the server that it meets.
unfoldable pub setup_send_forever : List Server → String → Go Call Unit
setup_send_forever [] prefix = waits []
setup_send_forever (s ∷ ss) prefix =
    let again = setup_send_forever ss prefix in
    elim (setup_send s prefix) [ done t a ↦ done t a | fails t e ↦ after t again | other ↦ other ]

-- What sendToAMQP does with the bodies of one message: it publishes each; if that fails, it connects
-- again, tells the client so by a Reconnected message, and publishes once more.
pub data Sent : Type 0 where
  published : Bytes → Sent
  failed : Bytes → Sent
  reconnected : Sent
  signals_done : Sent

-- The outcomes of the calls of Publish, in order; with none left the code waits.
unfoldable pub publish_bodies : List Bytes → List Bool → Go Sent (List Bool)
publish_bodies [] outcomes = done [] outcomes
publish_bodies (b ∷ bs) [] = waits []
publish_bodies (b ∷ bs) (true ∷ os) = after (published b ∷ []) (publish_bodies bs os)
publish_bodies (b ∷ bs) (false ∷ []) = waits (failed b ∷ reconnected ∷ [])
publish_bodies (b ∷ bs) (false ∷ second ∷ os) =
    after (failed b ∷ reconnected ∷ (if second then published b else failed b) ∷ [])
      (publish_bodies bs os)

-- One message in the loop of sendToAMQP: `message.Done <- nil` comes after the bodies.
unfoldable pub send_message : Bool → List Bytes → List Bool → Go Sent (List Bool)
send_message has_done bodies outcomes = do
  rest ← publish_bodies bodies outcomes
  if has_done then done (signals_done ∷ []) rest else done [] rest
