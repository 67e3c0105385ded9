-- ===== src/Amqp/Examples.antt =====
-- The transport of api/amqp.go at concrete inputs.
use pmb.Base.{◌≡◌, refl, true, false, none, some, List, [], ◌∷◌, Bytes}
use pmb.Base.Go.{done}
use pmb.Amqp.{
  Server, Call, dials, opens_channel, declares_exchange, probes_queue, declares_queue, binds_queue,
  consumes, claim_queue, setup_listen,
}
use pmb.Amqp.Sender.{Outgoing}

abbrev bodies : List Bytes
bodies = (1 ∷ []) ∷ (2 ∷ []) ∷ []

abbrev outgoing : List Outgoing
outgoing =
    record { has_done = true; bodies = some bodies }
    ∷ record { has_done = true; bodies = none }
    ∷ record { has_done = false; bodies = some ((3 ∷ []) ∷ []) }
    ∷ []

abbrev working : Server
working = record {
  dial_error = none;
  channel_error = none;
  exchange_error = none;
  queue_exists = false;
  second_channel_error = none;
  queue_error = none;
  bind_error = none;
  consume_error = none;
}

-- A server on which all works but Consume.
abbrev no_consume : Server
no_consume = record {
  dial_error = none;
  channel_error = none;
  exchange_error = none;
  queue_exists = false;
  second_channel_error = none;
  queue_error = none;
  bind_error = none;
  consume_error = some "exclusive";
}

abbrev calls : List Call
calls =
    dials
    ∷ opens_channel
    ∷ declares_exchange "u-pmb"
    ∷ probes_queue "u-ann"
    ∷ opens_channel
    ∷ declares_queue "u-ann"
    ∷ binds_queue "u-ann" "u-pmb"
    ∷ consumes "u-ann"
    ∷ []

deaf_listener : setup_listen no_consume "u" "ann" ≡ done calls false
unfolding setup_listen claim_queue
deaf_listener = refl
