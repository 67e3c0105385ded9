-- ===== src/Amqp/Setup.antt =====
-- The set-up of api/amqp.go.
use pmb.Base.{String, ◌≡◌, ◌⊎◌, Bool, true, false, some, List, [], ◌∷◌, arith}
use pmb.Base.Go.{done}
use pmb.Amqp.{
  Call, dials, opens_channel, declares_exchange, probes_queue, declares_queue, binds_queue,
  consumes, Server, exchange_name, queue_name, claim_queue, setup_listen,
}

-- A listener that is set up found no queue of its name, so no other connection had its id; its queue
-- has been declared and bound to the exchange of the prefix. But whether it can receive anything is
-- whether Consume succeeded, which the code does not look at.
pub setup_listen-done :
    (s : Server) (prefix id : String) (t : List Call) (live : Bool)
    → setup_listen s prefix id ≡ done t live
    → (s.queue_exists ≡ false)
      × (t
          ≡ dials
            ∷ opens_channel
            ∷ declares_exchange (exchange_name prefix)
            ∷ probes_queue (queue_name prefix id)
            ∷ opens_channel
            ∷ declares_queue (queue_name prefix id)
            ∷ binds_queue (queue_name prefix id) (exchange_name prefix)
            ∷ consumes (queue_name prefix id)
            ∷ [])
      × ((live ≡ true) ⊎ ((e : String) × (s.consume_error ≡ some e)))
unfolding setup_listen claim_queue
setup_listen-done s prefix id t live h = ground arith
