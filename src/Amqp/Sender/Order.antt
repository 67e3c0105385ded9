-- ===== src/Amqp/Sender/Order.antt =====
-- In which order sendToAMQP of api/amqp.go publishes, and when it signals.

use pmb.Base.{ℕ, ◌+◌, ◌≡◌, Bool, none, some, List, [], ◌∷◌, ◌++◌, length, if◌then◌else◌}
use pmb.Amqp.{Sent, published, failed, reconnected, signals_done}
use pmb.Amqp.Delivery.{arrived}
use pmb.Amqp.Sender.{Outgoing}

-- How often someone is told that a message is done.
abbrev pub signals : List Sent → List Sent
signals [] = []
signals (published b ∷ t) = signals t
signals (failed b ∷ t) = signals t
signals (reconnected ∷ t) = signals t
signals (signals_done ∷ t) = signals_done ∷ signals t

-- What is owed to the sender of a message.
abbrev pub signal : Bool → List Sent
signal b = if b then signals_done ∷ [] else []

-- Message by message: all bodies arrive, once each and in their order, nobody is told before, and then
-- the sender is told, if it waits. A message that could not be prepared leaves nothing.
abbrev pub Delivers : List Outgoing → List Sent → Type 0
Delivers [] t = t ≡ []
Delivers (m ∷ ms) t = elim m.bodies [
  | none ↦ Delivers ms t
  | some bodies ↦
      (u : List Sent) × (v : List Sent) × (t ≡ u ++ signal m.has_done ++ v)
      × (arrived u ≡ bodies)
      × (signals u ≡ [])
      × Delivers ms v
]

-- All bodies of all messages.
abbrev pub total : List Outgoing → ℕ
total [] = 0
total (m ∷ ms) = elim m.bodies [ none ↦ total ms | some bodies ↦ length bodies + total ms ]
