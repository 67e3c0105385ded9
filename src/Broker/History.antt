-- ===== src/Broker/History.antt =====
-- Histories of Broker.run in broker.go, and what they owe to a client.
pub mod Follows
use pmb.Base.{ℕ, ◌≡◌, Bool, false, ◌||◌, some, List, [], ◌∷◌, ◌++◌, Bytes, nat_eq, if◌then◌else◌}
use pmb.Broker.{Broker, Input, add, remove, send, round, new_broker, take_message}
use pmb.Broker.Reach.{IsNew, Reach, start, inputs, reads}

-- A round of the broker, or a client's writer that took a message.
pub data Event : Type 0 where
  input : Input → Event
  read : ℕ → Bytes → Event

-- Histories, newest event first, with the broker they lead to.
pub data History : List Event → Broker → Type 0 where
  begin : History [] new_broker
  next :
      {es : List Event} {b b' : Broker} (i : Input)
      → History es b
      → IsNew i b
      → round i b ≡ some b'
      → History (input i ∷ es) b'
  take :
      {es : List Event} {b b' : Broker} (c : ℕ) (msg : Bytes)
      → History es b
      → take_message c b ≡ some (msg, b')
      → History (read c msg ∷ es) b'

pub History-Reach : {es : List Event} {b : Broker} → History es b → Reach b
History-Reach begin = start
History-Reach (next i h n e) = inputs i (History-Reach h) n e
History-Reach (take c msg h e) = reads c msg (History-Reach h) e

module _ (c : ℕ) where
  abbrev pub joined : List Event → Bool
  joined [] = false
  joined (input (add d) ∷ es) = nat_eq d c || joined es
  joined (input (remove d) ∷ es) = joined es
  joined (input (send msg) ∷ es) = joined es
  joined (read d msg ∷ es) = joined es

  -- All that was broadcast since the client joined, oldest first.
  abbrev pub due : List Event → List Bytes
  due [] = []
  due (input (add d) ∷ es) = due es
  due (input (remove d) ∷ es) = due es
  due (input (send msg) ∷ es) = if joined es then due es ++ msg ∷ [] else []
  due (read d msg ∷ es) = due es

  -- What the client's writer took, oldest first.
  abbrev pub got : List Event → List Bytes
  got [] = []
  got (input i ∷ es) = got es
  got (read d msg ∷ es) = if nat_eq d c then got es ++ msg ∷ [] else got es

  -- What the client took and what its buffer still has.
  abbrev pub had : List Event → Broker → List Bytes
  had es b = got es ++ (b.channel c).buffer
