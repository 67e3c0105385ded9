-- ===== src/Broker/Hub.antt =====
-- One broker of broker.go among its goroutines: Broker.run, the manager that gives it clients and that
-- retires it, and the readers of the clients. Its channels have no buffer: a send and its receipt are
-- one step, and the work on what was received is another.
pub mod Sound
pub mod Retired
pub mod Traced
mod Examples
use pmb.Base.{ℕ, Bool, true, false, ◌≡◌, Option, none, some, List, [], ◌∷◌, Bytes, if◌then◌else◌}
use pmb.Broker.{Broker, Input, add, remove, send, contains, delete, new_broker, round, take_message}
use pmb.Broker.Relay.{relayed}

-- Where Broker.run stands: at `if b.done`, at its `select`, in a case of it, or behind its loop.
pub data Point : Type 0 where
  checking selecting ended : Point
  working : Input → Point

-- The broker; whether the manager's map has it; the client with which the manager stands at
-- `c.broker.add <- c`; the clients whose processReads runs; and all that the manager had for it.
pub record Hub : Type 0 where
  pub broker : Broker
  pub point : Point
  pub listed : Bool
  pub joining : Option ℕ
  pub members : List ℕ
  pub seen : List ℕ

-- The manager makes a broker when a client comes whose realm has none.
abbrev pub start : ℕ → Hub
start c = record {
  broker = new_broker;
  point = checking;
  listed = true;
  joining = some c;
  members = [];
  seen = c ∷ [];
}

-- `if b.done`
abbrev pub checked : Hub → Point
checked u = if u.broker.retired then ended else selecting

-- The steps: the manager has another client; the broker takes a client, which starts; the ticker finds
-- no clients in the map; a client's reader sends what it read, or leaves; Broker.run does a round, and
-- checks; a client's writer takes a message.
pub data Step (u v : Hub) : Type 0 where
  arrives :
      (c : ℕ)
      → u.listed ≡ true
      → u.joining ≡ none
      → contains c u.seen ≡ false
      → v ≡ record u { joining = some c; seen = c ∷ u.seen }
      → Step u v
  takes :
      (c : ℕ)
      → u.point ≡ selecting
      → u.joining ≡ some c
      → v ≡ record u { point = working (add c); joining = none; members = c ∷ u.members }
      → Step u v
  sweeps :
      u.listed ≡ true
      → u.joining ≡ none
      → u.broker.clients ≡ []
      → v ≡ record u { broker = record u.broker { retired = true }; listed = false }
      → Step u v
  speaks :
      (c : ℕ) (message : Bytes)
      → u.point ≡ selecting
      → contains c u.members ≡ true
      → v ≡ record u { point = working (send (relayed message)) }
      → Step u v
  leaves :
      (c : ℕ)
      → u.point ≡ selecting
      → contains c u.members ≡ true
      → v ≡ record u { point = working (remove c); members = delete c u.members }
      → Step u v
  works :
      (i : Input) (b : Broker)
      → u.point ≡ working i
      → round i u.broker ≡ some b
      → v ≡ record u { broker = b; point = checking }
      → Step u v
  checks : u.point ≡ checking → v ≡ record u { point = checked u } → Step u v
  reads :
      (c : ℕ) (message : Bytes) (b : Broker)
      → take_message c u.broker ≡ some (message, b)
      → v ≡ record u { broker = b }
      → Step u v

pub data Reach (u : Hub) : Hub → Type 0 where
  here : Reach u u
  next : {v w : Hub} → Reach u v → Step v w → Reach u w
