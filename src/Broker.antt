-- ===== src/Broker.antt =====
-- broker.go: the hub that the clients of a realm are connected to. A client is a number; its channel
-- `send` is a bounded buffer that may be closed. A round of Broker.run panics (`none`) where Go
-- does: on a second close, and on a send to a closed channel.
pub mod Invariant
pub mod Broadcast
pub mod Reach
pub mod Manager
pub mod History
pub mod Relay
pub mod Hub
mod Examples
use pmb.Base.{
  ℕ, suc, String, ◌==◌, Bool, true, false, ◌||◌, Option, none, some, List, [], ◌∷◌, ◌++◌, Bytes,
  length, ltb, nat_eq, if◌then◌else◌,
}

-- `make(chan []byte, 256)` of newClient.
abbrev pub capacity : ℕ
capacity = 256

pub record Channel : Type 0 where
  pub buffer : List Bytes
  pub closed : Bool

abbrev pub fresh : Channel
fresh = record { buffer = []; closed = false }

-- Broker: the keys of the map `clients`, each client's channel, and the flag `done`.
pub record Broker : Type 0 where
  pub clients : List ℕ
  pub channel : ℕ → Channel
  pub retired : Bool

-- newBroker
abbrev pub new_broker : Broker
new_broker = record { clients = []; channel = λ c. fresh; retired = false }

abbrev pub contains : ℕ → List ℕ → Bool
contains c [] = false
contains c (d ∷ ds) = nat_eq d c || contains c ds

-- `delete(b.clients, client)`
abbrev pub delete : ℕ → List ℕ → List ℕ
delete c [] = []
delete c (d ∷ ds) = if nat_eq d c then delete c ds else d ∷ delete c ds

abbrev pub update : (ℕ → Channel) → ℕ → Channel → ℕ → Channel
update f c ch d = if nat_eq d c then ch else f d

-- `close(client.send)`
unfoldable pub close_channel : ℕ → Broker → Option Broker
close_channel c b =
    if (b.channel c).closed
    then none
    else some (record b {
      channel = update b.channel c (record { buffer = (b.channel c).buffer; closed = true });
    })

-- `case client := <-b.add`
unfoldable pub on_add : ℕ → Broker → Broker
on_add c b = if contains c b.clients then b else record b { clients = c ∷ b.clients }

-- `case client := <-b.remove`
unfoldable pub on_remove : ℕ → Broker → Option Broker
unfolding close_channel
on_remove c b =
    if contains c b.clients
    then close_channel c (record b { clients = delete c b.clients })
    else some b

-- The inner `select`: put the message into the client's buffer, or drop the client if it is full.
unfoldable pub offer : Bytes → ℕ → Broker → Option Broker
unfolding close_channel
offer msg c b =
    let ch = b.channel c in
    if ch.closed
    then none
    else if ltb (length ch.buffer) capacity
    then some (record b {
      channel = update b.channel c (record { buffer = ch.buffer ++ msg ∷ []; closed = false });
    })
    else close_channel c (record b { clients = delete c b.clients })

-- `for client := range b.clients`, over the clients that are still to come.
unfoldable pub offer_all : Bytes → List ℕ → Broker → Option Broker
offer_all msg [] b = some b
offer_all msg (c ∷ cs) b = elim (offer msg c b) [ none ↦ none | some b' ↦ offer_all msg cs b' ]

pub data Input : Type 0 where
  add : ℕ → Input
  remove : ℕ → Input
  send : Bytes → Input

-- One round of the loop of Broker.run.
unfoldable pub round : Input → Broker → Option Broker
round (add c) b = some (on_add c b)
round (remove c) b = on_remove c b
round (send msg) b = offer_all msg b.clients b

-- Broker.run over the inputs that have come; it leaves the loop when it finds `done` set.
unfoldable pub run : List Input → Broker → Option Broker
run [] b = some b
run (i ∷ is) b =
    if b.retired then some b else (elim (round i b) [ none ↦ none | some b' ↦ run is b' ])

-- Client.processWrites takes the oldest message from the channel, if there is one.
unfoldable pub take_message : ℕ → Broker → Option (Bytes × Broker)
take_message c b = elim (b.channel c).buffer [
  | [] ↦ none
  | msg ∷ rest ↦ some (
    msg,
    record b {
      channel = update b.channel c (record { buffer = rest; closed = (b.channel c).closed });
    },
  )
]

-- runBrokerManager: the brokers by realm.
abbrev pub Brokers : Type 0
Brokers = List (String × Broker)

unfoldable pub find : String → Brokers → Option Broker
find realm [] = none
find realm ((r, b) ∷ m) = if r == realm then some b else find realm m

unfoldable pub store : String → Broker → Brokers → Brokers
store realm b [] = (realm, b) ∷ []
store realm b ((r, old) ∷ m) = if r == realm then (r, b) ∷ m else (r, old) ∷ store realm b m

abbrev pub or_new : Option Broker → Broker
or_new none = new_broker
or_new (some b) = b

-- `case c, ok := <-receiver`: the realm's broker, or a new one, gets the client.
unfoldable pub on_client : String → ℕ → Brokers → Brokers
unfolding find store on_add
on_client realm c m = store realm (on_add c (or_new (find realm m))) m

-- BrokerCommand.Execute over the requests in order, each with its path and whether the upgrade succeeds;
-- the clients are numbered as they are made, and no ticker comes between.
unfoldable pub accept : ℕ → List (String × Bool) → Brokers → Brokers
unfolding on_client
accept n [] m = m
accept n ((path, upgraded) ∷ rs) m =
    accept (if upgraded then suc n else n) rs (if upgraded then on_client path n m else m)

-- `case <-ticker.C`: brokers with no clients are marked `done` and leave the map. The result has the
-- map and the brokers that were retired.
unfoldable pub on_tick : Brokers → Brokers × List Broker
on_tick [] = ([], [])
on_tick ((realm, b) ∷ m) =
    let (kept, gone) = on_tick m in
    elim b.clients [
      | [] ↦ (kept, record b { retired = true } ∷ gone)
      | c ∷ cs ↦ ((realm, b) ∷ kept, gone)
    ]
