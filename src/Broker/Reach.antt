-- ===== src/Broker/Reach.antt =====
-- All states that Broker.run of broker.go can come to, whatever arrives and whenever clients read.
use mathlib.Core.Option.{some-injective}
use pmb.Base.{ℕ, ◌≡◌, inl, inr, refl, false, some, Bytes, Bool-cases, subst, sym, ◌∙◌, arith}
use pmb.Broker.{
  Broker, fresh, contains, on_add, on_remove, Input, add, remove, send, round, new_broker,
  take_message,
}
use pmb.Broker.Invariant.{IsSound, dropped, close_channel-dropped, dropped-IsSound}
use pmb.Broker.Broadcast.{Served, offer_all-Served}

-- The manager adds a client once, with the channel that newClient made.
abbrev pub IsNew : Input → Broker → Type 0
IsNew (add c) b = (contains c b.clients ≡ false) × (b.channel c ≡ fresh)
IsNew _ b = Unit

on_add-IsSound : (c : ℕ) (b : Broker) → IsSound b → IsNew (add c) b → IsSound (on_add c b)
unfolding on_add
on_add-IsSound c b s (n, f) = record {
  distinct = rw n (n, s.distinct);
  open_channel = λ d k. ground (arith, s.open_channel d);
  bounded = λ d. ground (arith, s.bounded d);
}

-- From a sound broker no input panics, and the broker stays sound.
pub round-IsSound :
    (i : Input) (b : Broker)
    → IsSound b
    → IsNew i b
    → (b' : Broker) × (round i b ≡ some b') × IsSound b'
unfolding round on_remove
round-IsSound (add c) b s n = (on_add c b, refl, on_add-IsSound c b s n)
round-IsSound (remove c) b s n = elim (Bool-cases (contains c b.clients)) [
  | inl h ↦ (dropped c b, ground (arith, close_channel-dropped c b s h), dropped-IsSound c b s h)
  | inr h ↦ (b, rw h, s)
]
round-IsSound (send msg) b s n =
    let (b', e, served) = offer_all-Served msg b.clients b s s.distinct (λ c h. h) in
    (b', e, served.sound)

-- The states that a broker can reach. `reads` is a client's writer at any time.
pub data Reach : Broker → Type 0 where
  start : Reach new_broker
  inputs : {b b' : Broker} (i : Input) → Reach b → IsNew i b → round i b ≡ some b' → Reach b'
  reads :
      {b b' : Broker} (c : ℕ) (msg : Bytes) → Reach b → take_message c b ≡ some (msg, b') → Reach b'

pub take_message-IsSound :
    (c : ℕ) (b b' : Broker) (msg : Bytes)
    → IsSound b
    → take_message c b ≡ some (msg, b')
    → IsSound b'
unfolding take_message
take_message-IsSound c b b' msg s h = record {
  distinct = ground (arith, s.distinct);
  open_channel = λ d k. ground (arith, s.open_channel d);
  bounded = λ d. ground (arith, s.bounded d, s.bounded c);
}

pub new_broker-IsSound : IsSound new_broker
new_broker-IsSound = record {
  distinct = tt;
  open_channel = λ c h. refl;
  bounded = λ c. omega arith;
}

pub Reach-IsSound : {b : Broker} → Reach b → IsSound b
Reach-IsSound start = new_broker-IsSound
Reach-IsSound (inputs {b} {b'} i r n e) =
    let (b'', g, s) = round-IsSound i b (Reach-IsSound r) n in
    subst IsSound (some-injective b'' b' (sym g ∙ e)) s
Reach-IsSound (reads {b} {b'} c msg r e) = take_message-IsSound c b b' msg (Reach-IsSound r) e

-- However clients come, go, send and read: the broker never closes a channel twice and never sends
-- to a closed channel, and all clients in its map are distinct, open and within their buffers.
pub Reach-round :
    {b : Broker}
    → Reach b
    → (i : Input) → IsNew i b
    → IsSound b × ((b' : Broker) × (round i b ≡ some b'))
Reach-round {b} r i n =
    let s = Reach-IsSound r in let (b', e, _) = round-IsSound i b s n in (s, (b', e))

-- A broadcast in a reachable state: every client of the map with room has the message last in its
-- buffer and stays; every client without is closed and leaves; no other client is touched.
pub Reach-send :
    {b : Broker}
    → Reach b
    → (msg : Bytes) → (b' : Broker) × (round (send msg) b ≡ some b') × Served msg b b.clients b'
unfolding round
Reach-send {b} r msg =
    let s = Reach-IsSound r in offer_all-Served msg b.clients b s s.distinct (λ c h. h)
