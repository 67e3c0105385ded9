-- ===== src/Broker/Hub/Traced.antt =====
-- The rounds and reads in a run of broker.go's goroutines, as a history of the broker.
use pmb.Base.{
  ℕ, ◌≡◌, ◌⊎◌, refl, ap, ◌∙◌, inl, inr, false, Option, none, some, List, [], ◌∷◌, ◌++◌, Bytes,
  Bool-cases, Option-cases, length, ltb, arith,
}
use pmb.Broker.{
  Broker, Input, add, remove, send, capacity, contains, delete, close_channel, on_add, on_remove,
  offer, offer_all, round, take_message,
}
use pmb.Broker.History.{Event, input, read, History, begin, next, take, had, due}
use pmb.Broker.Reach.{IsNew}
use pmb.Broker.History.Follows.{History-had}
use pmb.Broker.Hub.{
  working, Hub, start, Step, arrives, takes, sweeps, speaks, leaves, works, checks, reads, Reach,
  here,
}
use pmb.Broker.Hub
use pmb.Broker.Hub.Sound.{IsSafe, Reach-IsSafe}

-- The broker before its retirement.
abbrev live : Broker → Broker
live b = record b { retired = false }

-- The same result, but for the retirement.
abbrev lives : Option Broker → Option Broker
lives none = none
lives (some b) = some (live b)

close_channel-live : (c : ℕ) (b : Broker) → close_channel c (live b) ≡ lives (close_channel c b)
unfolding close_channel
close_channel-live c b = elim (Bool-cases (b.channel c).closed) [
  | inl e ↦ rw e refl
  | inr e ↦ rw e refl
]

on_remove-live : (c : ℕ) (b : Broker) → on_remove c (live b) ≡ lives (on_remove c b)
unfolding on_remove
on_remove-live c b = elim (Bool-cases (contains c b.clients)) [
  | inl e ↦ rw e (close_channel-live c (record b { clients = delete c b.clients }))
  | inr e ↦ rw e refl
]

on_add-live : (c : ℕ) (b : Broker) → on_add c (live b) ≡ live (on_add c b)
unfolding on_add
on_add-live c b = elim (Bool-cases (contains c b.clients)) [ inl e ↦ rw e refl | inr e ↦ rw e refl ]

offer-live : (msg : Bytes) (c : ℕ) (b : Broker) → offer msg c (live b) ≡ lives (offer msg c b)
unfolding offer
offer-live msg c b = elim (Bool-cases (b.channel c).closed) [
  | inl e ↦ rw e refl
  | inr e ↦ elim (Bool-cases (ltb (length (b.channel c).buffer) capacity)) [
    | inl g ↦ rw (e, g) refl
    | inr g ↦ rw (e, g) refl
  ]
]

offer_all-live :
    (msg : Bytes) (cs : List ℕ) (b : Broker)
    → offer_all msg cs (live b) ≡ lives (offer_all msg cs b)
unfolding offer_all
offer_all-live msg [] b = refl
offer_all-live msg (c ∷ cs) b = elim (Option-cases (offer msg c b)) [
  | inl e ↦ rw (offer_all, offer-live msg c b, e) refl
  | inr (b', e) ↦ rw (offer_all, offer-live msg c b, e) (offer_all-live msg cs b')
]

round-live : (i : Input) (b : Broker) → round i (live b) ≡ lives (round i b)
unfolding round
round-live (add c) b = ap some (on_add-live c b)
round-live (remove c) b = on_remove-live c b
round-live (send msg) b = offer_all-live msg b.clients b

take_message-live :
    (c : ℕ) (msg : Bytes) (b b' : Broker)
    → take_message c b ≡ some (msg, b')
    → take_message c (live b) ≡ some (msg, live b')
unfolding take_message
take_message-live c msg b b' h = ground (arith, h)

busy-live : (u : Hub) (i : Input) → IsSafe u → u.point ≡ working i → IsNew i (live u.broker)
busy-live u (add c) s p = s.busy (add c) p
busy-live u (remove c) s p = tt
busy-live u (send msg) s p = tt

-- The rounds of Broker.run and the reads of the writers in a run, newest first.
abbrev pub events : {u v : Hub} → Reach u v → List Event
events here = []
events (Hub.next r (arrives c l j n e)) = events r
events (Hub.next r (takes c p j e)) = events r
events (Hub.next r (sweeps l j n e)) = events r
events (Hub.next r (speaks c m p k e)) = events r
events (Hub.next r (leaves c p k e)) = events r
events (Hub.next r (works i b p q e)) = input i ∷ events r
events (Hub.next r (checks p e)) = events r
events (Hub.next r (reads c msg b t e)) = read c msg ∷ events r

pub Reach-History : {c : ℕ} {u : Hub} (r : Reach (start c) u) → History (events r) (live u.broker)
Reach-History here = begin
Reach-History (Hub.next r (arrives c l j n e)) = rw e (Reach-History r)
Reach-History (Hub.next r (takes c p j e)) = rw e (Reach-History r)
Reach-History (Hub.next r (sweeps l j n e)) = rw e (Reach-History r)
Reach-History (Hub.next r (speaks c m p k e)) = rw e (Reach-History r)
Reach-History (Hub.next r (leaves c p k e)) = rw e (Reach-History r)
Reach-History (Hub.next {v} r (works i b p q e)) = rw e (
    next i (Reach-History r) (busy-live v i (Reach-IsSafe r) p)
      (round-live i v.broker ∙ ap lives q))
Reach-History (Hub.next r (checks p e)) = rw e (Reach-History r)
Reach-History (Hub.next {v} r (reads c msg b t e)) =
    rw e (take c msg (Reach-History r) (take_message-live c msg v.broker b t))

-- However the goroutines take turns, for every client: the messages that its writer took, with those left
-- in its buffer, are in order the first of all that were broadcast in the run since it joined, none lost
-- or doubled in between; and they are all of them, unless the client is out of the map.
pub Reach-had :
    {c : ℕ} {u : Hub} (r : Reach (start c) u) (d : ℕ)
    → (rest : List Bytes) × (had d (events r) u.broker ++ rest ≡ due d (events r))
      × ((rest ≡ []) ⊎ (contains d u.broker.clients ≡ false))
Reach-had r d = History-had (Reach-History r) d
