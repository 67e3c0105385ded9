-- ===== src/Broker/Hub/Examples.antt =====
-- One broker among its goroutines at concrete inputs.
use pmb.Base.{◌≡◌, ◌⊎◌, refl, false, none, some, List, [], ◌∷◌, ◌++◌, Bytes}
use pmb.Broker.{
  Broker, add, send, new_broker, contains, update, round, on_add, offer, offer_all, take_message,
}
use pmb.Broker.Invariant.{IsSound}
use pmb.Broker.History.{had, due}
use pmb.Broker.Relay.{relayed}
use pmb.Broker.Hub.{
  checking, selecting, working, Hub, start, Step, takes, speaks, works, checks, reads, Reach, next,
  here,
}
use pmb.Broker.Hub.Retired.{IsOver, Forever, start-IsOver}
use pmb.Broker.Hub.Sound.{Reach-working}
use pmb.Broker.Hub.Traced.{events, Reach-had}

-- Client 1 is in the map, and Broker.run at its `select`.
abbrev joined : Hub
joined = record (start 1) {
  broker = on_add 1 new_broker;
  point = selecting;
  joining = none;
  members = 1 ∷ [];
}

joined-Reach : Reach (start 1) joined
unfolding round on_add
joined-Reach =
    let ready : Hub = record (start 1) { point = selecting } in
    let taken : Hub = record ready { point = working (add 1); joining = none; members = 1 ∷ [] } in
    let added : Hub = record joined { point = checking } in
    let first : Step (start 1) ready = checks refl refl in
    let second : Step ready taken = takes 1 refl refl refl in
    let third : Step taken added = works (add 1) added.broker refl refl refl in
    let fourth : Step added joined = checks refl refl in
    next (next (next (next here first) second) third) fourth

-- It sends a byte.
abbrev speaking : Hub
speaking = record joined { point = working (send (relayed (7 ∷ []))) }

Reach-working_example :
    IsSound speaking.broker
    × ((b : Broker) × (round (send (relayed (7 ∷ []))) speaking.broker ≡ some b))
Reach-working_example =
    Reach-working {c = 1} {u = speaking} (next joined-Reach (speaks 1 (7 ∷ []) refl refl refl))
      (send (relayed (7 ∷ []))) refl

start-IsOver_example : (u : Hub) × Reach (start 1) u × Forever (IsOver (1 ∷ [])) u
start-IsOver_example = start-IsOver 1

-- Its message is in its own buffer, and its writer takes it.
abbrev sent : Hub
sent = record joined {
  broker = record joined.broker {
    channel =
        update joined.broker.channel 1 record { buffer = relayed (7 ∷ []) ∷ []; closed = false };
  };
  point = checking;
}

abbrev taken : Hub
taken = record sent {
  broker = record sent.broker {
    channel = update sent.broker.channel 1 record { buffer = []; closed = false };
  };
}

taken-Reach : Reach (start 1) taken
unfolding round offer_all offer on_add take_message
taken-Reach =
    let first : Step joined speaking = speaks 1 (7 ∷ []) refl refl refl in
    let second : Step speaking sent = works (send (relayed (7 ∷ []))) sent.broker refl refl refl in
    let third : Step sent taken = reads 1 (relayed (7 ∷ [])) taken.broker refl refl in
    next (next (next joined-Reach first) second) third

Reach-had_example :
    (rest : List Bytes) × (had 1 (events taken-Reach) taken.broker ++ rest
      ≡ due 1 (events taken-Reach))
    × ((rest ≡ []) ⊎ (contains 1 taken.broker.clients ≡ false))
Reach-had_example = Reach-had taken-Reach 1
