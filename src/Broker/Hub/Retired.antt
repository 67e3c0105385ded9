-- ===== src/Broker/Hub/Retired.antt =====
-- How a broker of broker.go ends: the ticker of runBrokerManager against Broker.run.
use pmb.Base.{ℕ, ◌≡◌, refl, true, false, none, List, [], ◌∷◌, arith}
use pmb.Broker.{add, new_broker, round, on_add}
use pmb.Broker.Hub.{
  checking, selecting, ended, working, Hub, start, Step, arrives, takes, sweeps, speaks, leaves,
  works, checks, reads, Reach, here, next,
}

-- From this state on, whatever happens.
abbrev pub Forever : (Hub → Type 0) → Hub → Type 0
Forever P u = (v : Hub) → Reach u v → P v

-- Broker.run has left its loop, and the manager has no client for this broker.
abbrev pub IsOver : List ℕ → Hub → Type 0
IsOver cs u = (u.point ≡ ended) × (u.joining ≡ none) × (u.listed ≡ false) × (u.members ≡ cs)

Step-IsOver : (cs : List ℕ) {u v : Hub} → IsOver cs u → Step u v → IsOver cs v
Step-IsOver cs (p, j, l, m) (arrives c l' j' n e) = cc
Step-IsOver cs (p, j, l, m) (takes c p' j' e) = cc
Step-IsOver cs (p, j, l, m) (sweeps l' j' n e) = cc
Step-IsOver cs (p, j, l, m) (speaks c msg p' n e) = cc
Step-IsOver cs (p, j, l, m) (leaves c p' n e) = cc
Step-IsOver cs (p, j, l, m) (works i b p' r e) = cc
Step-IsOver cs (p, j, l, m) (checks p' e) = cc
Step-IsOver cs (p, j, l, m) (reads c msg b t e) = rw e (p, j, l, m)

Reach-IsOver : (cs : List ℕ) {u v : Hub} → IsOver cs u → Reach u v → IsOver cs v
Reach-IsOver cs o here = o
Reach-IsOver cs o (next r s) = Step-IsOver cs (Reach-IsOver cs o r) s

-- The client has started, the broker has ended.
abbrev left_behind : ℕ → Hub
left_behind c = record {
  broker = record (on_add c new_broker) { retired = true };
  point = ended;
  listed = false;
  joining = none;
  members = c ∷ [];
  seen = c ∷ [];
}

-- The first client of any realm can be left behind: there is a run of the goroutines, from the client's
-- arrival, in which the manager's ticker comes after Broker.run has received the client and before it
-- has put it into its map. From then on, whatever happens, Broker.run has left its loop while the
-- client's reader still runs, so that nothing that the client sends is ever taken, nor its leave.
pub start-IsOver : (c : ℕ) → (u : Hub) × Reach (start c) u × Forever (IsOver (c ∷ [])) u
unfolding round on_add
start-IsOver c =
    let ready : Hub = record (start c) { point = selecting } in
    let taken : Hub = record ready { point = working (add c); joining = none; members = c ∷ [] } in
    let swept : Hub = record taken {
      broker = record new_broker { retired = true };
      listed = false;
    } in
    let added : Hub = record swept {
      broker = record (on_add c new_broker) { retired = true };
      point = checking;
    } in
    let first : Step (start c) ready = checks refl refl in
    let second : Step ready taken = takes c refl refl refl in
    let third : Step taken swept = sweeps refl refl refl refl in
    let fourth : Step swept added = works (add c) added.broker refl refl refl in
    let fifth : Step added (left_behind c) = checks refl refl in
    (
      left_behind c,
      next (next (next (next (next here first) second) third) fourth) fifth,
      λ v r. Reach-IsOver (c ∷ []) (refl, refl, refl, refl) r,
    )

-- Broker.run stands at its `select`, and no goroutine is left that could send to it.
abbrev pub IsForgotten : Hub → Type 0
IsForgotten u = (u.point ≡ selecting) × (u.joining ≡ none) × (u.listed ≡ false) × (u.members ≡ [])

Step-IsForgotten : {u v : Hub} → IsForgotten u → Step u v → IsForgotten v
Step-IsForgotten (p, j, l, m) (arrives c l' j' n e) = cc
Step-IsForgotten (p, j, l, m) (takes c p' j' e) = cc
Step-IsForgotten (p, j, l, m) (sweeps l' j' n e) = cc
Step-IsForgotten {u} (p, j, l, m) (speaks c msg p' n e) = absurd (ground arith)
Step-IsForgotten (p, j, l, m) (leaves c p' n e) = absurd (ground arith)
Step-IsForgotten (p, j, l, m) (works i b p' r e) = cc
Step-IsForgotten (p, j, l, m) (checks p' e) = cc
Step-IsForgotten (p, j, l, m) (reads c msg b t e) = rw e (p, j, l, m)

Reach-IsForgotten : {u v : Hub} → IsForgotten u → Reach u v → IsForgotten v
Reach-IsForgotten o here = o
Reach-IsForgotten o (next r s) = Step-IsForgotten (Reach-IsForgotten o r) s

-- When the ticker retires a broker whose clients have all left, and which waits at its `select`,
-- the goroutine of Broker.run waits there for ever, whatever happens: it looks at `done` only after
-- it has received something.
pub sweeps-IsForgotten :
    {u v : Hub}
    → u.point ≡ selecting
    → u.listed ≡ true
    → u.joining ≡ none
    → u.members ≡ []
    → u.broker.clients ≡ []
    → v ≡ record u { broker = record u.broker { retired = true }; listed = false }
    → Step u v × Forever IsForgotten v
sweeps-IsForgotten {u} {v} p l j m n e =
    (sweeps l j n e, λ w r. Reach-IsForgotten (rw e (p, j, refl, m)) r)
