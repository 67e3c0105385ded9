-- ===== src/Mobile/Agent.antt =====
-- unackAgent and waitForComplete of notify_mobile.go: one agent, and a waiter for each notification,
-- joined by channels without a buffer. Each step is one that the Go scheduler can make.
pub mod Deadlock
pub mod Late
pub mod Waiters
pub mod Table
pub mod Safe
use pmb.Base.{
  ℕ, suc, String, ◌≡◌, Bool, true, false, ◌||◌, Option, none, some, List, [], ◌∷◌, ◌++◌, nat_eq,
  ◌==◌, if◌then◌else◌,
}
use pmb.Json.{Fields, text_at}

-- The agent is at its `select`, or in `complete <- true` on a channel.
pub data Phase : Type 0 where
  selecting : Phase
  handing : ℕ → Phase

-- A waiter is at its `select`, at `pushoverChan <- message`, or at `reapChan <- notificationId`.
pub data Stage : Type 0 where
  waiting pushing reaping : Stage

pub record Waiter : Type 0 where
  pub channel : ℕ
  pub id : String
  pub message : Fields
  pub stage : Stage

-- The agent, its map completeChans, the waiters, the channels that are closed, the number of the next
-- channel, and what has been sent to pushoverChan.
pub record Unack : Type 0 where
  pub phase : Phase
  pub table : List (String × ℕ)
  pub waiters : List Waiter
  pub closed : List ℕ
  pub next : ℕ
  pub pushed : List Fields

abbrev pub init : Unack
init = record { phase = selecting; table = []; waiters = []; closed = []; next = 0; pushed = [] }

unfoldable pub find : String → List (String × ℕ) → Option ℕ
find id [] = none
find id ((j, n) ∷ t) = if j == id then some n else find id t

unfoldable pub without : String → List (String × ℕ) → List (String × ℕ)
without id [] = []
without id ((j, n) ∷ t) = if j == id then without id t else (j, n) ∷ without id t

-- `case message := <-in`; `none` is a panic at a missing id or type.
unfoldable pub receive : Fields → Unack → Option Unack
unfolding find without
receive m u = elim (text_at "notification-id" m) [
  | none ↦ none
  | some id ↦ elim (text_at "type" m) [
    | none ↦ none
    | some type ↦
        if type == "NotificationDisplayed"
        then (elim (find id u.table) [
          | none ↦ some u
          | some n ↦ some (record u { phase = handing n })
        ])
        else if type == "Notification"
        then some (record u {
          table = (id, u.next) ∷ without id u.table;
          waiters = record { channel = u.next; id = id; message = m; stage = waiting } ∷ u.waiters;
          next = suc u.next;
        })
        else some u
  ]
]

-- `case notificationId := <-reapChan`
unfoldable pub reap : String → Unack → Unack
unfolding find without
reap id u = elim (find id u.table) [
  | none ↦ u
  | some n ↦ record u { table = without id u.table; closed = n ∷ u.closed }
]

abbrev pub contains : ℕ → List ℕ → Bool
contains n [] = false
contains n (m ∷ ms) = nat_eq m n || contains n ms

-- `w` stands at a place in the list of waiters.
pub record At (w : Waiter) (ws before rest : List Waiter) : Type 0 where
  pub split : ws ≡ before ++ w ∷ rest

-- The steps of the system: the agent takes a message; it hands `true` to a waiter at its select; a
-- waiter's timer fires, or it finds its channel closed; pushoverAgent takes its message; the agent,
-- if it is at its select, reaps it.
pub data Step (u v : Unack) : Type 0 where
  takes : (m : Fields) → u.phase ≡ selecting → receive m u ≡ some v → Step u v
  hands :
      (w : Waiter) (before rest : List Waiter)
      → u.phase ≡ handing w.channel
      → At w u.waiters before rest
      → w.stage ≡ waiting
      → v ≡ record u { phase = selecting; waiters = before ++ record w { stage = reaping } ∷ rest }
      → Step u v
  expires :
      (w : Waiter) (before rest : List Waiter)
      → At w u.waiters before rest
      → w.stage ≡ waiting
      → v ≡ record u { waiters = before ++ record w { stage = pushing } ∷ rest }
      → Step u v
  wakes :
      (w : Waiter) (before rest : List Waiter)
      → At w u.waiters before rest
      → w.stage ≡ waiting
      → contains w.channel u.closed ≡ true
      → v ≡ record u { waiters = before ++ record w { stage = reaping } ∷ rest }
      → Step u v
  pushes :
      (w : Waiter) (before rest : List Waiter)
      → At w u.waiters before rest
      → w.stage ≡ pushing
      → v ≡ record u {
        waiters = before ++ record w { stage = reaping } ∷ rest;
        pushed = u.pushed ++ w.message ∷ [];
      }
      → Step u v
  reaps :
      (w : Waiter) (before rest : List Waiter)
      → u.phase ≡ selecting
      → At w u.waiters before rest
      → w.stage ≡ reaping
      → v ≡ reap w.id (record u { waiters = before ++ rest })
      → Step u v

pub data Reach (u : Unack) : Unack → Type 0 where
  here : Reach u u
  then_step : {v w : Unack} → Reach u v → Step v w → Reach u w

-- A step in which no other goroutine takes part.
abbrev pub is_alone : {u v : Unack} → Step u v → Bool
is_alone (takes m p e) = false
is_alone (hands w before rest p a g e) = true
is_alone (expires w before rest a g e) = true
is_alone (wakes w before rest a g c e) = true
is_alone (pushes w before rest a g e) = false
is_alone (reaps w before rest p a g e) = true

-- No step is left: the agent and all waiters are blocked for ever, whatever messages come.
abbrev pub IsStuck : Unack → Type 0
IsStuck u = (v : Unack) → ¬ Step u v
