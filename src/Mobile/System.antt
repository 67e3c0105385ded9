-- ===== src/Mobile/System.antt =====
-- runNotifyMobile of notify_mobile.go with the goroutines that it starts: its loop, unackAgent with its
-- waiters, and pushoverAgent. The channels between them have no buffer, so that a send and its receipt
-- are one step.
pub mod Owed
pub mod Sourced
pub mod Blocked
mod Examples
use pmb.Base.{String, ◌≡◌, refl, true, some, List, [], ◌∷◌, ◌++◌}
use pmb.Base.Go.{done}
use pmb.Json.{Fields}
use pmb.Mobile.{Act, to_unack, to_pushover, Levels, route, push_step}
use pmb.Mobile.Agent.{is_alone, selecting, pushing, reaping, Waiter, Unack, receive, At}
use pmb.Mobile.Agent

-- What the loop has still to send before it reads conn.In again, unackAgent and its waiters, the ids that
-- pushoverAgent remembers, what it has sent to Pushover, and all messages that came.
pub record System : Type 0 where
  pub main : List Act
  pub unack : Unack
  pub recent : List String
  pub sent : List Act
  pub heard : List Fields

abbrev pub init : System
init = record { main = []; unack = Agent.init; recent = []; sent = []; heard = [] }

-- The steps: the loop hears a message; unackAgent takes one from the loop; pushoverAgent takes one from
-- the loop; unackAgent and its waiters go on by themselves; pushoverAgent takes one from a waiter.
pub data Step (l : Levels) (u v : System) : Type 0 where
  hears :
      (m : Fields) (t : List Act)
      → u.main ≡ []
      → route l m ≡ done t tt
      → v ≡ record u { main = t; heard = u.heard ++ m ∷ [] }
      → Step l u v
  notes :
      (m : Fields) (rest : List Act) (a : Unack)
      → u.main ≡ to_unack m ∷ rest
      → u.unack.phase ≡ selecting
      → receive m u.unack ≡ some a
      → v ≡ record u { main = rest; unack = a }
      → Step l u v
  urges :
      (m : Fields) (rest : List Act) (t : List Act) (ids : List String)
      → u.main ≡ to_pushover m ∷ rest
      → push_step u.recent m ≡ done t ids
      → v ≡ record u { main = rest; recent = ids; sent = u.sent ++ t }
      → Step l u v
  turns :
      (a : Unack) (s : Agent.Step u.unack a)
      → is_alone s ≡ true
      → v ≡ record u { unack = a }
      → Step l u v
  reports :
      (w : Waiter) (before rest : List Waiter) (t : List Act) (ids : List String)
      → At w u.unack.waiters before rest
      → w.stage ≡ pushing
      → push_step u.recent w.message ≡ done t ids
      → v ≡ record u {
        unack = record u.unack {
          waiters = before ++ record w { stage = reaping } ∷ rest;
          pushed = u.unack.pushed ++ w.message ∷ [];
        };
        recent = ids;
        sent = u.sent ++ t;
      }
      → Step l u v

pub data Reach (l : Levels) (u : System) : System → Type 0 where
  here : Reach l u u
  next : {v w : System} → Reach l u v → Step l v w → Reach l u w

-- What unackAgent and its waiters do in the whole is what they can do by themselves.
pub Reach-unack : {l : Levels} {u : System} → Reach l init u → Agent.Reach Agent.init u.unack
Reach-unack here = Agent.here
Reach-unack (next r (hears m t n e f)) = rw f (Reach-unack r)
Reach-unack (next r (notes m rest a n p e f)) =
    rw f (Agent.then_step (Reach-unack r) (Agent.takes m p e))
Reach-unack (next r (urges m rest t ids n e f)) = rw f (Reach-unack r)
Reach-unack (next r (turns a s q f)) = rw f (Agent.then_step (Reach-unack r) s)
Reach-unack (next r (reports w before rest t ids a g e f)) =
    rw f (Agent.then_step (Reach-unack r) (Agent.pushes w before rest a g refl))
