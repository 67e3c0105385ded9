-- ===== src/Mobile/Agent/Deadlock.antt =====
-- unackAgent in notify_mobile.go, when a notification is acknowledged twice.
use pmb.Base.{String, ◌≡◌, refl, some, List, [], ◌∷◌, ◌++◌, eq_iff, arith}
use pmb.Json.{Fields, text_at}
use pmb.Mobile.Agent.{
  Phase, selecting, handing, Stage, waiting, reaping, Waiter, Unack, init, receive, Step, takes,
  hands, expires, wakes, pushes, reaps, Reach, here, then_step, IsStuck,
}

-- The waiter of the notification `m`, at a stage.
abbrev pub waiter : String → Fields → Stage → Waiter
waiter id m stage = record { channel = 0; id = id; message = m; stage = stage }

-- The system with one notification, its waiter at this stage and the agent in this phase.
abbrev pub system : String → Fields → Phase → Stage → List Fields → Unack
system id m phase stage pushed = record {
  phase = phase;
  table = (id, 0) ∷ [];
  waiters = waiter id m stage ∷ [];
  closed = [];
  next = 1;
  pushed = pushed;
}

only_one : (w x : Waiter) (before rest : List Waiter) → w ∷ [] ≡ before ++ x ∷ rest → w ≡ x
only_one w x [] rest h = cc
only_one w x (y ∷ []) rest h = cc
only_one w x (y ∷ z ∷ before) rest h = cc

pub stuck :
    (id : String) (m : Fields) (pushed : List Fields)
    → IsStuck (system id m (handing 0) reaping pushed)
stuck id m sent v (takes n p r) = cc
stuck id m sent v (hands w before rest p a s e) =
    cc (only_one (waiter id m reaping) w before rest a.split)
stuck id m sent v (expires w before rest a s e) =
    cc (only_one (waiter id m reaping) w before rest a.split)
stuck id m sent v (wakes w before rest a s c e) =
    cc (only_one (waiter id m reaping) w before rest a.split)
stuck id m sent v (pushes w before rest a s e) =
    cc (only_one (waiter id m reaping) w before rest a.split)
stuck id m sent v (reaps w before rest p a s e) = cc

-- A notification that is acknowledged twice, as it is when two introducers are active, can block
-- the agent for good: for every notification and every two acknowledgements of it there is a run
-- of the system, from its start, into a state with no further step.
pub unack_deadlock :
    (id : String) (m first second : Fields)
    → text_at "notification-id" m ≡ some id
    → text_at "type" m ≡ some "Notification"
    → text_at "notification-id" first ≡ some id
    → text_at "type" first ≡ some "NotificationDisplayed"
    → text_at "notification-id" second ≡ some id
    → text_at "type" second ≡ some "NotificationDisplayed"
    → (u : Unack) × Reach init u × IsStuck u
unfolding receive
unack_deadlock id m first second mi mt fi ft si st =
    let noted : Step init (system id m selecting waiting []) = takes m refl (ground arith) in
    let asked : Step (system id m selecting waiting []) (system id m (handing 0) waiting []) =
      takes first refl (ground (arith, eq_iff id id)) in
    let handed : Step (system id m (handing 0) waiting []) (system id m selecting reaping []) =
      hands (waiter id m waiting) [] [] refl (record { split = refl }) refl refl in
    let blocked : Step (system id m selecting reaping []) (system id m (handing 0) reaping []) =
      takes second refl (ground (arith, eq_iff id id)) in
    (
      system id m (handing 0) reaping [],
      then_step (then_step (then_step (then_step here noted) asked) handed) blocked,
      stuck id m [],
    )
