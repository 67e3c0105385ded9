-- ===== src/Mobile/Agent/Late.antt =====
-- unackAgent in notify_mobile.go, when one acknowledgement comes late.
use pmb.Base.{String, ◌≡◌, refl, some, [], ◌∷◌, eq_iff, arith}
use pmb.Json.{Fields, text_at}
use pmb.Mobile.Agent.{
  selecting, handing, waiting, pushing, reaping, Unack, init, receive, Step, takes, expires, pushes,
  Reach, here, then_step, IsStuck,
}
use pmb.Mobile.Agent.Deadlock.{system, waiter, stuck}

-- One notification and one acknowledgement of it can block the agent for good: there is a run of the
-- system, from its start, in which the five seconds of the waiter are over just before the
-- acknowledgement comes, so that the agent hands it to a waiter that is no longer at its select, and
-- the waiter, once the notification went to Pushover, waits for the agent.
pub late_deadlock :
    (id : String) (m ack : Fields)
    → text_at "notification-id" m ≡ some id
    → text_at "type" m ≡ some "Notification"
    → text_at "notification-id" ack ≡ some id
    → text_at "type" ack ≡ some "NotificationDisplayed"
    → (u : Unack) × Reach init u × IsStuck u × (u.pushed ≡ m ∷ [])
unfolding receive
late_deadlock id m ack mi mt ai at =
    let noted : Step init (system id m selecting waiting []) = takes m refl (ground arith) in
    let timed : Step (system id m selecting waiting []) (system id m selecting pushing []) =
      expires (waiter id m waiting) [] [] (record { split = refl }) refl refl in
    let asked : Step (system id m selecting pushing []) (system id m (handing 0) pushing []) =
      takes ack refl (ground (arith, eq_iff id id)) in
    let pushed : Step (system id m (handing 0) pushing [])
        (system id m (handing 0) reaping (m ∷ [])) =
      pushes (waiter id m pushing) [] [] (record { split = refl }) refl refl in
    (
      system id m (handing 0) reaping (m ∷ []),
      then_step (then_step (then_step (then_step here noted) timed) asked) pushed,
      stuck id m (m ∷ []),
      refl,
    )
