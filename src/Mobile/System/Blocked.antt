-- ===== src/Mobile/System/Blocked.antt =====
-- How the loop of runNotifyMobile in notify_mobile.go can come to a stop.
use pmb.Base.{String, ◌≡◌, refl, some, List, [], ◌∷◌, eq_iff, arith}
use pmb.Base.Go.{done}
use pmb.Json.{Fields, text_at}
use pmb.Mobile.{Act, to_unack, to_pushover, pushes, Levels, route, push_step, remember}
use pmb.Mobile.Agent.{
  Phase, Stage, selecting, handing, waiting, pushing, reaping, Unack, find, without, receive,
}
use pmb.Mobile.Agent
use pmb.Mobile.Agent.Deadlock.{system, waiter, stuck}
use pmb.Mobile.System.{System, init, Step, hears, notes, urges, turns, reports, Reach, here, next}

-- No step is left for any of the goroutines, whatever comes in.
abbrev pub IsStuck : Levels → System → Type 0
IsStuck l u = (v : System) → ¬ Step l u v

-- The whole after a notification `m`, with its waiter at this stage, and a loop that has this to send.
abbrev snapshot :
    String
    → Fields
    → Phase
    → Stage
    → List Fields
    → List Act
    → List String
    → List Act
    → List Fields
    → System
snapshot id m phase stage pushed main recent sent heard = record {
  main = main;
  unack = system id m phase stage pushed;
  recent = recent;
  sent = sent;
  heard = heard;
}

snapshot-IsStuck :
    (l : Levels) (id : String) (m urgent : Fields) (pushed : List Fields) (rest : List Act)
    (recent : List String) (sent : List Act) (heard : List Fields)
    → IsStuck l
        (snapshot id m (handing 0) reaping pushed (to_unack urgent ∷ rest) recent sent heard)
snapshot-IsStuck l id m urgent pushed rest recent sent heard v (hears n t e r f) = cc
snapshot-IsStuck l id m urgent pushed rest recent sent heard v (notes n more a e p r f) = cc
snapshot-IsStuck l id m urgent pushed rest recent sent heard v (urges n more t ids e r f) = cc
snapshot-IsStuck l id m urgent pushed rest recent sent heard v (turns a s q f) =
    stuck id m pushed a s
snapshot-IsStuck l id m urgent pushed rest recent sent heard v
      (reports w before more t ids a g e f) =
    stuck id m pushed _ (Agent.pushes w before more a g refl)

push_step-first :
    (id text : String) (m : Fields)
    → text_at "notification-id" m ≡ some id
    → text_at "message" m ≡ some text
    → push_step [] m ≡ done (pushes text ∷ []) (id ∷ [])
unfolding push_step remember
push_step-first id text m i t = rw (t, i) refl

-- One late acknowledgement can silence the program: for a notification that the loop sends to unackAgent,
-- an acknowledgement of it, and any other notification that is urgent, there is a run, from the start,
-- into a state in which no goroutine can go on, whatever comes in, while the urgent notification is still
-- to be sent to Pushover. In this run the acknowledgement comes when the waiter's five seconds are over.
pub late_silence :
    (l : Levels) (id text : String) (m ack urgent : Fields)
    → text_at "notification-id" m ≡ some id
    → text_at "type" m ≡ some "Notification"
    → text_at "message" m ≡ some text
    → text_at "notification-id" ack ≡ some id
    → text_at "type" ack ≡ some "NotificationDisplayed"
    → route l m ≡ done (to_unack m ∷ []) tt
    → route l ack ≡ done (to_unack ack ∷ []) tt
    → route l urgent ≡ done (to_unack urgent ∷ to_pushover urgent ∷ []) tt
    → (u : System) × Reach l init u
      × IsStuck l u
      × (u.sent ≡ pushes text ∷ [])
      × (u.main ≡ to_unack urgent ∷ to_pushover urgent ∷ [])
unfolding receive
late_silence l id text m ack urgent mi mt mm ai at rm ra ru =
    let u1 : System = record init { main = to_unack m ∷ []; heard = m ∷ [] } in
    let u2 = snapshot id m selecting waiting [] [] [] [] (m ∷ []) in
    let u3 = snapshot id m selecting pushing [] [] [] [] (m ∷ []) in
    let u4 = snapshot id m selecting pushing [] (to_unack ack ∷ []) [] [] (m ∷ ack ∷ []) in
    let u5 = snapshot id m (handing 0) pushing [] [] [] [] (m ∷ ack ∷ []) in
    let u6 =
      snapshot id m (handing 0) reaping (m ∷ []) [] (id ∷ []) (pushes text ∷ []) (m ∷ ack ∷ []) in
    let u7 =
      snapshot id m (handing 0) reaping (m ∷ []) (to_unack urgent ∷ to_pushover urgent ∷ [])
        (id ∷ []) (pushes text ∷ []) (m ∷ ack ∷ urgent ∷ []) in
    let s1 : Step l init u1 = hears m (to_unack m ∷ []) refl rm refl in
    let s2 : Step l u1 u2 = notes m [] u2.unack refl refl (ground arith) refl in
    let s3 : Step l u2 u3 =
      turns u3.unack (Agent.expires (waiter id m waiting) [] [] (record { split = refl }) refl refl)
        refl refl in
    let s4 : Step l u3 u4 = hears ack (to_unack ack ∷ []) refl ra refl in
    let s5 : Step l u4 u5 = notes ack [] u5.unack refl refl (ground (arith, eq_iff id id)) refl in
    let s6 : Step l u5 u6 =
      reports (waiter id m pushing) [] [] (pushes text ∷ []) (id ∷ []) (record { split = refl })
        refl (push_step-first id text m mi mm) refl in
    let s7 : Step l u6 u7 = hears urgent (to_unack urgent ∷ to_pushover urgent ∷ []) refl ru refl in
    (
      u7,
      next (next (next (next (next (next (next here s1) s2) s3) s4) s5) s6) s7,
      snapshot-IsStuck l id m urgent (m ∷ []) (to_pushover urgent ∷ []) (id ∷ []) (pushes text ∷ [])
          (m ∷ ack ∷ urgent ∷ []),
      refl,
      refl,
    )
