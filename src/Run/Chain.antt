-- ===== src/Run/Chain.antt =====
-- One run of run.go that waits for the trigger of another.
use pmb.Base.Float.{whole}
use pmb.Base.{
  eq_refl, ◌||◌, ◌<>◌, String, ◌≡◌, refl, ◌∙◌, ap, Bool, true, false, some, List, [], ◌∷◌, ◌==◌,
  is_set, if◌then◌else◌,
}
use pmb.Base.Go.{after-nil, Go, done, fails, rescue, ◌>>=◌}
use pmb.Json.{get-put, Fields, bool, get}
use pmb.Wire.{Host, tag}
use pmb.Client.{Effect, Event, incoming, Connection, send_notification}
use pmb.Run.{Options, Call, is_trigger, await_trigger, check_success, gate, trigger}

tag-other :
    (h : Host) (now id k : String) (m : Fields)
    → (("id" == k) ≡ false)
      × (("hostname" == k) ≡ false)
      × (("ip" == k) ≡ false)
      × (("sent" == k) ≡ false)
    → get k (tag h now id m) ≡ get k m
unfolding tag
tag-other h now id k m (a, b, c, d) = simp (get-put, a, b, c, d)

verdict :
    (always success : Bool) (m : Fields)
    → get "success" m ≡ some (bool success)
    → check_success always m
      ≡ (if always || success then done [] tt else fails [] "Previous command failed, not running.")
unfolding check_success
verdict true success m e = refl
verdict false true m e = rw e
verdict false false m e = rw e

-- How a run that waits for a trigger meets the trigger of another run, tagged by whoever sends it: it
-- announces it, whatever comes of that, and then goes on to its command if the other run ended with
-- success or if it is to run after failures too; else it fails. What comes behind does not matter.
pub gate-trigger :
    (o : Options) (conn : Connection) (call : Call) (success : Bool) (h : Host) (now id : String)
    (es : List Event)
    → is_set o.wait_trigger ≡ true
    → gate o conn (incoming (tag h now id (trigger o.wait_trigger success)) ∷ es) call ≡ (
        rescue (
          send_notification call.notification_id conn
            (record { message = "Received trigger " <> o.wait_trigger; url = ""; level = whole 3 })
            call.events)
        >>= λ ignored.
            if o.trigger_always || success
            then done [] tt
            else fails [] "Previous command failed, not running.")
unfolding gate await_trigger is_trigger get
gate-trigger o conn call success h now id es w =
    let m = tag h now id (trigger o.wait_trigger success) in
    let announced = rescue (
      send_notification call.notification_id conn
        (record { message = "Received trigger " <> o.wait_trigger; url = ""; level = whole 3 })
        call.events) in
    let t : get "type" m ≡ _ = tag-other h now id "type" _ (refl, refl, refl, refl) in
    let f : get "from" m ≡ _ = tag-other h now id "from" _ (refl, refl, refl, refl) in
    let n : get "trigger" m ≡ _ = tag-other h now id "trigger" _ (refl, refl, refl, refl) in
    let s : get "success" m ≡ _ = tag-other h now id "success" _ (refl, refl, refl, refl) in
    rw (w, t, f, n, eq_refl o.wait_trigger)
      (after-nil _
        ∙ ap (λ (r : Go Effect Unit). announced >>= λ ignored. r)
            (verdict o.trigger_always success m s))
