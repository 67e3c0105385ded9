-- ===== src/Mobile/System/Examples.antt =====
-- runNotifyMobile with its goroutines at concrete inputs.
use pmb.Base.{ℕ, String, ◌≡◌, refl, false, [], ◌∷◌, All}
use pmb.Base.Float.{whole, ge}
use pmb.Json.{Fields, str, num, bool, end, field, get}
use pmb.Mobile.{
  to_unack, to_pushover, pushes, Levels, on_notification, on_displayed, route, push_step, remember,
}
use pmb.Mobile.System.{System, init, Step, hears, urges, Reach, here, next}
use pmb.Mobile.System.Sourced.{Justified, Reach-Justified}
use pmb.Mobile.System.Blocked.{IsStuck, late_silence}

abbrev levels : Levels
levels = record { always = whole 4; unacknowledged = whole 2; unseen = whole 2 }

-- A message of a type about a notification.
abbrev about : String → String → ℕ → Fields
about type id level = field "type" (str type) (
    field "notification-id" (str id) (
      field "message" (str "text")
        (field "level" (num (whole level)) (field "screenSaverOn" (bool false) end))))

late_silence_example :
    (u : System) × Reach levels init u
    × IsStuck levels u
    × (u.sent ≡ pushes "text" ∷ [])
    × (u.main
        ≡ to_unack (about "Notification" "n2" 4) ∷ to_pushover (about "Notification" "n2" 4) ∷ [])
unfolding get route on_notification on_displayed ge whole
late_silence_example =
    late_silence levels "n1" "text" (about "Notification" "n1" 2)
      (about "NotificationDisplayed" "n1" 2) (about "Notification" "n2" 4) refl refl refl refl refl
      refl refl refl

-- All urgent notifications go to Pushover, and none is waited for.
abbrev impatient : Levels
impatient = record { always = whole 3; unacknowledged = whole 5; unseen = whole 5 }

abbrev told : System
told = record init {
  sent = pushes "text" ∷ [];
  recent = "n1" ∷ [];
  heard = about "Notification" "n1" 4 ∷ [];
}

told-Reach : Reach impatient init told
unfolding get route on_notification push_step remember ge whole
told-Reach =
    let m = about "Notification" "n1" 4 in
    let telling : System = record init { main = to_pushover m ∷ []; heard = m ∷ [] } in
    let first : Step impatient init telling = hears m (to_pushover m ∷ []) refl refl refl in
    let second : Step impatient telling told =
      urges m [] (pushes "text" ∷ []) ("n1" ∷ []) refl refl refl in
    next (next here first) second

Reach-Justified_example : All (Justified impatient told.heard) told.sent
Reach-Justified_example = Reach-Justified impatient told-Reach
