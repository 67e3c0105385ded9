-- ===== src/Mobile/Routing.antt =====
-- Which messages runNotifyMobile of notify_mobile.go passes to Pushover at once.
use pmb.Base.{
  ◌≡◌, ◌↔◌, refl, ◌∙◌, ap, inl, inr, ◌⊎◌, Bool, true, false, Option, none, some, List, [], Any,
  ◌==◌, eq_iff, Bool-cases, if◌then◌else◌,
}
use pmb.Base.Go.{Go, done, trace, must, ◌>>=◌, Any-trace, Any-must}
use pmb.Base.Float.{Float64, ge}
use pmb.Json.{Fields, get, text_at, as_num, as_bool}
use pmb.Mobile.{Act, to_unack, to_pushover, when, Levels, on_notification, on_displayed, route}

-- A notification at the level that is always sent on, or one that was displayed under a screen
-- saver at the level of the unseen.
abbrev pub IsUrgent : Levels → Fields → Type 0
IsUrgent l m =
    (level : Float64) × (as_num (get "level" m) ≡ some level)
    × (((text_at "type" m ≡ some "Notification") × (ge level l.always ≡ true))
        ⊎ ((text_at "type" m ≡ some "NotificationDisplayed")
            × (as_bool (get "screenSaverOn" m) ≡ some true)
            × (ge level l.unseen ≡ true)))

abbrev pub Forwards : Fields → List Act → Type 0
Forwards m t = Any (λ a. a ≡ to_pushover m) t

IsUrgent-Forwards : (l : Levels) (m : Fields) → IsUrgent l m → Forwards m (trace (route l m))
unfolding route
IsUrgent-Forwards l m (level, e, inl (t, g)) = elim (Bool-cases (ge level l.unacknowledged)) [
  | inl u ↦ rw (t, e, u, g) (inr (inl refl))
  | inr u ↦ rw (t, e, u, g) (inl refl)
]
IsUrgent-Forwards l m (level, e, inr (t, s, g)) = elim (Bool-cases (ge level l.unacknowledged)) [
  | inl u ↦ rw (t, e, u, s, g) (inr (inl refl))
  | inr u ↦ rw (t, e, u, s, g) (inl refl)
]

no_unack : (m : Fields) (b : Bool) → ¬ Forwards m (trace (when b (to_unack m)))
no_unack m true (inl e) = cc
no_unack m true (inr e) = e
no_unack m false e = e

when-Forwards : (m : Fields) (b : Bool) → Forwards m (trace (when b (to_pushover m))) → b ≡ true
when-Forwards m true h = refl
when-Forwards m false h = absurd h

when-must :
    (m : Fields) (o : Option Bool) (g : Bool)
    → Forwards m (trace (must o >>= λ on. if g then when on (to_pushover m) else done [] tt))
    → (o ≡ some true) × (g ≡ true)
when-must m none g h = absurd h
when-must m (some on) true h =
    let (b, e, k) = Any-must (λ a. a ≡ to_pushover m) (some on) (λ on. when on (to_pushover m)) h in
    (e ∙ ap some (when-Forwards m b k), refl)
when-must m (some on) false h = absurd h

on_notification-Forwards :
    (l : Levels) (m : Fields)
    → Forwards m (trace (on_notification l m))
    → (x : Float64) × (as_num (get "level" m) ≡ some x) × (ge x l.always ≡ true)
unfolding on_notification
on_notification-Forwards l m h =
    let push = λ (x : Float64). when (ge x l.always) (to_pushover m) in
    let (x, e, k) =
      Any-must (λ a. a ≡ to_pushover m) (as_num (get "level" m))
        (λ x. when (ge x l.unacknowledged) (to_unack m) >>= λ _. push x) h in
    elim (Any-trace (λ a. a ≡ to_pushover m) (when (ge x l.unacknowledged) (to_unack m))
      (λ _. push x) k) [
        | inl n ↦ absurd (no_unack m (ge x l.unacknowledged) n)
        | inr (u, a, s, n) ↦ (x, e, when-Forwards m (ge x l.always) n)
      ]

on_displayed-Forwards :
    (l : Levels) (m : Fields)
    → Forwards m (trace (on_displayed l m))
    → (x : Float64) × (as_num (get "level" m) ≡ some x)
      × (as_bool (get "screenSaverOn" m) ≡ some true)
      × (ge x l.unseen ≡ true)
unfolding on_displayed
on_displayed-Forwards l m h =
    let saver = as_bool (get "screenSaverOn" m) in
    let push : Float64 → Go Act Unit =
      λ x. must saver >>= λ on. if ge x l.unseen then when on (to_pushover m) else done [] tt in
    let (x, e, k) =
      Any-must (λ a. a ≡ to_pushover m) (as_num (get "level" m))
        (λ x. when (ge x l.unacknowledged) (to_unack m) >>= λ _. push x) h in
    elim (Any-trace (λ a. a ≡ to_pushover m) (when (ge x l.unacknowledged) (to_unack m))
      (λ _. push x) k) [
        | inl n ↦ absurd (no_unack m (ge x l.unacknowledged) n)
        | inr (u, a, s, n) ↦ let (on, g) = when-must m saver (ge x l.unseen) n in (x, e, on, g)
      ]

Forwards-IsUrgent : (l : Levels) (m : Fields) → Forwards m (trace (route l m)) → IsUrgent l m
unfolding route
Forwards-IsUrgent l m h =
    let (t, e, k) =
      Any-must (λ a. a ≡ to_pushover m) (text_at "type" m)
        (λ t.
          if t == "Notification"
          then on_notification l m
          else if t == "NotificationDisplayed"
          then on_displayed l m
          else done [] tt)
        h in
    elim (Bool-cases (t == "Notification")) [
      | inl n ↦
          let (x, g, a) = on_notification-Forwards l m (rw n at k) in
          (x, g, inl (e ∙ ap some ((eq_iff t "Notification").0 n), a))
      | inr n ↦ elim (Bool-cases (t == "NotificationDisplayed")) [
        | inl d ↦
            let (x, g, s, a) = on_displayed-Forwards l m (rw (n, d) at k) in
            (x, g, inr (e ∙ ap some ((eq_iff t "NotificationDisplayed").0 d), s, a))
        | inr d ↦ absurd (rw (n, d) at k)
      ]
    ]

-- A message goes to Pushover at once exactly if it is urgent in this sense.
pub route_iff : (l : Levels) (m : Fields) → Forwards m (trace (route l m)) ↔ IsUrgent l m
route_iff l m = (Forwards-IsUrgent l m, IsUrgent-Forwards l m)
