-- ===== src/Mobile/System/Owed.antt =====
-- What the loop of runNotifyMobile in notify_mobile.go sends on for a message.
use pmb.Base.{◌≡◌, refl, ap, ◌∙◌, inl, inr, Bool, true, false, some, All, ◌==◌, eq_iff, Bool-cases}
use pmb.Base.Go.{◌>>=◌, Go, trace, All-trace, All-must}
use pmb.Base.Float.{Float64, ge}
use pmb.Json.{Fields, get, text_at, as_num, as_bool}
use pmb.Mobile.{
  Act, to_unack, to_pushover, pushes, when, Levels, on_notification, on_displayed, route,
}
use pmb.Mobile.Routing.{IsUrgent}

alone-All : (P : Act → Type 0) (b : Bool) (a : Act) → (b ≡ true → P a) → All P (trace (when b a))
alone-All P true a h = (h refl, tt)
alone-All P false a h = tt

module _ {B : Type 0} (P : Act → Type 0) where
  when-All :
      (b : Bool) (a : Act) (f : Unit {0} → Go Act B)
      → (b ≡ true → P a)
      → ((u : Unit {0}) → All P (trace (f u)))
      → All P (trace (when b a >>= f))
  when-All b a f h k = All-trace P (when b a) f (alone-All P b a h) (λ t u e. k u)

module _ (l : Levels) where
  -- A message at the level from which acknowledgements are waited for.
  abbrev pub IsAwaited : Fields → Type 0
  IsAwaited m = (x : Float64) × (as_num (get "level" m) ≡ some x) × (ge x l.unacknowledged ≡ true)

  -- What the loop sends on, for a message that satisfies `P`.
  abbrev pub Owed : (Fields → Type 0) → Act → Type 0
  Owed P (to_unack m) = P m × IsAwaited m
  Owed P (to_pushover m) = P m × IsUrgent l m
  Owed P (pushes text) = ⊥

  module _ (P : Fields → Type 0) (m : Fields) (p : P m) where
    on_notification-Owed :
        text_at "type" m ≡ some "Notification" → All (Owed P) (trace (on_notification l m))
    unfolding on_notification
    on_notification-Owed t =
        All-must (Owed P) (as_num (get "level" m))
          (λ x.
            when (ge x l.unacknowledged) (to_unack m) >>= λ _. when (ge x l.always) (to_pushover m))
          (λ x e.
            when-All (Owed P) (ge x l.unacknowledged) (to_unack m)
              (λ _. when (ge x l.always) (to_pushover m)) (λ g. (p, (x, e, g)))
              (λ _.
                alone-All (Owed P) (ge x l.always) (to_pushover m) (λ g. (p, (x, e, inl (t, g))))))

    on_displayed-Owed :
        text_at "type" m ≡ some "NotificationDisplayed" → All (Owed P) (trace (on_displayed l m))
    unfolding on_displayed
    on_displayed-Owed t = All-must (Owed P) (as_num (get "level" m)) _ (λ x e.
        when-All (Owed P) (ge x l.unacknowledged) (to_unack m) _ (λ g. (p, (x, e, g)))
          (λ _. All-must (Owed P) (as_bool (get "screenSaverOn" m)) _ (λ on s.
            elim (Bool-cases (ge x l.unseen)) [
              | inl g ↦ rw g (
                  alone-All (Owed P) on (to_pushover m)
                    (λ q. (p, (x, e, inr (t, s ∙ ap some q, g)))))
              | inr g ↦ rw g tt
            ])))

    pub route-Owed : All (Owed P) (trace (route l m))
    unfolding route
    route-Owed = All-must (Owed P) (text_at "type" m) _ (λ t e.
        elim (Bool-cases (t == "Notification")) [
          | inl n ↦ rw n (on_notification-Owed (e ∙ ap some ((eq_iff t "Notification").0 n)))
          | inr n ↦ elim (Bool-cases (t == "NotificationDisplayed")) [
            | inl d ↦
                rw (n, d) (on_displayed-Owed (e ∙ ap some ((eq_iff t "NotificationDisplayed").0 d)))
            | inr d ↦ rw (n, d) tt
          ]
        ])
