-- ===== src/Mobile/Agent/Waiters.antt =====
-- The waiters of unackAgent in notify_mobile.go, and what holds of all their messages.
use mathlib.Core.Option.{some-injective}
use pmb.Base.{
  String, ◌≡◌, refl, sym, subst, ap, ◌∙◌, inl, inr, true, Option, none, some, ℕ, List, [], ◌∷◌,
  ◌++◌, All, All-append, ◌==◌, eq_iff, Bool-cases, Option-cases, arith,
}
use pmb.Json.{Fields, text_at}
use pmb.Mobile.Agent.{
  handing, pushing, reaping, Waiter, Unack, find, receive, reap, At, Step, takes, hands, expires,
  wakes, pushes, reaps, is_alone,
}

abbrev pub IsNotification : Fields → Type 0
IsNotification m = text_at "type" m ≡ some "Notification"

module _ (P : Fields → Type 0) where
  abbrev pub AllWait : List Waiter → Type 0
  AllWait ws = All (λ w. P w.message) ws

  All-split :
      (before rest : List Waiter) (w : Waiter)
      → AllWait (before ++ w ∷ rest)
      → AllWait before × P w.message × AllWait rest
  All-split [] rest w h = (tt, h.0, h.1)
  All-split (x ∷ before) rest w h = let (b, p, k) = All-split before rest w h.1 in ((h.0, b), p, k)

  module _ (w : Waiter) (ws before rest : List Waiter) (a : At w ws before rest)
      (h : AllWait ws) where
    parts : AllWait before × P w.message × AllWait rest
    parts = All-split before rest w (subst (λ ws. AllWait ws) a.split h)

    pub AllWait-at : P w.message
    AllWait-at = parts.1

    pub AllWait-without : AllWait (before ++ rest)
    AllWait-without = All-append (λ w. P w.message) before rest parts.0 parts.2

    -- A waiter stays in its place.
    pub AllWait-moved : (x : Waiter) → x.message ≡ w.message → AllWait (before ++ x ∷ rest)
    AllWait-moved x e =
        All-append (λ w. P w.message) before (x ∷ rest) parts.0 (subst P (sym e) parts.1, parts.2)

  displayed-AllWait :
      (u v : Unack) (o : Option ℕ)
      → AllWait u.waiters
      → elim o [ none ↦ some u | some n ↦ some (record u { phase = handing n }) ] ≡ some v
      → AllWait v.waiters
  displayed-AllWait u v none s h = subst (λ x. AllWait x.waiters) (some-injective u v h) s
  displayed-AllWait u v (some n) s h =
      subst (λ x. AllWait x.waiters) (some-injective (record u { phase = handing n }) v h) s

  pub receive-AllWait :
      (u v : Unack) (m : Fields)
      → receive m u ≡ some v
      → (IsNotification m → P m)
      → AllWait u.waiters
      → AllWait v.waiters
  unfolding receive
  receive-AllWait u v m e q s = elim (Option-cases (text_at "notification-id" m)) [
    | inl a ↦ absurd (ground (arith, e))
    | inr (id, a) ↦ elim (Option-cases (text_at "type" m)) [
      | inl b ↦ absurd (ground (arith, e))
      | inr (type, b) ↦ elim (Bool-cases (type == "NotificationDisplayed")) [
        | inl d ↦ displayed-AllWait u v (find id u.table) s (rw (receive, a, b, d) at e)
        | inr d ↦ elim (Bool-cases (type == "Notification")) [
          | inl f ↦
              subst (λ x. AllWait x.waiters) (some-injective _ v (rw (receive, a, b, d, f) at e))
                (q (b ∙ ap some ((eq_iff type "Notification").0 f)), s)
          | inr f ↦
              subst (λ x. AllWait x.waiters) (some-injective u v (rw (receive, a, b, d, f) at e)) s
        ]
      ]
    ]
  ]

  reap-AllWait : (id : String) (u : Unack) → AllWait u.waiters → AllWait (reap id u).waiters
  unfolding reap
  reap-AllWait id u s = elim (Option-cases (find id u.table)) [
    | inl e ↦ rw (reap, e) s
    | inr (n, e) ↦ rw (reap, e) s
  ]

  pub alone-AllWait :
      {u v : Unack} (s : Step u v) → is_alone s ≡ true → AllWait u.waiters → AllWait v.waiters
  alone-AllWait (takes m p e) q h = cc
  alone-AllWait {u} (hands w before rest p a g e) q h =
      rw e (AllWait-moved w u.waiters before rest a h (record w { stage = reaping }) refl)
  alone-AllWait {u} (expires w before rest a g e) q h =
      rw e (AllWait-moved w u.waiters before rest a h (record w { stage = pushing }) refl)
  alone-AllWait {u} (wakes w before rest a g c e) q h =
      rw e (AllWait-moved w u.waiters before rest a h (record w { stage = reaping }) refl)
  alone-AllWait (pushes w before rest a g e) q h = cc
  alone-AllWait {u} (reaps w before rest p a g e) q h = rw e (
      reap-AllWait w.id (record u { waiters = before ++ rest })
        (AllWait-without w u.waiters before rest a h))
