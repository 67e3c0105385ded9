-- ===== src/Mobile/System/Sourced.antt =====
-- What runNotifyMobile of notify_mobile.go sends to Pushover, with all its goroutines.
use pmb.Base.{
  String, ◌≡◌, refl, subst, inl, inr, ◌⊎◌, some, List, [], ◌∷◌, ◌++◌, All, All-map, All-append, Any,
  Any-append_left, Any-append_right, Bool-cases,
}
use pmb.Base.Go.{done, trace, All-must}
use pmb.Json.{Fields, text_at}
use pmb.Mobile.{Act, to_unack, to_pushover, pushes, Levels, push_step, has_id}
use pmb.Mobile.Routing.{IsUrgent}
use pmb.Mobile.Agent.{reaping}
use pmb.Mobile.Agent.Waiters.{
  IsNotification, AllWait, AllWait-at, AllWait-moved, receive-AllWait, alone-AllWait,
}
use pmb.Mobile.System.{System, init, Step, hears, notes, urges, turns, reports, Reach, here, next}
use pmb.Mobile.System.Owed.{IsAwaited, Owed, route-Owed}

abbrev Heard : List Fields → Fields → Type 0
Heard ms m = Any (λ x. x ≡ m) ms

module _ (l : Levels) where
  -- A reason to send a message to Pushover: it is urgent, or a notification that is waited for.
  abbrev pub IsDue : Fields → Type 0
  IsDue m = IsUrgent l m ⊎ (IsNotification m × IsAwaited l m)

  -- What was sent is the text of a message that was heard and is due.
  abbrev pub Justified : List Fields → Act → Type 0
  Justified ms (pushes text) = Any (λ m. (text_at "message" m ≡ some text) × IsDue m) ms
  Justified ms (to_unack m) = ⊥
  Justified ms (to_pushover m) = ⊥

  abbrev Waits : List Fields → Fields → Type 0
  Waits ms m = Heard ms m × IsNotification m × IsAwaited l m

  record IsSourced (u : System) : Type 0 where
    main : All (Owed l (Heard u.heard)) u.main
    waits : AllWait (Waits u.heard) u.unack.waiters
    sent : All (Justified u.heard) u.sent

  Heard-Any : (P : Fields → Type 0) (ms : List Fields) (m : Fields) → Heard ms m → P m → Any P ms
  Heard-Any P (x ∷ ms) m (inl e) p = inl (rw e p)
  Heard-Any P (x ∷ ms) m (inr h) p = inr (Heard-Any P ms m h p)
  Heard-Any P [] m h p = absurd h

  push_step-Justified :
      (ids ids' : List String) (ms : List Fields) (m : Fields) (t : List Act)
      → push_step ids m ≡ done t ids'
      → Heard ms m
      → IsDue m
      → All (Justified ms) t
  unfolding push_step
  push_step-Justified ids ids' ms m t e h d =
      subst (λ g. All (Justified ms) (trace g)) e
        (All-must (Justified ms) (text_at "message" m) _ (λ text x.
          All-must (Justified ms) (text_at "notification-id" m) _ (λ id y.
            elim (Bool-cases (has_id id ids)) [
              | inl g ↦ rw g tt
              | inr g ↦
                  rw g
                    (Heard-Any (λ n. (text_at "message" n ≡ some text) × IsDue n) ms m h (x, d), tt)
            ])))

  later-Owed :
      (ms : List Fields) (n : Fields) (a : Act)
      → Owed l (Heard ms) a
      → Owed l (Heard (ms ++ n ∷ [])) a
  later-Owed ms n (to_unack m) (h, k) = (Any-append_left (λ x. x ≡ m) ms (n ∷ []) h, k)
  later-Owed ms n (to_pushover m) (h, k) = (Any-append_left (λ x. x ≡ m) ms (n ∷ []) h, k)
  later-Owed ms n (pushes text) h = absurd h

  later-Justified :
      (ms : List Fields) (n : Fields) (a : Act) → Justified ms a → Justified (ms ++ n ∷ []) a
  later-Justified ms n (pushes text) h =
      Any-append_left (λ m. (text_at "message" m ≡ some text) × IsDue m) ms (n ∷ []) h
  later-Justified ms n (to_unack m) h = absurd h
  later-Justified ms n (to_pushover m) h = absurd h

  later-Waits : (ms : List Fields) (n m : Fields) → Waits ms m → Waits (ms ++ n ∷ []) m
  later-Waits ms n m (h, k, r) = (Any-append_left (λ x. x ≡ m) ms (n ∷ []) h, k, r)

  init-IsSourced : IsSourced init
  init-IsSourced = record { main = tt; waits = tt; sent = tt }

  Step-IsSourced : {u v : System} → IsSourced u → Step l u v → IsSourced v
  Step-IsSourced {u} s (hears m t n e f) = rw f (record {
    main =
        subst (λ g. All (Owed l (Heard (u.heard ++ m ∷ []))) (trace g)) e
          (route-Owed l (Heard (u.heard ++ m ∷ [])) m
            (Any-append_right (λ x. x ≡ m) u.heard (m ∷ []) (inl refl)));
    waits = All-map (λ w h. later-Waits u.heard m w.message h) u.unack.waiters s.waits;
    sent = All-map (λ a h. later-Justified u.heard m a h) u.sent s.sent;
  })
  Step-IsSourced {u} s (notes m rest a n p e f) =
      let main = subst (λ t. All (Owed l (Heard u.heard)) t) n s.main in
      rw f (record {
        main = main.1;
        waits =
            receive-AllWait (Waits u.heard) u.unack a m e (λ k. (main.0.0, k, main.0.1)) s.waits;
        sent = s.sent;
      })
  Step-IsSourced {u} s (urges m rest t ids n e f) =
      let main = subst (λ t. All (Owed l (Heard u.heard)) t) n s.main in
      rw f (record {
        main = main.1;
        waits = s.waits;
        sent =
            All-append (Justified u.heard) u.sent t s.sent
              (push_step-Justified u.recent ids u.heard m t e main.0.0 (inl main.0.1));
      })
  Step-IsSourced {u} s (turns a g q f) =
      rw f
        (record { main = s.main; waits = alone-AllWait (Waits u.heard) g q s.waits; sent = s.sent })
  Step-IsSourced {u} s (reports w before rest t ids a g e f) =
      let (h, k, r) = AllWait-at (Waits u.heard) w u.unack.waiters before rest a s.waits in
      rw f (record {
        main = s.main;
        waits =
            AllWait-moved (Waits u.heard) w u.unack.waiters before rest a s.waits
              (record w { stage = reaping }) refl;
        sent =
            All-append (Justified u.heard) u.sent t s.sent
              (push_step-Justified u.recent ids u.heard w.message t e h (inr (k, r)));
      })

  Reach-IsSourced : {u : System} → Reach l init u → IsSourced u
  Reach-IsSourced here = init-IsSourced
  Reach-IsSourced (next r s) = Step-IsSourced (Reach-IsSourced r) s

  -- Whatever messages come and however the goroutines take turns: all that was sent to Pushover are texts
  -- of messages that came in, each urgent or a Notification at the level from which acknowledgements are
  -- waited for.
  pub Reach-Justified : {u : System} → Reach l init u → All (Justified u.heard) u.sent
  Reach-Justified r = (Reach-IsSourced r).sent
