-- ===== src/Mobile/Agent/Safe.antt =====
-- unackAgent and its waiters in notify_mobile.go, whatever messages come and however they take turns.
use mathlib.Core.Option.{some-injective}
use pmb.Base.{
  ℕ, suc, ◌<◌, String, ◌≡◌, refl, sym, ap, subst, ◌∙◌, inl, inr, ◌≢◌, true, false, Option, none,
  some, List, [], ◌∷◌, ◌++◌, All, All-append, eq_iff, ◌==◌, Bool-cases, Option-cases, nat_eq, arith,
}
use pmb.Json.{Fields, text_at}
use pmb.Mobile.Agent.Waiters.{IsNotification, AllWait, AllWait-at, AllWait-without, AllWait-moved}
use pmb.Mobile.Agent.Table.{find-without-some, find-renewed, taken}
use pmb.Mobile.Agent.{
  Phase, selecting, handing, waiting, pushing, reaping, Waiter, Unack, init, find, without, receive,
  reap, contains, Step, takes, hands, expires, wakes, pushes, reaps, Reach, here, then_step,
}

-- The channels in the agent's map are open, one for each id, and so is the channel that it is handing
-- on; numbers from `next` on are not used; and all that waits or was pushed is a Notification.
pub record IsSafe (u : Unack) : Type 0 where
  pub bound : (i : String) (n : ℕ) → find i u.table ≡ some n → n < u.next
  pub own : (i j : String) (n : ℕ) → find i u.table ≡ some n → find j u.table ≡ some n → i ≡ j
  pub closed_bound : (n : ℕ) → contains n u.closed ≡ true → n < u.next
  pub is_open : (i : String) (n : ℕ) → find i u.table ≡ some n → contains n u.closed ≡ false
  pub handed : (n : ℕ) → u.phase ≡ handing n → contains n u.closed ≡ false
  pub waits : All (λ w. IsNotification w.message) u.waiters
  pub sent : All IsNotification u.pushed

init-IsSafe : IsSafe init
unfolding find
init-IsSafe = record {
  bound = λ i n h. cc;
  own = λ i j n h k. cc;
  closed_bound = λ n h. cc;
  is_open = λ i n h. cc;
  handed = λ n h. cc;
  waits = tt;
  sent = tt;
}

phase-apart : (n : ℕ) → selecting ≢ handing n
phase-apart n h = cc

handing-injective : (n k : ℕ) → handing n ≡ handing k → n ≡ k
handing-injective n k h = cc

-- The waiters and what was pushed after a waiter's step.
with_waiters :
    (u : Unack) (p : Phase) (ws : List Waiter) (pushed : List Fields)
    → IsSafe u
    → ((n : ℕ) → p ≡ handing n → contains n u.closed ≡ false)
    → All (λ w. IsNotification w.message) ws
    → All IsNotification pushed
    → IsSafe (record u { phase = p; waiters = ws; pushed = pushed })
with_waiters u p ws pushed s h w k = record {
  bound = s.bound;
  own = s.own;
  closed_bound = s.closed_bound;
  is_open = s.is_open;
  handed = h;
  waits = w;
  sent = k;
}

-- `case message := <-in` of a Notification.
noted :
    (u : Unack) (id : String) (m : Fields)
    → IsSafe u
    → IsNotification m
    → u.phase ≡ selecting
    → IsSafe (record u {
      table = (id, u.next) ∷ without id u.table;
      waiters = record { channel = u.next; id = id; message = m; stage = waiting } ∷ u.waiters;
      next = suc u.next;
    })
noted u id m s h p = record {
  bound = λ i n e. elim (find-renewed id i u.table u.next n e) [
    | inl q ↦ omega (arith, q.0)
    | inr q ↦ omega (arith, s.bound i n q)
  ];
  own = λ i j n e f. elim (find-renewed id i u.table u.next n e) [
    | inl q ↦ elim (find-renewed id j u.table u.next n f) [
      | inl r ↦ sym q.1 ∙ r.1
      | inr r ↦ absurd (omega (arith, q.0, s.bound j n r))
    ]
    | inr q ↦ elim (find-renewed id j u.table u.next n f) [
      | inl r ↦ absurd (omega (arith, r.0, s.bound i n q))
      | inr r ↦ s.own i j n q r
    ]
  ];
  closed_bound = λ n e. omega (arith, s.closed_bound n e);
  is_open = λ i n e. elim (find-renewed id i u.table u.next n e) [
    | inl q ↦ elim (Bool-cases (contains n u.closed)) [
      | inl c ↦ absurd (omega (arith, q.0, s.closed_bound n c))
      | inr c ↦ c
    ]
    | inr q ↦ s.is_open i n q
  ];
  handed = λ n e. absurd (phase-apart n (sym p ∙ e));
  waits = (h, s.waits);
  sent = s.sent;
}

handing-IsSafe :
    (u : Unack) (id : String) (n : ℕ)
    → IsSafe u
    → find id u.table ≡ some n
    → IsSafe (record u { phase = handing n })
handing-IsSafe u id n s e =
    with_waiters u (handing n) u.waiters u.pushed s
      (λ k h. subst (λ x. contains x u.closed ≡ false) (handing-injective n k h) (s.is_open id n e))
      s.waits s.sent

displayed-IsSafe :
    (u v : Unack) (id : String) (o : Option ℕ)
    → IsSafe u
    → find id u.table ≡ o
    → elim o [ none ↦ some u | some n ↦ some (record u { phase = handing n }) ] ≡ some v
    → IsSafe v
displayed-IsSafe u v id none s e h = subst (λ x. IsSafe x) (some-injective u v h) s
displayed-IsSafe u v id (some n) s e h =
    subst (λ x. IsSafe x) (some-injective (record u { phase = handing n }) v h)
      (handing-IsSafe u id n s e)

receive-IsSafe :
    (u v : Unack) (m : Fields) → IsSafe u → u.phase ≡ selecting → receive m u ≡ some v → IsSafe v
unfolding receive
receive-IsSafe u v m s p e = elim (Option-cases (text_at "notification-id" m)) [
  | inl a ↦ absurd (ground (arith, e))
  | inr (id, a) ↦ elim (Option-cases (text_at "type" m)) [
    | inl b ↦ absurd (ground (arith, e))
    | inr (type, b) ↦ elim (Bool-cases (type == "NotificationDisplayed")) [
      | inl d ↦ displayed-IsSafe u v id (find id u.table) s refl (rw (receive, a, b, d) at e)
      | inr d ↦ elim (Bool-cases (type == "Notification")) [
        | inl f ↦
            subst (λ x. IsSafe x) (some-injective _ v (rw (receive, a, b, d, f) at e))
              (noted u id m s (b ∙ ap some ((eq_iff type "Notification").0 f)) p)
        | inr f ↦ subst (λ x. IsSafe x) (some-injective u v (rw (receive, a, b, d, f) at e)) s
      ]
    ]
  ]
]

reap-IsSafe :
    (u : Unack) (id : String) (ws : List Waiter)
    → IsSafe u
    → u.phase ≡ selecting
    → AllWait IsNotification ws
    → IsSafe (reap id (record u { waiters = ws }))
unfolding reap
reap-IsSafe u id ws s p h = elim (Option-cases (find id u.table)) [
  | inl e ↦ rw (reap, e) (with_waiters u u.phase ws u.pushed s s.handed h s.sent)
  | inr (n, e) ↦
      rw (reap, e)
        record {
          bound = λ i k f. s.bound i k (find-without-some id i u.table k f).0;
          own = λ i j k f g.
              s.own i j k (find-without-some id i u.table k f).0
                (find-without-some id j u.table k g).0;
          closed_bound = λ k f. ground (arith, s.bound id n e, s.closed_bound k);
          is_open = λ i k f. elim (Bool-cases (nat_eq n k)) [
            | inl q ↦ absurd (
                taken id i (find-without-some id i u.table k f).1 (
                  s.own id i k (e ∙ ap some (ground (arith, q)))
                    (find-without-some id i u.table k f).0))
            | inr q ↦ rw q (s.is_open i k (find-without-some id i u.table k f).0)
          ];
          handed = λ k f. absurd (phase-apart k (sym p ∙ f));
          waits = h;
          sent = s.sent;
        }
]

Step-IsSafe : {u v : Unack} → IsSafe u → Step u v → IsSafe v
Step-IsSafe {u} {v} s (takes m p e) = receive-IsSafe u v m s p e
Step-IsSafe {u} s (hands w before rest p a g e) = rw e (
    with_waiters u selecting _ u.pushed s (λ n h. cc)
      (AllWait-moved IsNotification w u.waiters before rest a s.waits (record w { stage = reaping })
        refl)
      s.sent)
Step-IsSafe {u} s (expires w before rest a g e) = rw e (
    with_waiters u u.phase _ u.pushed s s.handed
      (AllWait-moved IsNotification w u.waiters before rest a s.waits (record w { stage = pushing })
        refl)
      s.sent)
Step-IsSafe {u} s (wakes w before rest a g c e) = rw e (
    with_waiters u u.phase _ u.pushed s s.handed
      (AllWait-moved IsNotification w u.waiters before rest a s.waits (record w { stage = reaping })
        refl)
      s.sent)
Step-IsSafe {u} s (pushes w before rest a g e) = rw e (
    with_waiters u u.phase _ (u.pushed ++ w.message ∷ []) s s.handed
      (AllWait-moved IsNotification w u.waiters before rest a s.waits (record w { stage = reaping })
        refl)
      (All-append (λ m. IsNotification m) u.pushed (w.message ∷ []) s.sent
        (AllWait-at IsNotification w u.waiters before rest a s.waits, tt)))
Step-IsSafe {u} s (reaps w before rest p a g e) = rw e (
    reap-IsSafe u w.id (before ++ rest) s p
      (AllWait-without IsNotification w u.waiters before rest a s.waits))

-- Whatever messages come and however the agent and its waiters take turns: the agent never closes a
-- channel that is closed and never sends on one, each notification id of its map has a channel of its
-- own, and all that the waiters have sent to Pushover are Notifications.
pub Reach-IsSafe : {u : Unack} → Reach init u → IsSafe u
Reach-IsSafe here = init-IsSafe
Reach-IsSafe (then_step r s) = Step-IsSafe (Reach-IsSafe r) s
