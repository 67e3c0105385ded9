-- ===== src/Run/Gate.antt =====
-- When run.go starts the command.
use pmb.Base.{
  subst, String, ◌≡◌, refl, ap, ◌⊎◌, inl, inr, Bool, true, false, Option, some, List, [], ◌∷◌, All,
  Any, eq_iff, is_set, Option-cases, Bool-cases, if◌then◌else◌, arith,
}
use pmb.Base.Go.{done, rescue, trace, >>=-eq-done, All-trace, Any-trace, trace-after, trace-rescue}
use pmb.Json.{Fields, bool, get, text_at, as_bool, as_bool_lem}
use pmb.Client.{
  Effect, sends, stores, runs, Event, timeout, incoming, Connection, send_notification, await,
}
use pmb.Connect.Secrecy.{await-silent}
use pmb.Client.{Notification}
use pmb.Run.{Options, Call, is_trigger, await_trigger, check_success, gate, run_run}

-- A message of another run that triggers this name.
pub record IsTrigger (name : String) (m : Fields) : Type 0 where
  pub type : text_at "type" m ≡ some "Trigger"
  pub sender : text_at "from" m ≡ some "run"
  pub name_matches : text_at "trigger" m ≡ some name

is_trigger-IsTrigger :
    (name : String) (m : Fields) {t : List Effect}
    → is_trigger name m ≡ done t true
    → IsTrigger name m
unfolding is_trigger
is_trigger-IsTrigger name m h = elim (Option-cases (text_at "type" m)) [
  | inl e ↦ ground arith
  | inr (type, e) ↦ elim (Option-cases (text_at "from" m)) [
    | inl f ↦ ground (arith, eq_iff type "Trigger")
    | inr (sender, f) ↦ elim (Option-cases (text_at "trigger" m)) [
      | inl g ↦ ground (arith, eq_iff type "Trigger", eq_iff sender "run")
      | inr (x, g) ↦ record {
        type = ground (arith, eq_iff type "Trigger", eq_iff sender "run", eq_iff x name);
        sender = ground (arith, eq_iff type "Trigger", eq_iff sender "run", eq_iff x name);
        name_matches = ground (arith, eq_iff type "Trigger", eq_iff sender "run", eq_iff x name);
      }
    ]
  ]
]

-- Among the events is a trigger of the name that satisfies `P`.
abbrev pub Triggered : String → (Fields → Type 0) → List Event → Type 0
Triggered name P es = Any (λ e. (m : Fields) × (e ≡ incoming m) × IsTrigger name m × P m) es

await_trigger-Triggered :
    (name : String) (es : List Event) (m : Fields) (P : Fields → Type 0) {t : List Effect}
    → await_trigger name es ≡ done t m
    → P m
    → Triggered name P es
unfolding await_trigger
await_trigger-Triggered name [] m P h p = cc
await_trigger-Triggered name (timeout ∷ es) m P h p = inr (await_trigger-Triggered name es m P h p)
await_trigger-Triggered name (incoming n ∷ es) m P {t} h p =
    let (u, hit, e, v, g) =
      >>=-eq-done (is_trigger name n) (λ hit. if hit then done [] n else await_trigger name es) h in
    by_hit (λ w k. await_trigger-Triggered name es m P k p) hit e g
  where
    by_hit :
        {u v : List Effect}
        → ((w : List Effect) → await_trigger name es ≡ done w m → Triggered name P es)
        → (hit : Bool) → is_trigger name n ≡ done u hit
        → (if hit then done [] n else await_trigger name es) ≡ done v m
        → Triggered name P (incoming n ∷ es)
    by_hit rest true e g =
        let same : n ≡ m = ground arith in
        inl (m, ap incoming same, subst (IsTrigger name) same (is_trigger-IsTrigger name n e), p)
    by_hit rest false e g = inr (rest _ g)

-- The command may run: it was told to run after failures too, or the trigger tells of success.
abbrev pub Allows : Bool → Fields → Type 0
Allows always m = (always ≡ true) ⊎ (get "success" m ≡ some (bool true))

check_success-Allows :
    (always : Bool) (m : Fields) {t : List Effect}
    → check_success always m ≡ done t tt
    → Allows always m
unfolding check_success
check_success-Allows true m h = inl refl
check_success-Allows false m h = elim (Option-cases (as_bool (get "success" m))) [
  | inl e ↦ ground arith
  | inr (true, e) ↦ inr (as_bool_lem (get "success" m) true e)
  | inr (false, e) ↦ ground arith
]

-- The gate is open: no trigger was to be waited for, or one came that allows the command.
abbrev pub Opened : Options → List Event → Type 0
Opened o es = (o.wait_trigger ≡ "") ⊎ Triggered o.wait_trigger (Allows o.trigger_always) es

unset : (s : String) → is_set s ≡ false → s ≡ ""
unset String.[] h = refl
unset (String.◌∷◌ c s) h = cc

gate-Opened :
    (o : Options) (conn : Connection) (es : List Event) (call : Call) {t : List Effect}
    → gate o conn es call ≡ done t tt
    → Opened o es
unfolding gate
gate-Opened o conn es call h = elim (Bool-cases (is_set o.wait_trigger)) [
  | inr e ↦ inl (unset o.wait_trigger e)
  | inl e ↦
      let (u, m, f, v, g) = >>=-eq-done (await_trigger o.wait_trigger es) _ (rw (gate, e) at h) in
      let (u', r, f', v', g') = >>=-eq-done _ (λ r. check_success o.trigger_always m) g in
      inr (
        await_trigger-Triggered o.wait_trigger es m (Allows o.trigger_always) f
          (check_success-Allows o.trigger_always m g'))
]

-- No effect but messages.
abbrev IsMessage : Effect → Type 0
IsMessage (sends keys m) = Unit
IsMessage (stores text) = ⊥
IsMessage (runs args) = ⊥

abbrev pub IsRun : Effect → Type 0
IsRun e = (args : List String) × (e ≡ runs args)

IsMessage-no_IsRun : (t : List Effect) → All IsMessage t → ¬ Any IsRun t
IsMessage-no_IsRun [] h r = r
IsMessage-no_IsRun (sends keys m ∷ t) h (inl r) = cc (r.1)
IsMessage-no_IsRun (stores text ∷ t) h r = absurd h.0
IsMessage-no_IsRun (runs args ∷ t) h r = absurd h.0
IsMessage-no_IsRun (sends keys m ∷ t) h (inr r) = IsMessage-no_IsRun t h.1 r

is_trigger-IsMessage : (name : String) (m : Fields) → All IsMessage (trace (is_trigger name m))
unfolding is_trigger
is_trigger-IsMessage name m = ground arith

await_trigger-IsMessage :
    (name : String) (es : List Event) → All IsMessage (trace (await_trigger name es))
unfolding await_trigger
await_trigger-IsMessage name [] = tt
await_trigger-IsMessage name (timeout ∷ es) = await_trigger-IsMessage name es
await_trigger-IsMessage name (incoming m ∷ es) =
    let rest = await_trigger-IsMessage name es in
    All-trace IsMessage (is_trigger name m)
      (λ hit. if hit then done [] m else await_trigger name es) (is_trigger-IsMessage name m)
      (λ u hit e.
        elim hit as (λ b. All IsMessage (trace (if b then done [] m else await_trigger name es))) [
          | true ↦ tt
          | false ↦ rest
        ])

send_notification-IsMessage :
    (id : String) (conn : Connection) (note : Notification) (es : List Event)
    → All IsMessage (trace (send_notification id conn note es))
unfolding send_notification
send_notification-IsMessage id conn note es =
    trace-after IsMessage (sends conn.keys _ ∷ []) (await "NotificationDisplayed" conn.id _ es)
      (tt, tt) (rw (await-silent "NotificationDisplayed" conn.id _ es) tt)

gate-IsMessage :
    (o : Options) (conn : Connection) (es : List Event) (call : Call)
    → All IsMessage (trace (gate o conn es call))
unfolding gate check_success
gate-IsMessage o conn es call = elim (Bool-cases (is_set o.wait_trigger)) [
  | inr e ↦ rw (gate, e) tt
  | inl e ↦
      rw (gate, e)
        (All-trace IsMessage (await_trigger o.wait_trigger es) _
          (await_trigger-IsMessage o.wait_trigger es)
          (λ u m f.
            All-trace IsMessage (rescue (send_notification call.notification_id conn _ call.events))
              _
              (rw (trace-rescue (send_notification call.notification_id conn _ call.events))
                (send_notification-IsMessage call.notification_id conn _ call.events))
              (λ u r g. checked o.trigger_always m)))
]
  where
    checked : (b : Bool) (m : Fields) → All IsMessage (trace (check_success b m))
    checked true m = tt
    checked false m = ground arith

-- If runRun executes a command, then it was told to wait for no trigger, or there came a message of
-- type Trigger from a run with the name that it waits for, which tells of success unless the command
-- is to run after failures too.
pub run_run-Opened :
    (o : Options) (conn : Connection) (args : List String) (err : Option String) (es : List Event)
    (received finished triggered : Call)
    → Any IsRun (trace (run_run o conn args err es received finished triggered))
    → Opened o es
unfolding run_run
run_run-Opened o conn args err es received finished triggered h =
    elim (Any-trace IsRun (gate o conn es received) _ h) [
      | inl r ↦ absurd (IsMessage-no_IsRun _ (gate-IsMessage o conn es received) r)
      | inr (u, x, e, r) ↦ gate-Opened o conn es received e
    ]
