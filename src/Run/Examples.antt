-- ===== src/Run/Examples.antt =====
-- Runs of run.go at concrete inputs.
use pmb.Base.{◌≡◌, refl, inl, inr, true, false, ◌||◌, none, some, [], ◌∷◌, ◌<>◌, Any, if◌then◌else◌}
use pmb.Base.Go.{done, fails, rescue, trace, ◌>>=◌}
use pmb.Base.Float.{whole}
use pmb.Wire.{Host, tag}
use pmb.Json.{get}
use pmb.Client.{Event, incoming, Connection, send_notification, await}
use pmb.Run.{
  Options, Call, trigger, is_trigger, await_trigger, check_success, gate, send_trigger, run_run,
}
use pmb.Run.Gate.{IsRun, Opened, run_run-Opened}
use pmb.Run.Chain.{gate-trigger}

abbrev options : Options
options = record {
  message = "";
  send_trigger = "";
  wait_trigger = "built";
  trigger_always = false;
  level = whole 3;
}

abbrev conn : Connection
conn = record { id = "run-1"; keys = [] }

abbrev quiet : Call
quiet = record { notification_id = "n1"; events = Event.timeout ∷ [] }

abbrev built : Event
built = incoming (trigger "built" true)

runs_make :
    Any IsRun (trace (run_run options conn ("make" ∷ []) none (built ∷ []) quiet quiet quiet))
unfolding run_run gate await_trigger is_trigger check_success send_notification await get
    send_trigger
runs_make = inr (inl ("make" ∷ [], refl))

run_run-Opened_example : Opened options (built ∷ [])
run_run-Opened_example =
    run_run-Opened options conn ("make" ∷ []) none (built ∷ []) quiet quiet quiet runs_make

abbrev host : Host
host = record { hostname = some "box"; addrs = none }

gate-trigger_example :
    gate options conn (incoming (tag host "now" "run-2" (trigger "built" false)) ∷ []) quiet ≡ (
      rescue (
        send_notification "n1" conn
          (record { message = "Received trigger " <> "built"; url = ""; level = whole 3 })
          (Event.timeout ∷ []))
      >>= λ ignored.
          if false || false then done [] tt else fails [] "Previous command failed, not running.")
gate-trigger_example = gate-trigger options conn quiet false host "now" "run-2" [] refl
