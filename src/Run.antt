-- ===== src/Run.antt =====
-- run.go: a command that runs, perhaps after a trigger, and whose end is announced, perhaps by a
-- trigger. What arrives on the channel In during each of the waits is a list of events.
pub mod Gate
pub mod Chain
mod Examples
use pmb.Base.{
  String, Bool, true, false, Option, none, some, List, [], ◌∷◌, ◌==◌, ◌<>◌, is_set, if◌then◌else◌,
}
use pmb.Base.Go.{Go, done, fails, waits, must, emit, rescue, ◌>>=◌, ◌>>◌}
use pmb.Base.Float.{Float64, whole}
use pmb.Json.{Fields, str, bool, end, field, get, text_at, as_bool}
use pmb.Client.{Effect, sends, runs, Event, timeout, incoming, Connection, send_notification}
use pmb.Connect.{Outside, Config, connect_client}

-- The options of RunCommand.
pub record Options : Type 0 where
  pub message : String
  pub send_trigger : String
  pub wait_trigger : String
  pub trigger_always : Bool
  pub level : Float64

-- A call of SendNotification: its random id, and what arrives during it.
pub record Call : Type 0 where
  pub notification_id : String
  pub events : List Event

-- `data["type"] == "Trigger" && data["from"] == "run" && data["trigger"] == waitTrigger`, each with
-- its type assertion.
unfoldable pub is_trigger : String → Fields → Go Effect Bool
is_trigger name m = do
  type ← must (text_at "type" m)
  if type == "Trigger"
      then (do
        sender ← must (text_at "from" m)
        if sender == "run"
            then (do trigger ← must (text_at "trigger" m); done [] (trigger == name))
            else done [] false)
      else done [] false

-- The loop WAIT. A timeout is only logged.
unfoldable pub await_trigger : String → List Event → Go Effect Fields
await_trigger name [] = waits []
await_trigger name (timeout ∷ es) = await_trigger name es
await_trigger name (incoming m ∷ es) =
    let rest = await_trigger name es in is_trigger name m >>= λ hit. if hit then done [] m else rest

-- `if !runCommand.TriggerAlways && !triggerMessage.Contents["success"].(bool)`
unfoldable pub check_success : Bool → Fields → Go Effect Unit
check_success true m = done [] tt
check_success false m = do
  success ← must (as_bool (get "success" m))
  if success then done [] tt else fails [] "Previous command failed, not running."

-- The first part of runRun, up to the command.
unfoldable pub gate : Options → Connection → List Event → Call → Go Effect Unit
gate o conn es call =
    if is_set o.wait_trigger
    then (do
      m ← await_trigger o.wait_trigger es
      ignored ← rescue (
          send_notification call.notification_id conn
            (record { message = "Received trigger " <> o.wait_trigger; url = ""; level = whole 3 })
            call.events)
      check_success o.trigger_always m)
    else done [] tt

-- strings.Join(args, " ")
unfoldable pub join_words : List String → String
join_words [] = ""
join_words (arg ∷ []) = arg
join_words (arg ∷ other ∷ args) = arg <> " " <> join_words (other ∷ args)

-- The text of the note, by the error of cmd.Run.
unfoldable pub result_message : String → List String → Option String → String
result_message message args err =
    let result : String = elim err [
      | none ↦ "successfully"
      | some e ↦ "with error '" <> e <> "'"
    ] in
    let emoji : String = elim err [ none ↦ "👍" | some e ↦ "👎" ] in
    if is_set message
    then message <> ". " <> emoji <> " Command completed " <> result <> "."
    else emoji <> " Command [" <> join_words args <> "] completed " <> result <> "."

abbrev pub succeeded : Option String → Bool
succeeded none = true
succeeded (some e) = false

abbrev pub trigger : String → Bool → Fields
trigger name success =
    field "type" (str "Trigger")
      (field "trigger" (str name) (field "from" (str "run") (field "success" (bool success) end)))

-- The part of runRun behind the notification of the result.
unfoldable pub send_trigger : Options → Connection → Bool → Call → Go Effect Unit
send_trigger o conn success call =
    if is_set o.send_trigger
    then (do
      ignored ← rescue (
          send_notification call.notification_id conn
            (record { message = "Sending trigger " <> o.send_trigger; url = ""; level = whole 3 })
            call.events)
      emit (sends conn.keys (trigger o.send_trigger success)))
    else done [] tt

abbrev pub return_error : Option String → Go Effect Unit
return_error none = done [] tt
return_error (some e) = fails [] e

-- runRun; `err` is how the command ends.
unfoldable pub run_run :
    Options
    → Connection
    → List String
    → Option String
    → List Event
    → Call
    → Call
    → Call
    → Go Effect Unit
run_run o conn args err es received finished triggered = do
  gate o conn es received
  emit (runs args)
  notify_err ← rescue (
      send_notification finished.notification_id conn
        (record { message = result_message o.message args err; url = ""; level = o.level })
        finished.events)
  send_trigger o conn (succeeded err) triggered
  return_error notify_err

-- RunCommand.Execute
unfoldable pub execute :
    Outside
    → Config
    → Bool
    → Options
    → String
    → List String
    → Option String
    → List Event
    → Call
    → Call
    → Call
    → Go Effect Unit
execute outside c check_key o id [] err es received finished triggered =
    fails [] "A command is required"
execute outside c check_key o id (arg ∷ args) err es received finished triggered = do
  conn ← connect_client outside c id check_key
  run_run o conn (arg ∷ args) err es received finished triggered
