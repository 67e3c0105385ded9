-- ===== src/Introducer.antt =====
-- introducer.go: the service that answers requests on the desktop. Several introducers may run; the
-- one of the highest level is active. `step` is one round of the loop of runIntroducer.
pub mod Quiet
pub mod Replies
pub mod Election
pub mod Start
mod Examples
use pmb.Base.{
  String, Bool, true, false, Option, none, some, List, [], ◌∷◌, ◌==◌, ◌<>◌, if◌then◌else◌,
}
use pmb.Base.Go.{◌>>=◌, ◌>>◌, Go, done, must, emit, rescue}
use pmb.Base.Float.{Float64, gt, ge}
use pmb.Json.{Fields, str, num, bool, end, field, get, text_at, as_num, as_bool}
use pmb.Keys.{join_keys}
use pmb.Desktop.{Act, sends, Desk, copy_to_clipboard, display_notice, open_url}

-- How a run of `pgrep` ends.
pub data Search : Type 0 where
  finds_process : Search
  exit_error : Search
  run_error : String → Search

-- processRunning: whether the process runs, and an error.
unfoldable pub process_running : Search → Bool × Option String
process_running finds_process = (true, none)
process_running exit_error = (false, none)
process_running (run_error e) = (false, some e)

-- screensaverRunning on Darwin or elsewhere, with the search for ScreenSaverEngine.
unfoldable pub screensaver_running : Bool → Search → Bool × Option String
screensaver_running darwin search = if darwin then process_running search else (false, none)

-- The options of IntroducerCommand that the loop reads, the connection's keys, the desktop, and
-- what screensaverRunning finds.
pub record Setup : Type 0 where
  pub level : Float64
  pub level_sticky : Float64
  pub keys : List String
  pub desk : Desk
  pub screen_saver : Bool

-- 30 seconds without a message, or a message on conn.In.
pub data Event : Type 0 where
  timeout : Event
  message : Fields → Event

abbrev pub present : Float64 → Fields
present level = field "type" (str "IntroducerPresent") (field "level" (num level) end)

abbrev pub roll_call : Fields
roll_call = field "type" (str "IntroducerRollCall") end

-- sendPresent and sendRollCall
unfoldable pub send_present : Float64 → Go Act Unit
send_present level = emit (sends (present level))

unfoldable pub send_roll_call : Go Act Unit
send_roll_call = emit (sends roll_call)

abbrev pub reply : String → String → Fields
reply type origin = field "type" (str type) (field "origin" (str origin) end)

unfoldable pub serve_copy : Setup → Fields → Go Act Unit
serve_copy s m = do
  text ← must (text_at "data" m)
  copy_to_clipboard s.desk text
  display_notice s.desk "Remote copy complete." false
  id ← must (text_at "id" m)
  emit (sends (reply "DataCopied" id))

-- `is_html` may be missing, but if it is there it is asserted to be a bool.
abbrev pub html_flag : Fields → Go Act Bool
html_flag m = elim (get "is_html" m) [ none ↦ done [] false | some v ↦ must (as_bool (some v)) ]

unfoldable pub serve_open : Setup → Fields → Go Act Unit
serve_open s m = do
  is_html ← html_flag m
  text ← must (text_at "data" m)
  err ← rescue (open_url s.desk text is_html)
  elim err [
    | some e ↦ display_notice s.desk ("Unable to open url: " <> e) false
    | none ↦ (do
      display_notice s.desk "URL opened." false
      id ← must (text_at "id" m)
      emit (sends (reply "URLOpened" id)))
  ]

unfoldable pub serve_test : Fields → Go Act Unit
serve_test m = do id ← must (text_at "id" m); emit (sends (reply "AuthValid" id))

unfoldable pub serve_key : Setup → Go Act Unit
serve_key s = do
  copy_to_clipboard s.desk (join_keys s.keys)
  display_notice s.desk "Copied key." false

unfoldable pub serve_notification : Setup → Fields → Go Act Unit
serve_notification s m = do
  level ← must (as_num (get "level" m))
  text ← must (text_at "message" m)
  display_notice s.desk text (ge level s.level_sticky)
  id ← must (text_at "id" m)
  notification_id ← must (text_at "notification-id" m)
  emit (
      sends (
        field "type" (str "NotificationDisplayed") (
          field "origin" (str id) (
            field "notification-id" (str notification_id) (
              field "level" (num level)
                (field "message" (str text) (field "screenSaverOn" (bool s.screen_saver) end)))))))

-- The requests that an active introducer serves; any other type is ignored.
unfoldable pub serve : Setup → String → Fields → Go Act Unit
serve s type m =
    if type == "CopyData"
    then serve_copy s m
    else if type == "OpenURL"
    then serve_open s m
    else if type == "TestAuth"
    then serve_test m
    else if type == "RequestAuth"
    then serve_key s
    else if type == "Notification"
    then serve_notification s m
    else done [] tt

-- The cases of the `select`, by the message's type. The result is the new value of `active`.
unfoldable pub on_message : Setup → Bool → String → Fields → Go Act Bool
on_message s active type m =
    if type == "IntroducerPresent"
    then (do
      level ← must (as_num (get "level" m))
      done [] (if gt level s.level then false else active))
    else if type == "IntroducerRollCall"
    then (do send_present s.level; done [] active)
    else if type == "Reconnected"
    then (do send_present s.level; send_roll_call; done [] true)
    else if active
    then (do serve s type m; done [] true)
    else done [] false

unfoldable pub step : Setup → Bool → Event → Go Act Bool
step s active timeout = if active then done [] true else (do send_roll_call; done [] true)
step s active (message m) = do type ← must (text_at "type" m); on_message s active type m

-- The loop over the events so far, and runIntroducer up to them.
unfoldable pub run_from : Setup → Bool → List Event → Go Act Bool
run_from s active [] = done [] active
run_from s active (e ∷ es) = do active' ← step s active e; run_from s active' es

unfoldable pub run_introducer : Setup → List Event → Go Act Bool
run_introducer s es = do send_present s.level; send_roll_call; run_from s true es
