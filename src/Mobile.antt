-- ===== src/Mobile.antt =====
-- notify_mobile.go: notifications that nobody saw go to Pushover. Three parts pass messages on: the
-- main loop routes them, unackAgent waits for acknowledgements, pushoverAgent sends each once.
pub mod Recent
pub mod Routing
pub mod Agent
pub mod System
mod Examples
use pmb.Base.{
  String, Bool, true, false, ◌||◌, List, [], ◌∷◌, ◌++◌, length, ltb, ◌==◌, if◌then◌else◌,
}
use pmb.Base.Go.{◌>>=◌, ◌>>◌, Go, done, must}
use pmb.Base.Float.{Float64, ge}
use pmb.Json.{Fields, get, text_at, as_num, as_bool}

-- `unackChan <- message`, `pushoverChan <- message`, and a text that po.SendMessage sends.
pub data Act : Type 0 where
  to_unack : Fields → Act
  to_pushover : Fields → Act
  pushes : String → Act

abbrev pub has_id : String → List String → Bool
has_id id [] = false
has_id id (x ∷ xs) = x == id || has_id id xs

abbrev pub rest_of : List String → List String
rest_of [] = []
rest_of (x ∷ xs) = xs

-- `recentIds = append(recentIds, messageId)`, cut to ten from the front.
unfoldable pub remember : String → List String → List String
remember id recent =
    let longer = recent ++ id ∷ [] in if ltb 10 (length longer) then rest_of longer else longer

-- One round of pushoverAgent, with the ids that it remembers. An error of SendMessage is only logged.
unfoldable pub push_step : List String → Fields → Go Act (List String)
push_step recent m = do
  text ← must (text_at "message" m)
  id ← must (text_at "notification-id" m)
  if has_id id recent then done [] recent else done (pushes text ∷ []) (remember id recent)

-- The levels of NotifyMobileCommand.
pub record Levels : Type 0 where
  pub always : Float64
  pub unacknowledged : Float64
  pub unseen : Float64

abbrev pub when : Bool → Act → Go Act Unit
when true a = done (a ∷ []) tt
when false a = done [] tt

-- The cases of the loop of runNotifyMobile.
unfoldable pub on_notification : Levels → Fields → Go Act Unit
on_notification l m = do
  level ← must (as_num (get "level" m))
  when (ge level l.unacknowledged) (to_unack m)
  when (ge level l.always) (to_pushover m)

unfoldable pub on_displayed : Levels → Fields → Go Act Unit
on_displayed l m = do
  level ← must (as_num (get "level" m))
  when (ge level l.unacknowledged) (to_unack m)
  screen_saver_on ← must (as_bool (get "screenSaverOn" m))
  if ge level l.unseen then when screen_saver_on (to_pushover m) else done [] tt

-- One round of runNotifyMobile.
unfoldable pub route : Levels → Fields → Go Act Unit
unfolding on_notification on_displayed
route l m = do
  type ← must (text_at "type" m)
  if type == "Notification"
      then on_notification l m
      else if type == "NotificationDisplayed"
      then on_displayed l m
      else done [] tt

-- pushoverAgent over the messages that have come.
unfoldable pub push_run : List String → List Fields → Go Act (List String)
push_run recent [] = done [] recent
push_run recent (m ∷ ms) = do recent' ← push_step recent m; push_run recent' ms
