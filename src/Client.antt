-- ===== src/Client.antt =====
-- api/pmb.go: messages that a client sends, and how it waits for the reply. The commands of
-- remotecopy.go, openurl.go and notify.go that wait in the same way stand here too. What arrives on
-- the channel In, and when the timer of a loop fires, is a list of events.
pub mod Await
mod Examples
use pmb.Base.{String, Bool, true, false, Option, none, some, List, [], ◌∷◌, ◌==◌, if◌then◌else◌}
use pmb.Base.Go.{◌>>=◌, ◌>>◌, Go, done, fails, panics, waits, emit}
use pmb.Base.Float.{Float64}
use pmb.Json.{Fields, str, num, bool, end, field, text_at}

-- `conn.Out <- Message{...}` under the connection's keys, StoreCredHelperKey, and a command line that
-- run.go executes.
pub data Effect : Type 0 where
  sends : List String → Fields → Effect
  stores : String → Effect
  runs : List String → Effect

pub data Event : Type 0 where
  incoming : Fields → Event
  timeout : Event

-- `data["type"].(string) == type && data["origin"].(string) == id`; `none` is a panic.
unfoldable pub is_reply : String → String → Fields → Option Bool
is_reply type id m = elim (text_at "type" m) [
  | none ↦ none
  | some t ↦
      if t == type
      then (elim (text_at "origin" m) [ none ↦ none | some origin ↦ some (origin == id) ])
      else some false
]

-- The loop over `select` that testAuth, SendNotification, runRemoteCopy and runOpenURL share.
unfoldable pub await : String → String → String → List Event → Go Effect Unit
await type id problem [] = waits []
await type id problem (timeout ∷ es) = fails [] problem
await type id problem (incoming m ∷ es) = elim (is_reply type id m) [
  | none ↦ panics []
  | some true ↦ done [] tt
  | some false ↦ await type id problem es
]

-- testAuth
unfoldable pub test_auth : List String → String → List Event → Go Effect Unit
test_auth keys id es = do
  emit (sends keys (field "type" (str "TestAuth") end))
  await "AuthValid" id "Auth key was invalid." es

pub record Notification : Type 0 where
  pub message : String
  pub url : String
  pub level : Float64

-- A connection: its id and keys. Channels, URI and prefix belong to the transports.
pub record Connection : Type 0 where
  pub id : String
  pub keys : List String

-- SendNotification; the first argument is the random id of the notification.
unfoldable pub send_notification : String → Connection → Notification → List Event → Go Effect Unit
send_notification notification_id conn note es = do
  emit (
      sends conn.keys (
        field "type" (str "Notification") (
          field "notification-id" (str notification_id) (
            field "message" (str note.message)
              (field "level" (num note.level) (field "url" (str note.url) end))))))
  await "NotificationDisplayed" conn.id "Unable to determine if message was displayed..." es

-- runRemoteCopy of remotecopy.go
unfoldable pub run_remote_copy : Connection → String → String → List Event → Go Effect Unit
run_remote_copy conn id text es = do
  emit (sends conn.keys (field "type" (str "CopyData") (field "data" (str text) end)))
  await "DataCopied" id "Unable to determine if data was copied..." es

-- runOpenURL of openurl.go
unfoldable pub run_open_url : Connection → String → String → Bool → List Event → Go Effect Unit
run_open_url conn id text is_html es = do
  emit (
      sends conn.keys (
        field "type" (str "OpenURL")
          (field "data" (str text) (field "is_html" (bool is_html) end))))
  await "URLOpened" id "Unable to determine if URL was opened..." es

-- runNotify of notify.go
unfoldable pub run_notify : String → Connection → String → Float64 → List Event → Go Effect Unit
run_notify notification_id conn message level es =
    send_notification notification_id conn (record { message = message; url = ""; level = level })
      es
