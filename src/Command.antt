-- ===== src/Command.antt =====
-- The commands remotecopy, openurl, notify, notify-mobile and watch of remotecopy.go, openurl.go, notify.go,
-- notify_mobile.go and watch.go, from their options and the connection on.
pub mod Copied
mod Examples
use text.Mathlib.Text.{starts_with}
use pmb.Base.{
  ℕ, String, Bool, not, ◌&&◌, ◌||◌, Option, none, some, List, [], ◌∷◌, ◌⊎◌, inl, inr, ◌<>◌, is_set,
  if◌then◌else◌,
}
use pmb.Base.Go.{◌>>=◌, ◌>>◌, Go, done, fails}
use pmb.Base.Float.{Float64}
use pmb.Base.Trim.{trim_space}
use pmb.Run.{join_words}
use pmb.Client.{Effect, Event, Connection, run_remote_copy, run_open_url, run_notify}
use pmb.Connect.{Outside, Config, connect_client}
use pmb.Watch.{Options, Poll, find_process, run_watch}

-- The bus that GetPMB gives, the id that is generated, the option TrustKey, and what the connection
-- meets.
pub record Bus : Type 0 where
  pub config : Config
  pub id : String
  pub trust_key : Bool
  pub outside : Outside

abbrev pub connected : Bus → Go Effect Connection
connected b = connect_client b.outside b.config b.id (not b.trust_key)

-- The arguments, or the standard input; an error of it is given with its type, as fmt.Errorf appends it
-- to a format that has no verb for it.
unfoldable pub grab : List String → String ⊎ String → Go Effect String
grab (arg ∷ args) stdin = done [] (join_words (arg ∷ args))
grab [] (inl e) = fails [] ("error reading all input%!(EXTRA " <> e <> ")")
grab [] (inr text) = done [] text

-- RemoteCopyCommand.Execute
unfoldable pub execute_remote_copy :
    Bus → List String → String ⊎ String → List Event → Go Effect Unit
execute_remote_copy b args stdin es = do
  text ← grab args stdin
  conn ← connected b
  run_remote_copy conn b.id (trim_space text) es

-- OpenURLCommand.Execute
unfoldable pub execute_open_url :
    Bus → List String → String ⊎ String → Bool → List Event → Go Effect Unit
execute_open_url b args stdin is_html es = do
  text ← grab args stdin
  conn ← connected b
  run_open_url conn b.id (trim_space text) is_html es

-- NotifyCommand.Execute
unfoldable pub execute_notify : Bus → String → String → Float64 → List Event → Go Effect Unit
execute_notify b notification_id message level es =
    if is_set message
    then (do conn ← connected b; run_notify notification_id conn message level es)
    else fails [] "A message is required"

-- The checks of WatchCommand.Execute: the process of a positive pid is looked for once, and the file
-- must be there.
unfoldable pub watch_problem : Options → Poll → Bool → Option String
watch_problem o first file_missing =
    let file_problem : Option String =
      if is_set o.file && file_missing then some ("File " <> o.file <> " not found.") else none in
    elim o.pid [
      | none ↦
          if is_set o.message || is_set o.file
          then file_problem
          else some "A message or pid or file is required"
      | some pid ↦ if starts_with pid "-" then file_problem else (elim (find_process pid first) [
        | none ↦ some ("Process " <> pid <> " not found.")
        | some name ↦ file_problem
      ])
    ]

-- WatchCommand.Execute
unfoldable pub execute_watch :
    Bus → Options → Poll → Bool → String → List Poll → List (Option ℕ) → List Event → Go Effect Unit
execute_watch b o first file_missing notification_id polls sizes es =
    elim (watch_problem o first file_missing) [
      | some e ↦ fails [] e
      | none ↦ (do conn ← connected b; run_watch o notification_id conn polls sizes es)
    ]

-- The Pushover options of NotifyMobileCommand, and the variables PMB_PUSHOVER_TOKEN and
-- PMB_PUSHOVER_USERKEY.
pub record Pushover : Type 0 where
  pub token : String
  pub user_key : String
  pub env_token : String
  pub env_user_key : String

abbrev pub or_env : String → String → String
or_env option env = if is_set option then option else env

-- NotifyMobileCommand.Execute up to runNotifyMobile: the connection, the token and the user key.
unfoldable pub start_notify_mobile : Bus → Pushover → Go Effect (Connection × String × String)
start_notify_mobile b p =
    let token = or_env p.token p.env_token in
    let user_key = or_env p.user_key p.env_user_key in
    if is_set token
    then (if is_set user_key
        then (do conn ← connected b; done [] (conn, token, user_key))
        else fails [] "Pushover userKey not found, specify '--userKey' or set PMB_PUSHOVER_USERKEY")
    else fails [] "Pushover token not found, specify '--token' or set PMB_PUSHOVER_TOKEN"
