-- ===== src/Protocol/Introducers.antt =====
-- The introducer of introducer.go on messages of the program's types.
use pmb.Base.{String, ◌≡◌, sym, subst, Bool, true, false, Option, none, some, [], ◌<>◌}
use pmb.Base.Go.{◌>>=◌, ◌>>◌, Go, done, must, rescue, emit}
use pmb.Json.{Value, Fields, get, text_at, as_num, as_bool, as_bool_lem}
use pmb.Desktop.{Act, sends, open_url, display_notice, copy_to_clipboard}
use pmb.Desktop.Safe.{HasClipboard}
use pmb.Introducer.{
  Setup, message, reply, send_present, send_roll_call, serve_copy, html_flag, serve_open,
  serve_test, serve_key, serve_notification, serve, on_message, step,
}
use pmb.Protocol.{IsProper, HasText, HasNum, HasBool}
use pmb.Protocol
use pmb.Protocol.Done.{IsDone, then-IsDone, must-IsDone, notice-IsDone, copy-IsDone, open-IsDone}

abbrev pub flag_of : Option Value → Go Act Bool
flag_of o = elim o [ none ↦ done [] false | some v ↦ must (as_bool (some v)) ]

abbrev pub told_of : Setup → Fields → Option String → Go Act Unit
told_of s m err = elim err [
  | some e ↦ display_notice s.desk ("Unable to open url: " <> e) false
  | none ↦ (do
    display_notice s.desk "URL opened." false
    id ← must (text_at "id" m)
    emit (sends (reply "URLOpened" id)))
]

module _ (s : Setup) (c : HasClipboard s.desk) (m : Fields) where
  serve_copy-IsDone : HasText "data" m → HasText "id" m → IsDone (serve_copy s m)
  unfolding serve_copy
  serve_copy-IsDone (d, x) (i, y) = must-IsDone (text_at "data" m) _ d x (
      then-IsDone (copy_to_clipboard s.desk d) _ (copy-IsDone s.desk d c) (λ _.
        then-IsDone (display_notice s.desk "Remote copy complete." false) _
          (notice-IsDone s.desk "Remote copy complete." false)
          (λ _. must-IsDone (text_at "id" m) _ i y tt)))

  flag-IsDone : HasBool "is_html" m → IsDone (html_flag m)
  flag-IsDone (h, y) = subst (λ o. IsDone (flag_of o)) (sym (as_bool_lem (get "is_html" m) h y)) tt

  told-IsDone :
      (i : String) → text_at "id" m ≡ some i → (err : Option String) → IsDone (told_of s m err)
  told-IsDone i z (some e) = notice-IsDone s.desk ("Unable to open url: " <> e) false
  told-IsDone i z none =
      then-IsDone (display_notice s.desk "URL opened." false) _
        (notice-IsDone s.desk "URL opened." false) (λ _. must-IsDone (text_at "id" m) _ i z tt)

  serve_open-IsDone :
      HasText "data" m → HasBool "is_html" m → HasText "id" m → IsDone (serve_open s m)
  unfolding serve_open
  serve_open-IsDone (d, x) (h, y) (i, z) = then-IsDone (html_flag m) _ (flag-IsDone (h, y)) (λ html.
      must-IsDone (text_at "data" m) _ d x (
        then-IsDone (rescue (open_url s.desk d html)) _ (open-IsDone s.desk d html)
          (told-IsDone i z)))

  serve_test-IsDone : HasText "id" m → IsDone (serve_test m)
  unfolding serve_test
  serve_test-IsDone (i, y) = must-IsDone (text_at "id" m) _ i y tt

  serve_key-IsDone : IsDone (serve_key s)
  unfolding serve_key
  serve_key-IsDone =
      then-IsDone (copy_to_clipboard s.desk _) _ (copy-IsDone s.desk _ c)
        (λ _. notice-IsDone s.desk "Copied key." false)

  serve_notification-IsDone :
      HasNum "level" m
      → HasText "message" m
      → HasText "id" m
      → HasText "notification-id" m
      → IsDone (serve_notification s m)
  unfolding serve_notification
  serve_notification-IsDone (l, x) (t, y) (i, z) (n, w) =
      must-IsDone (as_num (get "level" m)) _ l x (
        must-IsDone (text_at "message" m) _ t y (
          then-IsDone (display_notice s.desk t _) _ (notice-IsDone s.desk t _) (λ _.
            must-IsDone (text_at "id" m) _ i z
              (must-IsDone (text_at "notification-id" m) _ n w tt))))

  -- Whatever an introducer does with a message of the program's types, it comes to its end.
  pub step-IsDone : (active : Bool) → IsProper m → IsDone (step s active (message m))
  unfolding step on_message serve send_present send_roll_call
  step-IsDone false (Protocol.asks_copy e d i) = must-IsDone (text_at "type" m) _ "CopyData" e tt
  step-IsDone false (Protocol.asks_open e d h i) = must-IsDone (text_at "type" m) _ "OpenURL" e tt
  step-IsDone false (Protocol.asks_test e i) = must-IsDone (text_at "type" m) _ "TestAuth" e tt
  step-IsDone false (Protocol.asks_key e) = must-IsDone (text_at "type" m) _ "RequestAuth" e tt
  step-IsDone false (Protocol.notifies e n t l i) =
      must-IsDone (text_at "type" m) _ "Notification" e tt
  step-IsDone false (Protocol.displays e o n t l b) =
      must-IsDone (text_at "type" m) _ "NotificationDisplayed" e tt
  step-IsDone false (Protocol.copies e o) = must-IsDone (text_at "type" m) _ "DataCopied" e tt
  step-IsDone false (Protocol.opens e o) = must-IsDone (text_at "type" m) _ "URLOpened" e tt
  step-IsDone false (Protocol.confirms e o) = must-IsDone (text_at "type" m) _ "AuthValid" e tt
  step-IsDone false (Protocol.ranks e l) =
      must-IsDone (text_at "type" m) _ "IntroducerPresent" e
        (must-IsDone (as_num (get "level" m)) _ l.0 l.1 tt)
  step-IsDone false (Protocol.calls_roll e) =
      must-IsDone (text_at "type" m) _ "IntroducerRollCall" e tt
  step-IsDone false (Protocol.triggers e f n b) = must-IsDone (text_at "type" m) _ "Trigger" e tt
  step-IsDone true (Protocol.asks_copy e d i) =
      must-IsDone (text_at "type" m) _ "CopyData" e
        (then-IsDone (serve_copy s m) _ (serve_copy-IsDone d i) (λ _. tt))
  step-IsDone true (Protocol.asks_open e d h i) =
      must-IsDone (text_at "type" m) _ "OpenURL" e
        (then-IsDone (serve_open s m) _ (serve_open-IsDone d h i) (λ _. tt))
  step-IsDone true (Protocol.asks_test e i) =
      must-IsDone (text_at "type" m) _ "TestAuth" e
        (then-IsDone (serve_test m) _ (serve_test-IsDone i) (λ _. tt))
  step-IsDone true (Protocol.asks_key e) =
      must-IsDone (text_at "type" m) _ "RequestAuth" e
        (then-IsDone (serve_key s) _ (serve_key-IsDone) (λ _. tt))
  step-IsDone true (Protocol.notifies e n t l i) =
      must-IsDone (text_at "type" m) _ "Notification" e
        (then-IsDone (serve_notification s m) _ (serve_notification-IsDone l t i n) (λ _. tt))
  step-IsDone true (Protocol.displays e o n t l b) =
      must-IsDone (text_at "type" m) _ "NotificationDisplayed" e tt
  step-IsDone true (Protocol.copies e o) = must-IsDone (text_at "type" m) _ "DataCopied" e tt
  step-IsDone true (Protocol.opens e o) = must-IsDone (text_at "type" m) _ "URLOpened" e tt
  step-IsDone true (Protocol.confirms e o) = must-IsDone (text_at "type" m) _ "AuthValid" e tt
  step-IsDone true (Protocol.ranks e l) =
      must-IsDone (text_at "type" m) _ "IntroducerPresent" e
        (must-IsDone (as_num (get "level" m)) _ l.0 l.1 tt)
  step-IsDone true (Protocol.calls_roll e) =
      must-IsDone (text_at "type" m) _ "IntroducerRollCall" e tt
  step-IsDone true (Protocol.triggers e f n b) = must-IsDone (text_at "type" m) _ "Trigger" e tt
