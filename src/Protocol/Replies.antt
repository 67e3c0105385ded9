-- ===== src/Protocol/Replies.antt =====
-- What an introducer of introducer.go sends, whatever comes in.
use pmb.Base.{
  String, refl, inl, inr, Bool, true, false, Option, none, some, [], ◌∷◌, All, ◌==◌, if◌then◌else◌,
  ◌<>◌,
}
use pmb.Base.Go.{
  ◌>>=◌, Go, must, rescue, emit, trace, trace-rescue, trace-after, All-trace, All-must,
}
use pmb.Base.Float.{Float64, ge}
use pmb.Json.{Value, Fields, str, num, bool, end, field, get, text_at, as_num, as_bool}
use pmb.Keys.{join_keys}
use pmb.Wire.Sent.{tag-type}
use pmb.Desktop.{
  Act, sends, runs, creates, writes, renames, opens_file, opens_url, Desk, open_url, display_notice,
  copy_to_clipboard, check,
}
use pmb.Desktop.Safe.{copy_to_clipboard-cases, display_notice-done}
use pmb.Introducer.{
  Setup, Event, timeout, message, present, roll_call, reply, send_present, send_roll_call,
  serve_copy, html_flag, serve_open, serve_test, serve_key, serve_notification, serve, on_message,
  step,
}
use pmb.Protocol.Introducers.{flag_of, told_of}
use pmb.Protocol.Senders.{IsSendable, own_text, own_num, own_bool}
use pmb.Protocol

present-IsSendable : (level : Float64) → IsSendable (present level)
unfolding get
present-IsSendable level h now id =
    Protocol.ranks (tag-type h now id (present level))
      (own_num h now id (present level) "level" (refl, refl, refl, refl) (level, refl))

roll_call-IsSendable : IsSendable roll_call
unfolding get
roll_call-IsSendable h now id = Protocol.calls_roll (tag-type h now id roll_call)

copied-IsSendable : (origin : String) → IsSendable (reply "DataCopied" origin)
unfolding get
copied-IsSendable origin h now id =
    Protocol.copies (tag-type h now id (reply "DataCopied" origin)) (
      own_text h now id (reply "DataCopied" origin) "origin" (refl, refl, refl, refl)
        (origin, refl))

opened-IsSendable : (origin : String) → IsSendable (reply "URLOpened" origin)
unfolding get
opened-IsSendable origin h now id =
    Protocol.opens (tag-type h now id (reply "URLOpened" origin)) (
      own_text h now id (reply "URLOpened" origin) "origin" (refl, refl, refl, refl) (origin, refl))

valid-IsSendable : (origin : String) → IsSendable (reply "AuthValid" origin)
unfolding get
valid-IsSendable origin h now id =
    Protocol.confirms (tag-type h now id (reply "AuthValid" origin)) (
      own_text h now id (reply "AuthValid" origin) "origin" (refl, refl, refl, refl) (origin, refl))

displayed-IsSendable :
    (origin n text : String) (level : Float64) (saver : Bool)
    → IsSendable (
        field "type" (str "NotificationDisplayed") (
          field "origin" (str origin) (
            field "notification-id" (str n) (
              field "level"
                (num level)
                (field "message" (str text) (field "screenSaverOn" (bool saver) end))))))
unfolding get
displayed-IsSendable origin n text level saver h now id =
    let m = field "type" (str "NotificationDisplayed") (
      field "origin" (str origin) (
        field "notification-id" (str n) (
          field "level" (num level)
            (field "message" (str text) (field "screenSaverOn" (bool saver) end))))) in
    Protocol.displays (tag-type h now id m)
      (own_text h now id m "origin" (refl, refl, refl, refl) (origin, refl))
      (own_text h now id m "notification-id" (refl, refl, refl, refl) (n, refl))
      (own_text h now id m "message" (refl, refl, refl, refl) (text, refl))
      (own_num h now id m "level" (refl, refl, refl, refl) (level, refl))
      (own_bool h now id m "screenSaverOn" (refl, refl, refl, refl) (saver, refl))

abbrev pub Sends : Act → Type 0
Sends (sends m) = IsSendable m
Sends (runs argv text) = Unit
Sends (creates f) = Unit
Sends (writes f text) = Unit
Sends (renames f g) = Unit
Sends (opens_file f) = Unit
Sends (opens_url u) = Unit

copy-Sends : (d : Desk) (text : String) → All Sends (trace (copy_to_clipboard d text))
copy-Sends d text = elim (copy_to_clipboard-cases d text) [
  | inl (h, (argv, e)) ↦ rw e (tt, tt)
  | inr (n, e) ↦ rw e tt
]

notice-Sends : (d : Desk) (text : String) (s : Bool) → All Sends (trace (display_notice d text s))
notice-Sends d text s = elim (display_notice-done d text s) [
  | inl e ↦ rw e tt
  | inr (argv, e) ↦ rw e (tt, tt)
]

check-Sends : (o : Option String) → All Sends (trace (check o))
check-Sends none = tt
check-Sends (some e) = tt

if-Sends :
    {A : Type 0} (b : Bool) (g k : Go Act A)
    → All Sends (trace g)
    → All Sends (trace k)
    → All Sends (trace (if b then g else k))
if-Sends true g k h i = h
if-Sends false g k h i = i

open-Sends : (d : Desk) (text : String) (html : Bool) → All Sends (trace (open_url d text html))
unfolding open_url
open-Sends d text false =
    trace-after Sends (opens_url text ∷ []) (check d.browse_error) (tt, tt)
      (check-Sends d.browse_error)
open-Sends d text true = All-trace Sends (check d.temp_error) _ (check-Sends d.temp_error) (λ t u e.
    trace-after Sends (creates d.temp_name ∷ []) _ (tt, tt)
      (All-trace Sends (check d.write_error) _ (check-Sends d.write_error) (λ t u e.
        trace-after Sends (writes d.temp_name text ∷ []) _ (tt, tt)
          (All-trace Sends (check d.close_error) _ (check-Sends d.close_error) (λ t u e.
            All-trace Sends (check d.rename_error) _ (check-Sends d.rename_error) (λ t u e.
              trace-after Sends (renames d.temp_name (d.temp_name <> ".html") ∷ []) _ (tt, tt)
                (trace-after Sends (opens_file (d.temp_name <> ".html") ∷ []) (check d.browse_error)
                  (tt, tt) (check-Sends d.browse_error))))))))

must-Sends : {A : Type 0} (o : Option A) → All Sends (trace (must {E = Act} o))
must-Sends none = tt
must-Sends (some a) = tt

flag_of-Sends : (o : Option Value) → All Sends (trace (flag_of o))
flag_of-Sends none = tt
flag_of-Sends (some v) = must-Sends (as_bool (some v))

module _ (s : Setup) (m : Fields) where
  answer-Sends :
      (type : String)
      → ((origin : String) → IsSendable (reply type origin))
      → All Sends (trace (must (text_at "id" m) >>= λ id. emit (sends (reply type id))))
  answer-Sends type h =
      All-must Sends (text_at "id" m) (λ id. emit (sends (reply type id))) (λ i y. (h i, tt))

  told_of-Sends : (err : Option String) → All Sends (trace (told_of s m err))
  told_of-Sends (some e) = notice-Sends s.desk ("Unable to open url: " <> e) false
  told_of-Sends none =
      All-trace Sends (display_notice s.desk "URL opened." false) _
        (notice-Sends s.desk "URL opened." false)
        (λ t u e. answer-Sends "URLOpened" opened-IsSendable)

  serve_copy-Sends : All Sends (trace (serve_copy s m))
  unfolding serve_copy
  serve_copy-Sends = All-must Sends (text_at "data" m) _ (λ d x.
      All-trace Sends (copy_to_clipboard s.desk d) _ (copy-Sends s.desk d) (λ t u e.
        All-trace Sends (display_notice s.desk "Remote copy complete." false) _
          (notice-Sends s.desk "Remote copy complete." false)
          (λ t u e. answer-Sends "DataCopied" copied-IsSendable)))

  flag-Sends : All Sends (trace (html_flag m))
  flag-Sends = flag_of-Sends (get "is_html" m)

  serve_open-Sends : All Sends (trace (serve_open s m))
  unfolding serve_open
  serve_open-Sends = All-trace Sends (html_flag m) _ flag-Sends (λ t html e.
      All-must Sends (text_at "data" m) _ (λ d x.
        All-trace Sends (rescue (open_url s.desk d html)) _
          (rw (trace-rescue (open_url s.desk d html)) (open-Sends s.desk d html))
          (λ t err e. told_of-Sends err)))

  serve_notification-Sends : All Sends (trace (serve_notification s m))
  unfolding serve_notification
  serve_notification-Sends = All-must Sends (as_num (get "level" m)) _ (λ l x.
      All-must Sends (text_at "message" m) _ (λ text y.
        All-trace Sends (display_notice s.desk text (ge l s.level_sticky)) _
          (notice-Sends s.desk text (ge l s.level_sticky))
          (λ t u e. All-must Sends (text_at "id" m) _ (λ i z.
            All-must Sends (text_at "notification-id" m) _
              (λ n w. (displayed-IsSendable i n text l s.screen_saver, tt))))))

  serve-Sends : (type : String) → All Sends (trace (serve s type m))
  unfolding serve serve_test serve_key
  serve-Sends type = if-Sends (type == "CopyData") (serve_copy s m) _ serve_copy-Sends (
      if-Sends (type == "OpenURL") (serve_open s m) _ serve_open-Sends (
        if-Sends (type == "TestAuth") (serve_test m) _ (answer-Sends "AuthValid" valid-IsSendable) (
          if-Sends (type == "RequestAuth") (serve_key s) _
            (All-trace Sends (copy_to_clipboard s.desk (join_keys s.keys)) _
              (copy-Sends s.desk (join_keys s.keys))
              (λ t u e. notice-Sends s.desk "Copied key." false))
            (if-Sends (type == "Notification") (serve_notification s m) _ serve_notification-Sends
              tt))))

  on_message-Sends :
      (active : Bool) (type : String) → All Sends (trace (on_message s active type m))
  unfolding on_message send_present send_roll_call
  on_message-Sends active type =
      if-Sends (type == "IntroducerPresent") _ _
        (All-must Sends (as_num (get "level" m)) _ (λ l x. tt))
        (if-Sends (type == "IntroducerRollCall") _ _ (present-IsSendable s.level, tt)
          (if-Sends (type == "Reconnected") _ _
            (present-IsSendable s.level, (roll_call-IsSendable, tt))
            (if-Sends active _ _
              (All-trace Sends (serve s type m) _ (serve-Sends type) (λ t u e. tt)) tt)))

-- Whatever comes in, what an introducer sends are messages of the program's types once they are tagged.
pub step-Sends : (s : Setup) (active : Bool) (e : Event) → All Sends (trace (step s active e))
unfolding step send_roll_call
step-Sends s true timeout = tt
step-Sends s false timeout = (roll_call-IsSendable, tt)
step-Sends s active (message m) =
    All-must Sends (text_at "type" m) _ (λ t x. on_message-Sends s m active t)
