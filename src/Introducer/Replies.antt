-- ===== src/Introducer/Replies.antt =====
-- Requests and replies end to end: an active introducer of introducer.go, and the clients of
-- api/pmb.go, remotecopy.go, openurl.go and notify.go that wait for its replies.
use pmb.Base.{String, ◌≡◌, inl, inr, refl, ◌∙◌, true, false, some, List, [], ◌∷◌, Any}
use pmb.Base.Go.{done, trace}
use pmb.Base.Float.{Float64, ge}
use pmb.Json.{Fields, num, get, text_at, get-put}
use pmb.Wire.{Host, tag}
use pmb.Wire.Sent.{tag-type}
use pmb.Client.{is_reply, await, incoming}
use pmb.Client
use pmb.Client.Await.{IsReply, is_reply-IsReply}
use pmb.Desktop.{Act, sends, runs}
use pmb.Desktop.Safe.{HasClipboard, copy_to_clipboard-cases, display_notice-done}
use pmb.Introducer.{
  Setup, message, serve_copy, serve_test, serve_notification, serve, on_message, step,
}

pub tag-origin :
    (h : Host) (now id : String) (m : Fields)
    → text_at "origin" (tag h now id m) ≡ text_at "origin" m
unfolding tag
tag-origin h now id m = simp get-put

-- Among the effects is a message that the waiting client `id` takes as its reply, once it is tagged
-- by whoever sends it, whatever comes after.
abbrev pub Answers : String → String → List Act → Type 0
Answers type id t =
    Any
      (λ a.
        (r : Fields) × (a ≡ sends r)
        × ((h : Host) (now sender problem : String) (rest : List Client.Event)
            → await type id problem (incoming (tag h now sender r) ∷ rest) ≡ done [] tt))
      t

Answers-sends : (type id : String) (r : Fields) → IsReply type id r → Answers type id (sends r ∷ [])
unfolding await
Answers-sends type id r (e, f) = inl (
  r,
  refl,
  λ h now sender problem rest. rw (
    await,
    is_reply-IsReply type id (tag h now sender r)
        (tag-type h now sender r ∙ e, tag-origin h now sender r ∙ f),
  ),
)

-- A TestAuth of the client `id` is answered, so that its testAuth succeeds.
pub step-TestAuth :
    (s : Setup) (m : Fields) (id : String)
    → text_at "type" m ≡ some "TestAuth"
    → text_at "id" m ≡ some id
    → Answers "AuthValid" id (trace (step s true (message m)))
unfolding step on_message serve serve_test get
step-TestAuth s m id e f = rw (e, f) (Answers-sends "AuthValid" id _ (refl, refl))

-- A CopyData of the client `id`, on a desktop with a clipboard, is answered, so that its
-- runRemoteCopy succeeds, and the text has been handed to the clipboard program.
pub step-CopyData :
    (s : Setup) (m : Fields) (id text : String)
    → HasClipboard s.desk
    → text_at "type" m ≡ some "CopyData"
    → text_at "data" m ≡ some text
    → text_at "id" m ≡ some id
    → Answers "DataCopied" id (trace (step s true (message m)))
      × Any (λ a. (argv : List String) × (a ≡ runs argv text)) (trace (step s true (message m)))
unfolding step on_message serve serve_copy get
step-CopyData s m id text c e d f = elim (copy_to_clipboard-cases s.desk text) [
  | inr (n, x) ↦ absurd (n c)
  | inl (has, (argv, x)) ↦ elim (display_notice-done s.desk "Remote copy complete." false) [
    | inl y ↦
        rw (e, d, f, x, y) (inr (Answers-sends "DataCopied" id _ (refl, refl)), inl (argv, refl))
    | inr (notice, y) ↦
        rw (e, d, f, x, y)
          (inr (inr (Answers-sends "DataCopied" id _ (refl, refl))), inl (argv, refl))
  ]
]

-- A Notification of the client `id` with a level and an id is shown and answered, so that its
-- SendNotification succeeds.
pub step-Notification :
    (s : Setup) (m : Fields) (id text notification_id : String) (level : Float64)
    → text_at "type" m ≡ some "Notification"
    → get "level" m ≡ some (num level)
    → text_at "message" m ≡ some text
    → text_at "notification-id" m ≡ some notification_id
    → text_at "id" m ≡ some id
    → Answers "NotificationDisplayed" id (trace (step s true (message m)))
unfolding step on_message serve serve_notification get
step-Notification s m id text notification_id level e l t n f =
    elim (display_notice-done s.desk text (ge level s.level_sticky)) [
      | inl y ↦ rw (e, l, t, n, f, y) (Answers-sends "NotificationDisplayed" id _ (refl, refl))
      | inr (notice, y) ↦
          rw (e, l, t, n, f, y) (inr (Answers-sends "NotificationDisplayed" id _ (refl, refl)))
    ]
