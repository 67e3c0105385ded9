-- ===== src/Mobile/Examples.antt =====
-- notify_mobile.go at concrete inputs.
use pmb.Base.{String, ◌≡◌, refl, [], ◌∷◌}
use pmb.Base.Go.{done}
use pmb.Base.Float.{whole}
use pmb.Json.{Fields, str, num, end, field, get}
use pmb.Mobile.{push_run}
use pmb.Mobile.Recent.{Note, last_ten, texts_after, sent_after, push_run-refines}
use pmb.Mobile.Agent.{selecting, waiting, receive, without, here, then_step, takes}
use pmb.Mobile.Agent.Deadlock.{system}
use pmb.Mobile.Agent.Safe.{IsSafe, Reach-IsSafe}

-- A message of a type about the notification n1.
abbrev about : String → Fields
about type = field "type" (str type) (
    field "notification-id" (str "n1")
      (field "message" (str "text") (field "level" (num (whole 4)) end)))

abbrev note : Note
note = record { id = "n1"; text = "text" }

push_run-refines_example :
    push_run (last_ten []) (about "Notification" ∷ about "Notification" ∷ [])
    ≡ done (texts_after [] (note ∷ note ∷ [])) (last_ten (sent_after [] (note ∷ note ∷ [])))
unfolding get
push_run-refines_example =
    push_run-refines [] (note ∷ note ∷ []) (about "Notification" ∷ about "Notification" ∷ [])
      ((refl, refl), ((refl, refl), tt))

Reach-IsSafe_example : IsSafe (system "n1" (about "Notification") selecting waiting [])
unfolding get receive without
Reach-IsSafe_example =
    Reach-IsSafe {u = system "n1" (about "Notification") selecting waiting []}
      (then_step here (takes (about "Notification") refl refl))
