-- ===== src/Protocol/Examples.antt =====
-- Messages of the program's types at concrete inputs.
use pmb.Base.{true, false, none, [], ◌∷◌, All, ◌==◌}
use pmb.Base.Go.{trace}
use pmb.Base.Float.{whole}
use pmb.Json.{Fields, str, end, field}
use pmb.Desktop.{Desk}
use pmb.Introducer.{Setup, message, step}
use pmb.Client.{
  Connection, Notification, incoming, timeout, test_auth, send_notification, run_remote_copy,
  run_open_url,
}
use pmb.Mobile.{Levels}
use pmb.Protocol
use pmb.Protocol.Senders.{clients-Sends}
use pmb.Protocol.Senders
use pmb.Protocol.Replies.{Sends, step-Sends}

abbrev desk : Desk
desk = record {
  look = λ name. name == "tmux";
  temp_name = "/tmp/pmb1";
  temp_error = none;
  write_error = none;
  close_error = none;
  rename_error = none;
  browse_error = none;
}

abbrev setup : Setup
setup = record {
  level = whole 2;
  level_sticky = whole 4;
  keys = [];
  desk = desk;
  screen_saver = false;
}

abbrev levels : Levels
levels = record { always = whole 4; unacknowledged = whole 2; unseen = whole 2 }

-- A request, and one without the text under `data`.
abbrev copy_data : Fields
copy_data = field "type" (str "CopyData") (field "data" (str "text") (field "id" (str "ann") end))

abbrev broken : Fields
broken = field "type" (str "CopyData") end

step-Sends_example : All Sends (trace (step setup true (message broken)))
step-Sends_example = step-Sends setup true (message broken)

abbrev conn : Connection
conn = record { id = "ann"; keys = "key" ∷ [] }

abbrev note : Notification
note = record { message = "done"; url = ""; level = whole 3 }

clients-Sends_example :
    All Senders.Sends (trace (run_remote_copy conn "ann" "text" (incoming broken ∷ timeout ∷ [])))
    × All Senders.Sends
        (trace (run_open_url conn "ann" "text" true (incoming broken ∷ timeout ∷ [])))
    × All Senders.Sends (trace (test_auth ("key" ∷ []) "ann" (incoming broken ∷ timeout ∷ [])))
    × All Senders.Sends (trace (send_notification "n1" conn note (incoming broken ∷ timeout ∷ [])))
clients-Sends_example =
    clients-Sends conn "ann" "text" true "n1" note ("key" ∷ []) (incoming broken ∷ timeout ∷ [])
