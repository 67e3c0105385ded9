-- ===== src/Watch/Examples.antt =====
-- Runs of watch.go at concrete inputs.
use pmb.Base.{inl, refl, some, [], ◌∷◌}
use pmb.Base.Go.{trace}
use pmb.Base.Float.{whole}
use pmb.Client.{Event, Connection, send_notification, await}
use pmb.Watch.{
  Options, exits_well, exit_error, find_process, watch_process, watch_file, process_part, file_part,
  run_watch,
}
use pmb.Watch.Ready.{Sends, Ready, run_watch-Ready}

abbrev options : Options
options = record { message = ""; pid = some "7"; file = "/tmp/log"; level = whole 3 }

abbrev conn : Connection
conn = record { id = "watch-1"; keys = [] }

note_sent : Sends (
    trace (
      run_watch options "n1" conn
        (exits_well ∷ exit_error ∷ [])
        (some 10 ∷ some 20 ∷ some 20 ∷ [])
        (Event.timeout ∷ [])))
unfolding run_watch process_part file_part watch_process watch_file find_process send_notification
    await
note_sent = inl ([], _, refl)

run_watch-Ready_example :
    Ready options (exits_well ∷ exit_error ∷ []) (some 10 ∷ some 20 ∷ some 20 ∷ [])
run_watch-Ready_example =
    run_watch-Ready options "n1" conn (exits_well ∷ exit_error ∷ [])
      (some 10 ∷ some 20 ∷ some 20 ∷ []) (Event.timeout ∷ []) note_sent
