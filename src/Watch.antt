-- ===== src/Watch.antt =====
-- watch.go: a note when a process has ended or a file has stopped growing. What the polls of `ps` and
-- of the file's size find, one after the other, are lists.
pub mod Ready
mod Examples
use pmb.Base.{
  ℕ, String, Bool, false, Option, none, some, List, [], ◌∷◌, ◌<>◌, is_set, nat_eq, if◌then◌else◌,
}
use pmb.Base.Go.{Go, done, panics, waits, ◌>>=◌}
use pmb.Base.Float.{Float64}
use pmb.Client.{Effect, Event, Connection, send_notification}

-- The options of WatchCommand; `pid` is the text of a pid other than 0, `file` is empty for none.
pub record Options : Type 0 where
  pub message : String
  pub pid : Option String
  pub file : String
  pub level : Float64

-- How a run of `/bin/ps` for the pid ends.
pub data Poll : Type 0 where
  exits_well : Poll
  exit_error : Poll
  run_error : String → Poll

-- findProcess: the name that it gives to a process that it finds.
unfoldable pub find_process : String → Poll → Option String
find_process pid exits_well = some ("pid " <> pid)
find_process pid exit_error = none
find_process pid (run_error e) = none

-- The loop over findProcess; `name` is watchExecutable.
unfoldable pub watch_process : String → List Poll → String → Go Effect String
unfolding find_process
watch_process pid [] name = waits []
watch_process pid (p ∷ ps) name =
    let later = λ (exec : String). watch_process pid ps (if is_set name then name else exec) in
    elim (find_process pid p) [ none ↦ done [] name | some exec ↦ later exec ]

abbrev pub same_size : Option ℕ → ℕ → Bool
same_size none size = false
same_size (some prev) size = nat_eq prev size

-- The loop over os.Stat. The first size is compared with -1; a file that is gone is a nil value.
unfoldable pub watch_file : List (Option ℕ) → Option ℕ → Go Effect Unit
watch_file [] prev = waits []
watch_file (none ∷ ss) prev = panics []
watch_file (some size ∷ ss) prev =
    let rest = watch_file ss (some size) in if same_size prev size then done [] tt else rest

-- The first and the second part of runWatch give the message that is sent.
unfoldable pub process_part : Options → List Poll → Go Effect String
process_part o polls = elim o.pid [
  | none ↦ done [] o.message
  | some pid ↦ watch_process pid polls "" >>= λ name.
      done [] (if is_set o.message then o.message else "Command [" <> name <> "] completed.")
]

unfoldable pub file_part : Options → List (Option ℕ) → String → Go Effect String
file_part o sizes message =
    if is_set o.file
    then (watch_file sizes none >>= λ stable.
        done [] (if is_set message then message else "File [" <> o.file <> "] stabilized."))
    else done [] message

-- runWatch
unfoldable pub run_watch :
    Options → String → Connection → List Poll → List (Option ℕ) → List Event → Go Effect Unit
run_watch o notification_id conn polls sizes es = do
  ended ← process_part o polls
  message ← file_part o sizes ended
  send_notification notification_id conn (record { message = message; url = ""; level = o.level })
      es
