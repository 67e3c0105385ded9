-- ===== src/Desktop.antt =====
-- util.go: the clipboard, the browser and the notices of the local desktop. Programs are found by
-- `look` (exec.LookPath); a run of a program or of the browser library is an effect. The callers
-- ignore the errors of copyToClipboard and displayNotice, so these return none here.
pub mod Safe
use pmb.Base.{String, Bool, Option, none, some, List, [], ◌∷◌, ◌<>◌, if◌then◌else◌}
use pmb.Base.Go.{◌>>=◌, ◌>>◌, Go, done, fails, panics, emit}
use pmb.Json.{Fields}

-- `sends` is a message put on conn.Out, `runs` a command line with its standard input.
pub data Act : Type 0 where
  sends : Fields → Act
  runs : List String → String → Act
  creates : String → Act
  writes : String → String → Act
  renames : String → String → Act
  opens_file : String → Act
  opens_url : String → Act

-- The desktop: which programs it has, and the error, if any, of each file step and of the browser.
pub record Desk : Type 0 where
  pub look : String → Bool
  pub temp_name : String
  pub temp_error : Option String
  pub write_error : Option String
  pub close_error : Option String
  pub rename_error : Option String
  pub browse_error : Option String

-- copyToClipboard: with none of the programs, `cmd` stays nil and `cmd.Stdin` panics.
unfoldable pub copy_to_clipboard : Desk → String → Go Act Unit
copy_to_clipboard d text =
    if d.look "pbcopy"
    then emit (runs ("pbcopy" ∷ []) text)
    else if d.look "clip"
    then emit (runs ("clip" ∷ []) text)
    else if d.look "xclip"
    then emit (runs ("xclip" ∷ "-selection" ∷ "c" ∷ []) text)
    else if d.look "tmux"
    then emit (runs ("tmux" ∷ "load-buffer" ∷ "-" ∷ []) text)
    else panics []

-- displayNotice
unfoldable pub display_notice : Desk → String → Bool → Go Act Unit
display_notice d message sticky =
    if d.look "growlnotify"
    then emit (runs ("growlnotify" ∷ "-m" ∷ message ∷ (if sticky then "-s" ∷ [] else [])) "")
    else if d.look "terminal-notifier"
    then emit (runs ("terminal-notifier" ∷ "-message" ∷ message ∷ []) "")
    else if d.look "SnoreToast"
    then emit (runs ("SnoreToast" ∷ "-silent" ∷ "-t" ∷ "PMB" ∷ "-m" ∷ message ∷ []) "")
    else if d.look "notify-send"
    then emit (
        runs
          ("notify-send" ∷ "pmb" ∷ message ∷ (if sticky then "-t" ∷ "60" ∷ [] else "-t" ∷ "3" ∷ []))
          "")
    else if d.look "tmux"
    then emit (runs ("tmux" ∷ "display-message" ∷ message ∷ []) "")
    else done [] tt

-- `if err != nil { return err }`
abbrev pub check : Option String → Go Act Unit
check none = done [] tt
check (some e) = fails [] e

-- openURL; the later removal of the file is left out.
unfoldable pub open_url : Desk → String → Bool → Go Act Unit
open_url d text is_html =
    if is_html
    then (do
      check d.temp_error
      emit (creates d.temp_name)
      check d.write_error
      emit (writes d.temp_name text)
      check d.close_error
      check d.rename_error
      emit (renames d.temp_name (d.temp_name <> ".html"))
      emit (opens_file (d.temp_name <> ".html"))
      check d.browse_error)
    else (do emit (opens_url text); check d.browse_error)
