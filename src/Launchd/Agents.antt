-- ===== src/Launchd/Agents.antt =====
-- The launch agent of osx.go: its file and whether it is loaded, before and after a command.
use pmb.Base.{
  String, ◌≡◌, Bool, true, false, Option, none, some, List, [], ◌∷◌, ◌==◌, if◌then◌else◌,
}
use pmb.Base.Go.{Go, done}
use pmb.Launchd.{Act, runs, writes, removes, prints_help, listed, exit_error, Launchctl}

-- The text of the agent's file, if there is one, and whether launchd has the agent loaded.
pub record Agent : Type 0 where
  pub text : Option String
  pub loaded : Bool

-- What an effect does to the agent of the file.
abbrev pub apply_act : Act → Agent → Agent
apply_act (writes file config) a = record a { text = some config }
apply_act (removes file) a = record a { text = none }
apply_act (runs (program ∷ verb ∷ rest)) a =
    if verb == "load"
    then record a { loaded = true }
    else if verb == "unload"
    then record a { loaded = false }
    else a
apply_act (runs _) a = a
apply_act prints_help a = a

abbrev pub apply : List Act → Agent → Agent
apply [] a = a
apply (x ∷ xs) a = apply xs (apply_act x a)

-- What launchctl tells of an agent that is loaded or not, and it does what it is told.
abbrev pub IsTruthful : Launchctl → Bool → Type 0
IsTruthful l loaded =
    (l.listing ≡ (if loaded then listed else exit_error)) × (l.action_error ≡ none)

-- What each command means.
abbrev pub meaning : String → String → Agent → Agent
meaning command config a =
    if command == "restart"
    then record { text = some config; loaded = true }
    else if command == "stop"
    then record { text = none; loaded = false }
    else if command == "start"
    then record { text = some config; loaded = true }
    else if command == "configure"
    then record a { text = some config }
    else if command == "unconfigure"
    then record a { text = none }
    else a

-- A run that succeeds and takes the agent from one state to another.
abbrev Takes : Go Act Unit → Agent → Agent → Type 0
Takes g a b = (t : List Act) × (g ≡ done t tt) × (apply t a ≡ b)
