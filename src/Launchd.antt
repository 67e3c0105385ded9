-- ===== src/Launchd.antt =====
-- osx.go: pmb as a launch agent of macOS. The calls of launchctl and of the file system are effects,
-- and how each ends is an argument.
pub mod Agents
mod Examples
use pmb.Base.{String, Option, none, some, List, [], ◌∷◌, ◌==◌, ◌<>◌, is_set, if◌then◌else◌}
use pmb.Base.Go.{◌>>=◌, ◌>>◌, Go, done, fails, emit}

pub data Act : Type 0 where
  runs : List String → Act
  writes : String → String → Act
  removes : String → Act
  prints_help : Act

-- How a run of `launchctl list` ends: well, with an exit code, or with another error.
pub data Listing : Type 0 where
  listed : Listing
  exit_error : Listing
  run_error : String → Listing

-- What one call of start or stop meets: the listing, and the error of load or unload.
pub record Launchctl : Type 0 where
  pub listing : Listing
  pub action_error : Option String

abbrev pub check : Option String → Go Act Unit
check none = done [] tt
check (some e) = fails [] e

-- start
unfoldable pub start : Launchctl → String → String → Go Act Unit
start l file agent = do
  emit (runs ("/bin/launchctl" ∷ "list" ∷ agent ∷ []))
  elim l.listing [
    | exit_error ↦ (do emit (runs ("/bin/launchctl" ∷ "load" ∷ file ∷ [])); check l.action_error)
    | run_error e ↦ fails [] e
    | listed ↦ done [] tt
  ]

-- stop
unfoldable pub stop : Launchctl → String → String → Go Act Unit
stop l file agent = do
  emit (runs ("/bin/launchctl" ∷ "list" ∷ agent ∷ []))
  elim l.listing [
    | listed ↦ (do emit (runs ("/bin/launchctl" ∷ "unload" ∷ file ∷ [])); check l.action_error)
    | exit_error ↦ done [] tt
    | run_error e ↦ fails [] e
  ]

-- configure and unconfigure; the first argument is the error of WriteFile or Remove.
unfoldable pub configure : Option String → String → String → Go Act Unit
configure err file config = do emit (writes file config); check err

unfoldable pub unconfigure : Option String → String → Go Act Unit
unconfigure err file = do emit (removes file); check err

pub record LaunchData : Type 0 where
  pub name : String
  pub executable : String
  pub broker : String
  pub home_dir : String
  pub args : List String

-- `{{ range .Args }}`
unfoldable pub args_text : List String → String
args_text [] = "\n"
args_text (arg ∷ args) = "\n\t\t\t<string>" <> arg <> "</string>\n" <> args_text args

-- generateLaunchConfig: text/template puts the values in as they are.
unfoldable pub generate_launch_config : LaunchData → String
generate_launch_config d =
    "<?xml version=\"1.0\" encoding=\"UTF-8\"?>\n"
    <> "<!DOCTYPE plist PUBLIC \"-//Apple Computer//DTD PLIST 1.0//EN\" \"http://www.apple.com/DTDs/PropertyList-1.0.dtd\">\n"
    <> "<plist version=\"1.0\">\n\t<dict>\n\t\t<key>Label</key>\n\t\t<string>"
    <> d.name
    <> "</string>\n\t\t<key>KeepAlive</key>\n\t\t<true/>\n\t\t<key>EnvironmentVariables</key>\n\t\t<dict>\n"
    <> "\t\t\t<key>PATH</key>\n\t\t\t<string>/usr/bin:/bin:/usr/sbin:/sbin:/usr/local/bin</string>\n"
    <> "\t\t\t<key>PMB_BROKER_URI</key>\n\t\t\t<string>"
    <> d.broker
    <> "</string>\n\t\t</dict>\n\t\t<key>StandardOutPath</key>\n\t\t<string>"
    <> d.home_dir
    <> "/.pmb.log</string>\n\t\t<key>StandardErrorPath</key>\n\t\t<string>"
    <> d.home_dir
    <> "/.pmb.log</string>\n\t\t<key>ProgramArguments</key>\n\t\t<array>\n\t\t\t<string>"
    <> d.executable
    <> "</string>\n"
    <> args_text d.args
    <> "\t\t</array>\n\t</dict>\n</plist>"

-- What handleOSXCommand meets: the variable HOME, the path of the program or the error of osext, the
-- broker, and how its calls end. A restart makes the call of stop, then that of start.
pub record Mac : Type 0 where
  pub home : String
  pub executable : String
  pub executable_error : Option String
  pub broker : String
  pub write_error : Option String
  pub remove_error : Option String
  pub stopping : Launchctl
  pub starting : Launchctl

abbrev pub agent_name : String → String
agent_name subcommand = "org.endot.pmb." <> subcommand

abbrev pub agent_file : Mac → String → String
agent_file m subcommand = m.home <> "/Library/LaunchAgents/" <> agent_name subcommand <> ".plist"

abbrev pub config_of : Mac → String → List String → String
config_of m subcommand args = generate_launch_config (record {
  name = agent_name subcommand;
  executable = m.executable;
  broker = m.broker;
  home_dir = if is_set m.home then m.home else "/tmp";
  args = args;
})

-- The `switch` of handleOSXCommand.
unfoldable pub dispatch : Mac → String → String → String → String → Go Act Unit
dispatch m command agent file config =
    if command == "list"
    then emit prints_help
    else if command == "restart"
    then (do
      configure m.write_error file config
      stop m.stopping file agent
      start m.starting file agent)
    else if command == "stop"
    then (do
      configure m.write_error file config
      stop m.stopping file agent
      unconfigure m.remove_error file)
    else if command == "start"
    then (do configure m.write_error file config; start m.starting file agent)
    else if command == "configure"
    then configure m.write_error file config
    else if command == "unconfigure"
    then unconfigure m.remove_error file
    else done [] tt

-- handleOSXCommand
unfoldable pub handle_osx_command : Mac → String → String → List String → Go Act Unit
handle_osx_command m command subcommand args = do
  check m.executable_error
  dispatch m command (agent_name subcommand) (agent_file m subcommand) (config_of m subcommand args)
