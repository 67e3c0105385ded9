-- ===== src/Entry.antt =====
-- main.go, syslog.go, syslog_windows.go and version.go: the options of the logger, a line for syslog, and
-- `pmb version`. The libraries go-flags and logrus are not modelled: which options come in which order,
-- and whether the hook for syslog is made, are arguments.
pub mod Logging
use pmb.Base.{String, Bool, true, false, List, [], ◌∷◌, ◌++◌, Bytes, is_set, ◌<>◌, if◌then◌else◌}

pub data Level : Type 0 where
  info warn debug : Level

pub data Formatter : Type 0 where
  text json syslog : Formatter

-- What the program sets of logrus; `discards` is its output to ioutil.Discard, `hooked` the syslog hook.
pub record Logger : Type 0 where
  pub level : Level
  pub formatter : Formatter
  pub discards : Bool
  pub hooked : Bool

-- -q, -v, -j and -s of GlobalOptions.
pub data Flag : Type 0 where
  quiet verbose log_json log_syslog : Flag

-- The start of main.
abbrev pub start_logger : Logger
start_logger = record { level = info; formatter = text; discards = false; hooked = false }

-- setupSyslog; on Windows, and where the hook is not made, nothing is set.
unfoldable pub setup_syslog : Bool → Logger → Logger
setup_syslog true l = record l { formatter = syslog; discards = true; hooked = true }
setup_syslog false l = l

-- The functions behind the options.
unfoldable pub set_flag : Bool → Flag → Logger → Logger
unfolding setup_syslog
set_flag has_hook quiet l = record l { level = warn }
set_flag has_hook verbose l = record l { level = debug }
set_flag has_hook log_json l = record l { formatter = json }
set_flag has_hook log_syslog l = setup_syslog has_hook l

-- The parser calls them in the order of the command line.
unfoldable pub set_flags : Bool → List Flag → Logger → Logger
unfolding set_flag
set_flags has_hook [] l = l
set_flags has_hook (f ∷ fs) l = set_flags has_hook fs (set_flag has_hook f l)

-- SyslogFormatter.Format
unfoldable pub format : Bytes → Bytes
format message = message ++ 10 ∷ []

-- VersionCommand.Execute: the line that it prints.
unfoldable pub version_line : String → String
version_line version =
    if is_set version then "version: " <> version else "unknown version, compiled from git"
