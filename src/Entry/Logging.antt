-- ===== src/Entry/Logging.antt =====
-- What the options of main.go leave the logger with.
use pmb.Base.{◌≡◌, refl, Bool, true, false, List, [], ◌∷◌}
use pmb.Entry.{
  Level, warn, debug, Formatter, json, syslog, Logger, Flag, quiet, verbose, log_json, log_syslog,
  setup_syslog, set_flag, set_flags,
}

-- The level and the formatter by the last option that speaks of each.
abbrev pub last_level : Level → List Flag → Level
last_level v [] = v
last_level v (quiet ∷ fs) = last_level warn fs
last_level v (verbose ∷ fs) = last_level debug fs
last_level v (log_json ∷ fs) = last_level v fs
last_level v (log_syslog ∷ fs) = last_level v fs

abbrev pub last_formatter : Bool → Formatter → List Flag → Formatter
last_formatter has_hook v [] = v
last_formatter has_hook v (quiet ∷ fs) = last_formatter has_hook v fs
last_formatter has_hook v (verbose ∷ fs) = last_formatter has_hook v fs
last_formatter has_hook v (log_json ∷ fs) = last_formatter has_hook json fs
last_formatter true v (log_syslog ∷ fs) = last_formatter true syslog fs
last_formatter false v (log_syslog ∷ fs) = last_formatter false v fs

-- Of options that contradict each other the last one counts; an option for syslog without its hook
-- counts for nothing.
pub set_flags-last :
    (has_hook : Bool) (fs : List Flag) (l : Logger)
    → ((set_flags has_hook fs l).level ≡ last_level l.level fs)
      × ((set_flags has_hook fs l).formatter ≡ last_formatter has_hook l.formatter fs)
unfolding set_flags set_flag setup_syslog
set_flags-last has_hook [] l = (refl, refl)
set_flags-last has_hook (quiet ∷ fs) l = set_flags-last has_hook fs (record l { level = warn })
set_flags-last has_hook (verbose ∷ fs) l = set_flags-last has_hook fs (record l { level = debug })
set_flags-last has_hook (log_json ∷ fs) l =
    set_flags-last has_hook fs (record l { formatter = json })
set_flags-last true (log_syslog ∷ fs) l =
    set_flags-last true fs (record l { formatter = syslog; discards = true; hooked = true })
set_flags-last false (log_syslog ∷ fs) l = set_flags-last false fs l

-- Once the output is discarded for syslog, no further option brings it back.
pub set_flags-discards :
    (fs : List Flag) (l : Logger) → l.discards ≡ true → (set_flags true fs l).discards ≡ true
unfolding set_flags set_flag setup_syslog
set_flags-discards [] l h = h
set_flags-discards (quiet ∷ fs) l h = set_flags-discards fs (record l { level = warn }) h
set_flags-discards (verbose ∷ fs) l h = set_flags-discards fs (record l { level = debug }) h
set_flags-discards (log_json ∷ fs) l h = set_flags-discards fs (record l { formatter = json }) h
set_flags-discards (log_syslog ∷ fs) l h =
    set_flags-discards fs (record l { formatter = syslog; discards = true; hooked = true }) refl
