-- ===== src/Launchd/Examples.antt =====
-- The launch agent of osx.go at concrete inputs.
use pmb.Base.{true, none, some}
use pmb.Launchd.{Mac, listed, exit_error}
use pmb.Launchd.Agents.{Agent}

abbrev mac : Mac
mac = record {
  home = "/Users/ann";
  executable = "/usr/local/bin/pmb";
  executable_error = none;
  broker = "amqp://host";
  write_error = none;
  remove_error = none;
  stopping = record { listing = listed; action_error = none };
  starting = record { listing = exit_error; action_error = none };
}

abbrev running : Agent
running = record { text = some "old"; loaded = true }
