-- ===== src/Introducer/Start/Examples.antt =====
-- Starts of an introducer at concrete inputs, with a credential helper of one secret.
use pmb.Base.{ℕ, String, ◌≡◌, refl, false, Option, none, some, [], ◌∷◌, ◌==◌, arith}
use pmb.Base.Go.{lift, done, ◌>>=◌}
use pmb.Base.Float.{whole}
use pmb.Keys.Shape.{IsKey}
use pmb.Random.{generate_random_string}
use pmb.Random.Bounds.{Draws}
use pmb.CredHelper.{Crocker, IsCrocker, secret, refused, get_cred_helper_key, store_cred_helper_key}
use pmb.Connect.{Outside, Settings, amqp, transport_of}
use pmb.Launchd.{Mac, exit_error}
use pmb.Desktop.{Desk}
use pmb.Introducer.{Setup, run_introducer}
use pmb.Introducer.Start.{World, persist_key, keep_new_key, Command, serves, execute}
use pmb.Introducer.Start.Restart.{persist_key-again}
use pmb.Introducer.Start.Fresh.{execute_fresh}

-- A helper that holds one secret.
abbrev helper : Crocker (Option String)
helper = record {
  finds = λ s. none;
  get = λ s url. elim s [ none ↦ refused "not found" | some key ↦ secret key ];
  put = λ s url key. (some key, none);
  erase = λ s url. (none, none);
}

helper-IsCrocker : IsCrocker helper
helper-IsCrocker = record {
  stored = λ s s' url key e. (refl, ground arith);
  unstored = λ s s' url key x e. cc;
}

abbrev world : World (Option String)
world = record {
  helper = none;
  key_file = none;
  write_fails = false;
  remove_fails = false;
  env_key = "";
}

persist_key-again_example :
    (persist_key helper (persist_key helper world "first") "second").env_key
    ≡ (persist_key helper world "first").env_key
unfolding persist_key keep_new_key get_cred_helper_key store_cred_helper_key
persist_key-again_example =
    persist_key-again helper helper-IsCrocker world "first" "second" refl refl

abbrev draw : ℕ → ℕ
draw i = 35

draw-Draws : Draws draw
draw-Draws i = omega arith

abbrev outside : Outside
outside = record { dial = λ t uri id sub. none; events = []; rounds = [] }

abbrev settings : Settings
settings = record { env_broker = ""; conf_broker = none; env_key = ""; helper_key = "" }

abbrev command : Command
command = record {
  name = "desk";
  osx = "";
  persist = false;
  hostname = none;
  suffix = "";
  args = [];
  broker_uri = "amqp://host";
}

abbrev mac : Mac
mac = record {
  home = "/Users/ann";
  executable = "/usr/local/bin/pmb";
  executable_error = none;
  broker = "";
  write_error = none;
  remove_error = none;
  stopping = record { listing = exit_error; action_error = none };
  starting = record { listing = exit_error; action_error = none };
}

abbrev desk : Desk
desk = record {
  look = λ name. name == "tmux";
  temp_name = "/tmp/pmb1";
  temp_error = none;
  write_error = none;
  close_error = none;
  rename_error = none;
  browse_error = none;
}

abbrev setup : Setup
setup = record {
  level = whole 5;
  level_sticky = whole 3;
  keys = [];
  desk = desk;
  screen_saver = false;
}

execute_fresh_example :
    (key : String) × (generate_random_string draw 0 32 ≡ some key)
    × IsKey key
    × ((execute helper command settings world key outside mac setup []).1 ≡ (
        lift serves (run_introducer (record setup { keys = key ∷ [] }) []) >>= λ active.
        done [] tt))
unfolding transport_of
execute_fresh_example =
    execute_fresh draw 0 helper command settings world outside mac setup [] amqp draw-Draws refl
      refl refl refl refl
