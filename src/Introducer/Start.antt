-- ===== src/Introducer/Start.antt =====
-- IntroducerCommand.Execute of introducer.go: which key an introducer runs with, its name, and the
-- launch agent or the service that it starts.
pub mod Restart
pub mod Fresh
mod Examples
use text.Mathlib.Text.{starts_with}
use pmb.Base.{
  String, Bool, true, false, not, ◌&&◌, ◌||◌, Option, none, some, List, [], ◌∷◌, ◌<>◌, is_set,
  if◌then◌else◌,
}
use pmb.Base.Go.{Go, done, lift, ◌>>=◌, ◌>>◌}
use pmb.CredHelper.{Crocker, get_cred_helper_key, store_cred_helper_key, secret_of}
use pmb.Client
use pmb.Connect.{Outside, Settings, get_config, connect_introducer}
use pmb.Launchd.{Mac, handle_osx_command}
use pmb.Launchd
use pmb.Desktop
use pmb.Introducer.{Setup, Event, run_introducer}

-- What the choice of the key reads and writes: the credential helper's state, the text of the file
-- ~/.pmb_key, whether WriteFile and Remove fail on it, and the variable PMB_KEY.
pub record World (S : Type 0) : Type 0 where
  pub helper : S
  pub key_file : Option String
  pub write_fails : Bool
  pub remove_fails : Bool
  pub env_key : String

abbrev pub ok : Option String → Bool
ok none = true
ok (some e) = false

module _ {S : Type 0} (c : Crocker S) where
  -- An old key file is moved to the helper, if that takes it.
  unfoldable pub migrate_key : World S → String → World S
  migrate_key w key =
      let (helper, err) = store_cred_helper_key c w.helper key in
      record {
        helper = helper;
        key_file = if ok err && not w.remove_fails then none else w.key_file;
        write_fails = w.write_fails;
        remove_fails = w.remove_fails;
        env_key = key;
      }

  -- A new key goes to the helper, or else to the file.
  unfoldable pub keep_new_key : World S → String → World S
  keep_new_key w key =
      let (helper, err) = store_cred_helper_key c w.helper key in
      record {
        helper = helper;
        key_file = if ok err || w.write_fails then w.key_file else some key;
        write_fails = w.write_fails;
        remove_fails = w.remove_fails;
        env_key = key;
      }

  -- The branch of PersistKey; the last argument is the key that would be generated.
  unfoldable pub persist_key : World S → String → World S
  unfolding migrate_key keep_new_key
  persist_key w generated =
      let key = secret_of (get_cred_helper_key c w.helper) in
      if is_set key
      then record w { env_key = key }
      else (elim w.key_file [ some key ↦ migrate_key w key | none ↦ keep_new_key w generated ])

  unfoldable pub choose_key : Bool → World S → String → World S
  choose_key persist w generated =
      if persist then persist_key w generated else record w { env_key = generated }

-- The name of the introducer; `suffix` is the random text for a host without a name.
unfoldable pub introducer_name : String → Option String → String → String
introducer_name name hostname suffix = if is_set name then name else (elim hostname [
  | none ↦ "introducer-unknown-hostname-" <> suffix
  | some h ↦ "introducer-" <> h
])

-- The arguments of the launch agent: all but the option that made it.
unfoldable pub filter_args : List String → List String
filter_args [] = []
filter_args (arg ∷ args) =
    let rest = filter_args args in
    if starts_with arg "-x=" || starts_with arg "--osx=" then rest else arg ∷ rest

-- What Execute does: with the broker as a client does, with launchd, and on the desktop.
pub data Deed : Type 0 where
  connects : Client.Effect → Deed
  launches : Launchd.Act → Deed
  serves : Desktop.Act → Deed

-- IntroducerCommand: the options, and what its Execute reads.
pub record Command : Type 0 where
  pub name : String
  pub osx : String
  pub persist : Bool
  pub hostname : Option String
  pub suffix : String
  pub args : List String
  pub broker_uri : String

-- Execute, after the key was chosen: `env_key` is PMB_KEY. The setup is completed by the keys of the
-- connection, and `es` are the events of the service.
unfoldable pub execute_with :
    Command → Settings → String → Outside → Mac → Setup → List Event → Go Deed Unit
execute_with x s env_key o mac setup es =
    let config = get_config (record s { env_key = env_key }) x.broker_uri in
    if is_set x.osx
    then lift launches (
        handle_osx_command (record mac { broker = config.broker }) x.osx "introducer"
          (filter_args x.args))
    else (do
      conn ←
          lift connects (connect_introducer o config (introducer_name x.name x.hostname x.suffix))
      active ← lift serves (run_introducer (record setup { keys = conn.keys }) es)
      done [] tt)

-- Execute; `generated` is the text of GenerateRandomString(32).
unfoldable pub execute :
    {S : Type 0}
    → Crocker S
    → Command
    → Settings
    → World S
    → String
    → Outside
    → Mac
    → Setup
    → List Event
    → World S × Go Deed Unit
execute c x s w generated o mac setup es =
    let w' = choose_key c x.persist w generated in (w', execute_with x s w'.env_key o mac setup es)
