-- ===== src/Key.antt =====
-- The commands of key.go, which get, store, clear, check and copy the key, and the subshell of shell.go.
pub mod Trimmed
pub mod Stored
mod Examples
use pmb.Base.{
  ℕ, String, Bool, not, Option, none, some, List, [], ◌∷◌, ◌==◌, ◌⊎◌, inl, inr, is_set,
  if◌then◌else◌,
}
use pmb.Base.Go.{◌>>=◌, ◌>>◌, Go, done, fails, lift, emit}
use pmb.Base.Trim.{trim_space}
use pmb.Keys.{join_keys}
use pmb.CredHelper.{
  Crocker, get_cred_helper_key, store_cred_helper_key, clear_cred_helper_key, secret_of,
}
use pmb.Client.{Effect, Connection}
use pmb.Connect.{Config, Settings, Outside, get_config, connect_client, copy_key}

-- What the commands look at: the credential helper, the text of each file that can be read, the
-- standard input or its error, the variables of the environment, and the broker of the config file.
pub record Machine (S : Type 0) : Type 0 where
  pub helper : S
  pub file : String → Option String
  pub stdin : String ⊎ String
  pub env_broker : String
  pub env_key : String
  pub conf_broker : Option String

-- What a command does on the bus, and what it prints or puts into the environment of its children.
pub data Act : Type 0 where
  on_bus : Effect → Act
  prints : String → Act
  exports_key : String → Act
  starts : String → List String → Act

-- How Execute ends without an error: it returns, or it calls os.Exit.
pub data Exit : Type 0 where
  returns : Exit
  exits : ℕ → Exit

module _ {S : Type 0} (c : Crocker S) where
  abbrev pub settings : Machine S → Settings
  settings w = record {
    env_broker = w.env_broker;
    conf_broker = w.conf_broker;
    env_key = w.env_key;
    helper_key = secret_of (get_cred_helper_key c w.helper);
  }

  -- getKey, an error or the key: a file that cannot be read gives the empty key.
  unfoldable pub get_key : Machine S → String → String → String ⊎ String
  get_key w file_opt key_opt =
      if is_set file_opt
      then (if file_opt == "-"
          then (elim w.stdin [ inl e ↦ inl e | inr text ↦ inr (trim_space text) ])
          else (elim (w.file file_opt) [ some key_data ↦ inr key_data | none ↦ inr "" ]))
      else inr key_opt

  -- StoreKeyCommand.Execute: the state of the helper after it, and how it ends.
  abbrev pub stored : S × Option String → S × Go Act Exit
  stored (s, none) = (s, done [] returns)
  stored (s, some e) = (s, fails [] e)

  unfoldable pub store_key : Machine S → String → String → S × Go Act Exit
  unfolding get_key
  store_key w file_opt key_opt = elim (get_key w file_opt key_opt) [
    | inl e ↦ (w.helper, fails [] e)
    | inr key ↦ stored (store_cred_helper_key c w.helper key)
  ]

  -- ClearKeyCommand.Execute
  abbrev pub cleared : S × Option String → S × Go Act Exit
  cleared (s, some e) = (s, done [] (exits 0))
  cleared (s, none) = (s, done [] (exits 1))

  unfoldable pub clear_key : Machine S → S × Go Act Exit
  clear_key w = cleared (clear_cred_helper_key c w.helper)

  -- GetKeyCommand.Execute, with the id that was generated and what the connection meets.
  unfoldable pub local_check : Machine S → Go Act Exit
  local_check w =
      let key = secret_of (get_cred_helper_key c w.helper) in
      if is_set key then done (prints key ∷ []) (exits 0) else done [] (exits 1)

  unfoldable pub print_key : Outside → Machine S → String → String → Bool → Bool → Go Act Exit
  print_key o w broker id trust_key is_local = if is_local then local_check w else (do
    conn ← lift on_bus (connect_client o (get_config (settings w) broker) id (not trust_key))
    emit (prints (join_keys conn.keys))
    done [] returns)

  -- CheckKeyCommand.Execute: the key becomes PMB_KEY, and the program connects with it.
  unfoldable pub check_key :
      Outside → Machine S → String → String → Bool → String → String → Go Act Exit
  check_key o w broker id trust_key file_opt key_opt = elim (get_key w file_opt key_opt) [
    | inl e ↦ fails [] e
    | inr key ↦ (do
      conn ← lift on_bus (
          connect_client o (get_config (settings (record w { env_key = key })) broker) id
            (not trust_key))
      done [] returns)
  ]

  -- CopyKeyCommand.Execute
  unfoldable pub copy_key_command : Outside → Machine S → String → String → Go Act Exit
  copy_key_command o w broker id = do
    conn ← lift on_bus (copy_key o (get_config (settings w) broker) id)
    done [] returns

-- runShell: PMB_KEY for the subshell, and the shell; the last argument is the error of cmd.Run.
unfoldable pub run_shell : Connection → String → Option String → Go Act Exit
run_shell conn shell failure = do
  emit (exports_key (join_keys conn.keys))
  emit (starts (if is_set shell then shell else "/bin/bash") ("-l" ∷ []))
  elim failure [ none ↦ done [] returns | some e ↦ fails [] e ]

-- ShellCommand.Execute
unfoldable pub execute_shell :
    Outside → Config → String → Bool → String → Option String → Go Act Exit
execute_shell o c id trust_key shell failure = do
  conn ← lift on_bus (connect_client o c id (not trust_key))
  run_shell conn shell failure
