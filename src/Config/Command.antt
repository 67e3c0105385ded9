-- ===== src/Config/Command.antt =====
-- ConfigCommand.Execute of config.go, and the broker's URI that GetPMB reads from the configuration.
pub mod Uri
use pmb.Base.{String, Bool, Option, none, some, List, [], ◌∷◌, is_set, if◌then◌else◌}
use pmb.Base.Go.{Go, done, fails, panics}
use pmb.Config.Client.{
  Load, loaded, failed, Ini, RealConfigClient, Reply, ok, error, panic, set, unset, get, get_all,
  Place, new_default_config_client,
}

-- The options and arguments of ConfigCommand.
pub record Options : Type 0 where
  pub system : Bool
  pub unset_key : Bool
  pub list : Bool
  pub key : String
  pub value : String

-- A line of the output: a setting of the list, or a value.
pub data Line : Type 0 where
  setting : String → String → Line
  text : String → Line

abbrev pub settings_lines : List (String × String) → List Line
settings_lines [] = []
settings_lines ((k, v) ∷ ss) = setting k v ∷ settings_lines ss

abbrev pub print : {A : Type 0} → (A → List Line) → Reply A → Go Line Unit
print lines (ok a) = done (lines a) tt
print lines (error e) = fails [] e
print lines panic = panics []

module _ {D F : Type 0} (i : Ini D F) where
  -- Execute with the client that it opened: the disk after it, and its output.
  unfoldable pub run_config : RealConfigClient → Options → D → D × Go Line Unit
  run_config r o d =
      if o.list
      then (d, print settings_lines (get_all i r d))
      else if o.unset_key
      then (let (d', reply) = unset i r d o.system o.key in (d', print (λ u. []) reply))
      else if is_set o.value
      then (let (d', reply) = set i r d o.system o.key o.value in (d', print (λ u. []) reply))
      else if is_set o.key
      then (d, print (λ v. text v ∷ []) (get i r d o.key))
      else (
        d,
        fails [] "Specify a key and optional value to set or pass --help for more information",
      )

  unfoldable pub execute_config : Place → Options → D → D × Go Line Unit
  execute_config p o d = elim (new_default_config_client p) [
    | failed e ↦ (d, fails [] e)
    | loaded r ↦ run_config r o d
  ]

  -- `confBrokerURI` of getConfig; `none` where there is no client or no value.
  unfoldable pub conf_broker_uri : Load RealConfigClient → D → Option String
  conf_broker_uri (failed e) d = none
  conf_broker_uri (loaded r) d = elim (get i r d "broker.uri") [
    | ok uri ↦ some uri
    | error e ↦ none
    | panic ↦ none
  ]
