-- ===== src/Config.antt =====
-- api/config_api.go: the names of settings, a section and a key with a dot between them. The library
-- ini that holds the settings is not modelled.
pub mod Names
pub mod Client
pub mod Command
mod Examples
use Prim.Native.Char.{Char, code}
use Prim.Native.String
use pmb.Base.{String, Option, none, some, ◌<>◌, nat_eq, if◌then◌else◌}

abbrev pub prepend : Char → Option (String × String) → Option (String × String)
prepend c none = none
prepend c (some (section, key)) = some (String.◌∷◌ c section, key)

-- splitKey: `strings.SplitN(key, ".", 2)`; `none` is the panic at `parts[1]`.
unfoldable pub split_key : String → Option (String × String)
split_key String.[] = none
split_key (String.◌∷◌ c s) = if nat_eq (code c) b'.' then some ("", s) else prepend c (split_key s)

-- The name that GetAll gives to a setting, `fmt.Sprintf("%s.%s", section.Name(), key.Name())`.
unfoldable pub full_name : String → String → String
full_name section key = section <> "." <> key
