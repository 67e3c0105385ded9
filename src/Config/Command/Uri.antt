-- ===== src/Config/Command/Uri.antt =====
-- The broker's URI, from the command of config.go to GetPMB of api/pmb.go.
use pmb.Base.{String, sym, ap, false, Option, none, some, is_set}
use pmb.Base.Go.{Go}
use pmb.Config.{split_key}
use pmb.Config.Client.Layers.{IsNamed}
use pmb.Config.Command.{Options}

-- `pmb config broker.uri URI`
abbrev pub set_uri : String → Options
set_uri uri = record {
  system = false;
  unset_key = false;
  list = false;
  key = "broker.uri";
  value = uri;
}

abbrev section_of : Option (String × String) → String
section_of none = ""
section_of (some name) = name.0

pub uri-IsNamed : IsNamed "broker.uri"
unfolding split_key
uri-IsNamed section name h = sym (ap (λ o. is_set (section_of o)) h)
