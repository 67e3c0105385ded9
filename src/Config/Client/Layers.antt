-- ===== src/Config/Client/Layers.antt =====
-- The layers of the configuration of api/config_api.go.
use pmb.Base.{is_set, true, String, ◌≡◌, Option, none, some, [], ◌∷◌}
use pmb.Config.{split_key}
use pmb.Config.Client.{loaded, Ini, RealConfigClient, Reply, ok, panic, or_empty}

module _ {D F : Type 0} (i : Ini D F) (r : RealConfigClient) where
  -- What a successful Set has done.
  record Stored (d d' : D) (path key v : String) : Type 0 where
    file : F
    changed : F
    section : String
    name : String
    load : i.loose_load d (path ∷ []) ≡ loaded file
    parts : split_key key ≡ some (section, name)
    new : i.new_key file section name v ≡ loaded changed
    write : i.save d changed path ≡ (d', none)

  -- What Get gives for the file that was loaded.
  abbrev answer : F → Option (String × String) → Reply String
  answer f none = panic
  answer f (some (section, k)) = ok (or_empty (i.value f section k))

-- If the name of a setting has a section, that is not empty.
abbrev pub IsNamed : String → Type 0
IsNamed key = (section name : String) → split_key key ≡ some (section, name) → is_set section ≡ true
