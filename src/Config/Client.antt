-- ===== src/Config/Client.antt =====
-- RealConfigClient of api/config_api.go and the command of config.go. The library ini and the disk
-- are the parameter `Ini`; `filepath` and `os` are in `Place`.
pub mod Layers
use pmb.Base.{
  String, ◌≡◌, ◌≢◌, Bool, true, ◌&&◌, Option, none, some, List, [], ◌∷◌, ◌++◌, ◌==◌, ◌<>◌, is_set,
  if◌then◌else◌,
}
use pmb.Config.{split_key, full_name}

pub data Load (A : Type 0) : Type 0 where
  loaded : A → Load A
  failed : String → Load A

-- The calls of ini on a disk `D` and files `F`: LooseLoad of paths, NewKey, DeleteKey, whether a
-- section has no keys, DeleteSection, Sections with their keys, a key's value if it is there, and
-- SaveToIndent.
pub record Ini (D F : Type 0) : Type 0 where
  pub loose_load : D → List String → Load F
  pub new_key : F → String → String → String → Load F
  pub delete_key : F → String → String → F
  pub is_empty : F → String → Bool
  pub delete_section : F → String → F
  pub sections : F → List (String × List (String × String))
  pub value : F → String → String → Option String
  pub save : D → F → String → D × Option String

abbrev pub first_of : Option String → Option String → Option String
first_of (some v) w = some v
first_of none w = w

-- What ini documents: a new key of a named section has its value and disturbs no other of a named
-- section (the empty name stands for the section DEFAULT); a file that was saved is read
-- back, and no other is touched; of two files that are loaded together the later one wins.
pub record IsIni {D F : Type 0} (i : Ini D F) : Type 0 where
  pub value-new_key :
      (f g : F) (s k v t j : String)
      → is_set s ≡ true
      → is_set t ≡ true
      → i.new_key f s k v ≡ loaded g
      → i.value g t j ≡ (if (s == t) && (k == j) then some v else i.value f t j)
  pub load-save :
      (d d' : D) (f : F) (path : String)
      → i.save d f path ≡ (d', none)
      → (g : F) × (i.loose_load d' (path ∷ []) ≡ loaded g)
        × ((s k : String) → i.value g s k ≡ i.value f s k)
  pub load-save_other :
      (d d' : D) (f : F) (path other : String)
      → i.save d f path ≡ (d', none)
      → path ≢ other
      → i.loose_load d' (other ∷ []) ≡ i.loose_load d (other ∷ [])
  pub load_both :
      (d : D) (path other : String) (f g : F)
      → i.loose_load d (path ∷ []) ≡ loaded f
      → i.loose_load d (other ∷ []) ≡ loaded g
      → (h : F) × (i.loose_load d (path ∷ other ∷ []) ≡ loaded h)
        × ((s k : String) → i.value h s k ≡ first_of (i.value g s k) (i.value f s k))

-- RealConfigClient: the paths of its two files.
pub record RealConfigClient : Type 0 where
  pub system_config : String
  pub user_config : String

-- A value, an error, or a panic.
pub data Reply (A : Type 0) : Type 0 where
  ok : A → Reply A
  error : String → Reply A
  panic : Reply A

abbrev pub config_path : RealConfigClient → Bool → String
config_path r system = if system then r.system_config else r.user_config

-- `ck.Value()`, empty for a key that is not there.
abbrev pub or_empty : Option String → String
or_empty none = ""
or_empty (some v) = v

module _ {D F : Type 0} (i : Ini D F) (r : RealConfigClient) where
  abbrev pub saved : D × Option String → D × Reply Unit
  saved (d, none) = (d, ok tt)
  saved (d, some e) = (d, error ("unable to save: " <> e))

  abbrev pub set_in : D → String → F → String × String → String → D × Reply Unit
  set_in d path f (section, k) v = elim (i.new_key f section k v) [
    | failed e ↦ (d, error ("unable to set new key: " <> e))
    | loaded g ↦ saved (i.save d g path)
  ]

  -- RealConfigClient.Set
  unfoldable pub set : D → Bool → String → String → D × Reply Unit
  set d system key v =
      let path = config_path r system in
      elim (i.loose_load d (path ∷ [])) [
        | failed e ↦ (d, error ("error: " <> e))
        | loaded f ↦ elim (split_key key) [ none ↦ (d, panic) | some name ↦ set_in d path f name v ]
      ]

  abbrev pub without_key : F → String × String → F
  without_key f (section, k) =
      let g = i.delete_key f section k in
      if i.is_empty g section then i.delete_section g section else g

  -- RealConfigClient.Unset
  unfoldable pub unset : D → Bool → String → D × Reply Unit
  unset d system key =
      let path = config_path r system in
      elim (i.loose_load d (path ∷ [])) [
        | failed e ↦ (d, error ("error: " <> e))
        | loaded f ↦ elim (split_key key) [
          | none ↦ (d, panic)
          | some name ↦ saved (i.save d (without_key f name) path)
        ]
      ]

  -- RealConfigClient.Get
  unfoldable pub get : D → String → Reply String
  get d key = elim (i.loose_load d (r.system_config ∷ r.user_config ∷ [])) [
    | failed e ↦ error ("failure to load config: " <> e)
    | loaded f ↦ elim (split_key key) [
      | none ↦ panic
      | some (section, k) ↦ ok (or_empty (i.value f section k))
    ]
  ]

  abbrev pub named : String → List (String × String) → List (String × String)
  named section [] = []
  named section ((k, v) ∷ ks) = (full_name section k, v) ∷ named section ks

  abbrev pub all_keys : List (String × List (String × String)) → List (String × String)
  all_keys [] = []
  all_keys ((section, ks) ∷ ss) = named section ks ++ all_keys ss

  -- RealConfigClient.GetAll
  unfoldable pub get_all : D → Reply (List (String × String))
  get_all d = elim (i.loose_load d (r.system_config ∷ r.user_config ∷ [])) [
    | failed e ↦ error ("failure to load config: " <> e)
    | loaded f ↦ ok (all_keys (i.sections f))
  ]

-- The environment that NewDefaultConfigClient reads, and filepath.Join, fileExists and
-- filepath.EvalSymlinks.
pub record Place : Type 0 where
  pub xdg_config_home : String
  pub home : String
  pub pmb_system_config : String
  pub join : String → String → String
  pub file_exists : String → Bool
  pub eval_symlinks : String → Load String

abbrev pub resolved : Place → String → Load String
resolved p path = if p.file_exists path then p.eval_symlinks path else loaded path

unfoldable pub base_dir : Place → Option String
base_dir p =
    if is_set p.xdg_config_home
    then some (p.join p.xdg_config_home "pmb")
    else if is_set p.home
    then some (p.join (p.join p.home ".config") "pmb")
    else none

-- NewDefaultConfigClient; the directory that it makes is left out.
unfoldable pub new_default_config_client : Place → Load RealConfigClient
new_default_config_client p = elim (base_dir p) [
  | none ↦ failed "$HOME environment variable not found"
  | some base ↦
      let system_home = if is_set p.pmb_system_config then p.pmb_system_config else "/etc" in
      elim (resolved p (p.join system_home "pmbconfig")) [
        | failed e ↦ failed e
        | loaded system ↦ elim (resolved p (p.join base "config")) [
          | failed e ↦ failed e
          | loaded user ↦ loaded (record { system_config = system; user_config = user })
        ]
      ]
]
