-- ===== src/Config/Names.antt =====
-- splitKey of api/config_api.go against the names that GetAll makes.
use Prim.Native.Char.{Char, code}
use text.Mathlib.TextLemmas.{cons-append, nil-append}
use text.Mathlib.TextEquality.{Char-path}
use pmb.Base.{
  true, ap, ◌≡◌, ◌∙◌, Option, String, ◌≡◌, ◌↔◌, refl, inl, inr, false, none, some, ◌<>◌, nat_eq,
  Bool-cases, Option-cases, arith,
}
use pmb.Config.{prepend, split_key, full_name}

-- No character of the text is a dot.
abbrev pub HasNoDot : String → Type 0
HasNoDot String.[] = Unit
HasNoDot (String.◌∷◌ c s) = (nat_eq (code c) b'.' ≡ false) × HasNoDot s

-- A setting of a section without a dot in its name is found again under the name that GetAll gives
-- it, whatever its key is.
pub split_key-full_name :
    (section key : String)
    → HasNoDot section
    → split_key (full_name section key) ≡ some (section, key)
unfolding split_key full_name
split_key-full_name String.[] key h =
    rw (nil-append ("." <> key), cons-append "." "" key, nil-append key) refl
split_key-full_name (String.◌∷◌ c s) key h =
    rw (cons-append c s ("." <> key)) (rw h.0 (rw (split_key-full_name s key h.1)))

split_key-HasNoDot : (name : String) → HasNoDot name → split_key name ≡ none
unfolding split_key
split_key-HasNoDot String.[] h = refl
split_key-HasNoDot (String.◌∷◌ c s) h = rw h.0 (rw (split_key-HasNoDot s h.1))

HasNoDot-split_key : (name : String) → split_key name ≡ none → HasNoDot name
unfolding split_key
HasNoDot-split_key String.[] h = tt
HasNoDot-split_key (String.◌∷◌ c s) h = elim (Bool-cases (nat_eq (code c) b'.')) [
  | inl e ↦ ground arith
  | inr e ↦ elim (Option-cases (split_key s)) [
    | inl n ↦ (e, HasNoDot-split_key s n)
    | inr (x, g) ↦ ground arith
  ]
]

-- splitKey panics exactly on the names without a dot.
pub split_key_iff : (name : String) → (split_key name ≡ none) ↔ HasNoDot name
split_key_iff name = (HasNoDot-split_key name, split_key-HasNoDot name)

prepend-some :
    (c : Char) (o : Option (String × String)) (section key : String)
    → prepend c o ≡ some (section, key)
    → (rest : String) × (o ≡ some (rest, key)) × (section ≡ String.◌∷◌ c rest)
prepend-some c none section key h = cc
prepend-some c (some (rest, k)) section key h = (rest, ground arith, ground arith)

dot_first : (c : Char) (s : String) → nat_eq (code c) b'.' ≡ true → String.◌∷◌ c s ≡ full_name "" s
unfolding full_name
dot_first c s h =
    rw (nil-append ("." <> s), cons-append "." "" s, nil-append s)
      (ap (λ x. String.◌∷◌ x s) (Char-path c "." (ground arith)))

-- What splitKey returns are the parts of the name.
pub split_key-some :
    (name section key : String)
    → split_key name ≡ some (section, key)
    → name ≡ full_name section key
unfolding split_key full_name
split_key-some String.[] section key h = cc
split_key-some (String.◌∷◌ c s) section key h = elim (Bool-cases (nat_eq (code c) b'.')) [
  | inl e ↦
      let first : "" ≡ section = ground arith in
      let rest : s ≡ key = ground arith in
      dot_first c s e ∙ ap (λ a. full_name a s) first ∙ ap (full_name section) rest
  | inr e ↦
      let (rest, f, g) = prepend-some c (split_key s) section key (rw (split_key, e) at h) in
      rw g (rw (cons-append c rest ("." <> key)) (ap (String.◌∷◌ c) (split_key-some s rest key f)))
]
