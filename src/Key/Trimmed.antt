-- ===== src/Key/Trimmed.antt =====
-- The white space around a key of key.go, which parseKeys of api/pmb.go does not see.
use Prim.Native.Nat.{zero, suc}
use Prim.Native.Char.{Char, code}
use pmb.Base.{
  ℕ, String, ◌≡◌, refl, ap, sym, ◌∙◌, inl, inr, Bool, true, false, ◌&&◌, none, some, List, ◌∷◌,
  Bool-cases, arith,
}
use pmb.Base.Trim.{is_space_code, is_empty, trim_left, trim_right, trim_space}
use pmb.Keys.{is_key_char, key_at, find_all, parse_keys, key_length}

space-is_key_char : (c : Char) → is_space_code (code c) ≡ true → is_key_char c ≡ false
unfolding is_key_char
space-is_key_char c h = ground arith

key_at-space :
    (n : ℕ) (c : Char) (s : String)
    → is_space_code (code c) ≡ true
    → key_at (suc n) (String.◌∷◌ c s) ≡ none
unfolding key_at
key_at-space n c s h = rw (space-is_key_char c h)

find_all-trim_left : (s : String) → find_all zero (trim_left s) ≡ find_all zero s
unfolding trim_left find_all
find_all-trim_left String.[] = refl
find_all-trim_left (String.◌∷◌ c s) = elim (Bool-cases (is_space_code (code c))) [
  | inl h ↦ rw (trim_left, h, find_all, key_at-space 31 c s h) (find_all-trim_left s)
  | inr h ↦ rw (trim_left, h)
]

is_empty-eq : (s : String) → is_empty s ≡ true → s ≡ ""
is_empty-eq String.[] h = refl
is_empty-eq (String.◌∷◌ c s) h = cc

-- Whether trim_right drops a character with all behind it.
abbrev drops : Char → String → Bool
drops c s = is_space_code (code c) && is_empty (trim_right s)

trim_right-drops :
    (c : Char) (s : String)
    → drops c s ≡ true
    → (is_space_code (code c) ≡ true) × (trim_right s ≡ "") × (trim_right (String.◌∷◌ c s) ≡ "")
unfolding trim_right
trim_right-drops c s h =
    (ground arith, is_empty-eq (trim_right s) (ground arith), rw (trim_right, h))

trim_right-keeps :
    (c : Char) (s : String)
    → drops c s ≡ false
    → trim_right (String.◌∷◌ c s) ≡ String.◌∷◌ c (trim_right s)
unfolding trim_right
trim_right-keeps c s h = rw (trim_right, h)

key_at-trim_right : (n : ℕ) (s : String) → key_at n (trim_right s) ≡ key_at n s
unfolding trim_right key_at
key_at-trim_right zero s = refl
key_at-trim_right (suc n) String.[] = refl
key_at-trim_right (suc n) (String.◌∷◌ c s) = elim (Bool-cases (drops c s)) [
  | inl h ↦
      let (space, none_left, empty) = trim_right-drops c s h in
      ap (key_at (suc n)) empty ∙ sym (key_at-space n c s space)
  | inr h ↦ ap (key_at (suc n)) (trim_right-keeps c s h) ∙ rw (key_at-trim_right n s)
]

find_all-same :
    (c : Char) (s t : String)
    → key_at key_length (String.◌∷◌ c s) ≡ key_at key_length (String.◌∷◌ c t)
    → find_all zero s ≡ find_all zero t
    → find_all 31 s ≡ find_all 31 t
    → find_all zero (String.◌∷◌ c s) ≡ find_all zero (String.◌∷◌ c t)
unfolding find_all
find_all-same c s t e missed rest =
    λ i. elim (e i) as (λ x. List String) [ none ↦ missed i | some key ↦ key ∷ rest i ]

find_all-trim_right : (n : ℕ) (s : String) → find_all n (trim_right s) ≡ find_all n s
unfolding trim_right find_all
find_all-trim_right n String.[] = refl
find_all-trim_right (suc n) (String.◌∷◌ c s) = elim (Bool-cases (drops c s)) [
  | inl h ↦
      let (space, none_left, empty) = trim_right-drops c s h in
      ap (find_all (suc n)) empty ∙ sym (ap (find_all n) none_left) ∙ find_all-trim_right n s
  | inr h ↦ ap (find_all (suc n)) (trim_right-keeps c s h) ∙ find_all-trim_right n s
]
find_all-trim_right zero (String.◌∷◌ c s) = elim (Bool-cases (drops c s)) [
  | inl h ↦
      let (space, none_left, empty) = trim_right-drops c s h in
      ap (find_all zero) empty
      ∙ sym (ap (find_all zero) none_left)
      ∙ find_all-trim_right zero s
      ∙ rw (find_all, key_at-space 31 c s space)
  | inr h ↦
      let same : key_at key_length (String.◌∷◌ c (trim_right s))
          ≡ key_at key_length (String.◌∷◌ c s) =
        ap (key_at key_length) (sym (trim_right-keeps c s h))
        ∙ key_at-trim_right key_length (String.◌∷◌ c s) in
      ap (find_all zero) (trim_right-keeps c s h)
      ∙ find_all-same c (trim_right s) s same (find_all-trim_right zero s)
          (find_all-trim_right 31 s)
]

-- The keys of a text are those of the text without the white space around it.
pub parse_keys-trim_space : (s : String) → parse_keys (trim_space s) ≡ parse_keys s
unfolding parse_keys trim_space
parse_keys-trim_space s =
    rw (parse_keys, trim_space, find_all-trim_right zero (trim_left s), find_all-trim_left s)
