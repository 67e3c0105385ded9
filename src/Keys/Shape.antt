-- ===== src/Keys/Shape.antt =====
-- What parseKeys of api/pmb.go returns.
use Prim.Native.Char.{Char, code}
use mathlib.Core.Option.{some-injective}
use pmb.Base.{
  ℕ, zero, suc, String, ◌≡◌, ◌≢◌, refl, true, inl, inr, Option, none, some, List, [], ◌∷◌, All,
  All-map, subst, length, utf8, utf8_char, Bool-cases, Option-cases, arith,
}
use pmb.Keys.{key_length, is_key_char, cons_text, key_at, find_all, nonempty, parse_keys}

-- `n` characters of the class.
abbrev pub IsRun : ℕ → String → Type 0
IsRun zero String.[] = Unit
IsRun zero (String.◌∷◌ c s) = ⊥
IsRun (suc n) String.[] = ⊥
IsRun (suc n) (String.◌∷◌ c s) = (is_key_char c ≡ true) × IsRun n s

abbrev pub IsKey : String → Type 0
IsKey = IsRun key_length

cons_text-some :
    (c : Char) (o : Option String) (t : String)
    → cons_text c o ≡ some t
    → (s : String) × (o ≡ some s) × (t ≡ String.◌∷◌ c s)
cons_text-some c none t h = cc
cons_text-some c (some s) t h = (s, refl, ground arith)

key_at-IsRun : (n : ℕ) (s t : String) → key_at n s ≡ some t → IsRun n t
unfolding key_at
key_at-IsRun zero s t h = rw (← some-injective _ _ h) tt
key_at-IsRun (suc n) String.[] t h = cc
key_at-IsRun (suc n) (String.◌∷◌ c s) t h = elim (Bool-cases (is_key_char c)) [
  | inl e ↦
      let (u, g, shape) = cons_text-some c (key_at n s) t (rw e at h) in
      rw shape (e, key_at-IsRun n s u g)
  | inr e ↦ ground arith
]

-- Every match is a key.
find_all-IsKey : (skip : ℕ) (s : String) → All IsKey (find_all skip s)
unfolding find_all
find_all-IsKey skip String.[] = tt
find_all-IsKey (suc skip) (String.◌∷◌ c s) = find_all-IsKey skip s
find_all-IsKey zero (String.◌∷◌ c s) = elim (Option-cases (key_at key_length (String.◌∷◌ c s))) [
  | inl e ↦ rw (find_all, e) (find_all-IsKey zero s)
  | inr (key, e) ↦
      rw (find_all, e) (key_at-IsRun key_length (String.◌∷◌ c s) key e, find_all-IsKey 31 s)
]

-- A character of the class is one byte, so `n` of them are `n` bytes.
utf8_char-key : (c : Char) → is_key_char c ≡ true → utf8_char (code c) ≡ code c ∷ []
unfolding is_key_char utf8_char
utf8_char-key c h = ground arith

pub length-utf8-run : (n : ℕ) (s : String) → IsRun n s → length (utf8 s) ≡ n
unfolding utf8
length-utf8-run zero String.[] r = refl
length-utf8-run zero (String.◌∷◌ c s) r = absurd r
length-utf8-run (suc n) String.[] r = absurd r
length-utf8-run (suc n) (String.◌∷◌ c s) r =
    rw (utf8_char-key c r.0) (omega (arith, length-utf8-run n s r.1))

pub nonempty-some : (xs ys : List String) → nonempty xs ≡ some ys → (xs ≡ ys) × (ys ≢ [])
nonempty-some [] ys h = cc
nonempty-some (x ∷ xs) ys h = (ground arith, λ e. cc)

-- Every key that parseKeys returns is 32 characters of the class, so it is 32 bytes, and there is
-- at least one.
pub parse_keys-IsKey :
    (text : String) (keys : List String)
    → parse_keys text ≡ some keys
    → (keys ≢ []) × All IsKey keys × All (λ key. length (utf8 key) ≡ 32) keys
unfolding parse_keys
parse_keys-IsKey text keys h =
    let (e, n) = nonempty-some (find_all zero text) keys h in
    let k : All IsKey keys = subst (All IsKey) e (find_all-IsKey zero text) in
    (n, k, All-map (length-utf8-run key_length) keys k)
