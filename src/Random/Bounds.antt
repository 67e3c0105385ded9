-- ===== src/Random/Bounds.antt =====
-- The length and the alphabet of the random texts of api/pmb.go, and keys made of them.
use Prim.Native.Char.{Char}
use pmb.Base.{ℕ, zero, suc, ◌<◌, String, ◌≡◌, refl, true, some, [], ◌∷◌, length, utf8, arith}
use pmb.Keys.{is_key_char, parse_keys, join_keys}
use pmb.Keys.Shape.{IsRun, IsKey, length-utf8-run}
use pmb.Keys.Join.{parse_keys-join_keys}
use pmb.Random.{characters, char_at, generate_random_string}

-- rand.Intn(36) answers with a number below 36.
abbrev pub Draws : (ℕ → ℕ) → Type 0
Draws draw = (i : ℕ) → draw i < 36

characters-IsRun : IsRun 36 characters
unfolding is_key_char
characters-IsRun = ground arith

char_at-IsRun :
    (k n : ℕ) (s : String)
    → IsRun k s
    → n < k
    → (c : Char) × (char_at n s ≡ some c) × (is_key_char c ≡ true)
unfolding char_at
char_at-IsRun zero n s r h = absurd (omega arith)
char_at-IsRun (suc k) n String.[] r h = absurd r
char_at-IsRun (suc k) zero (String.◌∷◌ c s) r h = (c, refl, r.0)
char_at-IsRun (suc k) (suc n) (String.◌∷◌ c s) r h = char_at-IsRun k n s r.1 (omega arith)

generate-IsRun :
    (draw : ℕ → ℕ) (i n : ℕ)
    → Draws draw
    → (s : String) × (generate_random_string draw i n ≡ some s) × IsRun n s
unfolding generate_random_string
generate-IsRun draw i zero d = ("", refl, tt)
generate-IsRun draw i (suc n) d =
    let (c, e, k) = char_at-IsRun 36 (draw i) characters characters-IsRun (d i) in
    let (s, f, r) = generate-IsRun draw (suc i) n d in
    (String.◌∷◌ c s, rw (generate_random_string, e, f), (k, r))

-- For draws below 36, a random text has the length that was asked for, in characters of [a-z0-9] and
-- so in bytes, and no index is out of range.
pub generate_random_string-IsRun :
    (draw : ℕ → ℕ) (i n : ℕ)
    → Draws draw
    → (s : String) × (generate_random_string draw i n ≡ some s) × IsRun n s × (length (utf8 s) ≡ n)
generate_random_string-IsRun draw i n d =
    let (s, e, r) = generate-IsRun draw i n d in (s, e, r, length-utf8-run n s r)

-- A text of one key is parsed as that key alone.
pub parse_keys-one : (key : String) → IsKey key → parse_keys key ≡ some (key ∷ [])
unfolding join_keys
parse_keys-one key k = parse_keys-join_keys (key ∷ []) (λ e. cc e) (k, tt)
