-- ===== src/Random.antt =====
-- GenerateRandomString and GenerateRandomID of api/pmb.go. `draw i` is the i-th answer of
-- rand.Intn(36), the length of the alphabet; math/rand is not modelled.
pub mod Bounds
mod Examples
use Prim.Native.Char.{Char}
use Prim.Native.String
use pmb.Base.{ℕ, zero, suc, String, Option, none, some, ◌<>◌}
use pmb.Keys.{cons_text}

-- charactersForRandom
abbrev pub characters : String
characters = "1234567890abcdefghijklmnopqrstuvwxyz"

-- `s[n]`; `none` is the panic of an index out of range.
unfoldable pub char_at : ℕ → String → Option Char
char_at n String.[] = none
char_at zero (String.◌∷◌ c s) = some c
char_at (suc n) (String.◌∷◌ c s) = char_at n s

-- GenerateRandomString, from the i-th draw on.
unfoldable pub generate_random_string : (ℕ → ℕ) → ℕ → ℕ → Option String
generate_random_string draw i zero = some ""
generate_random_string draw i (suc length) =
    let rest = generate_random_string draw (suc i) length in
    elim (char_at (draw i) characters) [ none ↦ none | some c ↦ cons_text c rest ]

abbrev pub with_prefix : String → Option String → Option String
with_prefix prefix none = none
with_prefix prefix (some s) = some (prefix <> "-" <> s)

-- GenerateRandomID
unfoldable pub generate_random_id : (ℕ → ℕ) → ℕ → String → Option String
generate_random_id draw i prefix = with_prefix prefix (generate_random_string draw i 12)
