-- ===== src/Keys.antt =====
-- parseKeys of api/pmb.go and the joining of keys by commas, as PMB_KEY and the clipboard hold them.
-- `regexp` is Go's library: FindAllString takes the leftmost match, then goes on behind it.
pub mod Shape
pub mod Join
mod Examples
use Prim.Native.Char.{Char, code}
use pmb.Base.{
  ℕ, zero, suc, String, Bool, ◌&&◌, ◌||◌, Option, none, some, List, [], ◌∷◌, leb, ◌<>◌,
  if◌then◌else◌,
}

abbrev pub key_length : ℕ
key_length = 32

-- The class [a-z0-9].
unfoldable pub is_key_char : Char → Bool
is_key_char c = (leb b'a' (code c) && leb (code c) b'z') || (leb b'0' (code c) && leb (code c) b'9')

abbrev pub cons_text : Char → Option String → Option String
cons_text c none = none
cons_text c (some s) = some (String.◌∷◌ c s)

-- [a-z0-9]{n} at the start of a text.
unfoldable pub key_at : ℕ → String → Option String
unfolding is_key_char
key_at zero s = some ""
key_at (suc n) String.[] = none
key_at (suc n) (String.◌∷◌ c s) = if is_key_char c then cons_text c (key_at n s) else none

-- The matches in a text, of which the first `skip` characters belong to the last match.
unfoldable pub find_all : ℕ → String → List String
unfolding key_at
find_all skip String.[] = []
find_all (suc skip) (String.◌∷◌ c s) = find_all skip s
find_all zero (String.◌∷◌ c s) =
    let missed = find_all zero s in
    let rest = find_all 31 s in
    elim (key_at key_length (String.◌∷◌ c s)) [ none ↦ missed | some key ↦ key ∷ rest ]

abbrev pub nonempty : List String → Option (List String)
nonempty [] = none
nonempty (key ∷ keys) = some (key ∷ keys)

-- parseKeys; `none` is the error "Auth key(s) invalid."
unfoldable pub parse_keys : String → Option (List String)
unfolding find_all
parse_keys text = nonempty (find_all zero text)

-- strings.Join(keys, ",")
unfoldable pub join_keys : List String → String
join_keys [] = ""
join_keys (key ∷ []) = key
join_keys (key ∷ other ∷ keys) = key <> "," <> join_keys (other ∷ keys)
