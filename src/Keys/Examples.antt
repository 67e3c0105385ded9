-- ===== src/Keys/Examples.antt =====
-- Keys as PMB_KEY holds them.
use pmb.Base.{String, ◌≡◌, refl, none, some, List, [], ◌∷◌}
use pmb.Keys.{is_key_char, key_at, find_all, parse_keys}

abbrev key_a : String
key_a = "0123456789abcdef0123456789abcdef"

abbrev key_b : String
key_b = "zzzzzzzzzzzzzzzz0123456789abcdef"

abbrev keys : List String
keys = key_a ∷ key_b ∷ []

two_found :
    parse_keys "0123456789abcdef0123456789abcdef,zzzzzzzzzzzzzzzz0123456789abcdef" ≡ some keys
unfolding parse_keys find_all key_at is_key_char
two_found = refl

too_short : parse_keys "0123456789abcdef" ≡ none
unfolding parse_keys find_all key_at is_key_char
too_short = refl
