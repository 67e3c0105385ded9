-- ===== src/Wire/Crash.antt =====
-- When parseMessage of api/util.go panics.
use pmb.Base.{String, ◌≡◌, some}
use pmb.Json.{Value, Fields, obj, text_at}

-- A value that parseMessage takes without a panic: an object with a sender and a type.
abbrev pub IsSigned : Value → Type 0
IsSigned v =
    (m : Fields) × (s : String) × (t : String) × (v ≡ obj m)
    × (text_at "id" m ≡ some s)
    × (text_at "type" m ≡ some t)
