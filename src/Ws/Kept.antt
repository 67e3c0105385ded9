-- ===== src/Ws/Kept.antt =====
-- A connection of connectWS in api/ws.go and the sockets behind it.
use pmb.Base.{ℕ, zero, suc, String, Option, none, some, List, [], ◌∷◌}
use pmb.Ws.{Act, reconnected, serves_socket}

-- So many sockets more, each behind a Reconnected message on the channel In.
abbrev pub renewals : ℕ → List Act
renewals zero = []
renewals (suc n) = reconnected ∷ serves_socket ∷ renewals n

-- How many dials had no error.
abbrev pub successes : List (Option String) → ℕ
successes [] = 0
successes (none ∷ dials) = suc (successes dials)
successes (some e ∷ dials) = successes dials
