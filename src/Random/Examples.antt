-- ===== src/Random/Examples.antt =====
-- Random texts at concrete draws.
use pmb.Base.{ℕ, ◌≡◌, String, some, utf8, length, arith}
use pmb.Keys.Shape.{IsRun}
use pmb.Random.{generate_random_string}
use pmb.Random.Bounds.{Draws, generate_random_string-IsRun}

abbrev draw : ℕ → ℕ
draw i = 35

draw-Draws : Draws draw
draw-Draws i = omega arith

generate_random_string-IsRun_example :
    (s : String) × (generate_random_string draw 0 32 ≡ some s) × IsRun 32 s × (length (utf8 s) ≡ 32)
generate_random_string-IsRun_example = generate_random_string-IsRun draw 0 32 draw-Draws
