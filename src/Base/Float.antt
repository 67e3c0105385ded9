-- ===== src/Base/Float.antt =====
-- The floats that the program compares. A finite float64 is a whole multiple of 2^-1074, so it is
-- an integer in that unit: comparison is exact, and no arithmetic on floats is made.
use Prim.Native.Nat.{ℕ, ◌*◌, ◌^◌}
use mathlib.Core.Path.{◌≡◌, refl}
use mathlib.Core.Bool.{Bool, true, false}
use native.Mathlib.Omega.{arith}
use pmb.Base.Tests.{ltb}

-- `negsuc n` is -(n + 1).
pub data ℤ : Type 0 where
  pos : ℕ → ℤ
  negsuc : ℕ → ℤ

unfoldable pub lt_ℤ : ℤ → ℤ → Bool
lt_ℤ (pos a) (pos b) = ltb a b
lt_ℤ (pos a) (negsuc b) = false
lt_ℤ (negsuc a) (pos b) = true
lt_ℤ (negsuc a) (negsuc b) = ltb b a

pub data Float64 : Type 0 where
  nan minus_inf plus_inf : Float64
  finite : ℤ → Float64

-- `a < b`
unfoldable pub lt : Float64 → Float64 → Bool
unfolding lt_ℤ
lt nan b = false
lt a nan = false
lt minus_inf minus_inf = false
lt minus_inf b = true
lt plus_inf b = false
lt (finite a) minus_inf = false
lt (finite a) plus_inf = true
lt (finite a) (finite b) = lt_ℤ a b

-- `a > b`
abbrev pub gt : Float64 → Float64 → Bool
gt a b = lt b a

-- `a >= b`: false as soon as one of them is not a number.
unfoldable pub ge : Float64 → Float64 → Bool
unfolding lt
ge nan b = false
ge a nan = false
ge a b = elim (lt a b) [ true ↦ false | false ↦ true ]

-- The float of a small whole number, such as a level.
unfoldable pub whole : ℕ → Float64
whole n = finite (pos (n * 2 ^ 1074))

pub lt_irrefl : (a : Float64) → lt a a ≡ false
unfolding lt
lt_irrefl nan = refl
lt_irrefl minus_inf = refl
lt_irrefl plus_inf = refl
lt_irrefl (finite (pos a)) = ground arith
lt_irrefl (finite (negsuc a)) = ground arith

pub lt_trans : (a b c : Float64) → lt a b ≡ true → lt b c ≡ true → lt a c ≡ true
unfolding lt
lt_trans a b c h k = ground arith
