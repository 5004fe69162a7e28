-- ===== src/Prelude/Numbers.antt =====
-- JavaScript's `number`. Every finite double is a whole multiple of 2 ^ -1074, so a finite value is
-- an integer in that unit: its order is exact, and -0 is 0, as `<` and `>` have it.
use Prim.Native.Nat.{ℕ}
use mathlib.Core.Bool.{Bool, true, false}
use fg_details_to_be_added_f.Prelude.Tests.{ltb}

-- `negsuc n` is -(n + 1).
pub data ℤ : Type 0 where
  pos : ℕ → ℤ
  negsuc : ℕ → ℤ

abbrev pub ltz : ℤ → ℤ → Bool
ltz (pos a) (pos b) = ltb a b
ltz (pos a) (negsuc b) = false
ltz (negsuc a) (pos b) = true
ltz (negsuc a) (negsuc b) = ltb b a

pub data Number : Type 0 where
  nan plus_infinity minus_infinity : Number
  finite : ℤ → Number

-- `Number.isFinite`
abbrev pub is_finite : Number → Bool
is_finite (finite z) = true
is_finite _ = false

-- `a < b`, which is false as soon as one side is NaN.
abbrev pub less : Number → Number → Bool
less nan b = false
less plus_infinity b = false
less minus_infinity nan = false
less minus_infinity minus_infinity = false
less minus_infinity plus_infinity = true
less minus_infinity (finite z) = true
less (finite z) nan = false
less (finite z) minus_infinity = false
less (finite z) plus_infinity = true
less (finite y) (finite z) = ltz y z
