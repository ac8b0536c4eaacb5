-- ===== src/Prelude/Number.antt =====
-- A JavaScript number. Every finite double is a whole multiple of 2^-1074, so it stands here as that
-- multiple, and the comparisons are exact. Zero has one sign, which no comparison can tell.
use Prim.Native.Nat.{ℕ, suc, ◌+◌, ◌*◌, ◌%◌, ◌^◌}
use mathlib.Core.Bool.{Bool, true, false, not, ◌||◌}
use ros_road_operating_syste.Prelude.Tests.{ltb, ◌==◌}

-- `negsuc n` is -(n + 1).
pub data ℤ : Type 0 where
  pos : ℕ → ℤ
  negsuc : ℕ → ℤ

abbrev pos_part : ℤ → ℕ
pos_part (pos n) = n
pos_part (negsuc n) = 0

abbrev neg_part : ℤ → ℕ
neg_part (pos n) = 0
neg_part (negsuc n) = suc n

abbrev pub ltb_ℤ : ℤ → ℤ → Bool
ltb_ℤ a b = ltb (pos_part a + neg_part b) (pos_part b + neg_part a)

pub data Number : Type 0 where
  nan pos_inf neg_inf : Number
  finite : ℤ → Number

pub one_unit : ℕ
one_unit = 2 ^ 1074

abbrev minus : ℕ → ℤ
minus n = elim n [ ℕ.zero ↦ pos 0 | ℕ.suc k ↦ negsuc k ]

unfoldable pub whole : ℕ → Number
unfolding one_unit
whole n = finite (pos (n * one_unit))

unfoldable pub minus_whole : ℕ → Number
unfolding one_unit
minus_whole n = finite (minus (n * one_unit))

unfoldable pub is_finite : Number → Bool
is_finite (finite x) = true
is_finite _ = false

-- `a < b`, false where either is NaN.
unfoldable pub number_lt : Number → Number → Bool
number_lt nan _ = false
number_lt _ nan = false
number_lt (finite a) (finite b) = ltb_ℤ a b
number_lt neg_inf neg_inf = false
number_lt neg_inf _ = true
number_lt _ pos_inf = true
number_lt _ _ = false

-- The guard `!Number.isFinite(x) || x < least || x > most`.
unfoldable pub out_of_range : Number → Number → Number → Bool
unfolding is_finite number_lt
out_of_range least most x = not (is_finite x) || number_lt x least || number_lt most x

-- `Number.isInteger(x)`
unfoldable pub is_integer : Number → Bool
unfolding one_unit
is_integer (finite x) = (pos_part x + neg_part x) % one_unit == 0
is_integer _ = false
