-- ===== src/Number.antt =====
-- The language's `number`: amounts and balances. A finite value is an exact integer (of the
-- smallest unit); the three special values are kept apart, since the code tests for them.
-- Not modelled: fractions and the rounding of sums beyond 2 ^ 53.
pub mod Sums
pub mod Text
use wallex_sanbox.Prelude.{Bool, true, false, not}
use wallex_sanbox.Prelude.Int.{ℤ, pos, ◌+ℤ◌, ◌-ℤ◌, ◌≤ℤ◌, ltb_ℤ, leb_ℤ, eqb_ℤ}

pub data Number : Type 0 where
  fin : ℤ → Number
  nan infinity neg_infinity : Number

abbrev pub zero_number : Number
zero_number = fin (pos 0)

-- `a + b`
unfoldable pub add : Number → Number → Number
add (fin a) (fin b) = fin (a +ℤ b)
add nan b = nan
add a nan = nan
add infinity neg_infinity = nan
add neg_infinity infinity = nan
add infinity b = infinity
add neg_infinity b = neg_infinity
add a b = b

-- `a - b`
unfoldable pub sub : Number → Number → Number
sub (fin a) (fin b) = fin (a -ℤ b)
sub nan b = nan
sub a nan = nan
sub infinity infinity = nan
sub neg_infinity neg_infinity = nan
sub infinity b = infinity
sub neg_infinity b = neg_infinity
sub a infinity = neg_infinity
sub a neg_infinity = infinity

-- `a < b`; every order test with NaN is false
unfoldable pub lt : Number → Number → Bool
lt (fin a) (fin b) = ltb_ℤ a b
lt nan b = false
lt a nan = false
lt neg_infinity neg_infinity = false
lt neg_infinity b = true
lt infinity b = false
lt a infinity = true
lt a neg_infinity = false

-- `a <= b`
unfoldable pub le : Number → Number → Bool
le (fin a) (fin b) = leb_ℤ a b
le nan b = false
le a nan = false
le neg_infinity b = true
le a infinity = true
le infinity b = false
le a neg_infinity = false

-- `Number.isFinite(a)`
unfoldable pub is_finite : Number → Bool
is_finite (fin a) = true
is_finite a = false

-- a value under `||` or `if`: 0 and NaN count as false
unfoldable pub is_truthy : Number → Bool
is_truthy (fin a) = not (eqb_ℤ a (pos 0))
is_truthy nan = false
is_truthy a = true

-- Neither negative nor NaN.
abbrev pub IsNonneg : Number → Type 0
IsNonneg (fin a) = pos 0 ≤ℤ a
IsNonneg infinity = Unit
IsNonneg a = ⊥

-- Finite, and neither negative nor NaN.
abbrev pub IsFunds : Number → Type 0
IsFunds (fin a) = pos 0 ≤ℤ a
IsFunds a = ⊥
