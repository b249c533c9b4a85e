-- ===== src/ReadModel/Finite.antt =====
-- Initial balances that are finite or missing, as the code reads them.
use wallex_sanbox.Prelude.{◌≡◌, refl, ap, Option, none, some, get_or, arith, Bool-cases, inl, inr}
use wallex_sanbox.Prelude.Int.{ℤ, pos, eqb_ℤ, eq_of_parts}
use wallex_sanbox.Number.{Number, fin, is_truthy}
use wallex_sanbox.ReadModel.{or_zero}

-- The initial balance of a creation event, where it is finite.
abbrev pub initial_number : Option ℤ → Option Number
initial_number none = none
initial_number (some x) = some (fin x)

pub or_zero_finite : (i : Option ℤ) → or_zero (initial_number i) ≡ fin (get_or i (pos 0))
unfolding is_truthy
or_zero_finite none = refl
or_zero_finite (some x) = elim (Bool-cases (eqb_ℤ x (pos 0))) [
  | inl zero_balance ↦
      rw zero_balance (ap fin (eq_of_parts (pos 0) x (ground (arith, zero_balance))))
  | inr other ↦ rw other refl
]
