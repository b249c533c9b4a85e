-- ===== src/Number/Sums.antt =====
-- Sums of integers and of numbers, in any order.
use wallex_sanbox.Prelude.{◌≡◌, refl, ap, arith}
use wallex_sanbox.Prelude.Int.{ℤ, ◌+ℤ◌, int_laws}
use wallex_sanbox.Number.{Number, fin, nan, infinity, neg_infinity, zero_number, add}

pub +ℤ_comm : (a b : ℤ) → a +ℤ b ≡ b +ℤ a
+ℤ_comm a b = omega int_laws

pub +ℤ_assoc : (a b c : ℤ) → a +ℤ (b +ℤ c) ≡ a +ℤ b +ℤ c
+ℤ_assoc a b c = omega int_laws

pub add_comm : (a b : Number) → add a b ≡ add b a
unfolding add
add_comm a b = grind (arith, +ℤ_comm)

pub add_assoc : (a b c : Number) → add a (add b c) ≡ add (add a b) c
unfolding add
add_assoc a b c = grind (arith, +ℤ_assoc)

pub zero_add : (a : Number) → add zero_number a ≡ a
unfolding add
zero_add (fin a) = ap fin (omega int_laws)
zero_add nan = refl
zero_add infinity = refl
zero_add neg_infinity = refl
