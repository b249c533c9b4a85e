-- ===== src/Ledger/Projector/Whole.antt =====
-- Whole numbers: what rounding gives, and what sums of them are.
use wallex_sanbox.Prelude.{ℕ, zero, suc, ◌+◌, ◌-◌, ◌*◌, ◌/◌, ◌<◌, ◌≡◌, refl, ap, ◌∙◌, sym, arith}
use native.Mathlib.Nat.{add-mul-div_right, div-eq_of_lt}
use wallex_sanbox.Prelude.Int.{
  ℤ, pos, negsuc, pos_part, neg_part, ◌+ℤ◌, ◌-ℤ◌, +ℤ_parts, -ℤ_parts, eq_of_parts, int_laws,
}
use wallex_sanbox.Number.{Number, fin, zero_number, add, sub}
use wallex_sanbox.Ledger.Projector.{round, round_integer}

-- `k` times the unit
abbrev pub scaled : ℕ → ℤ → ℤ
scaled unit (pos k) = pos (k * unit)
scaled unit (negsuc k) = pos 0 -ℤ pos (suc k * unit)

pos_scaled : (u : ℕ) (k : ℤ) → pos_part (scaled u k) ≡ pos_part k * u
unfolding ◌-ℤ◌
pos_scaled u (pos k) = refl
pos_scaled u (negsuc k) = ground arith

neg_scaled : (u : ℕ) (k : ℤ) → neg_part (scaled u k) ≡ neg_part k * u
unfolding ◌-ℤ◌
neg_scaled u (pos k) = omega arith
neg_scaled u (negsuc k) = ground arith

scaled-add : (u : ℕ) (a b : ℤ) → scaled u a +ℤ scaled u b ≡ scaled u (a +ℤ b)
scaled-add u a b = omega (
  int_laws,
  pos_scaled u a,
  pos_scaled u b,
  neg_scaled u a,
  neg_scaled u b,
  pos_scaled u (a +ℤ b),
  neg_scaled u (a +ℤ b),
  ap (λ (t : ℕ). t * u) (+ℤ_parts a b),
)

scaled-sub : (u : ℕ) (a b : ℤ) → scaled u a -ℤ scaled u b ≡ scaled u (a -ℤ b)
scaled-sub u a b = omega (
  int_laws,
  pos_scaled u a,
  pos_scaled u b,
  neg_scaled u a,
  neg_scaled u b,
  pos_scaled u (a -ℤ b),
  neg_scaled u (a -ℤ b),
  ap (λ (t : ℕ). t * u) (-ℤ_parts a b),
)

nearest : (u k r : ℕ) → r < 2 * u → (r + k * (2 * u)) / (2 * u) ≡ k
nearest u k r h =
    add-mul-div_right r k (omega arith) ∙ ap (λ (t : ℕ). t + k) (div-eq_of_lt h) ∙ omega arith

below_zero : (u k : ℕ) → 0 < u → scaled u (negsuc k) ≡ negsuc (suc k * u - 1)
below_zero u k h =
    eq_of_parts (scaled u (negsuc k)) (negsuc (suc k * u - 1))
      (grind (arith, pos_scaled u (negsuc k), neg_scaled u (negsuc k)))

double_up : (u k : ℕ) → 2 * (k * u) + u ≡ u + k * (2 * u)
double_up u k = grind arith

double_down : (u k : ℕ) → 0 < u → 2 * suc (suc k * u - 1) + u - 1 ≡ (u - 1) + suc k * (2 * u)
double_down u k h = grind arith

-- A whole number rounds to itself.
round_scaled : (u : ℕ) (k : ℤ) → 0 < u → round_integer u (scaled u k) ≡ scaled u k
unfolding round_integer
round_scaled u (pos k) h =
    ap (λ q. pos (q * u)) (ap (λ n. n / (2 * u)) (double_up u k) ∙ nearest u k u (omega arith))
round_scaled u (negsuc k) h =
    ap (round_integer u) (below_zero u k h)
    ∙ ap (λ q. pos 0 -ℤ pos (q * u))
        (ap (λ n. n / (2 * u)) (double_down u k h) ∙ nearest u (suc k) (u - 1) (omega arith))

-- Rounding gives a whole number.
round_whole : (u : ℕ) (z : ℤ) → (k : ℤ) × (round_integer u z ≡ scaled u k)
unfolding round_integer
round_whole u (pos n) = (pos ((2 * n + u) / (2 * u)), refl)
round_whole u (negsuc n) = below ((2 * suc n + u - 1) / (2 * u))
  where
    below : (q : ℕ) → (k : ℤ) × (pos 0 -ℤ pos (q * u) ≡ scaled u k)
    below zero = (pos 0, omega int_laws)
    below (suc q) = (negsuc q, refl)

-- A finite amount that is a whole number.
abbrev pub IsWhole : ℕ → Number → Type 0
IsWhole u n = (k : ℤ) × (n ≡ fin (scaled u k))

pub zero-IsWhole : (u : ℕ) → IsWhole u zero_number
zero-IsWhole u = (pos 0, ap fin (omega int_laws))

pub add-IsWhole : (u : ℕ) (a b : Number) → IsWhole u a → IsWhole u b → IsWhole u (add a b)
unfolding add
add-IsWhole u a b (j, p) (k, q) = (j +ℤ k, rw (p, q) (ap fin (scaled-add u j k)))

pub sub-IsWhole : (u : ℕ) (a b : Number) → IsWhole u a → IsWhole u b → IsWhole u (sub a b)
unfolding sub
sub-IsWhole u a b (j, p) (k, q) = (j -ℤ k, rw (p, q) (ap fin (scaled-sub u j k)))

pub round-IsWhole : (u : ℕ) (z : ℤ) → IsWhole u (round u (fin z))
unfolding round
round-IsWhole u z = let (k, e) = round_whole u z in (k, ap fin e)

pub round_self : (u : ℕ) (n : Number) → 0 < u → IsWhole u n → round u n ≡ n
unfolding round
round_self u n h (k, e) = ap (round u) e ∙ ap fin (round_scaled u k h) ∙ sym e
