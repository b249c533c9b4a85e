-- ===== src/Kafka/Consumer/Backoff.antt =====
-- The waits of the consumer, and when it gives a message up.
use Prim.Native.Nat.{◌^◌}
use wallex_sanbox.Prelude.{
  ℕ, zero, suc, ◌*◌, ◌≤◌, ◌<◌, String, Option, none, some, List, [], ◌∷◌, str_eq, leb, All,
  All-append, arith, Bool-cases, inl, inr,
}
use wallex_sanbox.Exec.{Result, ok, err, Exec}
use wallex_sanbox.Kafka.Consumer.{
  Effect, slept, Consumer, handle_message, handle_messages, effects_of, handled,
}

-- A wait is between two and sixteen seconds.
abbrev pub IsBounded : Effect → Type 0
IsBounded (slept ms) = (2000 ≤ ms) × (ms ≤ 16000)
IsBounded e = Unit

wait_bounds : (n : ℕ) → 1 ≤ n → n < 5 → IsBounded (slept (2 ^ n * 1000))
wait_bounds zero h l = absurd (omega arith)
wait_bounds (suc zero) h l = omega arith
wait_bounds (suc (suc zero)) h l = omega arith
wait_bounds (suc (suc (suc zero))) h l = omega arith
wait_bounds (suc (suc (suc (suc zero)))) h l = omega arith
wait_bounds (suc (suc (suc (suc (suc n))))) h l = absurd (omega arith)

effects-IsBounded : (n : ℕ) → 1 ≤ n → All IsBounded (effects_of n)
effects-IsBounded n h = elim (Bool-cases (leb 5 n)) [
  | inl many ↦ rw many (tt, (tt, tt))
  | inr few ↦ rw few (wait_bounds n h (ground (arith, few)), tt)
]

module _ {S : Type 0} where
  handled-IsBounded :
      (c : Consumer S) (outcome : Result (Unit {0}) × S)
      → All IsBounded c.effects
      → All IsBounded (handled c outcome).1.effects
  handled-IsBounded c (ok a, s) h = h
  handled-IsBounded c (err e, s) h =
      All-append IsBounded c.effects (effects_of (suc c.consecutive_errors)) h
        (effects-IsBounded (suc c.consecutive_errors) (omega arith))

module _ {S : Type 0} (process : String → Exec S (Unit {0})) where
  message-IsBounded :
      (value : Option String) (c : Consumer S)
      → All IsBounded c.effects
      → All IsBounded (handle_message process value c).1.effects
  unfolding handle_message
  message-IsBounded none c h = h
  message-IsBounded (some v) c h = elim (Bool-cases (str_eq v "")) [
    | inl empty ↦ rw empty h
    | inr full ↦ rw full (handled-IsBounded c (process v c.written) h)
  ]

  -- Whatever messages come and whichever of them throw, each wait of the consumer is at least two
  -- and at most sixteen seconds, if those before were.
  pub waits-IsBounded :
      (values : List (Option String)) (c : Consumer S)
      → All IsBounded c.effects
      → All IsBounded (handle_messages process values c).effects
  unfolding handle_messages
  waits-IsBounded [] c h = h
  waits-IsBounded (v ∷ vs) c h =
      waits-IsBounded vs (handle_message process v c).1 (message-IsBounded v c h)
