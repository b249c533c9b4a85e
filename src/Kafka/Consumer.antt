-- ===== src/Kafka/Consumer.antt =====
-- kafka/kafka-consumer.base.ts: the consumer that the projections share. What a subclass makes of a
-- message is a parameter, and so are the calls of the client. Waits, the dead-letter message and the
-- pause are kept as effects; debug captures, metrics and logs are left out.
pub mod Backoff
use Prim.Native.Nat.{◌^◌}
use wallex_sanbox.Prelude.{
  ℕ, suc, ◌*◌, String, Bool, true, false, Option, none, some, List, [], ◌∷◌, ◌++◌, str_eq, leb,
  if◌then◌else◌,
}
use wallex_sanbox.Exec.{Error, Result, ok, err, Exec}

-- `sleep(ms)`, `sendToDLQ`, which only logs the message, and `pause()`, for ten seconds
pub data Effect : Type 0 where
  slept : ℕ → Effect
  dead_lettered paused : Effect

pub record Consumer (S : Type 0) : Type 0 where
  pub is_running : Bool
  pub consecutive_errors : ℕ
  pub effects : List Effect
  -- what the subclass writes
  pub written : S

abbrev pub max_retries : ℕ
max_retries = 5

-- `connect`, `subscribe`, `run` and `disconnect` of the client, which may throw
pub record ConsumerClient : Type 0 where
  pub connect : Result (Unit {0})
  pub subscribe : Result (Unit {0})
  pub run : Result (Unit {0})
  pub disconnect : Result (Unit {0})

-- One call after the other, until one throws.
abbrev after : Result (Unit {0}) → Result (Unit {0}) → Result (Unit {0})
after (ok _) r = r
after (err e) r = err e

-- What becomes of a message that throws, with the number of errors in a row.
abbrev pub effects_of : ℕ → List Effect
effects_of errors =
    if leb max_retries errors then dead_lettered ∷ paused ∷ [] else slept (2 ^ errors * 1000) ∷ []

module _ {S : Type 0} where
  abbrev started : Result (Unit {0}) → Consumer S → Result (Unit {0}) × Consumer S
  started (ok _) c = (ok tt, record c { is_running = true })
  started (err e) c = (err e, c)

  unfoldable pub start : ConsumerClient → Exec (Consumer S) (Unit {0})
  start client c =
      if c.is_running
      then (ok tt, c)
      else started (after client.connect (after client.subscribe client.run)) c

  -- An error is only logged.
  abbrev stopped : Result (Unit {0}) → Consumer S → Consumer S
  stopped (ok _) c = record c { is_running = false }
  stopped (err e) c = c

  unfoldable pub stop : ConsumerClient → Consumer S → Consumer S
  stop client c = if c.is_running then stopped client.disconnect c else c

  -- The `catch` of `handleMessage`, which throws the error again.
  abbrev pub failed : Error → Consumer S → Result (Unit {0}) × Consumer S
  failed e c =
      let errors = suc c.consecutive_errors in
      (err e, record c { consecutive_errors = errors; effects = c.effects ++ effects_of errors })

  abbrev pub handled : Consumer S → Result (Unit {0}) × S → Result (Unit {0}) × Consumer S
  handled c (ok _, s) = (ok tt, record c { consecutive_errors = 0; written = s })
  handled c (err e, s) = failed e (record c { written = s })

  -- The value of a message, where a missing or empty one is skipped.
  abbrev with_value : (String → Exec S (Unit {0})) → Option String → Exec (Consumer S) (Unit {0})
  with_value process none c = (ok tt, c)
  with_value process (some v) c =
      if str_eq v "" then (ok tt, c) else handled c (process v c.written)

  unfoldable pub handle_message :
      (String → Exec S (Unit {0})) → Option String → Exec (Consumer S) (Unit {0})
  handle_message process value = with_value process value

  -- One message after the other, those that throw included.
  unfoldable pub handle_messages :
      (String → Exec S (Unit {0})) → List (Option String) → Consumer S → Consumer S
  unfolding handle_message
  handle_messages process [] c = c
  handle_messages process (v ∷ vs) c = handle_messages process vs (handle_message process v c).1
