-- ===== src/Retry.antt =====
-- wallet/application/retry.helper.ts. The waiting between attempts is the parameter `sleep`, which
-- may change the state, since others act meanwhile; its length (a power of 1.3, capped, with a
-- random part) has no other effect and is left out.
pub mod Attempts
use wallex_sanbox.Prelude.{ℕ, zero, suc, ◌+◌, Bool, true, false}
use wallex_sanbox.Exec.{Error, event_concurrency, Result, ok, err, Exec}

pub record RetryConfig : Type 0 where
  pub max_retries : ℕ

abbrev pub default_retry_config : RetryConfig
default_retry_config = record { max_retries = 15 }

-- `error instanceof EventConcurrencyError`
abbrev pub is_concurrency_error : Error → Bool
is_concurrency_error (event_concurrency e a) = true
is_concurrency_error e = false

module _ {S A : Type 0} (operation : Exec S A) (sleep : ℕ → S → S) where
  -- The loop, with the retries that are left and the number of the attempt.
  attempts : ℕ → ℕ → Exec S A
  attempts zero attempt s = operation s
  attempts (suc left) attempt s =
      let (r, s') = operation s in
      elim r [
        | ok a ↦ (ok a, s')
        | err e ↦ elim (is_concurrency_error e) [
          | true ↦ attempts left (attempt + 1) (sleep attempt s')
          | false ↦ (err e, s')
        ]
      ]

  unfoldable pub retry_on_concurrency_error : RetryConfig → Exec S A
  unfolding attempts
  retry_on_concurrency_error config = attempts config.max_retries 0
