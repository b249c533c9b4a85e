-- ===== src/Retry/Attempts.antt =====
-- Which attempt decides the result of a retried operation.
use wallex_sanbox.Prelude.{
  ℕ, zero, suc, ◌+◌, ◌≤◌, ◌<◌, ◌≡◌, refl, Bool, true, false, arith, ◌⊎◌, inl, inr,
}
use wallex_sanbox.Exec.{Result, ok, err, Exec}
use wallex_sanbox.Retry.{RetryConfig, is_concurrency_error, attempts, retry_on_concurrency_error}

abbrev pub is_conflict : {A : Type 0} → Result A → Bool
is_conflict (ok a) = false
is_conflict (err e) = is_concurrency_error e

module _ {S A : Type 0} (operation : Exec S A) (sleep : ℕ → S → S) where
  -- The state at the beginning of the `k`-th attempt, had all before it failed.
  abbrev state_from : ℕ → ℕ → S → S
  state_from zero attempt s = s
  state_from (suc k) attempt s = state_from k (attempt + 1) (sleep attempt (operation s).1)

  abbrev pub state_at : ℕ → S → S
  state_at k s = state_from k 0 s

  attempts_decided :
      (left k attempt : ℕ) (s : S)
      → k ≤ left
      → ((j : ℕ) → j < k → is_conflict (operation (state_from j attempt s)).0 ≡ true)
      → (is_conflict (operation (state_from k attempt s)).0 ≡ false) ⊎ (k ≡ left)
      → attempts operation sleep left attempt s ≡ operation (state_from k attempt s)
  unfolding attempts
  attempts_decided zero zero attempt s le before h = refl
  attempts_decided zero (suc k) attempt s le before h = absurd (omega arith)
  attempts_decided (suc left) zero attempt s le before (inl h) = ground arith
  attempts_decided (suc left) zero attempt s le before (inr h) = absurd (omega arith)
  attempts_decided (suc left) (suc k) attempt s le before h =
      let first = before 0 (omega arith) in
      let ih =
        attempts_decided left k (attempt + 1) (sleep attempt (operation s).1) (omega arith)
          (λ j l. before (suc j) (omega arith)) (fewer h) in
      ground (arith, first, ih)
    where
      fewer : {P : Type 0} → P ⊎ (suc k ≡ suc left) → P ⊎ (k ≡ left)
      fewer (inl p) = inl p
      fewer (inr e) = inr (omega arith)

  -- The operation is attempted until it ends otherwise than in a concurrency error, at most
  -- `max_retries + 1` times, and the outcome is that of the last attempt made: of any attempt `k`
  -- before which all ended in concurrency errors, and which ends otherwise or is the last.
  pub retry_decided :
      (config : RetryConfig) (k : ℕ) (s : S)
      → k ≤ config.max_retries
      → ((j : ℕ) → j < k → is_conflict (operation (state_at j s)).0 ≡ true)
      → (is_conflict (operation (state_at k s)).0 ≡ false) ⊎ (k ≡ config.max_retries)
      → retry_on_concurrency_error operation sleep config s ≡ operation (state_at k s)
  unfolding retry_on_concurrency_error
  retry_decided config k s le before h = attempts_decided config.max_retries k 0 s le before h
