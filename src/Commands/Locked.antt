-- ===== src/Commands/Locked.antt =====
-- The handlers with their locks.
use wallex_sanbox.Prelude.{ℕ, ◌≡◌, refl, ap, ◌∙◌, String, Bool-cases, inl, inr}
use wallex_sanbox.Exec.{ok, Exec}
use wallex_sanbox.Aggregate.History.{credited, debited}
use wallex_sanbox.Lock.{release, acquire_with_retry, with_lock, is_token}
use wallex_sanbox.Commands.{
  Services, World, Times, ChangeCommand, cache_of_world, lock_key, lock_ttl_ms, max_retries, locked,
  change_wallet, credit_wallet, debit_wallet,
}

module _ {s : Services} where
  -- The lock of a wallet is acquired.
  abbrev pub Acquires : (ℕ → World s → World s) → String → World s → String → World s → Type 0
  Acquires sleep wallet_id w token w' =
      acquire_with_retry cache_of_world s.tokens sleep (lock_key wallet_id) lock_ttl_ms max_retries
        w
      ≡ (ok token, w')

  abbrev with_cache : s.Cache → World s → World s
  with_cache c w = record w { cache = c }

  -- Only the cache differs.
  abbrev pub UpToCache : World s → World s → Type 0
  UpToCache w v = w ≡ record v { cache = w.cache }

  pub UpToCache-trans : (u v x : World s) → UpToCache u v → UpToCache v x → UpToCache u x
  UpToCache-trans u v x p q = p ∙ ap (λ (y : World s). with_cache u.cache y) q

  release_cache :
      (key token : String) (w : World s) → UpToCache (release cache_of_world key token w).1 w
  unfolding release
  release_cache key token w = elim (Bool-cases (is_token (s.redis.get key w.cache) token)) [
    | inl own ↦ rw own refl
    | inr foreign ↦ rw foreign refl
  ]

  pub locked_lem :
      {A : Type 0} (sleep : ℕ → World s → World s) (wallet_id token : String)
      (handler : Exec (World s) A) (w w1 : World s)
      → Acquires sleep wallet_id w token w1
      → let (r, w') = locked s sleep wallet_id handler w in
        (r ≡ (handler w1).0) × UpToCache w' (handler w1).1
  unfolding locked with_lock
  locked_lem sleep wallet_id token handler w w1 h =
      let got = ap (λ p. p.0) h in
      let at = ap (λ p. p.1) h in
      rw (got, at, with_lock) (refl, release_cache (lock_key wallet_id) token (handler w1).1)

  -- Once the lock of the wallet is acquired, a credit or a debit is what the protected part does from
  -- there, and the release changes nothing but the cache.
  pub change_locked :
      (sleep : ℕ → World s → World s) (command : ChangeCommand) (t : Times) (token : String)
      (w w1 : World s)
      → Acquires sleep command.wallet_id w token w1
      → let (r, w') = credit_wallet s sleep command t w in
        let (q, w'') = debit_wallet s sleep command t w in
        ((r ≡ (change_wallet s credited command t w1).0)
          × UpToCache w' (change_wallet s credited command t w1).1)
        × ((q ≡ (change_wallet s debited command t w1).0)
            × UpToCache w'' (change_wallet s debited command t w1).1)
  unfolding credit_wallet debit_wallet
  change_locked sleep command t token w w1 h = (
    locked_lem sleep command.wallet_id token (change_wallet s credited command t) w w1 h,
    locked_lem sleep command.wallet_id token (change_wallet s debited command t) w w1 h,
  )
