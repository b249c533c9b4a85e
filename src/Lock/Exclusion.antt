-- ===== src/Lock/Exclusion.antt =====
-- The lock: who gets it, who can free it, and what a protected handler leaves.
use wallex_sanbox.Prelude.{
  ℕ, zero, suc, ◌+◌, ◌<◌, ◌≡◌, refl, ap, ◌≢◌, String, true, false, none, some, str_eq, eq_iff,
  arith, inl, inr, ◌⊎◌, Option-cases, Bool-cases,
}
use wallex_sanbox.Exec.{ok, err, Exec}
use wallex_sanbox.Lock.{
  Redis, RedisLaws, acquire, release, acquire_attempts, acquire_with_retry, with_lock,
  attempts_error, is_token,
}

module _ {S : Type 0} (redis : Redis S) (laws : RedisLaws redis) where
  -- A lock is acquired when it is free, and then holds the token; a held lock is refused, and stays.
  pub acquire_cases :
      (token key : String) (ttl : ℕ) (s : S)
      → ((redis.get key s ≡ none)
          × ((acquire redis token key ttl s).0 ≡ some token)
          × (redis.get key (acquire redis token key ttl s).1 ≡ some token))
        ⊎ ((holder : String) × (redis.get key s ≡ some holder)
            × (acquire redis token key ttl s ≡ (none, s)))
  unfolding acquire
  acquire_cases token key ttl s = elim (Option-cases (redis.get key s)) [
    | inl free ↦ let (set, held) = laws.set_free key token ttl s free in inl (free, rw set, held)
    | inr (t, taken) ↦ inr (t, taken, rw (laws.set_taken key token ttl s t taken))
  ]

  -- A lock that is held is released by the token that it holds, and by no other, which changes
  -- nothing.
  pub release_cases :
      (key token holder : String) (s : S)
      → redis.get key s ≡ some holder
      → ((holder ≡ token)
          × ((release redis key token s).0 ≡ true)
          × (redis.get key (release redis key token s).1 ≡ none))
        ⊎ ((holder ≢ token) × (release redis key token s ≡ (false, s)))
  unfolding release
  release_cases key token holder s h = elim (Bool-cases (str_eq holder token)) [
    | inl same ↦
        let (one, free) = laws.del_found key s holder h in
        inl ((eq_iff holder token).0 same, rw (h, same, one), rw (h, same) free)
    | inr different ↦ inr (ground (arith, eq_iff holder token), rw (h, different))
  ]

  -- Releasing one lock leaves every other as it was.
  release_apart :
      (key token other : String) (s : S)
      → key ≢ other
      → redis.get other (release redis key token s).1 ≡ redis.get other s
  unfolding release
  release_apart key token other s ne = elim (Bool-cases (is_token (redis.get key s) token)) [
    | inl own ↦ rw own (laws.del_apart key s other ne)
    | inr foreign ↦ rw foreign
  ]

  acquire_free :
      (token key : String) (ttl : ℕ) (s : S)
      → redis.get key s ≡ none
      → ((acquire redis token key ttl s).0 ≡ some token)
        × (redis.get key (acquire redis token key ttl s).1 ≡ some token)
  acquire_free token key ttl s h = elim (acquire_cases token key ttl s) [
    | inl (_, got, held) ↦ (got, held)
    | inr (t, taken, _) ↦ absurd (cc (h, taken))
  ]

  acquire_held :
      (token key : String) (ttl : ℕ) (s : S)
      → redis.get key s ≢ none
      → acquire redis token key ttl s ≡ (none, s)
  acquire_held token key ttl s h = elim (acquire_cases token key ttl s) [
    | inl (free, _, _) ↦ absurd (h free)
    | inr (t, _, refused) ↦ refused
  ]

  held_parts :
      (token key : String) (ttl : ℕ) (s : S)
      → redis.get key s ≢ none
      → ((acquire redis token key ttl s).0 ≡ none) × ((acquire redis token key ttl s).1 ≡ s)
  held_parts token key ttl s h =
      let e = acquire_held token key ttl s h in (ap (λ p. p.0) e, ap (λ p. p.1) e)

  release_nothing :
      (key token : String) (s : S)
      → redis.get key s ≡ none
      → redis.get key (release redis key token s).1 ≡ none
  unfolding release
  release_nothing key token s h = rw h h

  module _ (tokens : ℕ → String) (sleep : ℕ → S → S) where
    -- The state at an attempt, had the lock been held at all before it.
    abbrev pub waited_from : ℕ → ℕ → S → S
    waited_from zero attempt s = s
    waited_from (suc k) attempt s = waited_from k (attempt + 1) (sleep attempt s)

    acquired_at :
        (key : String) (ttl left k attempt : ℕ) (s : S)
        → k < left
        → ((j : ℕ) → j < k → redis.get key (waited_from j attempt s) ≢ none)
        → redis.get key (waited_from k attempt s) ≡ none
        → acquire_attempts redis tokens sleep key ttl left attempt s ≡ (
          ok (tokens (attempt + k)),
          (acquire redis (tokens (attempt + k)) key ttl (waited_from k attempt s)).1,
        )
    unfolding acquire_attempts
    acquired_at key ttl zero k attempt s l held free = absurd (omega arith)
    acquired_at key ttl (suc left) zero attempt s l held free =
        let here : attempt + 0 ≡ attempt = omega arith in
        let (got, _) = acquire_free (tokens attempt) key ttl s free in
        rw (here, got, acquire_attempts)
    acquired_at key ttl (suc left) (suc k) attempt s l held free =
        let later : attempt + suc k ≡ attempt + 1 + k = omega arith in
        let (refused, same) = held_parts (tokens attempt) key ttl s (held 0 (omega arith)) in
        rw (refused, same, later, acquire_attempts)
          (acquired_at key ttl left k (attempt + 1) (sleep attempt s) (omega arith)
            (λ j i. held (suc j) (omega arith)) free)

    exhausted_at :
        (key : String) (ttl left attempt : ℕ) (s : S)
        → ((j : ℕ) → j < left → redis.get key (waited_from j attempt s) ≢ none)
        → acquire_attempts redis tokens sleep key ttl left attempt s
          ≡ (err (attempts_error redis tokens sleep key), waited_from left attempt s)
    unfolding acquire_attempts
    exhausted_at key ttl zero attempt s held = refl
    exhausted_at key ttl (suc left) attempt s held =
        let (refused, same) = held_parts (tokens attempt) key ttl s (held 0 (omega arith)) in
        rw (refused, same, acquire_attempts)
          (exhausted_at key ttl left (attempt + 1) (sleep attempt s)
            (λ j i. held (suc j) (omega arith)))

    -- The lock goes to the first of the attempts that finds it free, with that attempt's token.
    pub acquire_first_free :
        (key : String) (ttl max_retries k : ℕ) (s : S)
        → k < max_retries
        → ((j : ℕ) → j < k → redis.get key (waited_from j 0 s) ≢ none)
        → redis.get key (waited_from k 0 s) ≡ none
        → ((acquire_with_retry redis tokens sleep key ttl max_retries s).0 ≡ ok (tokens k))
          × (redis.get key (acquire_with_retry redis tokens sleep key ttl max_retries s).1
              ≡ some (tokens k))
    unfolding acquire_with_retry
    acquire_first_free key ttl max_retries k s l held free =
        let at : 0 + k ≡ k = omega arith in
        let run = rw at at (acquired_at key ttl max_retries k 0 s l held free) in
        rw run (refl, (acquire_free (tokens k) key ttl (waited_from k 0 s) free).1)

    -- If every attempt finds the lock held, the call throws, and writes nothing but what the
    -- waiting does.
    pub acquire_exhausted :
        (key : String) (ttl max_retries : ℕ) (s : S)
        → ((j : ℕ) → j < max_retries → redis.get key (waited_from j 0 s) ≢ none)
        → acquire_with_retry redis tokens sleep key ttl max_retries s
          ≡ (err (attempts_error redis tokens sleep key), waited_from max_retries 0 s)
    unfolding acquire_with_retry
    acquire_exhausted key ttl max_retries s held = exhausted_at key ttl max_retries 0 s held

    -- Take a handler for which the lock is acquired. Its outcome is passed on, and the lock is free
    -- afterwards, unless another client has it by then, which keeps it.
    pub with_lock_releases :
        {A : Type 0} (key token : String) (ttl max_retries : ℕ) (handler : Exec S A) (s s' : S)
        → acquire_with_retry redis tokens sleep key ttl max_retries s ≡ (ok token, s')
        → let (r, after) = with_lock redis tokens sleep key ttl max_retries handler s in
          (r ≡ (handler s').0)
          × ((redis.get key after ≡ none)
              ⊎ ((other : String) × (other ≢ token)
                  × (redis.get key (handler s').1 ≡ some other)
                  × (after ≡ (handler s').1)))
    unfolding with_lock
    with_lock_releases key token ttl max_retries handler s s' h =
        let got = ap (λ p. p.0) h in
        let at = ap (λ p. p.1) h in rw (got, at, with_lock) (refl, freed (handler s').1)
      where
        freed :
            (t : S)
            → (redis.get key (release redis key token t).1 ≡ none)
              ⊎ ((other : String) × (other ≢ token)
                  × (redis.get key t ≡ some other)
                  × ((release redis key token t).1 ≡ t))
        freed t = elim (Option-cases (redis.get key t)) [
          | inl expired ↦ inl (release_nothing key token t expired)
          | inr (holder, held) ↦ elim (release_cases key token holder t held) [
            | inl (own, _, free) ↦ inl free
            | inr (foreign, kept) ↦ inr (holder, foreign, held, ap (λ p. p.1) kept)
          ]
        ]
