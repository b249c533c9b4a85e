-- ===== src/Lock.antt =====
-- wallet/infrastructure/lock/distributed-lock.service.ts. Redis is a package and a server: the
-- commands that the code uses are the parameter `Redis`, over a state `S` that holds the keys and
-- the server's clock. Tokens are random: `tokens` gives that of each attempt. The waiting between
-- attempts is the parameter `sleep`.
pub mod Exclusion
use wallex_sanbox.Prelude.{
  ℕ, zero, suc, ◌+◌, ◌≡◌, ◌≢◌, String, Bool, true, false, Option, none, some, str_eq, if◌then◌else◌,
}
use Prim.Native.String.{◌++◌ as text_append}
use wallex_sanbox.Exec.{Error, plain, Result, ok, err, Exec}

pub record Redis (S : Type 0) : Type 0 where
  -- `SET key value PX ttl NX`, with whether it was set
  pub set_px_nx : String → String → ℕ → S → Bool × S
  -- `GET`
  pub get : String → S → Option String
  -- `DEL`, with the number of keys deleted
  pub del : String → S → ℕ × S

-- What is documented: `GET` shows the value that `SET NX` wrote until the key expires or is deleted,
-- and `SET NX` writes only where there is none.
pub record RedisLaws {S : Type 0} (redis : Redis S) : Type 0 where
  pub set_free :
      (key token : String) (ttl : ℕ) (s : S)
      → redis.get key s ≡ none
      → ((redis.set_px_nx key token ttl s).0 ≡ true)
        × (redis.get key (redis.set_px_nx key token ttl s).1 ≡ some token)
  pub set_taken :
      (key token : String) (ttl : ℕ) (s : S) (t : String)
      → redis.get key s ≡ some t
      → redis.set_px_nx key token ttl s ≡ (false, s)
  pub set_apart :
      (key token : String) (ttl : ℕ) (s : S) (other : String)
      → key ≢ other
      → redis.get other (redis.set_px_nx key token ttl s).1 ≡ redis.get other s
  pub del_found :
      (key : String) (s : S) (t : String)
      → redis.get key s ≡ some t
      → ((redis.del key s).0 ≡ 1) × (redis.get key (redis.del key s).1 ≡ none)
  pub del_apart :
      (key : String) (s : S) (other : String)
      → key ≢ other
      → redis.get other (redis.del key s).1 ≡ redis.get other s

abbrev pub is_token : Option String → String → Bool
is_token none token = false
is_token (some t) token = str_eq t token

module _ {S : Type 0} (redis : Redis S) where
  -- The lock token if the lock was free.
  unfoldable pub acquire : String → String → ℕ → S → Option String × S
  acquire token key ttl s =
      let (result, s') = redis.set_px_nx key token ttl s in
      (if result then some token else none, s')

  -- The script: compare the value with the token and delete the key, in one step.
  unfoldable pub release : String → String → S → Bool × S
  release key token s =
      if is_token (redis.get key s) token
      then (let (n, s') = redis.del key s in (elim n [ suc m ↦ true | zero ↦ false ], s'))
      else (false, s)

  module _ (tokens : ℕ → String) (sleep : ℕ → S → S) where
    -- The message also has the number of attempts.
    abbrev pub attempts_error : String → Error
    attempts_error key = plain (text_append "Failed to acquire lock for " key)

    -- The loop, with the attempts that are left and the number of the attempt.
    acquire_attempts : String → ℕ → ℕ → ℕ → Exec S String
    acquire_attempts key ttl zero attempt s = (err (attempts_error key), s)
    acquire_attempts key ttl (suc left) attempt s =
        let (token, s') = acquire (tokens attempt) key ttl s in
        elim token [
          | some t ↦ (ok t, s')
          | none ↦ acquire_attempts key ttl left (attempt + 1) (sleep attempt s')
        ]

    unfoldable pub acquire_with_retry : String → ℕ → ℕ → Exec S String
    unfolding acquire_attempts
    acquire_with_retry key ttl max_retries = acquire_attempts key ttl max_retries 0

    -- `finally`: the lock is released however the handler ends.
    unfoldable pub with_lock : {A : Type 0} → String → ℕ → ℕ → Exec S A → Exec S A
    with_lock key ttl max_retries handler s =
        let (token, s1) = acquire_with_retry key ttl max_retries s in
        elim token [
          | err e ↦ (err e, s1)
          | ok t ↦ let (r, s2) = handler s1 in (r, (release key t s2).1)
        ]
