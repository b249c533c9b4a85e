-- ===== src/Tests/Services.antt =====
-- Idempotency keys, locks and retries at concrete inputs.
use wallex_sanbox.Prelude.{
  ℕ, zero, suc, ◌+◌, ◌<◌, ◌≡◌, ◌≢◌, refl, String, true, none, some, arith, ◌⊎◌, inl,
}
use wallex_sanbox.Prelude.Int.{pos}
use wallex_sanbox.Exec.{event_concurrency, ok, err, Exec}
use wallex_sanbox.Idempotency.{
  IdempotencyKey, pending_record, being_processed, try_get, store_pending, store, mark_failed,
}
use wallex_sanbox.Idempotency.Keys.{try_get-store, failed_key_stays}
use wallex_sanbox.Lock.{acquire, acquire_with_retry, with_lock}
use wallex_sanbox.Lock.Exclusion.{with_lock_releases}
use wallex_sanbox.Retry.{retry_on_concurrency_error, default_retry_config}
use wallex_sanbox.Retry.Attempts.{is_conflict, state_at, retry_decided}
use wallex_sanbox.Database.{Table, TableLaws}
use wallex_sanbox.Tests.Memory.{put, table, table_laws, Rows, Cache, redis, redis_laws}

-- Keys of requests that are texts and their own hashes.
abbrev Key : Type 0
Key = IdempotencyKey ℕ

abbrev keys : Table Key
keys = table (λ r. r.key) (λ r. r)

abbrev keys_laws : TableLaws keys (λ r. r.key) (λ r. r)
keys_laws = table_laws (λ r. r.key) (λ r. r) (λ r. refl)

abbrev hash : String → String
hash q = q

abbrev nothing : Rows Key
nothing k = none

abbrev taken : Key
taken = pending_record keys hash 10 "k" "q"

abbrev with_taken : Rows Key
with_taken = put "k" (some taken) nothing

try_get-store_example :
    let (done, kept) = store keys hash 20 "k" 7 with_taken in
    (done ≡ ok tt) × (try_get keys hash 30 "k" (some "q") kept ≡ (ok (some 7), kept))
try_get-store_example =
    try_get-store keys hash keys_laws 10 20 30 "k" "q" 7 with_taken refl refl (omega arith)

failed_key_stays_example :
    let failed_rows = (mark_failed keys hash "k" with_taken).1 in
    (try_get keys hash 30 "k" (some "q") failed_rows ≡ (ok none, failed_rows))
    × (store_pending keys hash 30 "k" "q" failed_rows ≡ (err being_processed, failed_rows))
failed_key_stays_example =
    failed_key_stays keys hash keys_laws 30 "k" "q" taken with_taken refl refl (omega arith) refl

-- A lock that is free, and one that another client holds.
abbrev free : Cache
free k = none

abbrev held : Cache
held = put "lock" (some "theirs") free

abbrev mine : ℕ → String
mine n = "mine"

-- The other client frees the lock while this one waits.
abbrev freed : ℕ → Cache → Cache
freed n c = free

abbrev unchanged : ℕ → Cache → Cache
unchanged n c = c

abbrev three : Exec Cache ℕ
three c = (ok 3, c)

with_lock_releases_example :
    let (r, after) = with_lock redis mine unchanged "lock" 5000 100 three free in
    (r ≡ ok 3)
    × ((redis.get "lock" after ≡ none)
        ⊎ ((other : String) × (other ≢ "mine")
            × (redis.get "lock" (put "lock" (some "mine") free) ≡ some other)
            × (after ≡ put "lock" (some "mine") free)))
unfolding acquire_with_retry acquire
with_lock_releases_example =
    with_lock_releases redis redis_laws mine unchanged "lock" "mine" 5000 100 three free
      (put "lock" (some "mine") free) refl

-- Conflicts until the state is 2.
abbrev conflict_until_two : Exec ℕ String
conflict_until_two (suc (suc n)) = (ok "done", suc (suc n))
conflict_until_two n = (err (event_concurrency (pos 0) (pos 1)), n)

abbrev counted : ℕ → ℕ → ℕ
counted attempt n = n + 1

retry_decided_example :
    retry_on_concurrency_error conflict_until_two counted default_retry_config 0 ≡ (ok "done", 2)
retry_decided_example =
    retry_decided conflict_until_two counted default_retry_config 2 0 (omega arith) conflicts
      (inl refl)
  where
    conflicts :
        (j : ℕ)
        → j < 2
        → is_conflict (conflict_until_two (state_at conflict_until_two counted j 0)).0 ≡ true
    conflicts zero l = refl
    conflicts (suc zero) l = refl
    conflicts (suc (suc j)) l = absurd (omega arith)
