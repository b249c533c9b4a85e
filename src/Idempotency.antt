-- ===== src/Idempotency.antt =====
-- wallet/infrastructure/idempotency/idempotency.service.ts. Times are milliseconds; a key's life in
-- hours is added to the clock (summer time is left out). The hash of a request is a parameter, and
-- so is the type `A` of responses.
pub mod Keys
use wallex_sanbox.Prelude.{
  ℕ, ◌+◌, ◌*◌, ◌≡◌, String, Bool, true, false, not, Option, none, some, str_eq, ltb, ◌==◌,
  if◌then◌else◌,
}
use wallex_sanbox.Exec.{
  Error, conflict, unique_violation, Result, ok, err, Exec, pure, throw, ◌>>=◌, ◌>>◌, throw_if,
}
use wallex_sanbox.Database.{Table}

pub data IdempotencyStatus : Type 0 where
  pending completed failed : IdempotencyStatus

abbrev pub is_pending : IdempotencyStatus → Bool
is_pending pending = true
is_pending s = false

pub record IdempotencyKey (A : Type 0) : Type 0 where
  pub key : String
  pub request_hash : String
  -- `{}` while the request is being processed
  pub response : Option A
  pub status : IdempotencyStatus
  pub created_at : ℕ
  pub expires_at : ℕ

abbrev pub hours : ℕ → ℕ
hours n = n * 3600000

abbrev pub default_ttl_hours : ℕ
default_ttl_hours = 24

abbrev pub expiry : ℕ → ℕ
expiry now = now + hours default_ttl_hours

abbrev pub being_processed : Error
being_processed = conflict "Request with this idempotency key is already being processed"

module _ {A Q : Type 0} (table : Table (IdempotencyKey A)) (hash_request : Q → String) where
  open table use {Rows}

  abbrev hash_differs : Option Q → IdempotencyKey A → Bool
  hash_differs none r = false
  hash_differs (some q) r = not (str_eq r.request_hash (hash_request q))

  -- What a record that has not expired means for a request.
  abbrev by_status : IdempotencyStatus → Option A → Exec Rows (Option A)
  by_status completed response = pure response
  by_status pending response = throw being_processed
  by_status failed response = pure none

  abbrev use_record : ℕ → String → Option Q → Option (IdempotencyKey A) → Exec Rows (Option A)
  use_record now key request none = pure none
  use_record now key request (some r) =
      if ltb r.expires_at now
      then (table.remove key >> pure none)
      else (throw_if (hash_differs request r)
            (conflict "Idempotency key reused with different request")
          >> by_status r.status r.response)

  -- The cached response for a key, if there is one. The empty key is none.
  unfoldable pub try_get : ℕ → String → Option Q → Exec Rows (Option A)
  try_get now key request =
      if str_eq key ""
      then pure none
      else ((λ rows. (table.find_one key rows, rows)) >>= use_record now key request)

  abbrev pub pending_record : ℕ → String → Q → IdempotencyKey A
  pending_record now key request = record {
    key = key;
    request_hash = hash_request request;
    response = none;
    status = pending;
    created_at = now;
    expires_at = expiry now;
  }

  -- A duplicate key means a concurrent request.
  abbrev conflict_on_duplicate : Result (Unit {0}) → Result (Unit {0})
  conflict_on_duplicate (err unique_violation) = err being_processed
  conflict_on_duplicate r = r

  unfoldable pub store_pending : ℕ → String → Q → Exec Rows (Unit {0})
  store_pending now key request rows =
      if str_eq key ""
      then (ok tt, rows)
      else (let (r, rows') = table.insert (pending_record now key request) rows in
          (conflict_on_duplicate r, rows'))

  abbrev pub completed_record : ℕ → String → A → IdempotencyKey A
  completed_record now key response = record {
    key = key;
    request_hash = "";
    response = some response;
    status = completed;
    created_at = now;
    expires_at = expiry now;
  }

  -- Duplicates are ignored on this insert.
  abbrev ignore_duplicate : Result (Unit {0}) → Result (Unit {0})
  ignore_duplicate (err unique_violation) = ok tt
  ignore_duplicate r = r

  abbrev insert_if_none_pending : ℕ → String → A → ℕ → Exec Rows (Unit {0})
  insert_if_none_pending now key response affected rows =
      if affected == 0
      then (let (r, rows') = table.insert (completed_record now key response) rows in
          (ignore_duplicate r, rows'))
      else (ok tt, rows)

  unfoldable pub store : ℕ → String → A → Exec Rows (Unit {0})
  store now key response =
      if str_eq key ""
      then pure tt
      else (table.update key (λ r. is_pending r.status)
            (λ r. record r {
              response = some response;
              status = completed;
              expires_at = expiry now;
            })
          >>= insert_if_none_pending now key response)

  unfoldable pub mark_failed : String → Exec Rows (Unit {0})
  mark_failed key =
      if str_eq key ""
      then pure tt
      else (table.update key (λ r. true) (λ r. record r { status = failed }) >> pure tt)

  -- `delete`
  unfoldable pub delete_key : String → Exec Rows (Unit {0})
  delete_key key = table.remove key

  unfoldable pub cleanup : ℕ → Exec Rows ℕ
  cleanup now = table.remove_where (λ r. ltb r.expires_at now)
