-- ===== src/Commands/Create.antt =====
-- wallet/application/commands/handlers/create-wallet.handler.ts. Metrics and logs are left out.
pub mod Opens
pub mod Repeats
use wallex_sanbox.Prelude.{
  ℕ, String, Bool, true, false, not, ◌||◌, Option, none, some, List, [], ◌∷◌, str_eq, if◌then◌else◌,
  get_or,
}
use wallex_sanbox.Prelude.Int.{ℤ}
use wallex_sanbox.Number.{Number, zero_number, is_truthy}
use wallex_sanbox.Exec.{Error, already_exists, Result, ok, err, Exec, pure, throw, ◌>>=◌, ◌>>◌}
use wallex_sanbox.Domain.{StoredWalletEvent}
use wallex_sanbox.Aggregate.{WalletAggregate, WalletState, mark_events_committed, snapshot}
use wallex_sanbox.EventStore.{append_to_stream, read_stream}
use wallex_sanbox.Idempotency.{try_get, store_pending, store, mark_failed}
use wallex_sanbox.Wallets.{WalletEntity, find_by_id}
use wallex_sanbox.Outbox.{enqueue, EnqueueOptions}
use wallex_sanbox.Commands.{
  Services, World, CreateRequest, in_db, in_rows, in_keys, in_outbox, attempt, locked,
}
use wallex_sanbox.Aggregate as Wallet
use wallex_sanbox.Wallets as Repository

pub record CreateWalletCommand : Type 0 where
  pub wallet_id : String
  pub owner_id : String
  -- 0 unless given
  pub initial_balance : Number
  pub idempotency_key : Option String
  pub correlation_id : Option String

-- The readings of the clock.
pub record CreateTimes : Type 0 where
  pub checked : ℕ
  pub pending : ℕ
  pub created : String
  pub appended : String
  pub enqueued : ℕ
  pub stored : ℕ

abbrev pub request_of : CreateWalletCommand → CreateRequest
request_of command = record {
  wallet_id = command.wallet_id;
  owner_id = command.owner_id;
  initial_balance = command.initial_balance;
}

-- `initialBalance || 0`
abbrev pub or_zero : Number → Number
or_zero n = if is_truthy n then n else zero_number

-- `if (command.idempotencyKey)`: a missing or an empty key is none.
abbrev pub with_key :
    {S : Type 0} → Option String → (String → Exec S (Unit {0})) → Exec S (Unit {0})
with_key none f = pure tt
with_key (some k) f = if str_eq k "" then pure tt else f k

module _ (s : Services) where
  abbrev pub currency : String
  currency = "USD"

  abbrev refuse_history : String → List StoredWalletEvent → Exec (World s) (Unit {0})
  refuse_history wallet_id [] = pure tt
  refuse_history wallet_id (e ∷ es) = throw (already_exists wallet_id)

  abbrev refuse_row : String → Option WalletEntity → Exec (World s) (Unit {0})
  refuse_row wallet_id none = pure tt
  refuse_row wallet_id (some w) = throw (already_exists wallet_id)

  -- Behind the append. What the write side and the outbox throw is only logged.
  abbrev pub finish_create :
      CreateWalletCommand
      → CreateTimes
      → WalletAggregate
      → List StoredWalletEvent
      → Exec (World s) (Option WalletState)
  finish_create command t aggregate committed =
      attempt (
        in_rows (
          Repository.create s.wallets command.wallet_id command.owner_id
            (or_zero command.initial_balance) currency))
      >> attempt (
          in_outbox (
            enqueue t.enqueued committed (record {
              aggregate_id = command.wallet_id;
              correlation_id = command.correlation_id;
              causation_id = command.idempotency_key;
            })))
      >> with_key command.idempotency_key (λ k.
        in_keys
          (store s.keys s.hash_request t.stored k (snapshot (mark_events_committed aggregate))))
      >> pure (snapshot (mark_events_committed aggregate))

  abbrev pub commit_create :
      CreateWalletCommand
      → CreateTimes
      → Result WalletAggregate
      → Exec (World s) (Option WalletState)
  commit_create command t (err e) = throw e
  commit_create command t (ok aggregate) =
      in_db (
        append_to_stream s.client t.appended command.wallet_id aggregate.pending_events
          aggregate.persisted_version)
      >>= finish_create command t aggregate

  -- The block of the `try`.
  unfoldable pub create_unless_exists :
      CreateWalletCommand → CreateTimes → Exec (World s) (Option WalletState)
  create_unless_exists command t =
      in_db (read_stream s.client command.wallet_id)
      >>= refuse_history command.wallet_id
      >> in_rows (find_by_id s.wallets command.wallet_id)
      >>= refuse_row command.wallet_id
      >> with_key command.idempotency_key
          (λ k. in_keys (store_pending s.keys s.hash_request t.pending k (request_of command)))
      >> commit_create command t
          (Wallet.create t.created command.wallet_id command.owner_id command.initial_balance)

  -- `catch`: the key has failed, and the error goes on.
  abbrev pub fail_key :
      Option String → Result (Option WalletState) × World s → Result (Option WalletState) × World s
  fail_key key (ok r, w) = (ok r, w)
  fail_key key (err e, w) =
      (with_key key (λ k. in_keys (mark_failed s.keys s.hash_request k)) >> throw e) w

  unfoldable pub create_protected :
      CreateWalletCommand → CreateTimes → Exec (World s) (Option WalletState)
  unfolding create_unless_exists
  create_protected command t w = fail_key command.idempotency_key (create_unless_exists command t w)

  -- A cached response that is a state is returned.
  abbrev pub unless_cached :
      Option (Option WalletState)
      → Exec (World s) (Option WalletState)
      → Exec (World s) (Option WalletState)
  unless_cached (some (some state)) k = pure (some state)
  unless_cached cached k = k

  abbrev pub cached_response :
      Option String
      → CreateTimes
      → CreateWalletCommand
      → Exec (World s) (Option (Option WalletState))
  cached_response none t command = pure none
  cached_response (some k) t command =
      if str_eq k ""
      then pure none
      else in_keys (try_get s.keys s.hash_request t.checked k (some (request_of command)))

  unfoldable pub create_wallet :
      (ℕ → World s → World s)
      → CreateWalletCommand
      → CreateTimes
      → Exec (World s) (Option WalletState)
  unfolding locked create_protected
  create_wallet sleep command t =
      cached_response command.idempotency_key t command
      >>= λ (cached : Option (Option WalletState)).
          unless_cached cached (locked s sleep command.wallet_id (create_protected command t))
