-- ===== src/Commands.antt =====
-- wallet/application/commands/handlers: the command handlers over the components they call. What
-- they share is the parameter `Services`; the state of all of it is a `World`. Logs and metrics are
-- left out. A handler reads the clock several times: `Times` has the readings.
pub mod Loading
pub mod Steps
pub mod Locked
pub mod Ready
pub mod Changes
pub mod Races
pub mod Published
pub mod Transfer
pub mod Create
use Prim.Native.String.{◌++◌ as text_append}
use wallex_sanbox.Prelude.{
  ℕ, ◌≡◌, String, Bool, Option, none, some, List, length, if◌then◌else◌, str_eq,
}
use wallex_sanbox.Prelude.Int.{ℤ, pos, ◌+ℤ◌}
use wallex_sanbox.Number.{Number}
use wallex_sanbox.Exec.{Error, not_found, Result, ok, err, Exec, pure, throw, ◌>>=◌, ◌>>◌}
use wallex_sanbox.Domain.{StoredWalletEvent}
use wallex_sanbox.Aggregate.{WalletAggregate, WalletState, mark_events_committed, snapshot}
use wallex_sanbox.Aggregate.History.{Change, credited, debited, perform}
use wallex_sanbox.EventStore.Client.{KurrentClient}
use wallex_sanbox.EventStore.{append_to_stream}
use wallex_sanbox.Snapshots.{SnapshotConfig, load_aggregate, create_snapshot_if_needed}
use wallex_sanbox.Database.{Table}
use wallex_sanbox.Idempotency.{IdempotencyKey}
use wallex_sanbox.Lock.{Redis, with_lock}
use wallex_sanbox.Wallets.{WalletEntity, Transactions}
use wallex_sanbox.Outbox.{OutboxTables, EnqueueOptions, enqueue}
use wallex_sanbox.Wallets as Repository

-- What a request to create a wallet is hashed from.
pub record CreateRequest : Type 0 where
  pub wallet_id : String
  pub owner_id : String
  pub initial_balance : Number

pub record Services : Type 1 where
  pub client : KurrentClient
  pub config : SnapshotConfig
  pub wallets : Table WalletEntity
  pub keys : Table (IdempotencyKey (Option WalletState))
  pub hash_request : CreateRequest → String
  pub Cache : Type 0
  pub redis : Redis Cache
  pub tokens : ℕ → String
  pub transactions : Transactions wallets.Rows

pub record World (s : Services) : Type 0 where
  pub db : s.client.Db
  pub rows : s.wallets.Rows
  pub key_rows : s.keys.Rows
  pub outbox : OutboxTables
  pub cache : s.Cache

pub record Times : Type 0 where
  pub loaded : String
  pub changed : String
  pub appended : String
  pub enqueued : ℕ
  pub saved : String

module _ {s : Services} where
  abbrev pub in_db : {A : Type 0} → Exec s.client.Db A → Exec (World s) A
  in_db m w = let (r, d) = m w.db in (r, record w { db = d })

  abbrev pub in_rows : {A : Type 0} → Exec s.wallets.Rows A → Exec (World s) A
  in_rows m w = let (r, d) = m w.rows in (r, record w { rows = d })

  abbrev pub in_keys : {A : Type 0} → Exec s.keys.Rows A → Exec (World s) A
  in_keys m w = let (r, d) = m w.key_rows in (r, record w { key_rows = d })

  abbrev pub in_outbox : {A : Type 0} → Exec OutboxTables A → Exec (World s) A
  in_outbox m w = let (r, d) = m w.outbox in (r, record w { outbox = d })

  -- `try { … } catch (error) { <log> }`
  abbrev pub attempt : {A : Type 0} → Exec (World s) A → Exec (World s) (Unit {0})
  attempt m w = (ok tt, (m w).1)

  -- Redis, on the whole state.
  abbrev pub cache_of_world : Redis (World s)
  cache_of_world = record {
    set_px_nx = λ key token ttl w.
        let (r, c) = s.redis.set_px_nx key token ttl w.cache in (r, record w { cache = c });
    get = λ key w. s.redis.get key w.cache;
    del = λ key w. let (r, c) = s.redis.del key w.cache in (r, record w { cache = c });
  }

-- The time to live and the number of attempts of every handler's lock.
abbrev pub lock_ttl_ms : ℕ
lock_ttl_ms = 5000

abbrev pub max_retries : ℕ
max_retries = 100

abbrev pub lock_key : String → String
lock_key wallet_id = text_append "lock:wallet:" wallet_id

abbrev pub options_of : String → EnqueueOptions
options_of wallet_id = record {
  aggregate_id = wallet_id;
  correlation_id = none;
  causation_id = none;
}

-- `CreditWalletCommand` and `DebitWalletCommand`
pub record ChangeCommand : Type 0 where
  pub wallet_id : String
  pub amount : Number
  pub description : Option String

module _ (s : Services) where
  -- The write-side row follows.
  abbrev pub persist : Change → String → Number → Exec s.wallets.Rows WalletEntity
  persist credited = Repository.credit s.wallets
  persist debited = Repository.debit s.wallets

  -- What follows the append: what fails in the write side or the outbox is only logged.
  abbrev pub finish_change :
      Change
      → ChangeCommand
      → Times
      → WalletAggregate
      → ℤ
      → List StoredWalletEvent
      → Exec (World s) (Option WalletState)
  finish_change c command t aggregate event_count committed =
      attempt (in_rows (persist c command.wallet_id command.amount))
      >> attempt (in_outbox (enqueue t.enqueued committed (options_of command.wallet_id)))
      >> in_db (
          create_snapshot_if_needed s.client s.config t.saved (mark_events_committed aggregate)
            (event_count +ℤ pos (length committed)))
      >> pure (snapshot (mark_events_committed aggregate))

  -- The outcome of `credit` or `debit` on the loaded aggregate, and the aggregate then.
  abbrev pub commit_change :
      Change
      → ChangeCommand
      → Times
      → ℤ
      → Result (Unit {0}) × WalletAggregate
      → Exec (World s) (Option WalletState)
  commit_change c command t event_count (err e, aggregate) = throw e
  commit_change c command t event_count (ok _, aggregate) =
      in_db (
        append_to_stream s.client t.appended command.wallet_id aggregate.pending_events
          aggregate.persisted_version)
      >>= finish_change c command t aggregate event_count

  abbrev pub change_loaded :
      Change
      → ChangeCommand
      → Times
      → Option (WalletAggregate × ℤ)
      → Exec (World s) (Option WalletState)
  change_loaded c command t none = throw (not_found command.wallet_id)
  change_loaded c command t (some (aggregate, event_count)) =
      commit_change c command t event_count
        (perform c t.changed command.amount command.description aggregate)

  -- What the lock protects. The handlers of credits and debits differ in the method and the row
  -- update only.
  unfoldable pub change_wallet :
      Change → ChangeCommand → Times → Exec (World s) (Option WalletState)
  change_wallet c command t =
      in_db (load_aggregate s.client t.loaded command.wallet_id) >>= change_loaded c command t

  module _ (sleep : ℕ → World s → World s) where
    unfoldable pub locked : {A : Type 0} → String → Exec (World s) A → Exec (World s) A
    locked wallet_id handler =
        with_lock cache_of_world s.tokens sleep (lock_key wallet_id) lock_ttl_ms max_retries handler

    unfoldable pub credit_wallet : ChangeCommand → Times → Exec (World s) (Option WalletState)
    unfolding locked
    credit_wallet command t = locked command.wallet_id (change_wallet credited command t)

    unfoldable pub debit_wallet : ChangeCommand → Times → Exec (World s) (Option WalletState)
    unfolding locked
    debit_wallet command t = locked command.wallet_id (change_wallet debited command t)
