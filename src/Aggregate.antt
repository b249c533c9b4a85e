-- ===== src/Aggregate.antt =====
-- wallet/domain/wallet.aggregate.ts: the event-sourced wallet, method by method. `now` is the clock
-- read by a method (`new Date().toISOString()`), taken once in each call.
pub mod Methods
pub mod Creation
pub mod Loads
pub mod Replay
pub mod History
pub mod Snapshot
pub mod Balance
use wallex_sanbox.Prelude.{
  String, Bool, ◌||◌, not, Option, none, some, List, [], ◌∷◌, ◌++◌, str_eq, if◌then◌else◌,
}
use wallex_sanbox.Prelude.Int.{ℤ, pos, negsuc, ◌+ℤ◌}
use wallex_sanbox.Number.{Number, zero_number, add, sub, lt, le, is_finite, is_truthy}
use wallex_sanbox.Exec.{
  Error, invalid_amount, insufficient_funds, plain, Result, ok, err, Exec, pure, ◌>>=◌, ◌>>◌,
  throw_if, modify, gets,
}
use wallex_sanbox.Domain.{
  EventData, wallet_created, wallet_credited, wallet_debited, WalletDomainEvent, EventMetadata,
  StoredWalletEvent,
}

pub record WalletState : Type 0 where
  pub id : String
  pub owner_id : String
  pub balance : Number
  pub created_at : String
  pub updated_at : String
  pub version : ℤ

pub record WalletAggregate : Type 0 where
  pub id : String
  pub pending_events : List WalletDomainEvent
  pub state : Option WalletState
  pub version : ℤ
  pub persisted_version : ℤ

-- `new WalletAggregate(walletId)`
abbrev pub blank : String → WalletAggregate
blank wallet_id = record {
  id = wallet_id;
  pending_events = [];
  state = none;
  version = negsuc 0;
  persisted_version = negsuc 0;
}

abbrev pub Action : Type 0
Action = Exec WalletAggregate (Unit {0})

abbrev pub is_uninitialized : Option WalletState → Bool
is_uninitialized none = Bool.true
is_uninitialized (some s) = Bool.false

unfoldable pub ensure_initialized : Action
ensure_initialized a =
    throw_if (is_uninitialized a.state) (plain "Wallet aggregate has not been initialized.") a

unfoldable pub ensure_valid_amount : Number → Action
ensure_valid_amount amount =
    throw_if (not (is_finite amount) || le amount zero_number) (invalid_amount amount)

unfoldable pub clear_pending_events : WalletAggregate → WalletAggregate
clear_pending_events a = record a { pending_events = [] }

-- An event that was read back carries its time; an empty text counts as missing.
unfoldable pub get_event_timestamp : String → Option EventMetadata → String
get_event_timestamp now none = now
get_event_timestamp now (some m) = if str_eq m.occurred_at "" then now else m.occurred_at

-- `this.state?.balance ?? 0`
abbrev pub balance_or_zero : Option WalletState → Number
balance_or_zero none = zero_number
balance_or_zero (some s) = s.balance

-- `this.state ? { ...this.state, balance, updatedAt, version } : null`
abbrev pub with_balance : Number → String → ℤ → Option WalletState → Option WalletState
with_balance b t v none = none
with_balance b t v (some s) = some (record s { balance = b; updated_at = t; version = v })

-- `applyEvent`, on the event's data and its timestamp
unfoldable pub apply_event : EventData → String → Action
unfolding ensure_initialized
apply_event (wallet_created owner initial) timestamp = modify λ a. record a {
  state = some (record {
    id = a.id;
    owner_id = owner;
    balance = zero_number;
    created_at = timestamp;
    updated_at = timestamp;
    version = a.version;
  });
}
apply_event (wallet_credited amount description) timestamp = do
  ensure_initialized
  modify λ a. record a {
    state = with_balance (add (balance_or_zero a.state) amount) timestamp a.version a.state;
  }
apply_event (wallet_debited amount description) timestamp = do
  ensure_initialized
  modify λ a. record a {
    state = with_balance (sub (balance_or_zero a.state) amount) timestamp a.version a.state;
  }

abbrev pub with_version : ℤ → Option WalletState → Option WalletState
with_version v none = none
with_version v (some s) = some (record s { version = v })

unfoldable pub update_state_version : WalletAggregate → WalletAggregate
update_state_version a = record a { state = with_version a.version a.state }

unfoldable pub apply_new_event : String → WalletDomainEvent → Action
unfolding apply_event get_event_timestamp update_state_version
apply_new_event now event = do
  modify λ a. record a {
    pending_events = a.pending_events ++ event ∷ [];
    version = a.version +ℤ pos 1;
  }
  apply_event event.body (get_event_timestamp now none)
  modify update_state_version

unfoldable pub apply_historical_event : String → StoredWalletEvent → Action
unfolding apply_event get_event_timestamp update_state_version
apply_historical_event now e = do
  apply_event e.body (get_event_timestamp now (some e.metadata))
  modify λ a. record a { version = e.metadata.version; persisted_version = e.metadata.version }
  modify update_state_version

-- `events.forEach((event) => aggregate.applyHistoricalEvent(event))`
unfoldable pub apply_history : String → List StoredWalletEvent → Action
apply_history now [] = pure tt
apply_history now (e ∷ es) = do apply_historical_event now e; apply_history now es

-- A static method returns the object that its body has built, or throws.
abbrev pub built : Result (Unit {0}) × WalletAggregate → Result WalletAggregate
built (ok _, a) = ok a
built (err e, a) = err e

-- `initialBalance || undefined`
abbrev pub unless_falsy : Number → Option Number
unless_falsy n = if is_truthy n then some n else none

abbrev credited_at_creation : String → String → Number → Action
credited_at_creation now wallet_id initial =
    apply_new_event now
      (record { aggregate_id = wallet_id; body = wallet_credited initial (some "Initial balance") })

abbrev create_events : String → String → String → Number → Action
create_events now wallet_id owner initial = do
  apply_new_event now
      (record { aggregate_id = wallet_id; body = wallet_created owner (unless_falsy initial) })
  (if lt zero_number initial then credited_at_creation now wallet_id initial else pure tt)

unfoldable pub create : String → String → String → Number → Result WalletAggregate
unfolding apply_new_event
create now wallet_id owner initial =
    if lt initial zero_number
    then err (invalid_amount initial)
    else built (create_events now wallet_id owner initial (blank wallet_id))

unfoldable pub rehydrate : String → String → List StoredWalletEvent → Result WalletAggregate
unfolding clear_pending_events
rehydrate now wallet_id events =
    built ((apply_history now events >> modify clear_pending_events) (blank wallet_id))

unfoldable pub rehydrate_from_snapshot :
    String → String → WalletState → ℤ → List StoredWalletEvent → Result WalletAggregate
unfolding clear_pending_events
rehydrate_from_snapshot now wallet_id snapshot_state snapshot_version events_after_snapshot =
    built (
      (apply_history now events_after_snapshot >> modify clear_pending_events)
        (record (blank wallet_id) {
          state = some snapshot_state;
          version = snapshot_version;
          persisted_version = snapshot_version;
        }))

unfoldable pub credit : String → Number → Option String → Action
unfolding ensure_initialized ensure_valid_amount apply_new_event
credit now amount description = do
  ensure_initialized
  ensure_valid_amount amount
  id ← gets (λ a. a.id)
  apply_new_event now (record { aggregate_id = id; body = wallet_credited amount description })

unfoldable pub debit : String → Number → Option String → Action
unfolding ensure_initialized ensure_valid_amount apply_new_event
debit now amount description = do
  ensure_initialized
  ensure_valid_amount amount
  balance ← gets (λ a. balance_or_zero a.state)
  id ← gets (λ a. a.id)
  throw_if (lt balance amount) (insufficient_funds id balance amount)
  apply_new_event now (record { aggregate_id = id; body = wallet_debited amount description })

unfoldable pub mark_events_committed : WalletAggregate → WalletAggregate
unfolding clear_pending_events
mark_events_committed a = clear_pending_events (record a { persisted_version = a.version })

-- `snapshot()`; the getters `getPendingEvents`, `getPersistedVersion` and `getVersion` are fields
abbrev pub snapshot : WalletAggregate → Option WalletState
snapshot a = a.state
