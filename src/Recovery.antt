-- ===== src/Recovery.antt =====
-- wallet/infrastructure/recovery/recovery.service.ts: stale events of the outbox, and the read model
-- built again from the event store and compared with the write side. The time of a job is an
-- argument, in milliseconds, and so is the list of wallets that the write side returns. Dates of the
-- read model and logs are left out.
pub mod Rebuilt
pub mod Resets
use Prim.Native.String.{◌++◌ as text_append}
use wallex_sanbox.Prelude.{
  ℕ, suc, ◌+◌, ◌-◌, ◌*◌, String, Bool, true, false, not, ◌&&◌, Option, none, some, List, [], ◌∷◌,
  ◌++◌, length, str_eq, ltb, leb, is_some, if◌then◌else◌,
}
use wallex_sanbox.Prelude.Int.{ℤ, pos_part, neg_part}
use wallex_sanbox.Number.{Number, fin, nan, infinity, neg_infinity, zero_number, add, sub}
use wallex_sanbox.Exec.{plain, Result, ok, err, Exec, pure, throw, ◌>>=◌, ◌>>◌}
use wallex_sanbox.Domain.{
  EventData, wallet_created, wallet_credited, wallet_debited, StoredWalletEvent,
}
use wallex_sanbox.EventStore.Client.{KurrentClient}
use wallex_sanbox.EventStore.{read_stream}
use wallex_sanbox.Outbox.{OutboxEvent, OutboxTables, take, update_ids, ids_of, unprocessed_count}
use wallex_sanbox.Wallets.{WalletEntity}
use wallex_sanbox.ReadModel.{Conversions, ReadWallet, ReadTable, number, or_zero, numeric}

-- 5 minutes
abbrev pub stale_after_ms : ℕ
stale_after_ms = 300000

abbrev pub is_stale : ℕ → OutboxEvent → Bool
is_stale threshold e = not (is_some e.processed_at) && ltb e.created_at threshold

unfoldable pub stale : ℕ → List OutboxEvent → List OutboxEvent
stale threshold [] = []
stale threshold (e ∷ es) =
    let rest = stale threshold es in if is_stale threshold e then e ∷ rest else rest

-- ORDER BY created_at ASC
unfoldable pub insert_by_time : OutboxEvent → List OutboxEvent → List OutboxEvent
insert_by_time e [] = e ∷ []
insert_by_time e (x ∷ xs) =
    if leb e.created_at x.created_at then e ∷ x ∷ xs else x ∷ insert_by_time e xs

unfoldable pub sort_by_time : List OutboxEvent → List OutboxEvent
unfolding insert_by_time
sort_by_time [] = []
sort_by_time (e ∷ es) = insert_by_time e (sort_by_time es)

-- `{ consumer: null }`
abbrev pub without_consumer : OutboxEvent → OutboxEvent
without_consumer e = record e { consumer = none }

-- One update for each of the events.
unfoldable pub reset_consumers : List ℕ → List OutboxEvent → List OutboxEvent
reset_consumers [] events = events
reset_consumers (i ∷ is) events = reset_consumers is (update_ids without_consumer (i ∷ []) events)

pub record RecoveryService : Type 0 where
  pub is_recovering : Bool
  pub outbox : OutboxTables

unfoldable pub retry_stale_events : ℕ → RecoveryService → RecoveryService
unfolding stale sort_by_time reset_consumers
retry_stale_events now s =
    let found = take 100 (sort_by_time (stale (now - stale_after_ms) s.outbox.events)) in
    if s.is_recovering then s else record {
      is_recovering = false;
      outbox = record s.outbox { events = reset_consumers (ids_of found) s.outbox.events };
    }

abbrev pub unprocessed_ids : List OutboxEvent → List ℕ
unprocessed_ids [] = []
unprocessed_ids (e ∷ es) =
    let rest = unprocessed_ids es in if is_some e.processed_at then rest else e.id ∷ rest

-- The tables, with the number of rows affected.
unfoldable pub force_reprocess_unprocessed : OutboxTables → ℕ × OutboxTables
force_reprocess_unprocessed t =
    let ids = unprocessed_ids t.events in
    (length ids, record t { events = update_ids without_consumer ids t.events })

pub record RecoveryStats : Type 0 where
  pub stale_events : ℕ
  pub oldest_stale_event_age : Option ℕ
  pub unprocessed_events : ℕ

abbrev unprocessed : List OutboxEvent → List OutboxEvent
unprocessed [] = []
unprocessed (e ∷ es) =
    let rest = unprocessed es in if is_some e.processed_at then rest else e ∷ rest

abbrev age_of_first : ℕ → List OutboxEvent → Option ℕ
age_of_first now [] = none
age_of_first now (e ∷ es) = some (now - e.created_at)

unfoldable pub get_stats : ℕ → OutboxTables → RecoveryStats
unfolding stale sort_by_time
get_stats now t = record {
  stale_events = length (stale (now - stale_after_ms) t.events);
  oldest_stale_event_age = age_of_first now (sort_by_time (unprocessed t.events));
  unprocessed_events = unprocessed_count none t.events;
}

-- The variables of the loop over a wallet's events.
pub record RebuiltState : Type 0 where
  pub balance : Number
  pub owner_id : Option String

abbrev pub rebuild_body : EventData → RebuiltState → RebuiltState
rebuild_body (wallet_created owner initial) s = record {
  balance = or_zero initial;
  owner_id = some owner;
}
rebuild_body (wallet_credited amount description) s = record s { balance = add s.balance amount }
rebuild_body (wallet_debited amount description) s = record s { balance = sub s.balance amount }

unfoldable pub rebuild_events : List StoredWalletEvent → RebuiltState → RebuiltState
rebuild_events [] s = s
rebuild_events (e ∷ es) s = rebuild_events es (rebuild_body e.body s)

abbrev pub initial_rebuild : RebuiltState
initial_rebuild = record { balance = zero_number; owner_id = none }

-- `|a| > 0.01`, where one is `unit` of the smallest unit
abbrev exceeds_cent : ℕ → Number → Bool
exceeds_cent unit (fin z) = ltb unit (100 * (pos_part z + neg_part z))
exceeds_cent unit nan = false
exceeds_cent unit infinity = true
exceeds_cent unit neg_infinity = true

module _ (client : KurrentClient) (table : ReadTable) where
  abbrev pub Stores : Type 0
  Stores = client.Db × table.Rows

  abbrev from_store : String → Exec Stores (List StoredWalletEvent)
  from_store wallet_id s = let (r, db) = read_stream client wallet_id s.0 in (r, (db, s.1))

  abbrev into_read_model : ReadWallet → Exec Stores (Unit {0})
  into_read_model w s = let (r, rows) = table.upsert w s.1 in (r, (s.0, rows))

  abbrev no_creation : String → Exec Stores (Unit {0})
  no_creation wallet_id = throw (
      plain (
        text_append "Invalid event stream for wallet "
          (text_append wallet_id ": no WalletCreated event")))

  abbrev write_rebuilt : String → Number → Option String → Exec Stores (Unit {0})
  write_rebuilt wallet_id balance none = no_creation wallet_id
  write_rebuilt wallet_id balance (some owner) =
      if str_eq owner ""
      then no_creation wallet_id
      else into_read_model (record { id = wallet_id; owner_id = owner; balance = number balance })

  abbrev rebuild_from : String → List StoredWalletEvent → Exec Stores (Unit {0})
  rebuild_from wallet_id [] = pure tt
  rebuild_from wallet_id (e ∷ es) =
      let s = rebuild_events (e ∷ es) initial_rebuild in
      write_rebuilt wallet_id s.balance s.owner_id

  unfoldable pub rebuild_wallet_read_model : String → Exec Stores (Unit {0})
  unfolding rebuild_events
  rebuild_wallet_read_model wallet_id = from_store wallet_id >>= rebuild_from wallet_id

  -- The counts `rebuilt` and `failed`.
  abbrev count_rebuild : Result (Unit {0}) → ℕ × ℕ → ℕ × ℕ
  count_rebuild (ok _) (rebuilt, failed) = (suc rebuilt, failed)
  count_rebuild (err e) (rebuilt, failed) = (rebuilt, suc failed)

  -- The loop over the wallets that the write side returns.
  unfoldable pub rebuild_all_read_models : List WalletEntity → ℕ × ℕ → Stores → (ℕ × ℕ) × Stores
  unfolding rebuild_wallet_read_model
  rebuild_all_read_models [] stats s = (stats, s)
  rebuild_all_read_models (w ∷ ws) stats s =
      let (r, s') = rebuild_wallet_read_model w.id s in
      rebuild_all_read_models ws (count_rebuild r stats) s'

-- A wallet that the read model lacks, or has with another balance.
module _ (c : Conversions) (unit : ℕ) where
  abbrev pub is_inconsistent : WalletEntity → Option ReadWallet → Bool
  is_inconsistent w none = true
  is_inconsistent w (some r) = exceeds_cent unit (sub w.balance (numeric c r.balance))

  module _ (table : ReadTable) where
    -- With the identifiers found so far.
    unfoldable pub detect_data_drift :
        List String → List WalletEntity → table.Rows → Result (List String)
    detect_data_drift found [] rows = ok found
    detect_data_drift found (w ∷ ws) rows = elim (table.find_one w.id rows) [
      | err e ↦ err e
      | ok r ↦ detect_data_drift (if is_inconsistent w r then found ++ w.id ∷ [] else found) ws rows
    ]
