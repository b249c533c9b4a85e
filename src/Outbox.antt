-- ===== src/Outbox.antt =====
-- wallet/infrastructure/outbox: the outbox and the table of what each consumer has processed
-- (database/migrations/1730000000009-AddOutboxConsumerProcessing.ts), with the SQL statements of the
-- service as functions on their rows. Times are milliseconds. Debug captures and logs are left out.
pub mod Claim
pub mod Enqueued
pub mod Rows
use Prim.Native.String.{◌++◌ as text_append}
use wallex_sanbox.Prelude.{
  ℕ, zero, suc, ◌+◌, ◌-◌, ◌*◌, String, Bool, true, false, not, ◌&&◌, ◌||◌, Option, none, some, List,
  [], ◌∷◌, ◌++◌, map, length, str_eq, ltb, leb, ◌==◌, is_some, if◌then◌else◌,
}
use wallex_sanbox.Prelude.Int.{ℤ, pos, ◌-ℤ◌, leb_ℤ, eqb_ℤ}
use wallex_sanbox.Exec.{Error, plain, Result, ok, err, Exec}
use wallex_sanbox.Domain.{
  EventData, wallet_created, wallet_credited, wallet_debited, StoredWalletEvent,
}

pub record OutboxEvent : Type 0 where
  pub id : ℕ
  pub aggregate_id : String
  pub event_type : String
  pub event_version : ℤ
  pub payload : StoredWalletEvent
  pub correlation_id : Option String
  pub causation_id : Option String
  pub created_at : ℕ
  pub processed_at : Option ℕ
  pub consumer : Option String

-- The two tables, the next identifier, and whether the database answers inserts at the moment.
pub record OutboxTables : Type 0 where
  pub answers : Bool
  pub next_id : ℕ
  pub events : List OutboxEvent
  pub processing : List (ℕ × String)

abbrev pub type_name : EventData → String
type_name (wallet_created o i) = "WalletCreated"
type_name (wallet_credited x d) = "WalletCredited"
type_name (wallet_debited x d) = "WalletDebited"

pub record EnqueueOptions : Type 0 where
  pub aggregate_id : String
  pub correlation_id : Option String
  pub causation_id : Option String

-- The rows of a call, at consecutive identifiers.
unfoldable pub new_rows : ℕ → EnqueueOptions → ℕ → List StoredWalletEvent → List OutboxEvent
new_rows now options n [] = []
new_rows now options n (e ∷ es) =
    record {
      id = n;
      aggregate_id = options.aggregate_id;
      event_type = type_name e.body;
      event_version = e.metadata.version;
      payload = e;
      correlation_id = options.correlation_id;
      causation_id = options.causation_id;
      created_at = now;
      processed_at = none;
      consumer = none;
    }
    ∷ new_rows now options (suc n) es

-- UNIQUE (aggregate_id, event_version, event_type)
abbrev pub same_event : OutboxEvent → OutboxEvent → Bool
same_event a b =
    str_eq a.aggregate_id b.aggregate_id
    && (eqb_ℤ a.event_version b.event_version && str_eq a.event_type b.event_type)

unfoldable pub is_taken : OutboxEvent → List OutboxEvent → Bool
is_taken e [] = false
is_taken e (x ∷ xs) = same_event e x || is_taken e xs

unfoldable pub any_taken : List OutboxEvent → List OutboxEvent → Bool
unfolding is_taken
any_taken [] rows = false
any_taken (e ∷ es) rows = is_taken e rows || any_taken es (e ∷ rows)

-- One insert of all rows; a duplicate of any is ignored with the whole call.
unfoldable pub enqueue : ℕ → List StoredWalletEvent → EnqueueOptions → Exec OutboxTables (Unit {0})
unfolding new_rows any_taken
enqueue now [] options t = (ok tt, t)
enqueue now (e ∷ es) options t =
    let rows = new_rows now options t.next_id (e ∷ es) in
    if not t.answers
    then (err (plain "The database does not answer"), t)
    else (if any_taken rows t.events
        then (ok tt, t)
        else (ok tt, record t { events = t.events ++ rows; next_id = t.next_id + length (e ∷ es) }))

-- Is there a row for the event and the consumer?
unfoldable pub is_processed : ℕ → String → List (ℕ × String) → Bool
is_processed id consumer [] = false
is_processed id consumer ((i, c) ∷ rest) =
    (id == i && str_eq consumer c) || is_processed id consumer rest

abbrev pub is_old_enough : Option ℕ → ℕ → Bool
is_old_enough none created = true
is_old_enough (some limit) created = ltb created limit

-- The rows of the WHERE clause that no other transaction has locked.
unfoldable pub eligible :
    String → Option ℕ → (ℕ → Bool) → List (ℕ × String) → List OutboxEvent → List OutboxEvent
unfolding is_processed
eligible consumer older_than locked processing [] = []
eligible consumer older_than locked processing (e ∷ es) =
    let rest = eligible consumer older_than locked processing es in
    if not (is_processed e.id consumer processing)
      && (is_old_enough older_than e.created_at && not (locked e.id))
    then e ∷ rest
    else rest

-- ORDER BY id ASC
unfoldable pub insert_by_id : OutboxEvent → List OutboxEvent → List OutboxEvent
insert_by_id e [] = e ∷ []
insert_by_id e (x ∷ xs) = if leb e.id x.id then e ∷ x ∷ xs else x ∷ insert_by_id e xs

unfoldable pub sort_by_id : List OutboxEvent → List OutboxEvent
unfolding insert_by_id
sort_by_id [] = []
sort_by_id (e ∷ es) = insert_by_id e (sort_by_id es)

-- LIMIT
abbrev pub take : ℕ → List OutboxEvent → List OutboxEvent
take zero xs = []
take (suc n) [] = []
take (suc n) (x ∷ xs) = x ∷ take n xs

abbrev pub has_id : ℕ → List ℕ → Bool
has_id n [] = false
has_id n (i ∷ is) = n == i || has_id n is

-- UPDATE outbox SET … WHERE id = ANY (ids)
abbrev pub update_ids : (OutboxEvent → OutboxEvent) → List ℕ → List OutboxEvent → List OutboxEvent
update_ids f ids [] = []
update_ids f ids (e ∷ es) = (if has_id e.id ids then f e else e) ∷ update_ids f ids es

abbrev pub ids_of : List OutboxEvent → List ℕ
ids_of = map (λ e. e.id)

-- The batch, and the tables with the consumer column written. `locked` are the rows that other
-- transactions hold (SKIP LOCKED).
unfoldable pub claim_batch :
    ℕ → String → Option ℕ → (ℕ → Bool) → OutboxTables → List OutboxEvent × OutboxTables
unfolding eligible sort_by_id
claim_batch size consumer older_than locked t =
    let batch =
      take size (sort_by_id (eligible consumer older_than locked t.processing t.events)) in
    (
      batch,
      record t {
        events = update_ids (λ e. record e { consumer = some consumer }) (ids_of batch) t.events;
      },
    )

-- ON CONFLICT (outbox_event_id, consumer_name) DO NOTHING
unfoldable pub insert_processing : String → List ℕ → List (ℕ × String) → List (ℕ × String)
insert_processing consumer [] p = p
insert_processing consumer (i ∷ is) p =
    insert_processing consumer is (if is_processed i consumer p then p else (i, consumer) ∷ p)

-- `markBatchProcessed`; `markProcessed` is the batch of one
unfoldable pub mark_batch_processed : ℕ → List ℕ → String → OutboxTables → OutboxTables
unfolding insert_processing
mark_batch_processed now [] consumer t = t
mark_batch_processed now (i ∷ is) consumer t = record t {
  processing = insert_processing consumer (i ∷ is) t.processing;
  events =
      update_ids (λ e. record e { processed_at = some now; consumer = some consumer }) (i ∷ is)
        t.events;
}

unfoldable pub mark_processed : ℕ → ℕ → String → OutboxTables → OutboxTables
unfolding mark_batch_processed
mark_processed now id consumer t = mark_batch_processed now (id ∷ []) consumer t

-- processed_at < cutoff, which a missing time is not
abbrev is_before : ℕ → Option ℕ → Bool
is_before cutoff none = false
is_before cutoff (some t) = ltb t cutoff

abbrev keep_events : ℕ → List OutboxEvent → List OutboxEvent
keep_events cutoff [] = []
keep_events cutoff (e ∷ es) =
    let rest = keep_events cutoff es in if is_before cutoff e.processed_at then rest else e ∷ rest

-- ON DELETE CASCADE
abbrev keep_processing : List ℕ → List (ℕ × String) → List (ℕ × String)
keep_processing ids [] = []
keep_processing ids ((i, c) ∷ rest) =
    let others = keep_processing ids rest in if has_id i ids then (i, c) ∷ others else others

-- `cleanup`, with the number of days in milliseconds, returns the number of rows deleted
unfoldable pub cleanup : ℕ → ℕ → OutboxTables → ℕ × OutboxTables
cleanup now age t =
    let kept = keep_events (now - age) t.events in
    (
      length t.events - length kept,
      record t { events = kept; processing = keep_processing (ids_of kept) t.processing },
    )

-- consumer = :consumer, which a missing consumer is not; no condition without an argument, or with
-- an empty one
abbrev has_consumer : Option String → Option String → Bool
has_consumer none d = true
has_consumer (some c) none = str_eq c ""
has_consumer (some c) (some d) = str_eq c "" || str_eq c d

-- `getUnprocessedCount`
unfoldable pub unprocessed_count : Option String → List OutboxEvent → ℕ
unprocessed_count consumer [] = 0
unprocessed_count consumer (e ∷ es) =
    let rest = unprocessed_count consumer es in
    if not (is_some e.processed_at) && has_consumer consumer e.consumer then suc rest else rest

abbrev older : OutboxEvent → Option OutboxEvent → Option OutboxEvent
older e none = some e
older e (some x) = if leb e.created_at x.created_at then some e else some x

-- The event that no consumer has processed, the first by its creation.
abbrev oldest_unprocessed : List OutboxEvent → Option OutboxEvent
oldest_unprocessed [] = none
oldest_unprocessed (e ∷ es) =
    let rest = oldest_unprocessed es in if is_some e.processed_at then rest else older e rest

abbrev age_at : ℕ → Option OutboxEvent → ℤ
age_at now none = pos 0
age_at now (some e) = pos now -ℤ pos e.created_at

-- `getOutboxLag`
unfoldable pub get_outbox_lag : ℕ → OutboxTables → ℤ
get_outbox_lag now t = age_at now (oldest_unprocessed t.events)

abbrev insert_by_version : OutboxEvent → List OutboxEvent → List OutboxEvent
insert_by_version e [] = e ∷ []
insert_by_version e (x ∷ xs) =
    let rest = insert_by_version e xs in
    if leb_ℤ e.event_version x.event_version then e ∷ x ∷ xs else x ∷ rest

-- `getEventsByAggregate`, in ascending order of versions
unfoldable pub get_events_by_aggregate : String → List OutboxEvent → List OutboxEvent
get_events_by_aggregate aggregate_id [] = []
get_events_by_aggregate aggregate_id (e ∷ es) =
    let rest = get_events_by_aggregate aggregate_id es in
    if str_eq e.aggregate_id aggregate_id then insert_by_version e rest else rest
