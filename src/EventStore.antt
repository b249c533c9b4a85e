-- ===== src/EventStore.antt =====
-- wallet/infrastructure/event-store/event-store.service.ts. The database client is the parameter
-- `KurrentClient` of EventStore/Client.antt.
pub mod Client
pub mod Append
pub mod Read
use Client.{
  KurrentClient, RecordedData, wallet_data, RecordMetadata, RecordedEvent, EventPayload,
  StreamState, no_stream, at_revision,
}
use Prim.Native.String.{◌++◌ as text_append}
use wallex_sanbox.Prelude.{
  ℕ, zero, suc, ◌-◌, String, Bool, Option, none, some, List, [], ◌∷◌, map, length, get_or,
  if◌then◌else◌,
}
use wallex_sanbox.Prelude.Int.{ℤ, pos, negsuc, ◌+ℤ◌, ◌-ℤ◌, ltb_ℤ}
use wallex_sanbox.Exec.{
  Error, event_concurrency, wrong_expected_version, stream_not_found, Result, ok, err, Exec,
}
use wallex_sanbox.Domain.{EventData, WalletDomainEvent, EventMetadata, StoredWalletEvent}

unfoldable pub stream_name : String → String
stream_name aggregate_id = text_append "wallet-" aggregate_id

abbrev no_metadata : RecordMetadata
no_metadata = record { occurred_at = none; correlation_id = none; causation_id = none }

-- `normalizeMetadata`: missing metadata gives missing fields
unfoldable pub normalize_metadata : Option RecordMetadata → RecordMetadata
normalize_metadata metadata = get_or metadata no_metadata

-- One recorded event as the domain sees it, under the aggregate that was asked for.
unfoldable pub to_stored : String → RecordedEvent → EventData → StoredWalletEvent
unfolding normalize_metadata
to_stored aggregate_id recorded body =
    let m = normalize_metadata recorded.metadata in
    record {
      event = record { aggregate_id = aggregate_id; body = body };
      metadata = record {
        version = pos recorded.revision;
        occurred_at = get_or m.occurred_at recorded.created;
        correlation_id = m.correlation_id;
        causation_id = m.causation_id;
      };
    }

-- The loop over the resolved events: what has no event or is no wallet event is skipped.
unfoldable pub stored_events : String → List (Option RecordedEvent) → List StoredWalletEvent
stored_events aggregate_id [] = []
stored_events aggregate_id (none ∷ rest) = stored_events aggregate_id rest
stored_events aggregate_id (some recorded ∷ rest) =
    let others = stored_events aggregate_id rest in
    elim recorded.body [
      | wallet_data body ↦ to_stored aggregate_id recorded body ∷ others
      | _ ↦ others
    ]

-- The `catch` of the read: a stream that is not there has no events.
unfoldable pub events_or_throw :
    String → Result (List (Option RecordedEvent)) → Result (List StoredWalletEvent)
events_or_throw aggregate_id (ok resolved) = ok (stored_events aggregate_id resolved)
events_or_throw aggregate_id (err stream_not_found) = ok []
events_or_throw aggregate_id (err e) = err e

module _ (client : KurrentClient) where
  open client use {Db}

  -- `START` is revision 0.
  unfoldable pub read_stream_from_version : String → ℕ → Exec Db (List StoredWalletEvent)
  unfolding events_or_throw
  read_stream_from_version aggregate_id from_version db = (
    events_or_throw aggregate_id (client.read_stream (stream_name aggregate_id) from_version db),
    db,
  )

  unfoldable pub read_stream : String → Exec Db (List StoredWalletEvent)
  unfolding read_stream_from_version
  read_stream aggregate_id = read_stream_from_version aggregate_id 0

-- `serializeEvent`: the payload, dated now. The random identifier is left to the client.
unfoldable pub serialize_event : String → WalletDomainEvent → EventPayload
serialize_event now event = record {
  body = wallet_data event.body;
  metadata = some (record { occurred_at = some now; correlation_id = none; causation_id = none });
}

abbrev pub stream_state : ℤ → StreamState
stream_state expected_version =
    if ltb_ℤ expected_version (pos 0) then no_stream else at_revision expected_version

-- The events that were appended, numbered from the first revision.
unfoldable pub committed_events :
    String → String → ℤ → List WalletDomainEvent → List StoredWalletEvent
committed_events now aggregate_id revision [] = []
committed_events now aggregate_id revision (event ∷ rest) =
    record {
      event = record { aggregate_id = aggregate_id; body = event.body };
      metadata = record {
        version = revision;
        occurred_at = now;
        correlation_id = none;
        causation_id = none;
      };
    }
    ∷ committed_events now aggregate_id (revision +ℤ pos 1) rest

-- The `catch` of the append: a stream without an actual revision counts as version -1.
unfoldable pub committed_or_throw :
    String → String → List WalletDomainEvent → ℤ → Result ℤ → Result (List StoredWalletEvent)
unfolding committed_events
committed_or_throw now aggregate_id events expected_version (ok last_revision) =
    ok (committed_events now aggregate_id (last_revision -ℤ pos (length events - 1)) events)
committed_or_throw now aggregate_id events expected_version (err (wrong_expected_version actual)) =
    err (event_concurrency expected_version (get_or actual (negsuc 0)))
committed_or_throw now aggregate_id events expected_version (err e) = err e

module _ (client : KurrentClient) where
  open client use {Db}

  unfoldable pub append_to_stream :
      String → String → List WalletDomainEvent → ℤ → Exec Db (List StoredWalletEvent)
  unfolding committed_or_throw
  append_to_stream now aggregate_id [] expected_version db = (ok [], db)
  append_to_stream now aggregate_id (e ∷ es) expected_version db =
      let events = e ∷ es in
      let (r, db') =
        client.append_to_stream (stream_name aggregate_id) (map (serialize_event now) events)
          (stream_state expected_version) db in
      (committed_or_throw now aggregate_id events expected_version r, db')
