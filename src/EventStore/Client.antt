-- ===== src/EventStore/Client.antt =====
-- The KurrentDB client, which is a package: the calls that the code makes, as a parameter, and what
-- the database documents of them.
use wallex_sanbox.Prelude.{
  ℕ, zero, suc, ◌==◌, ◌+◌, ◌<◌, ◌≡◌, ◌≢◌, String, Bool, true, false, Option, none, some, List, [],
  ◌∷◌, ◌++◌, map, length, leb, if◌then◌else◌,
}
use wallex_sanbox.Prelude.Int.{ℤ, pos, eqb_ℤ, ◌+ℤ◌}
use wallex_sanbox.Exec.{wrong_expected_version, stream_not_found, Result, ok, err}
use wallex_sanbox.Domain.{EventData}
use wallex_sanbox.Aggregate.{WalletState}

-- snapshots/wallet-snapshot.repository.ts
pub record WalletSnapshot : Type 0 where
  pub aggregate_id : String
  pub state : WalletState
  pub version : ℤ
  pub snapshot_version : ℕ
  pub timestamp : String

-- The type and the data of a recorded event. `other` is any type that the code does not know.
pub data RecordedData : Type 0 where
  wallet_data : EventData → RecordedData
  snapshot_data : WalletSnapshot → RecordedData
  other : String → RecordedData

pub record RecordMetadata : Type 0 where
  pub occurred_at : Option String
  pub correlation_id : Option String
  pub causation_id : Option String

pub record EventPayload : Type 0 where
  pub body : RecordedData
  pub metadata : Option RecordMetadata

pub record RecordedEvent : Type 0 where
  pub body : RecordedData
  pub metadata : Option RecordMetadata
  pub revision : ℕ
  pub created : String

pub data StreamState : Type 0 where
  any no_stream : StreamState
  at_revision : ℤ → StreamState

pub record KurrentClient : Type 1 where
  pub Db : Type 0
  -- `readStream` forwards from a revision; a resolved event may be missing
  pub read_stream : String → ℕ → Db → Result (List (Option RecordedEvent))
  -- `readStream` backwards from the end, at most one event
  pub read_last : String → Db → Result (List (Option RecordedEvent))
  -- `appendToStream`, with the next expected revision
  pub append_to_stream : String → List EventPayload → StreamState → Db → Result ℤ × Db
  -- `setStreamMetadata` with `maxCount`
  pub set_max_count : String → ℕ → Db → Result (Unit {0}) × Db

-- Does a stream that has had `n` events so far meet the expectation?
abbrev pub meets : ℕ → StreamState → Bool
meets n any = true
meets n no_stream = n == 0
meets n (at_revision r) = eqb_ℤ (r +ℤ pos 1) (pos n)

-- The revision that a refusal reports: that of the last event, if there is one.
abbrev pub actual_state : ℕ → Option ℤ
actual_state zero = none
actual_state (suc n) = some (pos n)

-- Payloads as they are recorded, from revision `n` on. The server dates them.
abbrev pub RecordedAs : ℕ → List EventPayload → List RecordedEvent → Type 0
RecordedAs n [] [] = Unit
RecordedAs n (p ∷ ps) (r ∷ rs) =
    (r.body ≡ p.body) × (r.metadata ≡ p.metadata) × (r.revision ≡ n) × RecordedAs (suc n) ps rs
RecordedAs n ps rs = ⊥

-- The events from a revision on.
abbrev pub from_revision : ℕ → List RecordedEvent → List RecordedEvent
from_revision n [] = []
from_revision n (r ∷ rs) = if leb n r.revision then r ∷ from_revision n rs else from_revision n rs

abbrev pub get_last? : List RecordedEvent → Option RecordedEvent
get_last? [] = none
get_last? (r ∷ []) = some r
get_last? (r ∷ s ∷ rs) = get_last? (s ∷ rs)

abbrev pub resolve : List RecordedEvent → List (Option RecordedEvent)
resolve = map some

abbrev pub found :
    List RecordedEvent → List (Option RecordedEvent) → Result (List (Option RecordedEvent))
found [] resolved = err stream_not_found
found (r ∷ rs) resolved = ok resolved

abbrev pub last_resolved : List RecordedEvent → List (Option RecordedEvent)
last_resolved rs = elim (get_last? rs) [ none ↦ [] | some r ↦ some r ∷ [] ]

-- What the database documents: reads return the stream in order, an append that meets the expected
-- revision adds its events at the next revisions and any other is refused, streams are apart.
-- That the server answers is part of it.
pub record KurrentLaws (client : KurrentClient) : Type 0 where
  pub contents : client.Db → String → List RecordedEvent
  -- how many events the stream has ever had
  pub count : client.Db → String → ℕ
  pub read_law :
      (s : String) (n : ℕ) (db : client.Db)
      → client.read_stream s n db
        ≡ found (contents db s) (resolve (from_revision n (contents db s)))
  pub read_last_law :
      (s : String) (db : client.Db)
      → client.read_last s db ≡ found (contents db s) (last_resolved (contents db s))
  pub append_meets :
      (s : String) (p : EventPayload) (ps : List EventPayload) (st : StreamState) (db : client.Db)
      → meets (count db s) st ≡ true
      → ((client.append_to_stream s (p ∷ ps) st db).0 ≡ ok (pos (count db s + length ps)))
        × (count (client.append_to_stream s (p ∷ ps) st db).1 s ≡ count db s + length (p ∷ ps))
        × ((new : List RecordedEvent) × (contents (client.append_to_stream s (p ∷ ps) st db).1 s
              ≡ contents db s ++ new)
            × RecordedAs (count db s) (p ∷ ps) new)
  pub append_refused :
      (s : String) (ps : List EventPayload) (st : StreamState) (db : client.Db)
      → meets (count db s) st ≡ false
      → client.append_to_stream s ps st db
        ≡ (err (wrong_expected_version (actual_state (count db s))), db)
  pub append_apart :
      (s t : String) (ps : List EventPayload) (st : StreamState) (db : client.Db)
      → s ≢ t
      → (contents (client.append_to_stream s ps st db).1 t ≡ contents db t)
        × (count (client.append_to_stream s ps st db).1 t ≡ count db t)
  pub max_count_apart :
      (s t : String) (n : ℕ) (db : client.Db)
      → s ≢ t
      → (contents (client.set_max_count s n db).1 t ≡ contents db t)
        × (count (client.set_max_count s n db).1 t ≡ count db t)
  pub max_count_last :
      (s : String) (n : ℕ) (db : client.Db)
      → 0 < n
      → get_last? (contents (client.set_max_count s n db).1 s) ≡ get_last? (contents db s)
