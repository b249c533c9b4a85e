-- ===== src/Snapshots.antt =====
-- wallet/infrastructure/snapshots: the snapshot repository, over the database client, and the
-- snapshot service.
pub mod Laws
pub mod Save
use Prim.Native.String.{◌++◌ as text_append}
use wallex_sanbox.Prelude.{
  not, ℕ, zero, suc, ◌+◌, ◌%◌, String, Bool, ◌&&◌, Option, none, some, List, [], ◌∷◌, length, leb,
  ◌==◌, if◌then◌else◌,
}
use wallex_sanbox.Prelude.Int.{ℤ, pos, ◌+ℤ◌, pos_part}
use wallex_sanbox.Exec.{
  Error, plain, stream_not_found, Result, ok, err, Exec, pure, throw, gets, modify, ◌>>=◌, ◌>>◌,
}
use wallex_sanbox.Domain.{StoredWalletEvent}
use wallex_sanbox.Aggregate.{
  WalletAggregate, WalletState, rehydrate, rehydrate_from_snapshot, snapshot,
}
use wallex_sanbox.EventStore.Client.{
  KurrentClient, RecordedEvent, RecordedData, snapshot_data, EventPayload, any, WalletSnapshot,
}
use wallex_sanbox.EventStore.{read_stream, read_stream_from_version}

unfoldable pub snapshot_stream_name : String → String
snapshot_stream_name aggregate_id = text_append "snapshot-wallet-" aggregate_id

-- The first event of the read that is a snapshot.
unfoldable pub first_snapshot : List (Option RecordedEvent) → Option WalletSnapshot
first_snapshot [] = none
first_snapshot (none ∷ rest) = first_snapshot rest
first_snapshot (some recorded ∷ rest) =
    let others = first_snapshot rest in elim recorded.body [ snapshot_data s ↦ some s | _ ↦ others ]

unfoldable pub snapshot_or_throw :
    Result (List (Option RecordedEvent)) → Result (Option WalletSnapshot)
unfolding first_snapshot
snapshot_or_throw (ok resolved) = ok (first_snapshot resolved)
snapshot_or_throw (err stream_not_found) = ok none
snapshot_or_throw (err e) = err e

-- The parts of the configuration: `SNAPSHOT_THRESHOLD` and `SNAPSHOT_KEEP_LAST`.
pub record SnapshotConfig : Type 0 where
  pub snapshot_threshold : ℕ
  pub keep_last_snapshots : ℕ

-- A remainder by 0 is NaN, which is not 0.
abbrev is_multiple : ℕ → ℕ → Bool
is_multiple n d = not (d == 0) && ((n % d) == 0)

unfoldable pub should_create_snapshot : SnapshotConfig → ℤ → Bool
should_create_snapshot config event_count =
    leb config.snapshot_threshold (pos_part event_count)
    && is_multiple (pos_part event_count) config.snapshot_threshold

abbrev pub next_snapshot_version : Option WalletSnapshot → ℕ
next_snapshot_version none = 1
next_snapshot_version (some latest) = latest.snapshot_version + 1

module _ (client : KurrentClient) where
  open client use {Db}

  -- A failure to set the retention is only logged. The metadata (the revision and the time once
  -- more) is read by nothing and left out.
  unfoldable pub save_snapshot : ℕ → WalletSnapshot → Exec Db (Unit {0})
  save_snapshot keep_last s db =
      let name = snapshot_stream_name s.aggregate_id in
      let (r, db') =
        client.append_to_stream name (record { body = snapshot_data s; metadata = none } ∷ []) any
          db in
      elim r [
        | ok revision ↦ (ok tt, (client.set_max_count name keep_last db').1)
        | err e ↦ (err e, db')
      ]

  unfoldable pub get_latest_snapshot : String → Exec Db (Option WalletSnapshot)
  unfolding snapshot_or_throw
  get_latest_snapshot aggregate_id db =
      (snapshot_or_throw (client.read_last (snapshot_stream_name aggregate_id) db), db)

  lift : {A : Type 0} → Result A → Exec Db A
  lift r db = (r, db)

  abbrev load_from_snapshot :
      String → String → WalletSnapshot → Exec Db (Option (WalletAggregate × ℤ))
  load_from_snapshot now wallet_id s = do
    events ← read_stream_from_version client wallet_id (pos_part (s.version +ℤ pos 1))
    aggregate ← lift (rehydrate_from_snapshot now wallet_id s.state s.version events)
    pure (some (aggregate, s.version +ℤ pos 1 +ℤ pos (length events)))

  abbrev load_from_events :
      String → String → List StoredWalletEvent → Exec Db (Option (WalletAggregate × ℤ))
  load_from_events now wallet_id [] = pure none
  load_from_events now wallet_id (e ∷ es) = do
    aggregate ← lift (rehydrate now wallet_id (e ∷ es))
    pure (some (aggregate, pos (length (e ∷ es))))

  abbrev load_with :
      String → String → Option WalletSnapshot → Exec Db (Option (WalletAggregate × ℤ))
  load_with now wallet_id (some s) = load_from_snapshot now wallet_id s
  load_with now wallet_id none = read_stream client wallet_id >>= load_from_events now wallet_id

  -- The aggregate and the number of its events, or nothing for a wallet without events.
  unfoldable pub load_aggregate : String → String → Exec Db (Option (WalletAggregate × ℤ))
  unfolding lift
  load_aggregate now wallet_id = get_latest_snapshot wallet_id >>= load_with now wallet_id

  -- The part that `createSnapshotIfNeeded` and `createSnapshot` share.
  unfoldable pub snapshot_now :
      SnapshotConfig → String → WalletAggregate → WalletState → Exec Db (Unit {0})
  snapshot_now config now aggregate state = do
    latest ← get_latest_snapshot state.id
    save_snapshot config.keep_last_snapshots (record {
      aggregate_id = state.id;
      state = state;
      version = aggregate.version;
      snapshot_version = next_snapshot_version latest;
      timestamp = now;
    })

  abbrev snapshot_if_any :
      SnapshotConfig → String → WalletAggregate → Option WalletState → Exec Db (Unit {0})
  snapshot_if_any config now aggregate none = pure tt
  snapshot_if_any config now aggregate (some state) = snapshot_now config now aggregate state

  unfoldable pub create_snapshot_if_needed :
      SnapshotConfig → String → WalletAggregate → ℤ → Exec Db (Unit {0})
  create_snapshot_if_needed config now aggregate event_count =
      if should_create_snapshot config event_count
      then snapshot_if_any config now aggregate (snapshot aggregate)
      else pure tt

  abbrev force_snapshot :
      SnapshotConfig → String → String → Option (WalletAggregate × ℤ) → Exec Db (Unit {0})
  force_snapshot config now wallet_id none =
      throw (plain (text_append "Wallet " (text_append wallet_id " not found")))
  force_snapshot config now wallet_id (some (aggregate, count)) = elim (snapshot aggregate) [
    | none ↦ throw (plain (text_append "Cannot snapshot wallet " wallet_id))
    | some state ↦ snapshot_now config now aggregate state
  ]

  -- `createSnapshot`, with no look at the threshold
  unfoldable pub create_snapshot : SnapshotConfig → String → String → Exec Db (Unit {0})
  create_snapshot config now wallet_id =
      load_aggregate now wallet_id >>= force_snapshot config now wallet_id
