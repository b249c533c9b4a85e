-- ===== src/Tests/History.antt =====
-- Aggregates, the event store and snapshots at concrete inputs.
use wallex_sanbox.Prelude.{◌≡◌, refl, String, some, [], ◌∷◌}
use wallex_sanbox.Prelude.Int.{pos, ◌+ℤ◌}
use wallex_sanbox.Number.{fin, add}
use wallex_sanbox.Exec.{ok}
use wallex_sanbox.Aggregate.{
  WalletState, rehydrate, rehydrate_from_snapshot, apply_history, apply_historical_event,
}
use wallex_sanbox.Aggregate.Snapshot.{SameLoad, snapshot_equivalent}
use wallex_sanbox.EventStore.{stream_name, to_stored}
use wallex_sanbox.EventStore.Read.{IsStream}
use wallex_sanbox.Snapshots.{snapshot_stream_name, load_aggregate}
use wallex_sanbox.Snapshots.Laws.{LoadsAs, load_aggregate_lem}
use wallex_sanbox.Tests.Memory.{client, laws}
use wallex_sanbox.Tests.Worlds.{both_world, alice_history, wallet_at, alice_created, alice_credited}

pub alice-IsStream : IsStream laws both_world.db "alice" alice_history
unfolding stream_name to_stored
alice-IsStream = record { records = (refl, refl, refl, (refl, refl, refl, tt)); whole = refl }

alice_loads :
    (now : String) → rehydrate now "alice" alice_history ≡ ok (wallet_at "alice" (pos 100) (pos 1))
unfolding rehydrate apply_history apply_historical_event ◌+ℤ◌ add
alice_loads now = refl

load_aggregate_lem_example :
    LoadsAs
      (wallet_at "alice" (pos 100) (pos 1))
      2
      both_world.db
      (load_aggregate client "now" "alice" both_world.db)
unfolding snapshot_stream_name
load_aggregate_lem_example =
    load_aggregate_lem laws "now" "then" "alice" both_world.db (wallet_at "alice" (pos 100) (pos 1))
      alice_created (alice_credited ∷ []) alice-IsStream tt (alice_loads "then")

abbrev opened_state : WalletState
opened_state = record {
  id = "alice";
  owner_id = "owner";
  balance = fin (pos 0);
  created_at = "another time";
  updated_at = "another time";
  version = pos 0;
}

snapshot_equivalent_example :
    SameLoad
      (rehydrate_from_snapshot "now" "alice" opened_state (pos 0) (alice_credited ∷ []))
      (rehydrate "then" "alice" alice_history)
unfolding rehydrate apply_history apply_historical_event ◌+ℤ◌ add
snapshot_equivalent_example =
    snapshot_equivalent "now" "then" "alice" (alice_created ∷ []) (alice_credited ∷ [])
      (record (wallet_at "alice" (pos 0) (pos 0)) { state = some opened_state })
      (wallet_at "alice" (pos 0) (pos 0)) opened_state refl
      (record { ids = refl; versions = refl; states = (refl, refl, refl, refl) }) refl
