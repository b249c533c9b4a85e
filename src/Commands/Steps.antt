-- ===== src/Commands/Steps.antt =====
-- The steps of the handlers on the event store: an append and a snapshot, and what they keep.
use mathlib.Core.Path.{subst}
use mathlib.Core.List.{append-nil}
use wallex_sanbox.Prelude.{
  String, ◌<◌, ◌≡◌, ◌≢◌, refl, ap, ◌∙◌, sym, some, List, [], ◌∷◌, ◌++◌, map, length, inl, inr, ◌⊎◌,
}
use wallex_sanbox.Prelude.Int.{ℤ, pos, ◌+ℤ◌}
use wallex_sanbox.Exec.{ok}
use wallex_sanbox.Domain.{StoredWalletEvent, WalletDomainEvent}
use wallex_sanbox.Aggregate.{
  WalletAggregate, WalletState, rehydrate, mark_events_committed, clear_pending_events,
}
use wallex_sanbox.Aggregate.Replay.{SameView, Stamped}
use wallex_sanbox.Aggregate.History.{IsHistory}
use wallex_sanbox.Aggregate.Loads.{IsLive, commit_loads, SameView-symm}
use wallex_sanbox.EventStore.Client.{KurrentClient, KurrentLaws, WalletSnapshot, get_last?}
use wallex_sanbox.EventStore.{
  append_to_stream, committed_events, stream_name, serialize_event, stream_state,
}
use wallex_sanbox.EventStore.Append.{append_commits, append_apart, Stamped-committed}
use wallex_sanbox.Snapshots.{create_snapshot_if_needed, snapshot_stream_name}
use wallex_sanbox.Snapshots.Laws.{latest, latest_of, SnapshotFits, streams_apart}
use wallex_sanbox.Snapshots.Save.{create_snapshot_if_needed_lem, Snapshotted}
use wallex_sanbox.Commands.Loading.{IsWallet, SnapshotFits-append}
use wallex_sanbox.Snapshots.{SnapshotConfig}

module _ {client : KurrentClient} (laws : KurrentLaws client) where
  -- An append to a wallet's stream leaves every snapshot alone.
  pub append_keeps_latest :
      (now id : String) (es : List WalletDomainEvent) (v : ℤ) (db : client.Db) (j : String)
      → latest laws (append_to_stream client now id es v db).1 j ≡ latest laws db j
  unfolding append_to_stream
  append_keeps_latest now id [] v db j = refl
  append_keeps_latest now id (e ∷ es) v db j =
      ap (λ rs. latest_of (get_last? rs))
        (laws.append_apart (stream_name id) (snapshot_stream_name j)
          (map (serialize_event now) (e ∷ es)) (stream_state v) db
          (λ h. streams_apart j id (sym h))).0

  fits_after :
      (then id : String) (history : List StoredWalletEvent) (x y : WalletAggregate)
      (state : WalletState) (db db' : client.Db)
      → SnapshotFits then id (latest laws db id) history
      → rehydrate then id history ≡ ok y
      → y.version +ℤ pos 1 ≡ pos (length history)
      → SameView y x
      → x.state ≡ some state
      → (latest laws db' id ≡ latest laws db id)
        ⊎ ((u : WalletSnapshot) × (latest laws db' id ≡ some u)
            × (u.state ≡ state)
            × (u.version ≡ x.version))
      → SnapshotFits then id (latest laws db' id) history
  fits_after then id history x y state db db' fits run counted view h (inl kept) = rw kept fits
  fits_after then id history x y state db db' fits run counted view h (inr (u, taken, st, v)) =
      rw taken (
        history,
        [],
        sym (append-nil history),
        record {
          original = y;
          taken = x;
          replayed = run;
          alike = SameView-symm y x view;
          state = h ∙ ap some (sym st);
          version = sym v;
          counted = rw (v, ← view.versions) counted;
        },
      )

  -- Every wallet other than `id` is kept.
  abbrev pub KeepsOthers : String → client.Db → client.Db → Type 0
  KeepsOthers id db db' =
      (other : String) (its : List StoredWalletEvent)
      → id ≢ other
      → IsWallet laws db other its
      → IsWallet laws db' other its

  -- At any time the history rehydrates to a wallet like the aggregate.
  abbrev pub Reloads : String → List StoredWalletEvent → WalletAggregate → Type 0
  Reloads id history a =
      (now : String)
      → (y : WalletAggregate) × (rehydrate now id history ≡ ok y)
        × (y.version +ℤ pos 1 ≡ pos (length history))
        × SameView y a

  -- Appending the one event of a live aggregate is a longer history of the wallet.
  pub append-IsWallet :
      (now id : String) (db : client.Db) (history : List StoredWalletEvent) (x : WalletAggregate)
      (event : WalletDomainEvent)
      → let v = x.persisted_version in
        let stored = committed_events now id (v +ℤ pos 1) (event ∷ []) in
        IsWallet laws db id history
        → IsLive id history x
        → x.pending_events ≡ event ∷ []
        → event.aggregate_id ≡ id
        → IsHistory id (history ++ stored)
        → let (r, db') = append_to_stream client now id (event ∷ []) v db in
          (r ≡ ok stored)
          × IsWallet laws db' id (history ++ stored)
          × KeepsOthers id db db'
          × Reloads id (history ++ stored) x
  append-IsWallet now id db history x event i live p own lived =
      let v = x.persisted_version in
      let stored = committed_events now id (v +ℤ pos 1) (event ∷ []) in
      let db' = (append_to_stream client now id (event ∷ []) v db).1 in
      let (res, stream) = append_commits laws now id event [] v db history i.stream live.counted in
      let stamped = Stamped-committed now id (v +ℤ pos 1) (event ∷ []) (own, tt) in
      (
        res,
        record {
          lived = lived;
          stream = stream;
          taken_at = i.taken_at;
          fits =
              subst (λ l. SnapshotFits i.taken_at id l (history ++ stored))
                (sym (append_keeps_latest now id (event ∷ []) v db id))
                (SnapshotFits-append i.taken_at id (latest laws db id) history stored i.fits);
        },
        λ other its ne j. record {
          lived = j.lived;
          stream = append_apart laws now id other (event ∷ []) v db its ne j.stream;
          taken_at = j.taken_at;
          fits =
              subst (λ l. SnapshotFits j.taken_at other l its)
                (sym (append_keeps_latest now id (event ∷ []) v db other)) j.fits;
        },
        λ later.
            let (y, run, load, view) =
              commit_loads id later history stored x live
                (subst (λ es. Stamped (v +ℤ pos 1) es stored) (sym p) stamped) in
            (y, run, load.counted, view),
      )

  -- A snapshot of an aggregate like the one that reloads keeps every wallet.
  pub snapshot-IsWallet :
      (config : SnapshotConfig) (now id : String) (db : client.Db)
      (history : List StoredWalletEvent) (x : WalletAggregate) (state : WalletState) (count : ℤ)
      → 0 < config.keep_last_snapshots
      → x.state ≡ some state
      → state.id ≡ id
      → IsWallet laws db id history
      → Reloads id history x
      → let (r, db') = create_snapshot_if_needed client config now x count db in
        (r ≡ ok tt) × IsWallet laws db' id history × KeepsOthers id db db'
  snapshot-IsWallet config now id db history x state count keep h same i reloads =
      let db' = (create_snapshot_if_needed client config now x count db).1 in
      let (done, snapped) = create_snapshot_if_needed_lem laws config now x state count db keep h in
      let (snap, rest) = subst (λ k. Snapshotted laws k x state db db') same snapped in
      let (y, run, counted, view) = reloads i.taken_at in
      (
        done,
        record {
          lived = i.lived;
          stream = rest.streams id history i.stream;
          taken_at = i.taken_at;
          fits = fits_after i.taken_at id history x y state db db' i.fits run counted view h snap;
        },
        λ other its ne j. record {
          lived = j.lived;
          stream = rest.streams other its j.stream;
          taken_at = j.taken_at;
          fits =
              subst (λ l. SnapshotFits j.taken_at other l its) (sym (rest.others other ne)) j.fits;
        },
      )

  -- Committing changes nothing that is reloaded.
  pub Reloads-committed :
      (id : String) (history : List StoredWalletEvent) (x : WalletAggregate)
      → Reloads id history x
      → Reloads id history (mark_events_committed x)
  unfolding mark_events_committed clear_pending_events
  Reloads-committed id history x r now =
      let (y, run, counted, view) = r now in
      (y, run, counted, record { ids = view.ids; versions = view.versions; states = view.states })
