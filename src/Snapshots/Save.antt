-- ===== src/Snapshots/Save.antt =====
-- Saving a snapshot makes it the latest of its wallet, and touches nothing else that is read.
use wallex_sanbox.Prelude.{
  ℕ, ◌<◌, ◌≡◌, refl, ap, ◌∙◌, ◌≢◌, String, Option, none, some, List, [], ◌∷◌, ◌++◌, inl, inr,
  Bool-cases, ◌⊎◌,
}
use wallex_sanbox.Prelude.Int.{ℤ}
use wallex_sanbox.Exec.{ok}
use wallex_sanbox.Domain.{StoredWalletEvent}
use wallex_sanbox.Aggregate.{WalletAggregate, WalletState}
use wallex_sanbox.EventStore.Client.{
  KurrentClient, KurrentLaws, RecordedEvent, EventPayload, RecordedAs, RecordedData, snapshot_data,
  any, WalletSnapshot, get_last?,
}
use wallex_sanbox.EventStore.{stream_name}
use wallex_sanbox.EventStore.Read.{IsStream}
use wallex_sanbox.EventStore.Append.{untouched-IsStream}
use wallex_sanbox.Snapshots.{
  snapshot_stream_name, save_snapshot, snapshot_now, SnapshotConfig, create_snapshot_if_needed,
  should_create_snapshot, next_snapshot_version,
}
use wallex_sanbox.Snapshots.Laws.{
  latest_of, latest, get_latest_snapshot_lem, snapshot_stream_name_injective, streams_apart,
}

get_last-snoc : (rs : List RecordedEvent) (r : RecordedEvent) → get_last? (rs ++ r ∷ []) ≡ some r
get_last-snoc [] r = refl
get_last-snoc (x ∷ []) r = refl
get_last-snoc (x ∷ y ∷ rs) r = get_last-snoc (y ∷ rs) r

latest-snoc :
    (rs new : List RecordedEvent) (n : ℕ) (p : EventPayload) (s : WalletSnapshot)
    → p.body ≡ snapshot_data s
    → RecordedAs n (p ∷ []) new
    → latest_of (get_last? (rs ++ new)) ≡ some s
latest-snoc rs (r ∷ []) n p s e h = rw get_last-snoc (body-latest r.body (h.0 ∙ e))
  where
    body-latest :
        (b : RecordedData)
        → b ≡ snapshot_data s
        → ◌≡◌ {A = Option WalletSnapshot} (elim b [ snapshot_data t ↦ some t | _ ↦ none ]) (some s)
    body-latest b k = rw k
latest-snoc rs [] n p s e h = absurd h
latest-snoc rs (r ∷ x ∷ xs) n p s e h = absurd h.3

-- What a change of the database leaves alone: every wallet's history, and the snapshots of the
-- wallets other than `id`.
pub record LeavesRest {client : KurrentClient} (laws : KurrentLaws client) (id : String)
    (db db' : client.Db) : Type 0 where
  pub streams :
      (j : String) (history : List StoredWalletEvent)
      → IsStream laws db j history
      → IsStream laws db' j history
  pub others : (j : String) → id ≢ j → latest laws db' j ≡ latest laws db j

module _ {client : KurrentClient} (laws : KurrentLaws client) where
  save_leaves :
      (s : WalletSnapshot) (n : ℕ) (p : EventPayload) (db : client.Db)
      → let name = snapshot_stream_name s.aggregate_id in
        let db1 = (client.append_to_stream name (p ∷ []) any db).1 in
        LeavesRest laws s.aggregate_id db (client.set_max_count name n db1).1
  save_leaves s n p db =
      let name = snapshot_stream_name s.aggregate_id in
      let db1 = (client.append_to_stream name (p ∷ []) any db).1 in
      let db2 = (client.set_max_count name n db1).1 in
      record {
        streams = λ j history h.
            let apart = streams_apart s.aggregate_id j in
            let (c1, n1) = laws.append_apart name (stream_name j) (p ∷ []) any db apart in
            let (c2, n2) = laws.max_count_apart name (stream_name j) n db1 apart in
            untouched-IsStream laws db db2 j history (c2 ∙ c1) (n2 ∙ n1) h;
        others = λ j ne.
            let apart : name ≢ snapshot_stream_name j =
              λ e. ne (snapshot_stream_name_injective s.aggregate_id j e) in
            let (c1, _) = laws.append_apart name (snapshot_stream_name j) (p ∷ []) any db apart in
            let (c2, _) = laws.max_count_apart name (snapshot_stream_name j) n db1 apart in
            ap (λ rs. latest_of (get_last? rs)) (c2 ∙ c1);
      }

  -- Saving a snapshot succeeds and makes it the latest one, if the retention keeps any.
  pub save_snapshot_lem :
      (n : ℕ) (s : WalletSnapshot) (db : client.Db)
      → 0 < n
      → ((save_snapshot client n s db).0 ≡ ok tt)
        × (latest laws (save_snapshot client n s db).1 s.aggregate_id ≡ some s)
        × LeavesRest laws s.aggregate_id db (save_snapshot client n s db).1
  unfolding save_snapshot
  save_snapshot_lem n s db h =
      let name = snapshot_stream_name s.aggregate_id in
      let p : EventPayload = record { body = snapshot_data s; metadata = none } in
      let db1 = (client.append_to_stream name (p ∷ []) any db).1 in
      let (r, _, grown) = laws.append_meets name p [] any db refl in
      let (new, contents, recorded) = grown in
      rw (r, save_snapshot)
        (
          refl,
          ap latest_of (laws.max_count_last name n db1 h ∙ ap get_last? contents)
              ∙ latest-snoc (laws.contents db name) new (laws.count db name) p s refl recorded,
          save_leaves s n p db,
        )

  LeavesRest-refl : (id : String) (db : client.Db) → LeavesRest laws id db db
  LeavesRest-refl id db = record { streams = λ j history h. h; others = λ j ne. refl }

  -- After a decision on a snapshot the latest one is what it was, or one of the aggregate.
  abbrev pub Snapshotted : String → WalletAggregate → WalletState → client.Db → client.Db → Type 0
  Snapshotted id a s db db' =
      ((latest laws db' id ≡ latest laws db id)
        ⊎ ((t : WalletSnapshot) × (latest laws db' id ≡ some t)
            × (t.state ≡ s)
            × (t.version ≡ a.version)))
      × LeavesRest laws id db db'

  snapshot_now_lem :
      (config : SnapshotConfig) (now : String) (a : WalletAggregate) (s : WalletState)
      (db : client.Db)
      → 0 < config.keep_last_snapshots
      → ((snapshot_now client config now a s db).0 ≡ ok tt)
        × Snapshotted s.id a s db (snapshot_now client config now a s db).1
  unfolding snapshot_now
  snapshot_now_lem config now a s db h =
      let t : WalletSnapshot = record {
        aggregate_id = s.id;
        state = s;
        version = a.version;
        snapshot_version = next_snapshot_version (latest laws db s.id);
        timestamp = now;
      } in
      let (done, last, rest) = save_snapshot_lem config.keep_last_snapshots t db h in
      rw (get_latest_snapshot_lem laws s.id db) (done, (inr (t, last, refl, refl), rest))

  -- Take an aggregate with a state, and a retention that keeps at least one snapshot. Creating a
  -- snapshot where one is due succeeds. The latest snapshot of the wallet is then the one before or
  -- one of this aggregate; the histories and the other wallets' snapshots stay.
  pub create_snapshot_if_needed_lem :
      (config : SnapshotConfig) (now : String) (a : WalletAggregate) (s : WalletState) (count : ℤ)
      (db : client.Db)
      → 0 < config.keep_last_snapshots
      → a.state ≡ some s
      → ((create_snapshot_if_needed client config now a count db).0 ≡ ok tt)
        × Snapshotted s.id a s db (create_snapshot_if_needed client config now a count db).1
  unfolding create_snapshot_if_needed
  create_snapshot_if_needed_lem config now a s count db h e =
      elim (Bool-cases (should_create_snapshot config count)) [
        | inl due ↦ rw due (simp e (snapshot_now_lem config now a s db h))
        | inr not_due ↦ rw not_due (refl, (inl refl, LeavesRest-refl s.id db))
      ]
