-- ===== src/Snapshots/Laws.antt =====
-- A wallet loads to the same aggregate with and without a snapshot, and snapshots keep it so.
use mathlib.Core.Path.{subst}
use text.Mathlib.TextLemmas.{append_cancel_left, cons-append, head-eq_of_cons-eq}
use Prim.Native.Char.{code}
use wallex_sanbox.Prelude.{
  ℕ, ◌+◌, ◌≡◌, refl, ap, ◌∙◌, sym, ◌≢◌, String, Option, none, some, List, [], ◌∷◌, ◌++◌, length,
  length-append, arith,
}
use wallex_sanbox.Prelude.Int.{ℤ, pos, ◌+ℤ◌, int_laws, pos_part}
use wallex_sanbox.Exec.{Result, ok, err, pure, ◌>>=◌}
use wallex_sanbox.Domain.{StoredWalletEvent}
use wallex_sanbox.Aggregate.{WalletAggregate, rehydrate, rehydrate_from_snapshot}
use wallex_sanbox.Aggregate.Replay.{SameView}
use wallex_sanbox.Aggregate.Snapshot.{SameLoad, snapshot_equivalent, rehydrate_alike}
use wallex_sanbox.EventStore.Client.{
  KurrentClient, KurrentLaws, RecordedEvent, snapshot_data, WalletSnapshot, get_last?, found,
  last_resolved,
}
use wallex_sanbox.EventStore.{stream_name}
use wallex_sanbox.EventStore.Read.{IsStream, read_from_version, read_stream_lem}
use wallex_sanbox.Snapshots.{
  snapshot_stream_name, first_snapshot, snapshot_or_throw, get_latest_snapshot, load_aggregate,
  load_from_snapshot, load_from_events, load_with, lift,
}

-- The snapshot that the last event of a snapshot stream holds.
abbrev pub latest_of : Option RecordedEvent → Option WalletSnapshot
latest_of none = none
latest_of (some r) = elim r.body [ snapshot_data s ↦ some s | _ ↦ none ]

-- A snapshot of the wallet as it was after a first part of the history, up to timestamps.
pub record IsSnapshotOf (then : String) (id : String) (s : WalletSnapshot)
    (before : List StoredWalletEvent) : Type 0 where
  pub original : WalletAggregate
  pub taken : WalletAggregate
  pub replayed : rehydrate then id before ≡ ok original
  pub alike : SameView taken original
  pub state : taken.state ≡ some s.state
  pub version : taken.version ≡ s.version
  pub counted : s.version +ℤ pos 1 ≡ pos (length before)

abbrev pub SnapshotFits : String → String → Option WalletSnapshot → List StoredWalletEvent → Type 0
SnapshotFits then id none history = Unit
SnapshotFits then id (some s) history =
    (before : List StoredWalletEvent) × (later : List StoredWalletEvent) × (history
      ≡ before ++ later)
    × IsSnapshotOf then id s before

-- What `load_aggregate` is to return for a wallet whose history rehydrates to `a`.
abbrev pub LoadsAs :
    {Db : Type 0} → WalletAggregate → ℕ → Db → Result (Option (WalletAggregate × ℤ)) × Db → Type 0
LoadsAs a n db (ok (some (b, count)), db') =
    SameView b a
    × (b.persisted_version ≡ a.persisted_version)
    × (b.pending_events ≡ a.pending_events)
    × (count ≡ pos n)
    × (db' ≡ db)
LoadsAs a n db r = ⊥

counts : (v : ℤ) (n m : ℕ) → v +ℤ pos 1 ≡ pos n → v +ℤ pos 1 +ℤ pos m ≡ pos (n + m)
counts v n m h = rw h (omega int_laws)

module _ {client : KurrentClient} (laws : KurrentLaws client) where
  abbrev pub latest : client.Db → String → Option WalletSnapshot
  latest db id = latest_of (get_last? (laws.contents db (snapshot_stream_name id)))

  -- Reading the latest snapshot finds what the last event of the snapshot stream holds.
  pub get_latest_snapshot_lem :
      (id : String) (db : client.Db) → get_latest_snapshot client id db ≡ (ok (latest db id), db)
  unfolding get_latest_snapshot
  get_latest_snapshot_lem id db =
      rw laws.read_last_law (outcome (laws.contents db (snapshot_stream_name id)))
    where
      outcome_of :
          (r : Option RecordedEvent)
          → first_snapshot (elim r [ none ↦ [] | some x ↦ some x ∷ [] ]) ≡ latest_of r
      outcome_of none = refl
      outcome_of (some x) = refl

      outcome :
          (rs : List RecordedEvent)
          → ◌≡◌ {A = Result (Option WalletSnapshot) × client.Db}
              (snapshot_or_throw (found rs (last_resolved rs)), db)
              (ok (latest_of (get_last? rs)), db)
      outcome [] = refl
      outcome (r ∷ rs) = ap (λ s. (ok s, db)) (outcome_of (get_last? (r ∷ rs)))

  load_without :
      (now then id : String) (db : client.Db) (a : WalletAggregate) (e : StoredWalletEvent)
      (es : List StoredWalletEvent)
      → rehydrate then id (e ∷ es) ≡ ok a
      → LoadsAs a (length (e ∷ es)) db (load_from_events client now id (e ∷ es) db)
  unfolding load_aggregate
  load_without now then id db a e es h =
      outcome (rehydrate now id (e ∷ es))
        (subst (SameLoad (rehydrate now id (e ∷ es))) h (rehydrate_alike now then id (e ∷ es)))
    where
      outcome :
          (r : Result WalletAggregate)
          → SameLoad r (ok a)
          → LoadsAs a
              (length (e ∷ es))
              db
              ((lift client r >>= λ b. pure (some (b, pos (length (e ∷ es))))) db)
      outcome (ok b) h = (h.0, h.1, h.2, refl, refl)
      outcome (err x) h = absurd h

  load_behind :
      (now then id : String) (db : client.Db) (a : WalletAggregate) (s : WalletSnapshot)
      (before later : List StoredWalletEvent)
      → IsStream laws db id (before ++ later)
      → IsSnapshotOf then id s before
      → rehydrate then id (before ++ later) ≡ ok a
      → LoadsAs a (length (before ++ later)) db (load_from_snapshot client now id s db)
  unfolding load_aggregate
  load_behind now then id db a s before later stream snap h =
      rw
        (read_from_version laws id (pos_part (s.version +ℤ pos 1)) db before later stream
          (ap pos_part snap.counted))
        (outcome (rehydrate_from_snapshot now id s.state s.version later) (
          subst (SameLoad (rehydrate_from_snapshot now id s.state s.version later)) h (
            rw snap.version at (
              snapshot_equivalent now then id before later snap.taken snap.original s.state
                snap.replayed snap.alike snap.state))))
    where
      outcome :
          (r : Result WalletAggregate)
          → SameLoad r (ok a)
          → LoadsAs a (length (before ++ later)) db (
              (lift client r >>= λ b. pure (some (b, s.version +ℤ pos 1 +ℤ pos (length later)))) db)
      outcome (ok b) h = (
        h.0,
        h.1,
        h.2,
        counts s.version (length before) (length later) snap.counted
            ∙ ap pos (sym (length-append before later)),
        refl,
      )
      outcome (err x) h = absurd h

  -- Take a wallet whose stream holds a history that is not empty and rehydrates, and whose latest
  -- snapshot, if it has one, is of the wallet after a first part of it. Loading the wallet returns
  -- the aggregate that the whole history rehydrates to, up to timestamps, and the number of its
  -- events, and changes nothing.
  pub load_aggregate_lem :
      (now then id : String) (db : client.Db) (a : WalletAggregate) (e : StoredWalletEvent)
      (es : List StoredWalletEvent)
      → IsStream laws db id (e ∷ es)
      → SnapshotFits then id (latest db id) (e ∷ es)
      → rehydrate then id (e ∷ es) ≡ ok a
      → LoadsAs a (length (e ∷ es)) db (load_aggregate client now id db)
  unfolding load_aggregate
  load_aggregate_lem now then id db a e es stream fits h =
      rw (get_latest_snapshot_lem id db) (load_known (latest db id) fits)
    where
      load_known :
          (s : Option WalletSnapshot)
          → SnapshotFits then id s (e ∷ es)
          → LoadsAs a (length (e ∷ es)) db (load_with client now id s db)
      load_known none f =
          rw (read_stream_lem laws id db (e ∷ es) stream) (load_without now then id db a e es h)
      load_known (some s) (before, later, same, snap) =
          subst (λ l. LoadsAs a (length l) db (load_from_snapshot client now id s db)) (sym same)
            (load_behind now then id db a s before later (subst (IsStream laws db id) same stream)
              snap (ap (rehydrate then id) (sym same) ∙ h))

  -- A wallet without events and without a snapshot is not found.
  pub load_aggregate_missing :
      (now id : String) (db : client.Db)
      → IsStream laws db id []
      → latest db id ≡ none
      → load_aggregate client now id db ≡ (ok none, db)
  unfolding load_aggregate
  load_aggregate_missing now id db stream h =
      rw (get_latest_snapshot_lem id db, h) (rw (read_stream_lem laws id db [] stream))

pub snapshot_stream_name_injective :
    (i j : String) → snapshot_stream_name i ≡ snapshot_stream_name j → i ≡ j
unfolding snapshot_stream_name
snapshot_stream_name_injective i j h = append_cancel_left "snapshot-wallet-" i j h

-- The two kinds of streams are apart.
pub streams_apart : (i j : String) → snapshot_stream_name i ≢ stream_name j
unfolding snapshot_stream_name stream_name
streams_apart i j h =
    let heads =
      head-eq_of_cons-eq
        (sym (cons-append "s" "napshot-wallet-" i) ∙ h ∙ cons-append "w" "allet-" j) in
    absurd (omega (arith, ap code heads))
