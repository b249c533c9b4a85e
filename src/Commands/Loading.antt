-- ===== src/Commands/Loading.antt =====
-- What a command handler loads, and what it does to the loaded aggregate: the same as to the wallet
-- that the whole history rehydrates to.
use mathlib.Core.Path.{subst}
use mathlib.Core.List.{append_assoc}
use wallex_sanbox.Prelude.{
  String, ℕ, ◌≡◌, ◌≢◌, ap, ◌∙◌, sym, Option, none, some, List, [], ◌∷◌, ◌++◌, length, arith,
  is_some, true,
}
use wallex_sanbox.Prelude.Int.{ℤ, pos, ◌+ℤ◌}
use wallex_sanbox.Number.{Number}
use wallex_sanbox.Exec.{Result, ok, err}
use wallex_sanbox.Domain.{StoredWalletEvent}
use wallex_sanbox.Aggregate.{
  WalletAggregate, credit, debit, rehydrate, apply_history, clear_pending_events,
}
use wallex_sanbox.Aggregate.Replay.{SameView, Stamped}
use wallex_sanbox.Aggregate.History.{
  Change, credited, debited, perform, IsHistory, rehydrate-IsHistory,
}
use wallex_sanbox.Aggregate.Loads.{
  IsLoadOf, SameView-symm, SameView-trans, StateValid-SameState, same_is_some,
}
use wallex_sanbox.EventStore.Client.{KurrentClient, KurrentLaws, WalletSnapshot}
use wallex_sanbox.EventStore.Read.{IsStream}
use wallex_sanbox.Snapshots.Laws.{latest, SnapshotFits, LoadsAs, load_aggregate_lem}
use wallex_sanbox.Snapshots.{load_aggregate}

-- A wallet in the database: its stream holds a history that commands have written, and its latest
-- snapshot, if there is one, is of the wallet after a first part of it.
pub record IsWallet {client : KurrentClient} (laws : KurrentLaws client) (db : client.Db)
    (id : String) (history : List StoredWalletEvent) : Type 0 where
  pub lived : IsHistory id history
  pub stream : IsStream laws db id history
  pub taken_at : String
  pub fits : SnapshotFits taken_at id (latest laws db id) history

-- Aggregates that differ in timestamps only change alike.
pub perform_alike :
    (c : Change) (now later : String) (amount : Number) (d : Option String) (a b : WalletAggregate)
    → SameView b a
    → b.persisted_version ≡ a.persisted_version
    → b.pending_events ≡ a.pending_events
    → ((perform c now amount d b).0 ≡ (perform c later amount d a).0)
      × SameView (perform c now amount d b).1 (perform c later amount d a).1
      × ((perform c now amount d b).1.pending_events
          ≡ (perform c later amount d a).1.pending_events)
      × ((perform c now amount d b).1.persisted_version
          ≡ (perform c later amount d a).1.persisted_version)
unfolding perform credit debit
perform_alike credited now later amount d a b v p q = ground arith
perform_alike debited now later amount d a b v p q = ground arith

pub IsLoadOf-SameView :
    (id : String) (history : List StoredWalletEvent) (a b : WalletAggregate)
    → SameView b a
    → b.persisted_version ≡ a.persisted_version
    → b.pending_events ≡ a.pending_events
    → IsLoadOf id history a
    → IsLoadOf id history b
IsLoadOf-SameView id history a b v p q l = record {
  valid = record {
    counted =
        v.versions
        ∙ l.valid.counted
        ∙ ap (λ x. x +ℤ pos (length a.pending_events)) (sym p)
        ∙ ap (λ x. b.persisted_version +ℤ pos (length x)) (sym q);
    state_valid =
        StateValid-SameState b.id a.id b.version a.version b.state a.state v.ids v.versions v.states
          l.valid.state_valid;
  };
  sourced = λ now stored st.
      let (c, run, view) = l.sourced now stored (
        subst (λ x. Stamped (x +ℤ pos 1) a.pending_events stored) p
          (subst (λ x. Stamped (b.persisted_version +ℤ pos 1) x stored) q st)) in
      (c, rw v.ids run, SameView-trans c a b view (SameView-symm b a v));
  counted = rw v.versions l.counted;
  persisted = p ∙ l.persisted ∙ sym v.versions;
  pending = q ∙ l.pending;
  ids = v.ids ∙ l.ids;
  has_state = same_is_some b.state a.state v.states ∙ l.has_state;
}

-- A snapshot of a first part of a history is one of every longer history.
pub SnapshotFits-append :
    (then id : String) (s : Option WalletSnapshot) (history stored : List StoredWalletEvent)
    → SnapshotFits then id s history
    → SnapshotFits then id s (history ++ stored)
SnapshotFits-append then id none history stored f = tt
SnapshotFits-append then id (some s) history stored (before, later, same, snap) =
    (before, later ++ stored, ap (λ l. l ++ stored) same ∙ append_assoc before later stored, snap)

rehydrated_nonempty :
    (now id : String) (a : WalletAggregate) → rehydrate now id [] ≡ ok a → is_some a.state ≢ true
unfolding rehydrate apply_history clear_pending_events
rehydrated_nonempty now id a h = ground arith

-- The outcome of a load that `LoadsAs` describes.
LoadsAs-eq :
    {Db : Type 0} (a : WalletAggregate) (n : ℕ) (db : Db)
    (r : Result (Option (WalletAggregate × ℤ)) × Db)
    → LoadsAs a n db r
    → (b : WalletAggregate) × (r ≡ (ok (some (b, pos n)), db))
      × SameView b a
      × (b.persisted_version ≡ a.persisted_version)
      × (b.pending_events ≡ a.pending_events)
LoadsAs-eq a n db (ok (some (b, count)), d) (v, p, q, e, f) =
    (b, ap (λ k. (ok (some (b, k)), d)) e ∙ ap (λ k. (ok (some (b, pos n)), k)) f, v, p, q)
LoadsAs-eq a n db (ok none, d) h = absurd h
LoadsAs-eq a n db (err e, d) h = absurd h

module _ {client : KurrentClient} (laws : KurrentLaws client) where
  -- A wallet loads: to an aggregate like the one that its history rehydrates to.
  pub wallet_loads :
      (now id : String) (db : client.Db) {history : List StoredWalletEvent}
      → (w : IsWallet laws db id history)
      → (a : WalletAggregate) × (b : WalletAggregate) × (rehydrate w.taken_at id history ≡ ok a)
        × IsLoadOf id history b
        × (load_aggregate client now id db ≡ (ok (some (b, pos (length history))), db))
        × SameView b a
        × (b.persisted_version ≡ a.persisted_version)
        × (b.pending_events ≡ a.pending_events)
  wallet_loads now id db {history = []} w =
      let (a, run, load) = rehydrate-IsHistory id w.taken_at w.lived in
      absurd (rehydrated_nonempty w.taken_at id a run load.has_state)
  wallet_loads now id db {history = e ∷ es} w =
      let (a, run, load) = rehydrate-IsHistory id w.taken_at w.lived in
      let (b, loaded, view, p, q) =
        LoadsAs-eq a (length (e ∷ es)) db (load_aggregate client now id db)
          (load_aggregate_lem laws now w.taken_at id db a e es w.stream w.fits run) in
      (a, b, run, IsLoadOf-SameView id (e ∷ es) a b view p q load, loaded, view, p, q)
