-- ===== src/Commands/Changes.antt =====
-- The handlers of credits and debits, from the load to the snapshot.
use mathlib.Core.Path.{subst}
use wallex_sanbox.Prelude.{
  String, ◌<◌, ◌≡◌, refl, ap, ◌∙◌, sym, Option, none, some, List, [], ◌∷◌, ◌++◌, length,
}
use wallex_sanbox.Prelude.Int.{ℤ, pos, ◌+ℤ◌}
use wallex_sanbox.Exec.{Error, not_found, Result, ok, err, Exec, ◌>>=◌}
use wallex_sanbox.Domain.{StoredWalletEvent, WalletDomainEvent}
use wallex_sanbox.Aggregate.{
  WalletAggregate, WalletState, rehydrate, mark_events_committed, clear_pending_events,
}
use wallex_sanbox.Aggregate.Replay.{SameState, SameView}
use wallex_sanbox.Aggregate.History.{Change, perform}
use wallex_sanbox.EventStore.Client.{KurrentLaws}
use wallex_sanbox.EventStore.{append_to_stream, committed_events}
use wallex_sanbox.EventStore.Read.{IsStream}
use wallex_sanbox.Outbox.{enqueue}
use wallex_sanbox.Snapshots.{load_aggregate}
use wallex_sanbox.Snapshots.Laws.{latest, load_aggregate_missing}
use wallex_sanbox.Commands.{
  options_of, Services, World, Times, ChangeCommand, change_wallet, finish_change, commit_change,
  in_db,
}
use wallex_sanbox.Commands.Loading.{IsWallet, perform_alike, wallet_loads}
use wallex_sanbox.Commands.Ready.{
  committed_one, committed_version, ok-injective, live_state, IsReady, change-IsReady,
}
use wallex_sanbox.Commands.Steps.{
  append-IsWallet, snapshot-IsWallet, Reloads-committed, KeepsOthers,
}

module _ {s : Services} (laws : KurrentLaws s.client) where
  after_append :
      (now id : String) (es : List WalletDomainEvent) (e : WalletDomainEvent) (v : ℤ)
      (stored : List StoredWalletEvent) (w : World s)
      (k : List StoredWalletEvent → Exec (World s) (Option WalletState))
      → es ≡ e ∷ []
      → (append_to_stream s.client now id (e ∷ []) v w.db).0 ≡ ok stored
      → (in_db (append_to_stream s.client now id es v) >>= k) w
        ≡ k stored (record w { db = (append_to_stream s.client now id (e ∷ []) v w.db).1 })
  after_append now id es e v stored w k p res = rw (p, res)

  -- From the append on, for an aggregate with one event to store.
  pub commit_change_lem :
      (c : Change) (command : ChangeCommand) (t : Times) (n : ℤ) (w : World s)
      (history : List StoredWalletEvent) (x : WalletAggregate)
      → let id = command.wallet_id in
        0 < s.config.keep_last_snapshots
        → IsWallet laws w.db id history
        → (ready : IsReady t.appended id history x)
        → let stored =
            committed_events t.appended id (x.persisted_version +ℤ pos 1) (ready.event ∷ []) in
          let (r, w') = commit_change s c command t n (ok tt, x) w in
          (state : WalletState) × (r ≡ ok (some state))
          × (x.state ≡ some state)
          × IsWallet laws w'.db id (history ++ stored)
          × KeepsOthers laws id w.db w'.db
          × (w'.outbox ≡ (enqueue t.enqueued stored (options_of id) w.outbox).1)
  unfolding mark_events_committed clear_pending_events
  commit_change_lem c command t n w history x keep i ready =
      let id = command.wallet_id in
      let v = x.persisted_version in
      let stored = committed_events t.appended id (v +ℤ pos 1) (ready.event ∷ []) in
      let (state, h, same) = live_state id history x ready.live in
      let db1 = (append_to_stream s.client t.appended id (ready.event ∷ []) v w.db).1 in
      let (res, mine, theirs, reloads) =
        append-IsWallet laws t.appended id w.db history x ready.event i ready.live ready.pending
          ready.own ready.lived in
      let (done, mine', theirs') =
        snapshot-IsWallet laws s.config t.saved id db1 (history ++ stored) (mark_events_committed x)
          state (n +ℤ pos (length stored)) keep h same mine
          (Reloads-committed laws id (history ++ stored) x reloads) in
      rw
        (after_append t.appended id x.pending_events ready.event v stored w
          (finish_change s c command t x n) ready.pending res)
        (rw done (
          state,
          ap ok h,
          h,
          mine',
          λ other its ne j. theirs' other its ne (theirs other its ne j),
          refl,
        ))

  change_decided :
      (c : Change) (command : ChangeCommand) (t : Times) (w : World s) (b : WalletAggregate) (n : ℤ)
      (outcome : Result (Unit {0}))
      → load_aggregate s.client t.loaded command.wallet_id w.db ≡ (ok (some (b, n)), w.db)
      → let (r, y) = perform c t.changed command.amount command.description b in
        r ≡ outcome → change_wallet s c command t w ≡ commit_change s c command t n (outcome, y) w
  unfolding change_wallet
  change_decided c command t w b n outcome loaded decided =
      let result = ap (λ r. r.0) loaded in
      let db = ap (λ r. r.1) loaded in
      let y = (perform c t.changed command.amount command.description b).1 in
      rw (result, db) (ap (λ r. commit_change s c command t n (r, y) w) decided)

  -- What an accepted credit or debit leaves, in the database and the outbox.
  pub change_enqueued :
      (c : Change) (command : ChangeCommand) (t : Times) (w : World s)
      {history : List StoredWalletEvent} (a : WalletAggregate)
      → 0 < s.config.keep_last_snapshots
      → (i : IsWallet laws w.db command.wallet_id history)
      → rehydrate i.taken_at command.wallet_id history ≡ ok a
      → (perform c t.changed command.amount command.description a).0 ≡ ok tt
      → let x = (perform c t.changed command.amount command.description a).1 in
        let (r, w') = change_wallet s c command t w in
        (state : WalletState) × (e : StoredWalletEvent) × (r ≡ ok (some state))
        × SameState (some state) x.state
        × (x.pending_events ≡ e.event ∷ [])
        × IsWallet laws w'.db command.wallet_id (history ++ e ∷ [])
        × KeepsOthers laws command.wallet_id w.db w'.db
        × (e.metadata.version ≡ pos (length history))
        × (w'.outbox ≡ (enqueue t.enqueued (e ∷ []) (options_of command.wallet_id) w.outbox).1)
  change_enqueued c command t w {history = history} a keep i run accepted =
      let id = command.wallet_id in
      let (b, loaded, outcome, alike, same_pending, ready) =
        change-IsReady laws c t.loaded t.changed t.appended id command.amount command.description
          w.db a i run accepted in
      let n = pos (length history) in
      let y = (perform c t.changed command.amount command.description b).1 in
      let (state, done, h, kept, others, enqueued) =
        commit_change_lem c command t n w history y keep i ready in
      let (e, single, same) =
        committed_one t.appended id (y.persisted_version +ℤ pos 1) ready.event ready.own in
      rw (change_decided c command t w b n (ok tt) loaded outcome) (
        state,
        e,
        done,
        subst (λ x. SameState x (perform c t.changed command.amount command.description a).1.state)
            h alike.states,
        sym same_pending ∙ ready.pending ∙ ap (λ x. x ∷ []) (sym same),
        subst
            (λ l. IsWallet laws (commit_change s c command t n (ok tt, y) w).1.db id (history ++ l))
            single kept,
        others,
        committed_version t.appended id (y.persisted_version +ℤ pos 1) ready.event e single
            ∙ ready.live.counted,
        enqueued ∙ ap (λ l. (enqueue t.enqueued l (options_of id) w.outbox).1) single,
      )

  -- An accepted credit or debit commits. Take a wallet of the database whose history rehydrates to
  -- `a`, where `a` accepts the change, and a retention that keeps at least one snapshot. The
  -- handler then returns the changed state up to timestamps, whatever becomes of the write side and
  -- the outbox. The wallet's history has grown by exactly the one new event, its latest snapshot
  -- fits the longer history, and every other wallet is what it was.
  pub change_committed :
      (c : Change) (command : ChangeCommand) (t : Times) (w : World s)
      {history : List StoredWalletEvent} (a : WalletAggregate)
      → 0 < s.config.keep_last_snapshots
      → (i : IsWallet laws w.db command.wallet_id history)
      → rehydrate i.taken_at command.wallet_id history ≡ ok a
      → (perform c t.changed command.amount command.description a).0 ≡ ok tt
      → let x = (perform c t.changed command.amount command.description a).1 in
        let (r, w') = change_wallet s c command t w in
        (state : WalletState) × (e : StoredWalletEvent) × (r ≡ ok (some state))
        × SameState (some state) x.state
        × (x.pending_events ≡ e.event ∷ [])
        × IsWallet laws w'.db command.wallet_id (history ++ e ∷ [])
        × KeepsOthers laws command.wallet_id w.db w'.db
  change_committed c command t w a keep i run accepted =
      let (state, e, done, alike, pending, mine, theirs, _, _) =
        change_enqueued c command t w a keep i run accepted in
      (state, e, done, alike, pending, mine, theirs)

  -- A credit or debit of a wallet in the database that the rehydrated wallet does not accept throws
  -- its error, and nothing is written.
  pub change_refused :
      (c : Change) (command : ChangeCommand) (t : Times) (w : World s)
      {history : List StoredWalletEvent} (a : WalletAggregate) (e : Error)
      → (i : IsWallet laws w.db command.wallet_id history)
      → rehydrate i.taken_at command.wallet_id history ≡ ok a
      → (perform c t.changed command.amount command.description a).0 ≡ err e
      → change_wallet s c command t w ≡ (err e, w)
  change_refused c command t w {history = history} a e i run refused =
      let id = command.wallet_id in
      let (a', b, run', _, loaded, view, p, q) = wallet_loads laws t.loaded id w.db i in
      let one : a' ≡ a = ok-injective (sym run' ∙ run) in
      let (outcome, _, _, _) =
        perform_alike c t.changed t.changed command.amount command.description a b
          (subst (SameView b) one view) (p ∙ ap (λ x. x.persisted_version) one)
          (q ∙ ap (λ x. x.pending_events) one) in
      change_decided c command t w b (pos (length history)) (err e) loaded (outcome ∙ refused)

  -- A command for a wallet that has no events and no snapshot throws that it is not found.
  pub change_missing :
      (c : Change) (command : ChangeCommand) (t : Times) (w : World s)
      → IsStream laws w.db command.wallet_id []
      → latest laws w.db command.wallet_id ≡ none
      → change_wallet s c command t w ≡ (err (not_found command.wallet_id), w)
  unfolding change_wallet
  change_missing c command t w stream h =
      let loaded = load_aggregate_missing laws t.loaded command.wallet_id w.db stream h in
      let result = ap (λ r. r.0) loaded in let db = ap (λ r. r.1) loaded in rw (result, db) refl
