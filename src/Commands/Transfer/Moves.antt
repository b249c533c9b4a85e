-- ===== src/Commands/Transfer/Moves.antt =====
-- What a transfer commits, and what it leaves if it stops between its two appends.
use mathlib.Core.Path.{subst}
use wallex_sanbox.Prelude.{
  String, ◌<◌, ◌≡◌, ◌≢◌, refl, ap, ◌∙◌, sym, Option, some, List, [], ◌∷◌, ◌++◌, length,
}
use wallex_sanbox.Prelude.Int.{ℤ, pos, ◌+ℤ◌}
use wallex_sanbox.Exec.{ok, Exec, ◌>>=◌}
use wallex_sanbox.Domain.{StoredWalletEvent, WalletDomainEvent}
use wallex_sanbox.Aggregate.{
  WalletAggregate, WalletState, credit, debit, rehydrate, mark_events_committed,
  clear_pending_events,
}
use wallex_sanbox.Aggregate.Replay.{SameState}
use wallex_sanbox.Aggregate.History.{credited, debited, perform}
use wallex_sanbox.EventStore.Client.{KurrentClient, KurrentLaws}
use wallex_sanbox.EventStore.{append_to_stream, committed_events}
use wallex_sanbox.Snapshots.{SnapshotConfig, load_aggregate, create_snapshot_if_needed}
use wallex_sanbox.Commands.{Services, World, Times, in_db}
use wallex_sanbox.Commands.Loading.{IsWallet}
use wallex_sanbox.Commands.Ready.{IsReady, change-IsReady, live_state, committed_one}
use wallex_sanbox.Commands.Steps.{append-IsWallet, snapshot-IsWallet, Reloads, Reloads-committed}
use wallex_sanbox.Commands.Transfer.{
  TransferCommand, TransferResult, from_description, to_description, finish_transfer,
  commit_transfer, decide_transfer, transfer_protected, both,
}

module _ {client : KurrentClient} (laws : KurrentLaws client) where
  abbrev pub KeepsApart : String → String → client.Db → client.Db → Type 0
  KeepsApart i j db db' =
      (other : String) (its : List StoredWalletEvent)
      → i ≢ other
      → j ≢ other
      → IsWallet laws db other its
      → IsWallet laws db' other its

  snapshots_lem :
      (config : SnapshotConfig) (t : String) (i j : String) (hs ks : List StoredWalletEvent)
      (x y : WalletAggregate) (state1 state2 : WalletState) (n m : ℤ) (db : client.Db)
      → 0 < config.keep_last_snapshots
      → i ≢ j
      → x.state ≡ some state1
      → state1.id ≡ i
      → y.state ≡ some state2
      → state2.id ≡ j
      → IsWallet laws db i hs
      → IsWallet laws db j ks
      → Reloads laws i hs x
      → Reloads laws j ks y
      → let (r, db') =
          both
            (create_snapshot_if_needed client config t x n)
            (create_snapshot_if_needed client config t y m)
            db in
        (r ≡ ok tt) × IsWallet laws db' i hs × IsWallet laws db' j ks × KeepsApart i j db db'
  snapshots_lem config t i j hs ks x y state1 state2 n m db keep ne h1 s1 h2 s2 w1 w2 r1 r2 =
      let db1 = (create_snapshot_if_needed client config t x n db).1 in
      let (done1, mine1, rest1) =
        snapshot-IsWallet laws config t i db hs x state1 n keep h1 s1 w1 r1 in
      let (done2, mine2, rest2) =
        snapshot-IsWallet laws config t j db1 ks y state2 m keep h2 s2 (rest1 j ks ne w2) r2 in
      rw (done1, both)
        (rw (done2, both)
          (
            refl,
            rest2 i hs (λ e. ne (sym e)) mine1,
            mine2,
            λ other its p q w. rest2 other its q (rest1 other its p w),
          ))

module _ {s : Services} (laws : KurrentLaws s.client) where
  after_appends :
      (now i j : String) (es fs : List WalletDomainEvent) (e f : WalletDomainEvent) (v u : ℤ)
      (stored storeds : List StoredWalletEvent) (w : World s)
      (k : List StoredWalletEvent → List StoredWalletEvent → Exec (World s) TransferResult)
      → es ≡ e ∷ []
      → fs ≡ f ∷ []
      → let (r, db1) = append_to_stream s.client now i (e ∷ []) v w.db in
        let (q, db2) = append_to_stream s.client now j (f ∷ []) u db1 in
        r ≡ ok stored
        → q ≡ ok storeds
        → (in_db (append_to_stream s.client now i es v) >>= λ (c : List StoredWalletEvent).
              in_db (append_to_stream s.client now j fs u) >>= k c)
            w
          ≡ k stored storeds (record w { db = db2 })
  after_appends now i j es fs e f v u stored storeds w k p q r z = rw (p, q) (rw r (rw z refl))

  commit_transfer_lem :
      (command : TransferCommand) (t : Times) (n m : ℤ) (w : World s)
      (hs ks : List StoredWalletEvent) (x y : WalletAggregate)
      → let i = command.from_wallet_id in
        let j = command.to_wallet_id in
        0 < s.config.keep_last_snapshots
        → i ≢ j
        → IsWallet laws w.db i hs
        → IsWallet laws w.db j ks
        → (p : IsReady t.appended i hs x) → (q : IsReady t.appended j ks y)
        → let stored1 =
            committed_events t.appended i (x.persisted_version +ℤ pos 1) (p.event ∷ []) in
          let stored2 =
            committed_events t.appended j (y.persisted_version +ℤ pos 1) (q.event ∷ []) in
          let (r, w') = commit_transfer s command t x n y m w in
          (r ≡ ok (x.state, y.state))
          × IsWallet laws w'.db i (hs ++ stored1)
          × IsWallet laws w'.db j (ks ++ stored2)
          × KeepsApart laws i j w.db w'.db
  unfolding mark_events_committed clear_pending_events
  commit_transfer_lem command t n m w hs ks x y keep ne w1 w2 p q =
      let i = command.from_wallet_id in
      let j = command.to_wallet_id in
      let v = x.persisted_version in
      let u = y.persisted_version in
      let stored1 = committed_events t.appended i (v +ℤ pos 1) (p.event ∷ []) in
      let stored2 = committed_events t.appended j (u +ℤ pos 1) (q.event ∷ []) in
      let (state1, h1, same1) = live_state i hs x p.live in
      let (state2, h2, same2) = live_state j ks y q.live in
      let db1 = (append_to_stream s.client t.appended i (p.event ∷ []) v w.db).1 in
      let db2 = (append_to_stream s.client t.appended j (q.event ∷ []) u db1).1 in
      let (res1, mine1, rest1, reloads1) =
        append-IsWallet laws t.appended i w.db hs x p.event w1 p.live p.pending p.own p.lived in
      let (res2, mine2, rest2, reloads2) =
        append-IsWallet laws t.appended j db1 ks y q.event (rest1 j ks ne w2) q.live q.pending q.own
          q.lived in
      let (done, left, right, rest) =
        snapshots_lem laws s.config t.saved i j (hs ++ stored1) (ks ++ stored2)
          (mark_events_committed x) (mark_events_committed y) state1 state2
          (n +ℤ pos (length stored1)) (m +ℤ pos (length stored2)) db2 keep ne h1 same1 h2 same2
          (rest2 i (hs ++ stored1) (λ e. ne (sym e)) mine1) mine2
          (Reloads-committed laws i (hs ++ stored1) x reloads1)
          (Reloads-committed laws j (ks ++ stored2) y reloads2) in
      rw
        (after_appends t.appended i j x.pending_events y.pending_events p.event q.event v u stored1
          stored2 w (finish_transfer s command t x n y m) p.pending q.pending res1 res2)
        (rw (done, both)
          (
            refl,
            left,
            right,
            λ other its a b k. rest other its a b (rest2 other its b (rest1 other its a k)),
          ))

  transfer_decided :
      (command : TransferCommand) (t : Times) (w : World s) (b c : WalletAggregate) (n m : ℤ)
      → load_aggregate s.client t.loaded command.from_wallet_id w.db ≡ (ok (some (b, n)), w.db)
      → load_aggregate s.client t.loaded command.to_wallet_id w.db ≡ (ok (some (c, m)), w.db)
      → let (r, x) = debit t.changed command.amount (from_description command) b in
        let (q, y) = credit t.changed command.amount (to_description command) c in
        r ≡ ok tt
        → q ≡ ok tt
        → transfer_protected s command t w ≡ commit_transfer s command t x n y m w
  unfolding transfer_protected
  transfer_decided command t w b c n m l1 l2 d1 d2 =
      let x = (debit t.changed command.amount (from_description command) b).1 in
      let y = (credit t.changed command.amount (to_description command) c).1 in
      rw (ap (λ r. r.0) l1, ap (λ r. r.1) l1)
        (rw (ap (λ r. r.0) l2, ap (λ r. r.1) l2)
          (ap
              (λ r.
                decide_transfer s command t n m (r, x)
                  (credit t.changed command.amount (to_description command) c) w)
              d1
            ∙ ap (λ q. decide_transfer s command t n m (ok tt, x) (q, y) w) d2))

  -- A transfer between two different wallets of the database, of which the one accepts the debit
  -- and the other the credit, commits, if the retention keeps at least one snapshot. It returns the
  -- states after the debit and after the credit, up to timestamps. Each history has grown by its
  -- one event, and every third wallet is what it was, whatever becomes of the write side and the
  -- outbox.
  pub transfer_committed :
      (command : TransferCommand) (t : Times) (w : World s) {hs ks : List StoredWalletEvent}
      (a b : WalletAggregate)
      → 0 < s.config.keep_last_snapshots
      → command.from_wallet_id ≢ command.to_wallet_id
      → (i : IsWallet laws w.db command.from_wallet_id hs)
      → (j : IsWallet laws w.db command.to_wallet_id ks)
      → rehydrate i.taken_at command.from_wallet_id hs ≡ ok a
      → rehydrate j.taken_at command.to_wallet_id ks ≡ ok b
      → (debit t.changed command.amount (from_description command) a).0 ≡ ok tt
      → (credit t.changed command.amount (to_description command) b).0 ≡ ok tt
      → let x = (debit t.changed command.amount (from_description command) a).1 in
        let y = (credit t.changed command.amount (to_description command) b).1 in
        let (r, w') = transfer_protected s command t w in
        (from_state : Option WalletState) × (to_state : Option WalletState)
        × (d : StoredWalletEvent) × (e : StoredWalletEvent) × (r ≡ ok (from_state, to_state))
        × SameState from_state x.state
        × SameState to_state y.state
        × (x.pending_events ≡ d.event ∷ [])
        × (y.pending_events ≡ e.event ∷ [])
        × IsWallet laws w'.db command.from_wallet_id (hs ++ d ∷ [])
        × IsWallet laws w'.db command.to_wallet_id (ks ++ e ∷ [])
        × KeepsApart laws command.from_wallet_id command.to_wallet_id w.db w'.db
  unfolding perform debit credit
  transfer_committed command t w {hs = hs} {ks = ks} a b keep ne i j run1 run2 ok1 ok2 =
      let from = command.from_wallet_id in
      let to = command.to_wallet_id in
      let (c, loaded1, out1, alike1, pend1, p) =
        change-IsReady laws debited t.loaded t.changed t.appended from command.amount
          (from_description command) w.db a i run1 ok1 in
      let (d, loaded2, out2, alike2, pend2, q) =
        change-IsReady laws credited t.loaded t.changed t.appended to command.amount
          (to_description command) w.db b j run2 ok2 in
      let n = pos (length hs) in
      let m = pos (length ks) in
      let x = (debit t.changed command.amount (from_description command) c).1 in
      let y = (credit t.changed command.amount (to_description command) d).1 in
      let after = (commit_transfer s command t x n y m w).1.db in
      let (done, left, right, rest) =
        commit_transfer_lem command t n m w hs ks x y keep ne i j p q in
      let (e, single1, same1) =
        committed_one t.appended from (x.persisted_version +ℤ pos 1) p.event p.own in
      let (f, single2, same2) =
        committed_one t.appended to (y.persisted_version +ℤ pos 1) q.event q.own in
      rw (transfer_decided command t w c d n m loaded1 loaded2 out1 out2) (
        x.state,
        y.state,
        e,
        f,
        done,
        alike1.states,
        alike2.states,
        sym pend1 ∙ p.pending ∙ ap (λ z. z ∷ []) (sym same1),
        sym pend2 ∙ q.pending ∙ ap (λ z. z ∷ []) (sym same2),
        subst (λ l. IsWallet laws after from (hs ++ l)) single1 left,
        subst (λ l. IsWallet laws after to (ks ++ l)) single2 right,
        rest,
      )
