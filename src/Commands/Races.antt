-- ===== src/Commands/Races.antt =====
-- Two handlers that have loaded a wallet at the same version, as where the first one's lock has
-- expired.
use mathlib.Core.Path.{subst}
use wallex_sanbox.Prelude.{
  ℕ, ◌+◌, String, ◌<◌, ◌≡◌, ◌≢◌, refl, ap, ◌∙◌, Option, some, List, [], ◌∷◌, ◌++◌, length,
  length-append, arith, get_or,
}
use wallex_sanbox.Prelude.Int.{ℤ, pos, negsuc, ◌+ℤ◌, ◌≤ℤ◌}
use wallex_sanbox.Number.{Number}
use wallex_sanbox.Exec.{event_concurrency, ok, err}
use wallex_sanbox.Domain.{StoredWalletEvent}
use wallex_sanbox.Aggregate.{WalletAggregate, WalletState, rehydrate}
use wallex_sanbox.Aggregate.History.{Change, perform}
use wallex_sanbox.EventStore.Client.{KurrentLaws, actual_state}
use wallex_sanbox.EventStore.Read.{IsStream}
use wallex_sanbox.EventStore.Append.{append_conflict}
use wallex_sanbox.Snapshots.{load_aggregate}
use wallex_sanbox.Commands.{Services, World, Times, ChangeCommand, change_loaded, commit_change}
use wallex_sanbox.Commands.Loading.{IsWallet}
use wallex_sanbox.Commands.Ready.{committed_one, IsReady, change-IsReady}
use wallex_sanbox.Commands.Changes.{commit_change_lem}

abbrev pub command_of : String → Number → Option String → ChangeCommand
command_of wallet_id amount description = record {
  wallet_id = wallet_id;
  amount = amount;
  description = description;
}

at_least_minus_one : (v : ℤ) (n : ℕ) → v +ℤ pos 1 ≡ pos n → negsuc 0 ≤ℤ v
unfolding ◌+ℤ◌
at_least_minus_one v n h = ground arith

-- A history that has grown has another next version.
not_next :
    (v : ℤ) (history : List StoredWalletEvent) (e : StoredWalletEvent)
    → v +ℤ pos 1 ≡ pos (length history)
    → v +ℤ pos 1 ≢ pos (length (history ++ e ∷ []))
unfolding ◌+ℤ◌
not_next v history e h k = ground (arith, length-append history (e ∷ []))

last_version :
    (history : List StoredWalletEvent) (e : StoredWalletEvent)
    → get_or (actual_state (length (history ++ e ∷ []))) (negsuc 0) ≡ pos (length history)
last_version history e = rw (length-append history (e ∷ [])) (one_more (length history))
  where
    one_more : (n : ℕ) → get_or (actual_state (n + 1)) (negsuc 0) ≡ pos n
    one_more n = ground arith

module _ {s : Services} (laws : KurrentLaws s.client) where
  -- A handler whose aggregate was loaded before the stream has grown.
  stale_refused :
      (c : Change) (command : ChangeCommand) (t : Times) (n : ℤ) (w : World s)
      (history now_history : List StoredWalletEvent) (x : WalletAggregate)
      → (ready : IsReady t.appended command.wallet_id history x)
      → IsStream laws w.db command.wallet_id now_history
      → x.persisted_version +ℤ pos 1 ≢ pos (length now_history)
      → commit_change s c command t n (ok tt, x) w ≡ (
        err (
            event_concurrency x.persisted_version
              (get_or (actual_state (length now_history)) (negsuc 0))),
        w,
      )
  stale_refused c command t n w history now_history x ready stream stale =
      let refused =
        append_conflict laws t.appended command.wallet_id ready.event [] x.persisted_version w.db
          now_history stream
          (at_least_minus_one x.persisted_version (length history) ready.live.counted) stale in
      rw (ready.pending, refused) refl

  accepted :
      (c : Change) (command : ChangeCommand) (t : Times) (n : ℤ) (w : World s) (b : WalletAggregate)
      → let (r, x) = perform c t.changed command.amount command.description b in
        r ≡ ok tt
        → change_loaded s c command t (some (b, n)) w ≡ commit_change s c command t n (ok tt, x) w
  accepted c command t n w b done =
      let x = (perform c t.changed command.amount command.description b).1 in
      ap (λ r. commit_change s c command t n (r, x) w) done

  -- Two handlers of credits or debits of one wallet load it before either appends, and its history
  -- accepts both changes. The loads succeed. The first handler that goes on commits. The other one
  -- throws a concurrency error, with the version that it has loaded and the one that the first has
  -- written, and changes nothing.
  pub second_writer_refused :
      (c d : Change) (id : String) (amount amount' : Number) (text text' : Option String)
      (t u : Times) (w : World s) {history : List StoredWalletEvent} (a : WalletAggregate)
      → 0 < s.config.keep_last_snapshots
      → (i : IsWallet laws w.db id history) → rehydrate i.taken_at id history ≡ ok a
      → (perform c t.changed amount text a).0 ≡ ok tt
      → (perform d u.changed amount' text' a).0 ≡ ok tt
      → (loaded : Option (WalletAggregate × ℤ)) × (loaded' : Option (WalletAggregate × ℤ))
        × (load_aggregate s.client t.loaded id w.db ≡ (ok loaded, w.db))
        × (load_aggregate s.client u.loaded id w.db ≡ (ok loaded', w.db))
        × (let (r, w') = change_loaded s c (command_of id amount text) t loaded w in
            (state : WalletState) × (v : ℤ) × (r ≡ ok (some state))
            × (v +ℤ pos 1 ≡ pos (length history))
            × (change_loaded s d (command_of id amount' text') u loaded' w'
                ≡ (err (event_concurrency v (pos (length history))), w')))
  second_writer_refused c d id amount amount' text text' t u w {history = history} a keep i run
        accepts accepts' =
      let (b, first, done, _, _, ready) =
        change-IsReady laws c t.loaded t.changed t.appended id amount text w.db a i run accepts in
      let (b', second, done', _, _, ready') =
        change-IsReady laws d u.loaded u.changed u.appended id amount' text' w.db a i run
          accepts' in
      let n = pos (length history) in
      let one = command_of id amount text in
      let two = command_of id amount' text' in
      let x = (perform c t.changed amount text b).1 in
      let y = (perform d u.changed amount' text' b').1 in
      let w' = (commit_change s c one t n (ok tt, x) w).1 in
      let (state, committed, _, kept, _, _) =
        commit_change_lem laws c one t n w history x keep i ready in
      let (e, single, _) =
        committed_one t.appended id (x.persisted_version +ℤ pos 1) ready.event ready.own in
      let grown : IsStream laws w'.db id (history ++ e ∷ []) =
        subst (λ l. IsStream laws w'.db id (history ++ l)) single kept.stream in
      let refused =
        stale_refused d two u n w' history (history ++ e ∷ []) y ready' grown
          (not_next y.persisted_version history e ready'.live.counted) in
      (
        some (b, n),
        some (b', n),
        first,
        second,
        rw (accepted c one t n w b done) (
          state,
          y.persisted_version,
          committed,
          ready'.live.counted,
          accepted d two u n w' b' done'
              ∙ refused
              ∙ ap (λ k. (err (event_concurrency y.persisted_version k), w'))
                  (last_version history e),
        ),
      )
