-- ===== src/Commands/Transfer/Halves.antt =====
-- A transfer whose second append is refused.
use wallex_sanbox.Prelude.{◌≡◌, ◌≢◌, refl, ap, ◌∙◌, List, [], ◌∷◌, ◌++◌, length, get_or}
use wallex_sanbox.Prelude.Int.{ℤ, pos, negsuc, ◌+ℤ◌, ◌≤ℤ◌}
use wallex_sanbox.Exec.{event_concurrency, ok, err}
use wallex_sanbox.Domain.{StoredWalletEvent, WalletDomainEvent}
use wallex_sanbox.Aggregate.{WalletAggregate}
use wallex_sanbox.EventStore.Client.{KurrentLaws, actual_state}
use wallex_sanbox.EventStore.{append_to_stream, committed_events}
use wallex_sanbox.EventStore.Read.{IsStream}
use wallex_sanbox.EventStore.Append.{append_commits, append_conflict, append_apart}
use wallex_sanbox.Commands.{Services, World, Times}
use wallex_sanbox.Commands.Transfer.{TransferCommand, commit_transfer}

module _ {s : Services} (laws : KurrentLaws s.client) where
  -- The appends of a transfer can come apart. Take two different wallets with their histories, of
  -- which the source is at the version that was loaded and the destination is not, as where another
  -- writer has come in after the lock has expired. The transfer then throws a concurrency error, but
  -- the source's history has grown by the debit. The destination's is what it was, and neither the
  -- rows nor the outbox are written.
  pub transfer_half_done :
      (command : TransferCommand) (t : Times) (w : World s) (a b : WalletAggregate)
      (from_count to_count : ℤ) (e f : WalletDomainEvent)
      {from_history to_history : List StoredWalletEvent}
      → command.from_wallet_id ≢ command.to_wallet_id
      → IsStream laws w.db command.from_wallet_id from_history
      → IsStream laws w.db command.to_wallet_id to_history
      → a.pending_events ≡ e ∷ []
      → b.pending_events ≡ f ∷ []
      → a.persisted_version +ℤ pos 1 ≡ pos (length from_history)
      → negsuc 0 ≤ℤ b.persisted_version
      → b.persisted_version +ℤ pos 1 ≢ pos (length to_history)
      → let (r, w') = commit_transfer s command t a from_count b to_count w in
        (r
          ≡ err (
              event_concurrency b.persisted_version
                (get_or (actual_state (length to_history)) (negsuc 0))))
        × IsStream laws w'.db command.from_wallet_id (
            from_history
            ++ committed_events t.appended command.from_wallet_id
                (a.persisted_version +ℤ pos 1)
                (e ∷ []))
        × IsStream laws w'.db command.to_wallet_id to_history
        × (w'.rows ≡ w.rows)
        × (w'.outbox ≡ w.outbox)
  transfer_half_done command t w a b from_count to_count e f {from_history = fh} {to_history = th}
        ne source destination pa pb current least stale =
      let from = command.from_wallet_id in
      let (r, grown) =
        append_commits laws t.appended from e [] a.persisted_version w.db fh source current in
      let db1 = (append_to_stream s.client t.appended from (e ∷ []) a.persisted_version w.db).1 in
      let first : append_to_stream s.client t.appended from a.pending_events a.persisted_version
            w.db
          ≡ (ok (committed_events t.appended from (a.persisted_version +ℤ pos 1) (e ∷ [])), db1) =
        ap (λ es. append_to_stream s.client t.appended from es a.persisted_version w.db) pa
        ∙ ap (λ x. (x, db1)) r in
      let kept =
        append_apart laws t.appended from command.to_wallet_id (e ∷ []) a.persisted_version w.db th
          ne destination in
      let second =
        ap
          (λ es.
            append_to_stream s.client t.appended command.to_wallet_id es b.persisted_version db1)
          pb
        ∙ append_conflict laws t.appended command.to_wallet_id f [] b.persisted_version db1 th kept
            least stale in
      rw first (rw second (refl, grown, kept, refl, refl))
