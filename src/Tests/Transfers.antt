-- ===== src/Tests/Transfers.antt =====
-- A transfer that comes apart: from bob to alice, who was loaded before the last of her events.
use wallex_sanbox.Prelude.{arith, ◌≡◌, refl, none, [], ◌∷◌, ◌++◌, eq_iff}
use wallex_sanbox.Prelude.Int.{pos, ◌+ℤ◌}
use wallex_sanbox.Number.{fin}
use wallex_sanbox.Exec.{event_concurrency, err}
use wallex_sanbox.Domain.{WalletDomainEvent, wallet_debited, wallet_credited}
use wallex_sanbox.Aggregate.{WalletAggregate}
use wallex_sanbox.EventStore.{committed_events}
use wallex_sanbox.EventStore.Read.{IsStream}
use wallex_sanbox.Commands.Transfer.{TransferCommand, commit_transfer}
use wallex_sanbox.Commands.Transfer.Halves.{transfer_half_done}
use wallex_sanbox.Tests.Memory.{laws}
use wallex_sanbox.Tests.Worlds.{services, times, both_world, alice_history, bob_history, wallet_at}
use wallex_sanbox.Tests.Commands.{alice-IsWallet, bob-IsWallet}

abbrev bob_to_alice : TransferCommand
bob_to_alice = record {
  from_wallet_id = "bob";
  to_wallet_id = "alice";
  amount = fin (pos 5);
  description = none;
}

abbrev taken : WalletDomainEvent
taken = record { aggregate_id = "bob"; body = wallet_debited (fin (pos 5)) none }

abbrev given : WalletDomainEvent
given = record { aggregate_id = "alice"; body = wallet_credited (fin (pos 5)) none }

abbrev source : WalletAggregate
source = record (wallet_at "bob" (pos 9) (pos 0)) { pending_events = taken ∷ [] }

abbrev destination : WalletAggregate
destination = record (wallet_at "alice" (pos 0) (pos 0)) { pending_events = given ∷ [] }

transfer_half_done_example :
    let (r, w') =
      commit_transfer services bob_to_alice times source (pos 1) destination (pos 1) both_world in
    (r ≡ err (event_concurrency (pos 0) (pos 1)))
    × IsStream laws w'.db "bob"
        (bob_history ++ committed_events "later" "bob" (pos 0 +ℤ pos 1) (taken ∷ []))
    × IsStream laws w'.db "alice" alice_history
    × (w'.rows ≡ both_world.rows)
    × (w'.outbox ≡ both_world.outbox)
unfolding ◌+ℤ◌
transfer_half_done_example =
    transfer_half_done laws bob_to_alice times both_world source destination (pos 1) (pos 1) taken
      given (λ p. ground (arith, (eq_iff "bob" "alice").1 p)) bob-IsWallet.stream
      alice-IsWallet.stream refl refl refl (omega arith) (λ p. absurd (cc p))
