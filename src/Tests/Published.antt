-- ===== src/Tests/Published.antt =====
-- A debit and a run of the publisher at a concrete world.
use wallex_sanbox.Prelude.{◌≡◌, refl, some, true, [], ◌∷◌, ◌++◌, arith}
use wallex_sanbox.Prelude.Int.{pos}
use wallex_sanbox.Number.{le, lt, is_finite}
use wallex_sanbox.Exec.{ok}
use wallex_sanbox.Domain.{StoredWalletEvent}
use wallex_sanbox.Aggregate.{WalletState, debit}
use wallex_sanbox.Aggregate.History.{debited, perform}
use wallex_sanbox.Outbox.{OutboxEvent}
use wallex_sanbox.Commands.{World, change_wallet}
use wallex_sanbox.Commands.Loading.{IsWallet}
use wallex_sanbox.Commands.Published.{publisher_at, change_published}
use wallex_sanbox.Kafka.{KafkaMessage, publish_outbox_events}
use wallex_sanbox.Kafka.Delivered.{HasMessage}
use wallex_sanbox.Tests.Outbox.{event_at, none_locked}
use wallex_sanbox.Tests.Worlds.{services, times, both_world, alice_history, wallet_at}
use wallex_sanbox.Tests.Memory.{laws}
use wallex_sanbox.Tests.Commands.{alice-IsWallet, alice_loads, debit_alice}
use wallex_sanbox.Tests.Kafka as Broker

-- The last event of the history is in the outbox, and at the broker already.
abbrev credited_row : OutboxEvent
credited_row = record (event_at 3) { aggregate_id = "alice"; event_version = pos 1 }

abbrev world : World services
world = record both_world {
  outbox = record {
    answers = true;
    next_id = 4;
    events = credited_row ∷ [];
    processing = (3, "kafka-publisher") ∷ [];
  };
}

abbrev message : KafkaMessage
message = record { key = "alice"; value = credited_row; headers = [] }

change_published_example :
    let (r, w') = change_wallet services debited debit_alice times world in
    let after =
      publish_outbox_events Broker.client 9 none_locked (publisher_at w'.outbox (message ∷ [])) in
    (state : WalletState) × (e : StoredWalletEvent) × (r ≡ ok (some state))
    × IsWallet laws w'.db "alice" (alice_history ++ e ∷ [])
    × HasMessage "alice" e after.producer.broker
unfolding perform debit is_finite le lt
change_published_example =
    change_published laws Broker.client Broker.laws (λ topic ms b. refl) debited debit_alice times
      world (message ∷ []) (wallet_at "alice" (pos 100) (pos 1)) 9 none_locked (omega arith)
      alice-IsWallet (alice_loads alice-IsWallet.taken_at) refl refl
      (record {
        numbered = (omega arith, tt);
        marked = (omega arith, tt);
        stored = (λ same. refl, tt);
      })
      (omega arith, tt) refl
