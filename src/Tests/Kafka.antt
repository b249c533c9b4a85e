-- ===== src/Tests/Kafka.antt =====
-- The publisher and the consumers of Kafka at concrete inputs.
use wallex_sanbox.Prelude.{
  ℕ, suc, ◌≡◌, refl, String, Bool, true, false, Option, none, some, List, [], ◌∷◌, ◌++◌, length,
  arith, ◌⊎◌, inr, All,
}
use wallex_sanbox.Exec.{Error, plain, Result, ok, err}
use wallex_sanbox.Outbox.{
  unprocessed_count, claim_batch, has_id, is_processed, mark_batch_processed,
}
use wallex_sanbox.Kafka.{
  KafkaClient, KafkaMessage, Publisher, publish, publish_batch, publish_batches,
  publish_outbox_events, consumer_name, KafkaProducer, to_kafka_message, publisher_stats,
}
use wallex_sanbox.Kafka.Publishing.{publish_ends, publish_drains}
use wallex_sanbox.Kafka.Sent.{BrokerLaws, HasMarked, HasSent, carried, carried-append, marked_sent}
use wallex_sanbox.Kafka.Projecting.{
  ConsumedEntry, ConsumedLedger, Consumed, consume_into_ledger, is_behind,
}
use wallex_sanbox.Kafka.Projecting.Published.{RequiresWallet, received, published_unrecorded}
use wallex_sanbox.Kafka.Transaction.{PublishOptions, TransactionCalls, TransactionLaws}
use wallex_sanbox.Kafka.Admin.{
  AdminClient, TopicConfig, topics, includes, names, on_module_init, wallet_events,
  wallet_events_dlq,
}
use wallex_sanbox.Kafka.Admin.Topics.{AdminLaws, required_topics_there}
use wallex_sanbox.Tests.Outbox.{event_at, outbox, none_locked}

-- A broker that keeps every message.
abbrev pub client : KafkaClient (List KafkaMessage)
client = record {
  connect = λ b. (ok tt, b);
  disconnect = λ b. (ok tt, b);
  send = λ topic ms b. (ok tt, b ++ ms);
}

pub still_there :
    (i : ℕ) (b ms : List KafkaMessage)
    → has_id i (carried b) ≡ true
    → has_id i (carried (b ++ ms)) ≡ true
still_there i b ms h = ground (arith, carried-append i b ms, h)

abbrev pub laws : BrokerLaws client
laws = record {
  log = λ b. b;
  sent = λ topic ms b h. refl;
  kept = λ topic ms b i h. still_there i b ms h;
}

abbrev publisher : Publisher (List KafkaMessage)
publisher = record {
  is_running = false;
  outbox = outbox;
  producer = record { is_connected = true; broker = [] };
}

-- Three events wait for the publisher, and none is counted.
not_counted : (publisher_stats 9 publisher).unprocessed ≡ 0
unfolding publisher_stats unprocessed_count
not_counted = refl

publish_ends_example :
    (r : Result ℕ) × ((publish_batches client 9 none_locked
        (suc (length outbox.events))
        0
        publisher).0
      ≡ some r)
publish_ends_example = publish_ends client 9 none_locked publisher

publish_drains_example :
    let after = publish_outbox_events client 9 none_locked publisher in
    ((claim_batch 7 consumer_name none none_locked after.outbox).0 ≡ [])
    × (after.is_running ≡ false)
publish_drains_example =
    publish_drains client 9 none_locked (λ topic ms b. refl) publisher 7 refl refl

marked_sent_example :
    HasMarked client laws 9 none_locked 1 publisher
    ⊎ HasSent client laws 9 none_locked 1 (publish_outbox_events client 9 none_locked publisher)
unfolding publish_outbox_events publish_batches publish_batch publish claim_batch
    mark_batch_processed is_processed
marked_sent_example = marked_sent client laws 9 none_locked publisher 1 refl

-- A cluster that keeps its topics, with one of the two that are required.
abbrev admin_client : AdminClient (List TopicConfig)
admin_client = record {
  connect = λ b. (ok tt, b);
  disconnect = λ b. (ok tt, b);
  list_topics = λ b. (ok (names b), b);
  create_topics = λ ts b. (ok true, b ++ ts);
  delete_topics = λ ts b. (ok tt, b);
}

abbrev admin_laws : AdminLaws admin_client
admin_laws = record {
  topics_of = λ b. b;
  connect_law = λ b. (refl, refl);
  list_law = λ b. (refl, refl);
  create_law = λ t ts b h. (refl, refl);
}

abbrev some_topics : List TopicConfig
some_topics = record wallet_events { num_partitions = 3 } ∷ []

required_topics_there_example :
    let (r, b') = on_module_init admin_client some_topics in
    (r ≡ ok tt)
    × (b' ≡ some_topics ++ wallet_events_dlq ∷ [])
    × All (λ t. includes t.topic (names b') ≡ true) topics
    × ((on_module_init admin_client b').1 ≡ b')
required_topics_there_example = required_topics_there admin_client admin_laws some_topics

-- A ledger that takes entries with a wallet.
abbrev save_entry :
    ConsumedEntry → List ConsumedEntry → Option String → Result (Unit {0}) × List ConsumedEntry
save_entry e rows none = (err (plain "null value in column walletId"), rows)
save_entry e rows (some w) = (ok tt, e ∷ rows)

abbrev ledger : ConsumedLedger
ledger = record {
  Rows = List ConsumedEntry;
  save = λ e rows. save_entry e rows e.wallet_id;
  has_reference = λ s rows. ok false;
}

ledger-RequiresWallet : RequiresWallet ledger
ledger-RequiresWallet e rows h = (plain "null value in column walletId", rw h refl)

abbrev consumed : Consumed (List ConsumedEntry)
consumed = record { checkpoint = none; rows = [] }

abbrev show_one : ℕ → String
show_one n = "1"

published_unrecorded_example :
    let e = received show_one (event_at 1) in
    let outcome = consume_into_ledger ledger e consumed in
    (outcome.1.rows ≡ [])
    × (Unit {0}
        → is_behind none e ≡ false
        → ◌≡◌ {A = Result Bool} (ok false) (ok false)
        → (x : Error) × (outcome ≡ (err x, consumed)))
published_unrecorded_example =
    published_unrecorded ledger ledger-RequiresWallet show_one (event_at 1) consumed refl

-- A broker that keeps what can be read apart from what a transaction has sent.
abbrev Broker : Type 0
Broker = List KafkaMessage × List KafkaMessage

abbrev transactional : TransactionCalls Broker
transactional = record {
  transaction = λ b. (ok tt, (b.0, []));
  send = λ topic ms b. (ok tt, (b.0, b.1 ++ ms));
  commit = λ b. (ok tt, (b.0 ++ b.1, []));
  abort = λ b. (ok tt, (b.0, []));
}

abbrev transactional_laws : TransactionLaws transactional
transactional_laws = record {
  readable = λ b. b.0;
  pending = λ b. b.1;
  transaction_law = λ b. (refl, λ h. refl);
  send_law = λ topic ms b. (refl, λ h. refl);
  commit_law = λ b h. refl;
  commit_thrown = λ b. inr refl;
  abort_law = λ b. refl;
}

abbrev two_operations : List PublishOptions
two_operations =
    record { topic = "a"; messages = to_kafka_message (event_at 1) ∷ [] }
    ∷ record { topic = "b"; messages = to_kafka_message (event_at 2) ∷ [] }
    ∷ []

abbrev with_transactions : KafkaProducer Broker
with_transactions = record { is_connected = true; broker = ([], []) }
