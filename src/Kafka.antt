-- ===== src/Kafka.antt =====
-- kafka/kafka-producer.service.ts and kafka/kafka-outbox-publisher.service.ts: the messages of the
-- outbox on their way to the broker. The client of the broker is a package and a parameter. Debug
-- captures, logs and the numbers of partitions that come back are left out, and so is what other
-- processes write to the outbox while a run lasts.
pub mod Members
pub mod Marks
pub mod Turns
pub mod Publishing
pub mod Sent
pub mod Delivered
pub mod Transaction
pub mod Atomic
pub mod Consumer
pub mod Admin
pub mod Projecting
use wallex_sanbox.Prelude.{
  ℕ, zero, suc, ◌+◌, String, Bool, true, false, Option, none, some, List, [], ◌∷◌, map, length,
  ◌==◌, get_or, if◌then◌else◌,
}
use wallex_sanbox.Prelude.Int.{ℤ}
use wallex_sanbox.Exec.{Error, plain, Result, ok, err, Exec}
use wallex_sanbox.Outbox.{
  OutboxEvent, OutboxTables, claim_batch, mark_batch_processed, ids_of, unprocessed_count,
  get_outbox_lag,
}

-- A message, with the value that its text is the JSON of.
pub record KafkaMessage : Type 0 where
  pub key : String
  pub value : OutboxEvent
  pub headers : List (String × String)

-- The client's calls, on the state of the broker.
pub record KafkaClient (B : Type 0) : Type 0 where
  pub connect : B → Result (Unit {0}) × B
  pub disconnect : B → Result (Unit {0}) × B
  -- `send` to a topic
  pub send : String → List KafkaMessage → B → Result (Unit {0}) × B

pub record KafkaProducer (B : Type 0) : Type 0 where
  pub is_connected : Bool
  pub broker : B

module _ {B : Type 0} (client : KafkaClient B) where
  abbrev connected : Result (Unit {0}) × B → Result (Unit {0}) × KafkaProducer B
  connected (ok _, b) = (ok tt, record { is_connected = true; broker = b })
  connected (err e, b) = (err e, record { is_connected = false; broker = b })

  unfoldable pub connect : Exec (KafkaProducer B) (Unit {0})
  connect p = if p.is_connected then (ok tt, p) else connected (client.connect p.broker)

  -- An error of the client is only logged.
  abbrev disconnected : Result (Unit {0}) × B → KafkaProducer B
  disconnected (ok _, b) = record { is_connected = false; broker = b }
  disconnected (err e, b) = record { is_connected = true; broker = b }

  unfoldable pub disconnect : Exec (KafkaProducer B) (Unit {0})
  disconnect p =
      if p.is_connected then (ok tt, disconnected (client.disconnect p.broker)) else (ok tt, p)

  abbrev sent : KafkaProducer B → Result (Unit {0}) × B → Result (Unit {0}) × KafkaProducer B
  sent p (r, b) = (r, record p { broker = b })

  unfoldable pub publish : String → List KafkaMessage → Exec (KafkaProducer B) (Unit {0})
  publish topic messages p =
      if p.is_connected
      then sent p (client.send topic messages p.broker)
      else (err (plain "Kafka producer is not connected"), p)

  unfoldable pub publish_one : String → KafkaMessage → Exec (KafkaProducer B) (Unit {0})
  unfolding publish
  publish_one topic message = publish topic (message ∷ [])

-- The publisher, with the tables and the producer that it works on.
pub record Publisher (B : Type 0) : Type 0 where
  pub is_running : Bool
  pub outbox : OutboxTables
  pub producer : KafkaProducer B

abbrev pub publisher_batch_size : ℕ
publisher_batch_size = 100

abbrev pub consumer_name : String
consumer_name = "kafka-publisher"

unfoldable pub to_kafka_message : OutboxEvent → KafkaMessage
to_kafka_message e = record {
  key = e.aggregate_id;
  value = e;
  headers =
      ("event-type", e.event_type)
      ∷ ("aggregate-id", e.aggregate_id)
      ∷ ("correlation-id", get_or e.correlation_id "")
      ∷ ("causation-id", get_or e.causation_id "")
      ∷ [];
}

-- How a run of the loop ends: with the number of events published, or with what the producer threw.
-- `none` would be a run without end.
abbrev pub Outcome : Type 0 → Type 0
Outcome B = Option (Result ℕ) × Publisher B

module _ {B : Type 0} (client : KafkaClient B) (now : ℕ) (locked : ℕ → Bool) where
  -- What a batch does that is not empty: the outcome of `publish`, and the state after it, where the
  -- events are marked only if nothing was thrown.
  unfoldable pub publish_batch : List OutboxEvent → Publisher B → Result (Unit {0}) × Publisher B
  publish_batch batch w =
      let (r, producer) = publish client "wallet-events" (map to_kafka_message batch) w.producer in
      elim r [
        | err e ↦ (err e, record w { producer = producer })
        | ok _ ↦ (
          ok tt,
          record w {
            producer = producer;
            outbox = mark_batch_processed now (ids_of batch) consumer_name w.outbox;
          },
        )
      ]

  -- `while (hasMore)`, with the number of events published so far.
  unfoldable pub publish_batches : ℕ → ℕ → Publisher B → Outcome B
  publish_batches zero total w = (none, w)
  publish_batches (suc fuel) total w =
      let (batch, outbox) = claim_batch publisher_batch_size consumer_name none locked w.outbox in
      let claimed = record w { outbox = outbox } in
      let (r, next) = publish_batch batch claimed in
      let total' = total + length batch in
      let more = publish_batches fuel total' next in
      if length batch == 0 then (some (ok total), claimed) else elim r [
        | err e ↦ (some (err e), next)
        | ok _ ↦ if length batch == publisher_batch_size then more else (some (ok total'), next)
      ]

  -- The job of every five seconds. What the loop throws is only logged.
  unfoldable pub publish_outbox_events : Publisher B → Publisher B
  publish_outbox_events w =
      let (outcome, after) =
        publish_batches (suc (length w.outbox.events)) 0 (record w { is_running = true }) in
      if w.is_running then w else record after { is_running = false }

pub record PublisherStats : Type 0 where
  pub unprocessed : ℕ
  pub lag : ℤ
  pub is_running : Bool

-- `getStats` of the publisher
unfoldable pub publisher_stats : {B : Type 0} → ℕ → Publisher B → PublisherStats
publisher_stats now w = record {
  unprocessed = unprocessed_count (some consumer_name) w.outbox.events;
  lag = get_outbox_lag now w.outbox;
  is_running = w.is_running;
}
