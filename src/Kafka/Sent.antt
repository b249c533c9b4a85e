-- ===== src/Kafka/Sent.antt =====
-- The publisher marks an event only after the broker has its message.
use wallex_sanbox.Prelude.{
  ℕ, suc, ◌≡◌, refl, ap, ◌∙◌, String, Bool, true, ◌||◌, List, [], ◌∷◌, ◌++◌, map, length, arith,
  Bool-cases, inl, inr, ◌⊎◌, eq_refl,
}
use wallex_sanbox.Exec.{ok}
use wallex_sanbox.Outbox.{OutboxEvent, is_processed, has_id, ids_of, claim_batch}
use wallex_sanbox.Outbox.Claim.{mark_batch_processed_lem}
use wallex_sanbox.Kafka.{
  KafkaClient, KafkaMessage, KafkaProducer, Publisher, publish, publish_batch, publish_batches,
  publish_outbox_events, to_kafka_message, consumer_name,
}
use wallex_sanbox.Kafka.Turns.{batch_cases, batches_keep, batch_of, after_claiming}

-- The events that a list of messages carries.
abbrev pub carried : List KafkaMessage → List ℕ
carried ms = map (λ m. m.value.id) ms

-- What is documented of a broker: a send that succeeds appends its messages, and none takes a
-- message away.
pub record BrokerLaws {B : Type 0} (client : KafkaClient B) : Type 0 where
  pub log : B → List KafkaMessage
  pub sent :
      (topic : String) (ms : List KafkaMessage) (b : B)
      → (client.send topic ms b).0 ≡ ok tt
      → log (client.send topic ms b).1 ≡ log b ++ ms
  pub kept :
      (topic : String) (ms : List KafkaMessage) (b : B) (i : ℕ)
      → has_id i (carried (log b)) ≡ true
      → has_id i (carried (log (client.send topic ms b).1)) ≡ true

pub carried-append :
    (i : ℕ) (xs ys : List KafkaMessage)
    → has_id i (carried (xs ++ ys)) ≡ (has_id i (carried xs) || has_id i (carried ys))
carried-append i [] ys = refl
carried-append i (x ∷ xs) ys = ground (arith, carried-append i xs ys)

carried-batch : (batch : List OutboxEvent) → carried (map to_kafka_message batch) ≡ ids_of batch
unfolding to_kafka_message
carried-batch [] = refl
carried-batch (e ∷ es) = ap (λ l. e.id ∷ l) (carried-batch es)

module _ {B : Type 0} (client : KafkaClient B) (laws : BrokerLaws client) (now : ℕ)
    (locked : ℕ → Bool) where
  -- The broker has a message with the event.
  abbrev pub HasSent : ℕ → Publisher B → Type 0
  HasSent i w = has_id i (carried (laws.log w.producer.broker)) ≡ true

  abbrev pub HasMarked : ℕ → Publisher B → Type 0
  HasMarked i w = is_processed i consumer_name w.outbox.processing ≡ true

  pub publish_sends :
      (topic : String) (ms : List KafkaMessage) (p : KafkaProducer B)
      → (publish client topic ms p).0 ≡ ok tt
      → laws.log (publish client topic ms p).1.broker ≡ laws.log p.broker ++ ms
  unfolding publish
  publish_sends topic ms p h = elim (Bool-cases p.is_connected) [
    | inl on ↦ rw (on, publish) (laws.sent topic ms p.broker (rw on at h))
    | inr off ↦ absurd (cc (rw off at h))
  ]

  publish_keeps :
      (topic : String) (ms : List KafkaMessage) (p : KafkaProducer B) (i : ℕ)
      → has_id i (carried (laws.log p.broker)) ≡ true
      → has_id i (carried (laws.log (publish client topic ms p).1.broker)) ≡ true
  unfolding publish
  publish_keeps topic ms p i h = ground (arith, h, laws.kept topic ms p.broker i)

  -- For one event: either it was marked at the start of the run, or its message is sent.
  module _ (i : ℕ) (Before : Type 0) where
    abbrev IsSafe : Publisher B → Type 0
    IsSafe w = HasMarked i w → Before ⊎ HasSent i w

    claim-IsSafe : (w : Publisher B) → IsSafe w → IsSafe (after_claiming client now locked w)
    unfolding claim_batch
    claim-IsSafe w safe = safe

    still_sent : (P Q : Type 0) → (P → Q) → Before ⊎ P → Before ⊎ Q
    still_sent P Q f (inl b) = inl b
    still_sent P Q f (inr s) = inr (f s)

    batch-IsSafe :
        (batch : List OutboxEvent) (w : Publisher B)
        → IsSafe w
        → IsSafe (publish_batch client now locked batch w).1
    batch-IsSafe batch w safe =
        let messages = map to_kafka_message batch in
        let p = (publish client "wallet-events" messages w.producer).1 in
        let kept = publish_keeps "wallet-events" messages w.producer i in
        let held : Type 0 = has_id i (carried (laws.log p.broker)) ≡ true in
        elim (batch_cases client now locked batch w) [
          | inr (f, _, e) ↦ rw e (λ m. still_sent (HasSent i w) held kept (safe m))
          | inl (sent, e) ↦ rw e (λ m.
              let log = publish_sends "wallet-events" messages w.producer sent in
              let all =
                ap (λ l. has_id i (carried l)) log
                ∙ carried-append i (laws.log w.producer.broker) messages
                ∙ ap (λ l. has_id i (carried (laws.log w.producer.broker)) || has_id i l)
                    (carried-batch batch) in
              let marked =
                mark_batch_processed_lem now (ids_of batch) consumer_name consumer_name w.outbox
                  i in
              elim (Bool-cases (has_id i (ids_of batch))) [
                | inl own ↦ inr (ground (arith, all, own))
                | inr other ↦
                    still_sent (HasSent i w) held kept
                      (safe (ground (arith, marked, m, other, eq_refl consumer_name)))
              ])
        ]

    batches-IsSafe :
        (fuel total : ℕ) (w : Publisher B)
        → IsSafe w
        → IsSafe (publish_batches client now locked fuel total w).1
    batches-IsSafe = batches_keep client now locked IsSafe claim-IsSafe (λ w h.
        batch-IsSafe (batch_of client now locked w) (after_claiming client now locked w)
          (claim-IsSafe w h))

  -- After a run, each event that is marked for the publisher was marked before, or the broker has a
  -- message with it, whatever the client answered.
  pub marked_sent :
      (w : Publisher B) (i : ℕ)
      → HasMarked i (publish_outbox_events client now locked w)
      → HasMarked i w ⊎ HasSent i (publish_outbox_events client now locked w)
  unfolding publish_outbox_events
  marked_sent w i = elim (Bool-cases w.is_running) [
    | inl busy ↦ rw busy (λ m. inl m)
    | inr idle ↦ rw idle (
        batches-IsSafe i (HasMarked i w) (suc (length w.outbox.events)) 0
          (record w { is_running = true }) (λ m. inl m))
  ]
