-- ===== src/Kafka/Delivered.antt =====
-- A row of the outbox that the publisher has not marked reaches the broker.
use wallex_sanbox.Prelude.{
  ℕ, suc, ◌≡◌, refl, ap, ◌∙◌, String, Bool, true, false, List, [], ◌∷◌, ◌++◌, map, length, ◌==◌,
  arith, All, All-append, Bool-cases, inl, inr,
}
use wallex_sanbox.Exec.{ok}
use wallex_sanbox.Domain.{StoredWalletEvent}
use wallex_sanbox.Outbox.{
  OutboxEvent, OutboxTables, has_id, ids_of, is_processed, claim_batch, mark_batch_processed,
}
use wallex_sanbox.Outbox.Rows.{eligible-keeps, update_ids-All, ids_of-update, none_left}
use wallex_sanbox.Outbox.Claim.{sort_by_id-All, take-All}
use wallex_sanbox.Kafka.{
  KafkaClient, KafkaMessage, Publisher, publish_batch, publish_outbox_events, to_kafka_message,
  consumer_name, publisher_batch_size,
}
use wallex_sanbox.Kafka.Turns.{after_claiming, batch_of, batch_cases, batches_keep}
use wallex_sanbox.Kafka.Publishing.{drained, batch_sent, eligible_at_most}
use wallex_sanbox.Kafka.Sent.{BrokerLaws, marked_sent, carried, publish_sends}

-- The row with an identifier is of a stored event, under the wallet's identifier.
abbrev pub IsRowOf : ℕ → String → StoredWalletEvent → OutboxEvent → Type 0
IsRowOf i id e r = r.id ≡ i → (r.aggregate_id ≡ id) × (r.payload ≡ e)

-- So is the message of it.
abbrev pub IsMessageOf : ℕ → String → StoredWalletEvent → KafkaMessage → Type 0
IsMessageOf i id e m = m.value.id ≡ i → (m.key ≡ id) × (m.value.payload ≡ e)

-- Among messages there is one of a stored event, under the wallet's identifier.
abbrev pub HasMessage : String → StoredWalletEvent → List KafkaMessage → Type 0
HasMessage id e ms =
    (m : KafkaMessage) × (before : List KafkaMessage) × (after : List KafkaMessage) × (ms
      ≡ before ++ m ∷ after)
    × (m.key ≡ id)
    × (m.value.payload ≡ e)

found_message :
    (i : ℕ) (id : String) (e : StoredWalletEvent) (ms : List KafkaMessage)
    → has_id i (carried ms) ≡ true
    → All (IsMessageOf i id e) ms
    → HasMessage id e ms
found_message i id e [] h all = absurd (cc h)
found_message i id e (m ∷ ms) h all = elim (Bool-cases (i == m.value.id)) [
  | inl same ↦ let (k, p) = all.0 (ground arith) in (m, [], ms, refl, k, p)
  | inr other ↦
      let (m', before, after, there, k, p) = found_message i id e ms (rw other at h) all.1 in
      (m', m ∷ before, after, ap (λ l. m ∷ l) there, k, p)
]

module _ {B : Type 0} (client : KafkaClient B) (laws : BrokerLaws client) (now : ℕ)
    (locked : ℕ → Bool)
    (sends : (topic : String) (ms : List KafkaMessage) (b : B) → (client.send topic ms b).0 ≡ ok tt)
    (i : ℕ) (id : String) (e : StoredWalletEvent) where
  -- What every step of a run keeps.
  pub record IsFollowed (w : Publisher B) : Type 0 where
    pub on : w.producer.is_connected ≡ true
    pub rows : All (IsRowOf i id e) w.outbox.events
    pub there : has_id i (ids_of w.outbox.events) ≡ true
    pub messages : All (IsMessageOf i id e) (laws.log w.producer.broker)

  claim-IsFollowed :
      (w : Publisher B) → IsFollowed w → IsFollowed (after_claiming client now locked w)
  unfolding claim_batch
  claim-IsFollowed w h = record {
    on = h.on;
    rows = update_ids-All (IsRowOf i id e) _ (λ r p. p) _ w.outbox.events h.rows;
    there = ap (has_id i) (ids_of-update _ _ w.outbox.events (λ r. refl)) ∙ h.there;
    messages = h.messages;
  }

  batch-All :
      (w : Publisher B)
      → All (IsRowOf i id e) w.outbox.events
      → All (IsRowOf i id e) (batch_of client now locked w)
  unfolding claim_batch
  batch-All w h = take-All (IsRowOf i id e) publisher_batch_size _ (
      sort_by_id-All (IsRowOf i id e) _ (
        eligible-keeps (IsRowOf i id e) consumer_name locked w.outbox.processing w.outbox.events h))

  messages-All :
      (batch : List OutboxEvent)
      → All (IsRowOf i id e) batch
      → All (IsMessageOf i id e) (map to_kafka_message batch)
  unfolding to_kafka_message
  messages-All [] h = tt
  messages-All (r ∷ rs) h = (h.0, messages-All rs h.1)

  mark-rows :
      (ids : List ℕ) (t : OutboxTables)
      → All (IsRowOf i id e) t.events
      → All (IsRowOf i id e) (mark_batch_processed now ids consumer_name t).events
  unfolding mark_batch_processed
  mark-rows [] t h = h
  mark-rows (j ∷ js) t h = update_ids-All (IsRowOf i id e) _ (λ r p. p) (j ∷ js) t.events h

  mark-ids :
      (ids : List ℕ) (t : OutboxTables)
      → ids_of (mark_batch_processed now ids consumer_name t).events ≡ ids_of t.events
  unfolding mark_batch_processed
  mark-ids [] t = refl
  mark-ids (j ∷ js) t = ids_of-update _ (j ∷ js) t.events (λ r. refl)

  send-IsFollowed :
      (batch : List OutboxEvent) (w : Publisher B)
      → All (IsRowOf i id e) batch
      → IsFollowed w
      → IsFollowed (publish_batch client now locked batch w).1
  send-IsFollowed batch w all h =
      let messages = map to_kafka_message batch in
      let (done, on) = batch_sent client now locked sends batch w h.on in
      elim (batch_cases client now locked batch w) [
        | inr (f, thrown, same) ↦ absurd (cc (done, ap (λ x. x.0) same))
        | inl (sent, same) ↦
            let log =
              publish_sends client laws now locked "wallet-events" messages w.producer sent in
            rw same (record {
              on = rw same at on;
              rows = mark-rows (ids_of batch) w.outbox h.rows;
              there = rw (mark-ids (ids_of batch) w.outbox) h.there;
              messages = rw log (
                  All-append (IsMessageOf i id e) (laws.log w.producer.broker) messages h.messages
                    (messages-All batch all));
            })
      ]

  -- An event of the outbox that the publisher has not marked and that nobody has locked is at the
  -- broker after a run.
  pub unmarked_delivered :
      (w : Publisher B)
      → w.is_running ≡ false
      → IsFollowed w
      → is_processed i consumer_name w.outbox.processing ≡ false
      → locked i ≡ false
      → HasMessage id e (laws.log (publish_outbox_events client now locked w).producer.broker)
  unfolding publish_outbox_events
  unmarked_delivered w idle h fresh free =
      let started = record w { is_running = true } in
      let fuel = suc (length w.outbox.events) in
      let begin : IsFollowed started = record {
        on = h.on;
        rows = h.rows;
        there = h.there;
        messages = h.messages;
      } in
      let at_end =
        batches_keep client now locked IsFollowed claim-IsFollowed
          (λ v k.
            send-IsFollowed (batch_of client now locked v) (after_claiming client now locked v)
              (batch-All v k.rows) (claim-IsFollowed v k))
          fuel 0 started begin in
      let empty =
        drained client now locked sends fuel 0 started h.on
          (omega (arith, eligible_at_most client now locked w.outbox.processing w.outbox.events)) in
      let marked = none_left i consumer_name locked _ _ empty at_end.there free in
      elim (marked_sent client laws now locked w i (rw idle marked)) [
        | inl before ↦ absurd (cc (before, fresh))
        | inr sent ↦ rw idle (found_message i id e _ (rw idle at sent) at_end.messages)
      ]
