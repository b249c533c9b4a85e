-- ===== src/Kafka/Publishing.antt =====
-- What a run of the publisher does: it ends, it leaves nothing to claim, and it marks only what it
-- has sent.
use wallex_sanbox.Prelude.{
  ℕ, zero, suc, ◌+◌, ◌≤◌, ◌<◌, ◌≡◌, refl, ap, ◌∙◌, sym, String, Bool, true, false, none, some, List,
  [], ◌∷◌, map, length, arith, inl, inr,
}
use wallex_sanbox.Exec.{Result, ok, err}
use wallex_sanbox.Outbox.{
  OutboxEvent, OutboxTables, eligible, sort_by_id, take, ids_of, claim_batch, mark_batch_processed,
}
use wallex_sanbox.Kafka.{
  KafkaClient, KafkaMessage, Publisher, publish_batch, publish_batches, publish_outbox_events,
  to_kafka_message, consumer_name, publisher_batch_size,
}
use wallex_sanbox.Kafka.Marks.{claimable, after_mark, batch_shrinks, short_batch_last}
use wallex_sanbox.Kafka.Turns.{
  left, batch_of, after_claiming, batch_cases, turn_cases, publish_connected, publish_stays,
}

module _ {B : Type 0} (client : KafkaClient B) (now : ℕ) (locked : ℕ → Bool) where
  -- The tables after a batch that was sent.
  marked_outbox :
      (batch : List OutboxEvent) (w : Publisher B)
      → (publish_batch client now locked batch w).0 ≡ ok tt
      → (publish_batch client now locked batch w).1.outbox
        ≡ mark_batch_processed now (ids_of batch) consumer_name w.outbox
  marked_outbox batch w h = elim (batch_cases client now locked batch w) [
    | inl (_, e) ↦ ap (λ x. x.1.outbox) e
    | inr (f, _, e) ↦ absurd (cc (ap (λ x. x.0) e, h))
  ]

  left_after :
      (w : Publisher B)
      → let c = after_claiming client now locked w in
        (publish_batch client now locked (batch_of client now locked w) c).0 ≡ ok tt
        → left client now locked
            (publish_batch client now locked (batch_of client now locked w) c).1
          ≡ claimable consumer_name locked
              (after_mark consumer_name locked now publisher_batch_size w.outbox)
  left_after w h =
      ap (λ t. claimable consumer_name locked t)
        (marked_outbox (batch_of client now locked w) (after_claiming client now locked w) h)

  batches_end :
      (fuel total : ℕ) (w : Publisher B)
      → left client now locked w < fuel
      → (r : Result ℕ) × ((publish_batches client now locked fuel total w).0 ≡ some r)
  batches_end zero total w h = absurd (omega arith)
  batches_end (suc fuel) total w h = elim (turn_cases client now locked fuel total w) [
    | inl (_, e) ↦ (ok total, ap (λ x. x.0) e)
    | inr (more, inl (f, _, e)) ↦ (err f, ap (λ x. x.0) e)
    | inr (more, inr (r, inl (short, e))) ↦
        (ok (total + length (batch_of client now locked w)), ap (λ x. x.0) e)
    | inr (more, inr (r, inr e)) ↦
        let (q, ends) =
          batches_end fuel (total + length (batch_of client now locked w))
            (publish_batch client now locked (batch_of client now locked w)
              (after_claiming client now locked w)).1
            (omega (
              arith,
              left_after w r,
              batch_shrinks consumer_name locked now publisher_batch_size w.outbox more,
            )) in
        (q, ap (λ x. x.0) e ∙ ends)
  ]

  -- A claim has at most the events of the table to choose from.
  pub eligible_at_most :
      (p : List (ℕ × String)) (es : List OutboxEvent)
      → length (eligible consumer_name none locked p es) ≤ length es
  unfolding eligible
  eligible_at_most p [] = omega arith
  eligible_at_most p (e ∷ es) = ground (arith, eligible_at_most p es)

  -- The loop of the publisher ends, whatever the client answers, within one turn more than the
  -- outbox has events: with a number of events published, or with what the client threw.
  pub publish_ends :
      (w : Publisher B)
      → (r : Result ℕ) × ((publish_batches client now locked (suc (length w.outbox.events)) 0 w).0
          ≡ some r)
  publish_ends w =
      batches_end (suc (length w.outbox.events)) 0 w
        (omega (arith, eligible_at_most w.outbox.processing w.outbox.events))

  empty_mark :
      (batch : List OutboxEvent) (t : OutboxTables)
      → length batch ≡ 0
      → mark_batch_processed now (ids_of batch) consumer_name t ≡ t
  unfolding mark_batch_processed
  empty_mark [] t h = refl
  empty_mark (e ∷ es) t h = absurd (omega arith)

  -- Claims that find nothing.
  nothing_left :
      (t : OutboxTables) (size : ℕ)
      → claimable consumer_name locked t ≡ 0
      → (claim_batch size consumer_name none locked t).0 ≡ []
  unfolding claim_batch sort_by_id
  nothing_left t size h =
      let none_found = no_items (eligible consumer_name none locked t.processing t.events) h in
      rw none_found (take_none size)
    where
      no_items : (xs : List OutboxEvent) → length xs ≡ 0 → xs ≡ []
      no_items [] h = refl
      no_items (x ∷ xs) h = absurd (omega arith)

      take_none : (n : ℕ) → take n [] ≡ []
      take_none zero = refl
      take_none (suc n) = refl

  module _
      (sends : (topic : String) (ms : List KafkaMessage) (b : B)
        → (client.send topic ms b).0 ≡ ok tt) where
    pub batch_sent :
        (batch : List OutboxEvent) (w : Publisher B)
        → w.producer.is_connected ≡ true
        → let (r, next) = publish_batch client now locked batch w in
          (r ≡ ok tt) × (next.producer.is_connected ≡ true)
    batch_sent batch w on =
        let messages = map to_kafka_message batch in
        let sent = publish_connected client now locked "wallet-events" messages w.producer on in
        elim (batch_cases client now locked batch w) [
          | inl (_, e) ↦
              rw e (refl, publish_stays client now locked "wallet-events" messages w.producer ∙ on)
          | inr (f, thrown, _) ↦
              absurd (cc (thrown, sent, sends "wallet-events" messages w.producer.broker))
        ]

    pub drained :
        (fuel total : ℕ) (w : Publisher B)
        → w.producer.is_connected ≡ true
        → left client now locked w < fuel
        → left client now locked (publish_batches client now locked fuel total w).1 ≡ 0
    drained zero total w on h = absurd (omega arith)
    drained (suc fuel) total w on h =
        let c = after_claiming client now locked w in
        let (sent, still_on) = batch_sent (batch_of client now locked w) c on in
        let after = left_after w sent in
        let last = short_batch_last consumer_name locked now publisher_batch_size w.outbox in
        elim (turn_cases client now locked fuel total w) [
          | inl (empty, e) ↦
              ap (λ x. left client now locked x.1) e
              ∙ ap (λ t. claimable consumer_name locked t)
                  (sym (empty_mark (batch_of client now locked w) c.outbox empty))
              ∙ last (omega arith)
          | inr (more, inl (f, thrown, _)) ↦ absurd (cc (sent, thrown))
          | inr (more, inr (_, inl (short, e))) ↦
              ap (λ x. left client now locked x.1) e ∙ after ∙ last short
          | inr (more, inr (_, inr e)) ↦
              ap (λ x. left client now locked x.1) e
              ∙ drained fuel (total + length (batch_of client now locked w))
                  (publish_batch client now locked (batch_of client now locked w) c).1 still_on
                  (omega (
                    arith,
                    after,
                    batch_shrinks consumer_name locked now publisher_batch_size w.outbox more,
                  ))
        ]

    -- If the producer is connected and every send succeeds, then after a run that another one does
    -- not keep from starting, no claim of the publisher finds an event, of any batch size, but for
    -- those that other transactions have locked, and the next run can start.
    pub publish_drains :
        (w : Publisher B) (size : ℕ)
        → w.is_running ≡ false
        → w.producer.is_connected ≡ true
        → let after = publish_outbox_events client now locked w in
          ((claim_batch size consumer_name none locked after.outbox).0 ≡ [])
          × (after.is_running ≡ false)
    unfolding publish_outbox_events
    publish_drains w size idle on =
        let started = record w { is_running = true } in
        let empty =
          drained (suc (length w.outbox.events)) 0 started on
            (omega (arith, eligible_at_most w.outbox.processing w.outbox.events)) in
        rw idle (nothing_left _ size empty, refl)
