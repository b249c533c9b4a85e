-- ===== src/Kafka/Turns.antt =====
-- The ways that a batch goes, and a turn of the publisher's loop.
use mathlib.Core.Path.{subst}
use wallex_sanbox.Prelude.{
  zero, sym, ℕ, suc, ◌+◌, ◌<◌, ◌≡◌, refl, String, Bool, true, none, some, List, map, length, ◌==◌,
  arith, Bool-cases, inl, inr, ◌⊎◌,
}
use wallex_sanbox.Exec.{Error, Result-cases, ok, err}
use wallex_sanbox.Outbox.{OutboxEvent, ids_of, mark_batch_processed}
use wallex_sanbox.Outbox.Claim.{claim_batch_lem}
use wallex_sanbox.Kafka.{
  KafkaClient, KafkaMessage, KafkaProducer, Publisher, publish, publish_batch, publish_batches,
  to_kafka_message, consumer_name, publisher_batch_size,
}
use wallex_sanbox.Kafka.Marks.{claimable, claimed, after_claim}

module _ {B : Type 0} (client : KafkaClient B) (now : ℕ) (locked : ℕ → Bool) where
  -- A producer that is connected asks the client, and stays as it is in any case.
  pub publish_connected :
      (topic : String) (ms : List KafkaMessage) (p : KafkaProducer B)
      → p.is_connected ≡ true
      → (publish client topic ms p).0 ≡ (client.send topic ms p.broker).0
  unfolding publish
  publish_connected topic ms p on = rw on refl

  pub publish_stays :
      (topic : String) (ms : List KafkaMessage) (p : KafkaProducer B)
      → (publish client topic ms p).1.is_connected ≡ p.is_connected
  unfolding publish
  publish_stays topic ms p = ground arith

  -- What a run has still to claim.
  abbrev pub left : Publisher B → ℕ
  left w = claimable consumer_name locked w.outbox

  -- The state after a claim, and what the run does with the batch.
  abbrev pub after_claiming : Publisher B → Publisher B
  after_claiming w = record w {
    outbox = after_claim consumer_name locked now publisher_batch_size w.outbox;
  }

  abbrev pub batch_of : Publisher B → List OutboxEvent
  batch_of w = claimed consumer_name locked now publisher_batch_size w.outbox

  -- The two ways of a batch.
  pub batch_cases :
      (batch : List OutboxEvent) (w : Publisher B)
      → let (r, p) = publish client "wallet-events" (map to_kafka_message batch) w.producer in
        ((r ≡ ok tt)
          × (publish_batch client now locked batch w ≡ (
            ok tt,
            record w {
              producer = p;
              outbox = mark_batch_processed now (ids_of batch) consumer_name w.outbox;
            },
          )))
        ⊎ ((e : Error) × (r ≡ err e)
            × (publish_batch client now locked batch w ≡ (err e, record w { producer = p })))
  unfolding publish_batch
  batch_cases batch w =
      elim (Result-cases
        (publish client "wallet-events" (map to_kafka_message batch) w.producer).0) [
          | inl (a, h) ↦ inl (h, rw (h, publish_batch) refl)
          | inr (e, h) ↦ inr (e, h, rw (h, publish_batch) refl)
        ]

  -- The ways that one turn of the loop goes, where the rest of the run is on less fuel.
  pub turn_cases :
      (fuel total : ℕ) (w : Publisher B)
      → let c = after_claiming w in
        let batch = batch_of w in
        let (r, next) = publish_batch client now locked batch c in
        let outcome = publish_batches client now locked (suc fuel) total w in
        ((length batch ≡ 0) × (outcome ≡ (some (ok total), c)))
        ⊎ ((0 < length batch)
            × (((e : Error) × (r ≡ err e) × (outcome ≡ (some (err e), next)))
                ⊎ ((r ≡ ok tt)
                    × (((length batch < publisher_batch_size)
                          × (outcome ≡ (some (ok (total + length batch)), next)))
                        ⊎ (outcome
                            ≡ publish_batches client now locked fuel
                                (total + length batch)
                                next)))))
  unfolding publish_batches
  turn_cases fuel total w = elim (Bool-cases (length (batch_of w) == 0)) [
    | inl empty ↦ inl (ground arith, rw (empty, publish_batches) refl)
    | inr some_more ↦ inr (
      ground arith,
      elim (Result-cases (publish_batch client now locked (batch_of w) (after_claiming w)).0) [
        | inr (e, h) ↦ inl (e, h, rw (some_more, h, publish_batches) refl)
        | inl (a, h) ↦ inr (
          h,
          elim (Bool-cases (length (batch_of w) == publisher_batch_size)) [
            | inl full ↦ inr (rw (some_more, h, full, publish_batches) refl)
            | inr short ↦ inl (
              ground (
                arith,
                (claim_batch_lem publisher_batch_size consumer_name none locked w.outbox).0,
              ),
              rw (some_more, h, short, publish_batches) refl,
            )
          ],
        )
      ],
    )
  ]

  -- What a claim and a batch keep, the loop keeps.
  pub batches_keep :
      (P : Publisher B → Type 0)
      → ((w : Publisher B) → P w → P (after_claiming w))
      → ((w : Publisher B)
          → P w
          → P (publish_batch client now locked (batch_of w) (after_claiming w)).1)
      → (fuel total : ℕ) (w : Publisher B) → P w
      → P (publish_batches client now locked fuel total w).1
  unfolding publish_batches
  batches_keep P claim batch zero total w h = h
  batches_keep P claim batch (suc fuel) total w h =
      let next = batch w h in
      elim (turn_cases fuel total w) [
        | inl (_, e) ↦ subst (λ x. P x.1) (sym e) (claim w h)
        | inr (_, inl (f, _, e)) ↦ subst (λ x. P x.1) (sym e) next
        | inr (_, inr (_, inl (_, e))) ↦ subst (λ x. P x.1) (sym e) next
        | inr (_, inr (_, inr e)) ↦
            subst (λ x. P x.1) (sym e)
              (batches_keep P claim batch fuel (total + length (batch_of w))
                (publish_batch client now locked (batch_of w) (after_claiming w)).1 next)
      ]
