-- ===== src/Kafka/Projecting/Published.antt =====
-- What becomes of the events that the publisher sends: their payload is the stored event, whose fields
-- are those of its `data`, one level below where the consumers read.
use wallex_sanbox.Prelude.{ℕ, ◌≡◌, refl, ap, String, Bool, true, false, Option, none, some}
use wallex_sanbox.Exec.{Error, Result, ok, err, Exec}
use wallex_sanbox.Domain.{
  EventData, wallet_created, wallet_credited, wallet_debited, StoredWalletEvent,
}
use wallex_sanbox.Outbox.{OutboxEvent, type_name}
use wallex_sanbox.Projections.{ProjectorCheckpoint}
use wallex_sanbox.Kafka.{KafkaMessage, to_kafka_message}
use wallex_sanbox.Kafka.Projecting.{
  Payload, WalletEvent, ConsumedEntry, ConsumedLedger, Consumed, kind_of, is_behind, is_in_ledger,
  process_message, unless_known, checkpointed, apply_to_ledger, consume_into_ledger,
}

-- The stored event as a payload: its keys are `type`, `aggregateId`, `data` and `metadata`.
abbrev pub payload_of : StoredWalletEvent → Payload
payload_of e = record {
  wallet_id = none;
  owner_id = none;
  initial_balance = none;
  amount = none;
  description = none;
  balance = none;
  previous_balance = none;
  from_wallet_id = none;
  to_wallet_id = none;
}

-- The event that a message's text parses to, with the text of its identifier.
abbrev pub parsed : (ℕ → String) → KafkaMessage → WalletEvent
parsed show m = record {
  id = show m.value.id;
  number = m.value.id;
  aggregate_id = m.value.aggregate_id;
  event_type = m.value.event_type;
  event_version = m.value.event_version;
  payload = payload_of m.value.payload;
  correlation_id = m.value.correlation_id;
}

abbrev pub received : (ℕ → String) → OutboxEvent → WalletEvent
received show e = parsed show (to_kafka_message e)

-- What is documented of the ledger's table: a wallet is required.
abbrev pub RequiresWallet : ConsumedLedger → Type 0
RequiresWallet table =
    (e : ConsumedEntry) (rows : table.Rows)
    → e.wallet_id ≡ none
    → (x : Error) × (table.save e rows ≡ (err x, rows))

-- A credit or a debit.
abbrev pub IsChange : EventData → Type 0
IsChange (wallet_created owner initial) = ⊥
IsChange e = Unit

module _ {R : Type 0} (is_known : WalletEvent → Consumed R → Result Bool)
    (apply : WalletEvent → Exec R (Unit {0})) (e : WalletEvent) (s : Consumed R) where
  checkpointed_rows :
      (out : Result (Unit {0}) × R)
      → out.1 ≡ s.rows
      → (checkpointed is_known apply e s out).1.rows ≡ s.rows
  checkpointed_rows (ok a, rows) h = h
  checkpointed_rows (err x, rows) h = h

  process_rows : (apply e s.rows).1 ≡ s.rows → (process_message is_known apply e s).1.rows ≡ s.rows
  unfolding process_message
  process_rows h = by_known (is_known e s)
    where
      by_known : (k : Result Bool) → (unless_known is_known apply e k s).1.rows ≡ s.rows
      by_known (err x) = refl
      by_known (ok true) = refl
      by_known (ok false) = checkpointed_rows (apply e s.rows) h

  process_throws :
      (x : Error)
      → is_known e s ≡ ok false
      → apply e s.rows ≡ (err x, s.rows)
      → process_message is_known apply e s ≡ (err x, s)
  unfolding process_message
  process_throws x k h = rw (k, h) refl

module _ (table : ConsumedLedger) (required : RequiresWallet table) (show : ℕ → String) where
  refused :
      (e : ConsumedEntry) (rows : table.Rows)
      → e.wallet_id ≡ none
      → let (r, rows') = table.save e rows in
        (rows' ≡ rows) × (Unit {0} → (x : Error) × (r ≡ err x))
  refused e rows h =
      let (x, out) = required e rows h in (ap (λ p. p.1) out, λ c. (x, ap (λ p. p.0) out))

  projected :
      (m : OutboxEvent) (body : EventData) (rows : table.Rows)
      → m.event_type ≡ type_name body
      → let e = received show m in
        let (r, rows') = apply_to_ledger table (kind_of e.event_type) e rows in
        (rows' ≡ rows) × (IsChange body → (x : Error) × (r ≡ err x))
  unfolding kind_of to_kafka_message
  projected m (wallet_created o i) rows t = rw t (refl, λ c. absurd c)
  projected m (wallet_credited a d) rows t = rw t (refused _ rows refl)
  projected m (wallet_debited a d) rows t = rw t (refused _ rows refl)

  new_event :
      (e : WalletEvent) (s : Consumed table.Rows)
      → is_behind s.checkpoint e ≡ false
      → table.has_reference e.id s.rows ≡ ok false
      → is_in_ledger table e s ≡ ok false
  unfolding is_behind
  new_event e s h k = by_checkpoint s.checkpoint refl h
    where
      by_checkpoint :
          (c : Option ProjectorCheckpoint)
          → s.checkpoint ≡ c
          → is_behind c e ≡ false
          → is_in_ledger table e s ≡ ok false
      by_checkpoint none p q = rw p refl
      by_checkpoint (some c) p q = rw (p, q, k) refl

  -- No event that the publisher sends makes the consumer of the ledger write a row, where the table
  -- requires an entry's wallet: a creation is taken to have no initial balance. A credit or a debit
  -- that is new to the checkpoint and to the table throws, and leaves the checkpoint too.
  pub published_unrecorded :
      (m : OutboxEvent) (s : Consumed table.Rows)
      → m.event_type ≡ type_name m.payload.body
      → let e = received show m in
        let outcome = consume_into_ledger table e s in
        (outcome.1.rows ≡ s.rows)
        × (IsChange m.payload.body
            → is_behind s.checkpoint e ≡ false
            → table.has_reference e.id s.rows ≡ ok false
            → (x : Error) × (outcome ≡ (err x, s)))
  unfolding consume_into_ledger
  published_unrecorded m s t =
      let e = received show m in
      let apply = λ (x : WalletEvent). apply_to_ledger table (kind_of x.event_type) x in
      let (same, throws) = projected m m.payload.body s.rows t in
      (
        process_rows (is_in_ledger table) apply e s same,
        λ change ahead absent.
            let (x, out) = throws change in
            (
              x,
              process_throws (is_in_ledger table) apply e s x (new_event e s ahead absent)
                  (λ i. (out i, same i)),
            ),
      )
