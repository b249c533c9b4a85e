-- ===== src/Commands/Published.antt =====
-- From a command to the broker: a credit or a debit and then a run of the publisher.
use mathlib.Core.Path.{subst}
use wallex_sanbox.Prelude.{
  ◌+◌, ℕ, ◌<◌, ◌≡◌, refl, ap, ◌∙◌, sym, String, Bool, true, false, some, List, [], ◌∷◌, ◌++◌,
  length, arith, All, All-append,
}
use wallex_sanbox.Prelude.Int.{pos}
use wallex_sanbox.Exec.{ok}
use wallex_sanbox.Domain.{StoredWalletEvent}
use wallex_sanbox.Aggregate.{WalletAggregate, WalletState, rehydrate}
use wallex_sanbox.Aggregate.History.{Change, perform}
use wallex_sanbox.EventStore.Client.{KurrentLaws}
use wallex_sanbox.Outbox.{OutboxEvent, OutboxTables}
use wallex_sanbox.Outbox.Enqueued.{IsTidy, row_of, enqueue_one, new_id_unmarked, has_id-last}
use wallex_sanbox.Commands.{Services, World, Times, ChangeCommand, change_wallet, options_of}
use wallex_sanbox.Commands.Loading.{IsWallet}
use wallex_sanbox.Commands.Changes.{change_enqueued}
use wallex_sanbox.Kafka.{KafkaClient, KafkaMessage, Publisher, publish_outbox_events, consumer_name}
use wallex_sanbox.Kafka.Sent.{BrokerLaws}
use wallex_sanbox.Kafka.Delivered.{IsRowOf, IsMessageOf, HasMessage, IsFollowed, unmarked_delivered}

-- An idle publisher with a connected producer.
abbrev pub publisher_at : {B : Type 0} → OutboxTables → B → Publisher B
publisher_at outbox b = record {
  is_running = false;
  outbox = outbox;
  producer = record { is_connected = true; broker = b };
}

other_rows :
    (n : ℕ) (id : String) (e : StoredWalletEvent) (rows : List OutboxEvent)
    → All (λ r. r.id < n) rows
    → All (IsRowOf n id e) rows
other_rows n id e [] h = tt
other_rows n id e (r ∷ rs) h = (λ same. absurd (omega (arith, h.0, same)), other_rows n id e rs h.1)

other_messages :
    (n : ℕ) (id : String) (e : StoredWalletEvent) (ms : List KafkaMessage)
    → All (λ m. m.value.id < n) ms
    → All (IsMessageOf n id e) ms
other_messages n id e [] h = tt
other_messages n id e (m ∷ ms) h =
    (λ same. absurd (omega (arith, h.0, same)), other_messages n id e ms h.1)

module _ {s : Services} (store : KurrentLaws s.client) {B : Type 0} (client : KafkaClient B)
    (broker : BrokerLaws client)
    (sends : (topic : String) (ms : List KafkaMessage) (b : B)
      → (client.send topic ms b).0 ≡ ok tt) where
  -- An accepted credit or debit reaches the broker. Take a wallet of the database whose history
  -- rehydrates to `a`, where `a` accepts the change, a retention that keeps at least one snapshot,
  -- an outbox that answers, whose rows and marks are numbered below its next identifier and has only
  -- versions of the wallet that its history has, and a broker whose messages are of rows with such
  -- numbers. Let the command be handled, and then the publisher run, idle before and connected, with
  -- sends that succeed, and without a lock of others on the new row. The command returns a state, the
  -- wallet's history has grown by one event, and the broker has a message with this event, under the
  -- wallet's identifier.
  pub change_published :
      (c : Change) (command : ChangeCommand) (t : Times) (w : World s) (b : B)
      {history : List StoredWalletEvent} (a : WalletAggregate) (now : ℕ) (locked : ℕ → Bool)
      → 0 < s.config.keep_last_snapshots
      → (i : IsWallet store w.db command.wallet_id history)
      → rehydrate i.taken_at command.wallet_id history ≡ ok a
      → (perform c t.changed command.amount command.description a).0 ≡ ok tt
      → w.outbox.answers ≡ true
      → IsTidy w.outbox command.wallet_id (pos (length history))
      → All (λ m. m.value.id < w.outbox.next_id) (broker.log b)
      → locked w.outbox.next_id ≡ false
      → let (r, w') = change_wallet s c command t w in
        let after = publish_outbox_events client now locked (publisher_at w'.outbox b) in
        (state : WalletState) × (e : StoredWalletEvent) × (r ≡ ok (some state))
        × IsWallet store w'.db command.wallet_id (history ++ e ∷ [])
        × HasMessage command.wallet_id e (broker.log after.producer.broker)
  change_published c command t w b {history = history} a now locked keep i run accepted answers tidy
        older free =
      let id = command.wallet_id in
      let (state, e, done, _, _, mine, _, version, enqueued) =
        change_enqueued store c command t w a keep i run accepted in
      let n = w.outbox.next_id in
      let row = row_of t.enqueued e (options_of id) n in
      let fits : IsTidy w.outbox id e.metadata.version =
        subst (IsTidy w.outbox id) (sym version) tidy in
      let outbox =
        enqueued ∙ ap (λ x. x.1) (enqueue_one t.enqueued e (options_of id) w.outbox answers fits) in
      let filled = record w.outbox { events = w.outbox.events ++ row ∷ []; next_id = n + 1 } in
      let followed : IsFollowed client broker now locked sends n id e (publisher_at filled b) =
        record {
          on = refl;
          rows =
              All-append (IsRowOf n id e) w.outbox.events (row ∷ [])
                (other_rows n id e w.outbox.events tidy.numbered) (λ same. (refl, refl), tt);
          there = has_id-last n row w.outbox.events refl;
          messages = other_messages n id e (broker.log b) older;
        } in
      let fresh = new_id_unmarked n consumer_name w.outbox.processing tidy.marked in
      let delivered =
        unmarked_delivered client broker now locked sends n id e (publisher_at filled b) refl
          followed fresh free in
      (
        state,
        e,
        done,
        mine,
        subst
            (λ o. HasMessage id e (
              broker.log
                (publish_outbox_events client now locked (publisher_at o b)).producer.broker))
            (sym outbox) delivered,
      )
