-- ===== src/Kafka/Transaction.antt =====
-- kafka/kafka-producer.service.ts, `publishTransaction`: several sends that are committed together.
-- The transaction of the broker's client is a package and a parameter.
use wallex_sanbox.Prelude.{◌≡◌, String, List, [], ◌∷◌, ◌++◌, ◌⊎◌, if◌then◌else◌}
use wallex_sanbox.Exec.{plain, Result, ok, err, Exec, pure, ◌>>◌}
use wallex_sanbox.Kafka.{KafkaMessage, KafkaProducer}

pub record PublishOptions : Type 0 where
  pub topic : String
  pub messages : List KafkaMessage

-- The client's calls: `transaction()`, and those of the transaction that it opens.
pub record TransactionCalls (B : Type 0) : Type 0 where
  pub transaction : Exec B (Unit {0})
  pub send : String → List KafkaMessage → Exec B (Unit {0})
  pub commit : Exec B (Unit {0})
  pub abort : Exec B (Unit {0})

-- What is documented of a transaction: what it sends is kept apart from what consumers can read until
-- it is committed. A commit that throws may have happened.
pub record TransactionLaws {B : Type 0} (calls : TransactionCalls B) : Type 0 where
  pub readable : B → List KafkaMessage
  pub pending : B → List KafkaMessage
  pub transaction_law :
      (b : B)
      → (readable (calls.transaction b).1 ≡ readable b)
        × ((calls.transaction b).0 ≡ ok tt → pending (calls.transaction b).1 ≡ [])
  pub send_law :
      (topic : String) (ms : List KafkaMessage) (b : B)
      → (readable (calls.send topic ms b).1 ≡ readable b)
        × ((calls.send topic ms b).0 ≡ ok tt → pending (calls.send topic ms b).1 ≡ pending b ++ ms)
  pub commit_law :
      (b : B) → (calls.commit b).0 ≡ ok tt → readable (calls.commit b).1 ≡ readable b ++ pending b
  pub commit_thrown :
      (b : B)
      → (readable (calls.commit b).1 ≡ readable b)
        ⊎ (readable (calls.commit b).1 ≡ readable b ++ pending b)
  pub abort_law : (b : B) → readable (calls.abort b).1 ≡ readable b

module _ {B : Type 0} (calls : TransactionCalls B) where
  unfoldable pub send_all : List PublishOptions → Exec B (Unit {0})
  send_all [] = pure tt
  send_all (o ∷ os) = calls.send o.topic o.messages >> send_all os

  -- The `catch`: the transaction is aborted, and the error goes on unless the abort throws.
  abbrev pub or_abort : Result (Unit {0}) × B → Result (Unit {0}) × B
  or_abort (ok _, b) = (ok tt, b)
  or_abort (err e, b) = (calls.abort >> (λ b'. (err e, b'))) b

  unfoldable pub in_transaction : List PublishOptions → Exec B (Unit {0})
  unfolding send_all
  in_transaction os b = or_abort ((send_all os >> calls.commit) b)

  abbrev with_broker : KafkaProducer B → Result (Unit {0}) × B → Result (Unit {0}) × KafkaProducer B
  with_broker p (r, b) = (r, record p { broker = b })

  unfoldable pub publish_transaction : List PublishOptions → Exec (KafkaProducer B) (Unit {0})
  unfolding in_transaction
  publish_transaction os p =
      if p.is_connected
      then with_broker p ((calls.transaction >> in_transaction os) p.broker)
      else (err (plain "Kafka producer is not connected"), p)

abbrev pub all_messages : List PublishOptions → List KafkaMessage
all_messages [] = []
all_messages (o ∷ os) = o.messages ++ all_messages os
