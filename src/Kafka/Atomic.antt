-- ===== src/Kafka/Atomic.antt =====
-- A transaction of the producer is all or nothing.
use wallex_sanbox.Prelude.{◌≡◌, List, ◌++◌, ◌⊎◌}
use wallex_sanbox.Exec.{Result, ok}
use wallex_sanbox.Kafka.Transaction.{
  PublishOptions, TransactionCalls, TransactionLaws, all_messages,
}

module _ {B : Type 0} (calls : TransactionCalls B) (laws : TransactionLaws calls) where
  open laws use {readable, pending}

  abbrev pub IsAllOrNothing : List PublishOptions → B → Result (Unit {0}) × B → Type 0
  IsAllOrNothing os b (r, b') =
      (r ≡ ok tt → readable b' ≡ readable b ++ all_messages os)
      × ((readable b' ≡ readable b) ⊎ (readable b' ≡ readable b ++ all_messages os))
