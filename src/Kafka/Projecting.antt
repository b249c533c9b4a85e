-- ===== src/Kafka/Projecting.antt =====
-- wallet/infrastructure/projections/ledger-kafka.consumer.ts: what a consumer makes of a message, and
-- the one of the ledger. A message is the event that its text parses to, whose payload may lack every
-- field that the code reads. The table is a parameter. Metadata and logs are left out.
pub mod ReadModel
pub mod Published
use wallex_sanbox.Prelude.{
  ℕ, String, Bool, true, false, ◌&&◌, ◌||◌, Option, none, some, str_eq, is_some, if◌then◌else◌,
}
use wallex_sanbox.Prelude.Int.{ℤ, leb_ℤ}
use wallex_sanbox.Number.{Number, nan, zero_number, add, sub, lt, is_truthy}
use wallex_sanbox.Exec.{Result, ok, err, Exec, pure, ◌>>=◌, ◌>>◌}
use wallex_sanbox.Ledger.{TransactionType, credit, debit, transfer_out, transfer_in}
use wallex_sanbox.Projections.{ProjectorCheckpoint, same_aggregate, reaches}

-- The fields of a payload that the code reads.
pub record Payload : Type 0 where
  pub wallet_id : Option String
  pub owner_id : Option String
  pub initial_balance : Option Number
  pub amount : Option Number
  pub description : Option String
  pub balance : Option Number
  pub previous_balance : Option Number
  pub from_wallet_id : Option String
  pub to_wallet_id : Option String

-- `number` is `BigInt(event.id)`.
pub record WalletEvent : Type 0 where
  pub id : String
  pub number : ℕ
  pub aggregate_id : String
  pub event_type : String
  pub event_version : ℤ
  pub payload : Payload
  pub correlation_id : Option String

pub data Kind : Type 0 where
  created credited debited transfer_initiated transfer_completed unknown : Kind

abbrev is_one_of : String → String → String → Bool
is_one_of t a b = str_eq t a || str_eq t b

unfoldable pub kind_of : String → Kind
kind_of t =
    if is_one_of t "WalletCreated" "WalletCreatedEvent"
    then created
    else (if is_one_of t "WalletCredited" "WalletCreditedEvent"
        then credited
        else (if is_one_of t "WalletDebited" "WalletDebitedEvent"
            then debited
            else (if is_one_of t "WalletTransferInitiated" "WalletTransferInitiatedEvent"
                then transfer_initiated
                else (if is_one_of t "WalletTransferCompleted" "WalletTransferCompletedEvent"
                    then transfer_completed
                    else unknown))))

-- Arithmetic with what may be missing gives NaN.
abbrev pub add_missing : Option Number → Option Number → Number
add_missing (some a) (some b) = add a b
add_missing a b = nan

abbrev pub sub_missing : Option Number → Option Number → Number
sub_missing (some a) (some b) = sub a b
sub_missing a b = nan

-- `a || b`
abbrev pub number_or : Option Number → Number → Number
number_or none d = d
number_or (some a) d = if is_truthy a then a else d

abbrev text_or : Option String → String → String
text_or none d = d
text_or (some s) d = if str_eq s "" then d else s

-- An entry of the ledger, which may lack what its payload lacks.
pub record ConsumedEntry : Type 0 where
  pub wallet_id : Option String
  pub reference_id : String
  pub transaction_type : TransactionType
  pub amount : Option Number
  pub balance_before : Number
  pub balance_after : Option Number
  pub description : String
  pub related_wallet_id : Option String

pub record ConsumedLedger : Type 1 where
  pub Rows : Type 0
  pub save : ConsumedEntry → Rows → Result (Unit {0}) × Rows
  -- is there a row with the reference?
  pub has_reference : String → Rows → Result Bool

-- The row of a consumer's checkpoint beside its rows. The table of checkpoints answers.
pub record Consumed (R : Type 0) : Type 0 where
  pub checkpoint : Option ProjectorCheckpoint
  pub rows : R

unfoldable pub is_behind : Option ProjectorCheckpoint → WalletEvent → Bool
is_behind none e = false
is_behind (some c) e =
    (same_aggregate c.aggregate_id e.aggregate_id && leb_ℤ e.event_version c.last_processed_version)
    || reaches c.last_processed_id e.number

abbrev checkpoint_at : WalletEvent → ProjectorCheckpoint
checkpoint_at e = record {
  aggregate_id = some e.aggregate_id;
  last_processed_version = e.event_version;
  last_processed_id = some e.number;
}

-- With the test for what was processed, and the projection.
module _ {R : Type 0} (is_known : WalletEvent → Consumed R → Result Bool)
    (apply : WalletEvent → Exec R (Unit {0})) where
  abbrev pub checkpointed :
      WalletEvent → Consumed R → Result (Unit {0}) × R → Result (Unit {0}) × Consumed R
  checkpointed e s (ok _, rows) =
      (ok tt, record { checkpoint = some (checkpoint_at e); rows = rows })
  checkpointed e s (err x, rows) = (err x, record s { rows = rows })

  abbrev pub unless_known : WalletEvent → Result Bool → Exec (Consumed R) (Unit {0})
  unless_known e (err x) s = (err x, s)
  unless_known e (ok known) s = if known then (ok tt, s) else checkpointed e s (apply e s.rows)

  unfoldable pub process_message : WalletEvent → Exec (Consumed R) (Unit {0})
  process_message e s = unless_known e (is_known e s) s

-- `LedgerKafkaConsumer`
module _ (table : ConsumedLedger) where
  open table use {Rows}

  abbrev reference : WalletEvent → String
  reference e = text_or e.correlation_id e.id

  abbrev pub movement :
      WalletEvent
      → Option String
      → TransactionType
      → Number
      → String
      → Option String
      → ConsumedEntry
  movement e wallet_id kind before fallback related = record {
    wallet_id = wallet_id;
    reference_id = reference e;
    transaction_type = kind;
    amount = e.payload.amount;
    balance_before = number_or e.payload.previous_balance before;
    balance_after = e.payload.balance;
    description = text_or e.payload.description fallback;
    related_wallet_id = related;
  }

  abbrev initial_entry : WalletEvent → Number → ConsumedEntry
  initial_entry e initial = record {
    wallet_id = e.payload.wallet_id;
    reference_id = e.id;
    transaction_type = credit;
    amount = some initial;
    balance_before = zero_number;
    balance_after = some initial;
    description = "Initial balance";
    related_wallet_id = none;
  }

  abbrev save_initial : WalletEvent → Option Number → Exec Rows (Unit {0})
  save_initial e none = pure tt
  save_initial e (some initial) =
      if is_truthy initial && lt zero_number initial
      then table.save (initial_entry e initial)
      else pure tt

  abbrev pub apply_to_ledger : Kind → WalletEvent → Exec Rows (Unit {0})
  apply_to_ledger created e = save_initial e e.payload.initial_balance
  apply_to_ledger credited e = table.save (
      movement e e.payload.wallet_id credit (sub_missing e.payload.balance e.payload.amount)
        "Credit" none)
  apply_to_ledger debited e = table.save (
      movement e e.payload.wallet_id debit (add_missing e.payload.balance e.payload.amount) "Debit"
        none)
  apply_to_ledger transfer_initiated e = table.save (
      movement e e.payload.from_wallet_id transfer_out
        (add_missing e.payload.balance e.payload.amount) "Transfer (initiated)"
        e.payload.to_wallet_id)
  apply_to_ledger transfer_completed e = table.save (
      movement e e.payload.to_wallet_id transfer_in (sub_missing e.payload.balance e.payload.amount)
        "Transfer (completed)" e.payload.from_wallet_id)
  apply_to_ledger unknown e = pure tt

  abbrev pub is_in_ledger : WalletEvent → Consumed Rows → Result Bool
  is_in_ledger e s = elim s.checkpoint [
    | none ↦ ok false
    | some c ↦ if is_behind (some c) e then ok true else table.has_reference e.id s.rows
  ]

  unfoldable pub consume_into_ledger : WalletEvent → Exec (Consumed Rows) (Unit {0})
  unfolding process_message is_behind kind_of
  consume_into_ledger = process_message is_in_ledger (λ e. apply_to_ledger (kind_of e.event_type) e)
