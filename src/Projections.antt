-- ===== src/Projections.antt =====
-- wallet/infrastructure/projections: the projections of a wallet's events, and the worker that feeds
-- them from the outbox. The stores of the read models are parameters. Read-model timestamps are left
-- out, but for those of the audit trail.
pub mod Totals
pub mod Batch
pub mod Worker
pub mod Bootstrap
use wallex_sanbox.Prelude.{
  ℕ, String, Bool, true, false, ◌&&◌, ◌||◌, Option, none, some, List, [], ◌∷◌, ◌++◌, str_eq, leb,
  if◌then◌else◌, get_or,
}
use wallex_sanbox.Prelude.Int.{ℤ, pos, leb_ℤ}
use wallex_sanbox.Number.{Number, zero_number, add, sub, is_truthy}
use wallex_sanbox.Exec.{Result, ok, err, Exec, pure, ◌>>=◌, ◌>>◌}
use wallex_sanbox.Domain.{
  EventData, wallet_created, wallet_credited, wallet_debited, StoredWalletEvent,
}
use wallex_sanbox.Database.{Table}
use wallex_sanbox.Outbox.{OutboxEvent, OutboxTables, claim_batch, mark_batch_processed, type_name}

pub record AuditTrailEntry : Type 0 where
  pub type : String
  pub amount : Option Number
  pub description : String
  pub occurred_at : String

pub record WalletReadModel : Type 0 where
  pub id : String
  pub owner_id : String
  pub balance : Number
  pub version : ℤ
  pub audit_trail : List AuditTrailEntry

-- `-amount`
abbrev pub negated : Number → Number
negated n = sub zero_number n

abbrev pub created_entry : StoredWalletEvent → AuditTrailEntry
created_entry e = record {
  type = type_name e.body;
  amount = none;
  description = "Wallet created";
  occurred_at = e.metadata.occurred_at;
}

abbrev pub change_entry : StoredWalletEvent → Number → String → AuditTrailEntry
change_entry e amount description = record {
  type = type_name e.body;
  amount = some amount;
  description = description;
  occurred_at = e.metadata.occurred_at;
}

-- `WalletProjectionService`
module _ (repository : Table WalletReadModel) where
  open repository use {Rows}

  abbrev pub change_document :
      ℤ → Number → AuditTrailEntry → Option WalletReadModel → Exec Rows (Unit {0})
  change_document version delta entry none = pure tt
  change_document version delta entry (some document) =
      repository.save (record document {
        balance = add document.balance delta;
        version = version;
        audit_trail = document.audit_trail ++ entry ∷ [];
      })
      >> pure tt

  unfoldable pub apply_balance_change : String → ℤ → Number → AuditTrailEntry → Exec Rows (Unit {0})
  apply_balance_change wallet_id version delta entry =
      (λ rows. (repository.find_one wallet_id rows, rows)) >>= change_document version delta entry

  abbrev pub project_body : EventData → StoredWalletEvent → Exec Rows (Unit {0})
  project_body (wallet_created owner initial) e =
      repository.save (record {
        id = e.event.aggregate_id;
        owner_id = owner;
        balance = zero_number;
        version = e.metadata.version;
        audit_trail = created_entry e ∷ [];
      })
      >> pure tt
  project_body (wallet_credited amount description) e =
      apply_balance_change e.event.aggregate_id e.metadata.version amount
        (change_entry e amount (get_or description "Credit"))
  project_body (wallet_debited amount description) e =
      apply_balance_change e.event.aggregate_id e.metadata.version (negated amount)
        (change_entry e amount (get_or description "Debit"))

  unfoldable pub project_event : StoredWalletEvent → Exec Rows (Unit {0})
  unfolding apply_balance_change
  project_event e = project_body e.body e

  unfoldable pub project : List StoredWalletEvent → Exec Rows (Unit {0})
  project [] = pure tt
  project (e ∷ es) = project_event e >> project es

pub record ProjectorCheckpoint : Type 0 where
  pub aggregate_id : Option String
  pub last_processed_version : ℤ
  pub last_processed_id : Option ℕ

abbrev pub same_aggregate : Option String → String → Bool
same_aggregate none id = false
same_aggregate (some a) id = str_eq a id

abbrev pub reaches : Option ℕ → ℕ → Bool
reaches none id = false
reaches (some last) id = leb id last

unfoldable pub is_already_processed : Option ProjectorCheckpoint → OutboxEvent → Bool
is_already_processed none message = false
is_already_processed (some c) message =
    (same_aggregate c.aggregate_id message.aggregate_id
      && leb_ℤ message.event_version c.last_processed_version)
    || reaches c.last_processed_id message.id

abbrev pub checkpoint_of : OutboxEvent → ProjectorCheckpoint
checkpoint_of message = record {
  aggregate_id = some message.aggregate_id;
  last_processed_version = message.event_version;
  last_processed_id = some message.id;
}

-- The worker's state: what its projection writes, its checkpoint, and the outbox.
pub record Projector (S : Type 0) : Type 0 where
  pub written : S
  pub checkpoint : Option ProjectorCheckpoint
  pub outbox : OutboxTables

-- The table of checkpoints answers; what `apply` throws is only logged.
module _ {S : Type 0} (apply : OutboxEvent → Exec S (Unit {0})) where
  -- The loop, with the identifiers to mark.
  unfoldable pub process_messages : List OutboxEvent → Projector S → List ℕ × Projector S
  process_messages [] p = ([], p)
  process_messages (m ∷ ms) p =
      let (r, written) = apply m p.written in
      let skipped = process_messages ms p in
      let failed = process_messages ms (record p { written = written }) in
      let done =
        process_messages ms (record p { written = written; checkpoint = some (checkpoint_of m) }) in
      if is_already_processed p.checkpoint m
      then (m.id ∷ skipped.0, skipped.1)
      else elim r [ ok _ ↦ (m.id ∷ done.0, done.1) | err e ↦ failed ]

  unfoldable pub process_batch : ℕ → String → List OutboxEvent → Projector S → Projector S
  unfolding process_messages
  process_batch now name batch p =
      let (ids, q) = process_messages batch p in
      record q { outbox = mark_batch_processed now ids name q.outbox }

  -- One turn of the polling loop. An empty batch changes nothing.
  unfoldable pub poll : ℕ → ℕ → String → (ℕ → Bool) → Projector S → Projector S
  unfolding process_batch
  poll now size name locked p =
      let (batch, outbox) = claim_batch size name none locked p.outbox in
      process_batch now name batch (record p { outbox = outbox })
