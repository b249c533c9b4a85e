-- ===== src/Domain.antt =====
-- wallet/domain/events.ts: the wallet's events and their metadata.
use wallex_sanbox.Prelude.{String, Option}
use wallex_sanbox.Prelude.Int.{ℤ}
use wallex_sanbox.Number.{Number}

-- The tag `type` and the payload `data` of an event.
pub data EventData : Type 0 where
  wallet_created : String → Option Number → EventData
  wallet_credited wallet_debited : Number → Option String → EventData

pub record WalletDomainEvent : Type 0 where
  pub aggregate_id : String
  pub body : EventData

pub record EventMetadata : Type 0 where
  pub version : ℤ
  pub occurred_at : String
  pub correlation_id : Option String
  pub causation_id : Option String

pub record StoredWalletEvent : Type 0 where
  pub event : WalletDomainEvent
  pub open event use *
  pub metadata : EventMetadata
