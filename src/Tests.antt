-- ===== src/Tests.antt =====
-- The theorems at concrete inputs, over components in memory.
pub mod Memory
pub mod Worlds
pub mod Commands
pub mod History
pub mod Services
pub mod Transfers
pub mod Published
pub mod Workers
pub mod Rest
pub mod Documents
pub mod Holds
pub mod Outbox
pub mod Projections
pub mod Kafka
pub mod Recovery
pub mod Ledger
