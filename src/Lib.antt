-- ===== src/Lib.antt =====
-- The wallet service: wallets that are event-sourced, with commands that create, credit, debit and
-- transfer. This library models the write side, from the aggregate to the command handlers, the read
-- side, which projections and Kafka consumers keep, the jobs of recovery, and the routes.
--
-- How the parts interact. A command handler takes a lock on the wallet in Redis, loads the wallet from
-- its latest snapshot and the events behind it, changes the aggregate, appends the new events to the
-- event store at the version that it has loaded, writes the row of the write side and the outbox, where
-- failures are only logged, and saves a snapshot every so many events. Creating a wallet is also
-- protected by idempotency keys. A worker claims the outbox's events in batches and gives them to a
-- projection. Another one publishes them to Kafka, whose consumers write the ledger and the read model.
-- Jobs reset what the outbox holds too long and build the read model again from the event store.
--
-- Which file models what (paths from the repository's root):
--   Domain.antt, Exec.antt     src/wallet/domain/events.ts and errors.ts, and methods that may throw:
--                              functions from a state to a result and a state
--   Aggregate.antt             src/wallet/domain/wallet.aggregate.ts, a function for each method
--   EventStore.antt            src/wallet/infrastructure/event-store/event-store.service.ts
--   Snapshots.antt             src/wallet/infrastructure/snapshots, repository and service
--   Database.antt              a table of the SQL database, as a parameter with what is documented
--   Idempotency.antt           src/wallet/infrastructure/idempotency
--   Lock.antt                  src/wallet/infrastructure/lock/distributed-lock.service.ts
--   Retry.antt                 src/wallet/application/retry.helper.ts
--   Wallets.antt               src/wallet/domain/entities/wallet.entity.ts and
--                              src/wallet/infrastructure/persistence/wallet.repository.ts
--   Holds.antt                 src/wallet/domain/entities/hold.entity.ts and
--                              src/wallet/infrastructure/persistence/hold.repository.ts
--   Outbox.antt                src/wallet/infrastructure/outbox
--   Commands.antt and below    src/wallet/application/commands/handlers
--   Rest.antt                  src/wallet/interfaces/rest, and
--                              src/wallet/application/queries/handlers
--   Documents.antt             src/wallet/infrastructure/read-model/wallet-read.repository.ts
--   Projections.antt           src/wallet/infrastructure/projections: wallet-projection.service.ts and
--                              base-projector.worker.ts, where its tables answer
--   Projections/Worker.antt    the whole of base-projector.worker.ts, over an interface of its calls
--   Projections/Bootstrap.antt src/wallet/infrastructure/projections/projector-bootstrap.service.ts
--   ReadModel.antt             src/wallet/infrastructure/read-model/wallet.entity.ts and
--                              src/wallet/infrastructure/projections/read-model.projector.ts
--   Ledger.antt, Ledger/Projection.antt
--                              src/ledger: the service, the projection and the event handlers
--   Ledger/Rest.antt           src/ledger/interfaces/rest/ledger.controller.ts
--   Ledger/Projector.antt      src/wallet/infrastructure/projections/ledger.projector.ts
--   Recovery.antt              src/wallet/infrastructure/recovery/recovery.service.ts
--   Kafka.antt, Kafka/Transaction.antt
--                              src/kafka/kafka-producer.service.ts and kafka-outbox-publisher.service.ts
--   Kafka/Admin.antt           src/kafka/kafka-admin.service.ts
--   Kafka/Consumer.antt        src/kafka/kafka-consumer.base.ts
--   Kafka/Projecting.antt, Kafka/Projecting/ReadModel.antt
--                              src/wallet/infrastructure/projections/ledger-kafka.consumer.ts and
--                              read-model-kafka.consumer.ts
--   Number.antt, Prelude.antt  numbers of the language, integers, lists and tests
-- The children of a module have its theorems, and Tests has them at concrete inputs, over an event
-- store, tables and Redis in memory.
--
-- Choices. Names are the source's, in lower case with underscores. A JavaScript number that the code
-- computes with is `Number`: an integer, NaN or an infinity; fractions and rounding are left out.
-- Versions and revisions are integers. The database client, tables, transactions and Redis are packages:
-- records of the calls that the code makes, with laws that say what is documented and that the server
-- answers. The clock, random tokens and the waiting between attempts are parameters. The loops are
-- bounded in the source: the lock tries `maxRetries` times (100 in the handlers) and the retry helper
-- `maxRetries` times more than once, and the models recurse on that number. The publisher's loop has no
-- bound in the source. Its model has fuel, one turn more than the outbox has events, which is enough
-- since every batch that is published takes its events out of the next claim, and nothing else writes
-- to the outbox meanwhile.
--
-- Not modelled: what is framework, wiring or output: modules, health routes, debug captures, metrics,
-- traces, logs and migrations. How the language reads dates is a parameter.
pub mod Prelude
pub mod Number
pub mod Exec
pub mod Domain
pub mod Aggregate
pub mod EventStore
pub mod Snapshots
pub mod Database
pub mod Idempotency
pub mod Retry
pub mod Lock
pub mod Wallets
pub mod Holds
pub mod Outbox
pub mod Kafka
pub mod Commands
pub mod Projections
pub mod Documents
pub mod ReadModel
pub mod Recovery
pub mod Ledger
pub mod Rest
pub mod Tests
