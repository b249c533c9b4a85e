-- ===== src/Projections/Worker/Refined.antt =====
-- What a turn of the worker promises, where the tables answer: that of Projections.poll.
use wallex_sanbox.Prelude.{ℕ, ◌≡◌, Bool, none, some, Option, List}
use wallex_sanbox.Exec.{ok, Exec}
use wallex_sanbox.Outbox.{OutboxEvent, OutboxTables, claim_batch, mark_batch_processed}
use wallex_sanbox.Projections.{ProjectorCheckpoint, Projector}
use wallex_sanbox.Projections.Worker.{ProjectorConfig, WorkerCalls, Worker}

-- The calls of a worker at work on an outbox and a checkpoint, at one time and while some rows are locked
-- by others.
pub record WorkerLaws {T : Type 0} (calls : WorkerCalls T) (config : ProjectorConfig) (now : ℕ)
    (locked : ℕ → Bool) : Type 0 where
  pub outbox : T → OutboxTables
  pub checkpoint : T → Option ProjectorCheckpoint
  pub find_law : (t : T) → calls.find_checkpoint config.name t ≡ (ok (checkpoint t), t)
  pub upsert_law :
      (c : ProjectorCheckpoint) (t : T)
      → ((calls.upsert_checkpoint config.name c t).0 ≡ ok tt)
        × (checkpoint (calls.upsert_checkpoint config.name c t).1 ≡ some c)
        × (outbox (calls.upsert_checkpoint config.name c t).1 ≡ outbox t)
  pub claim_law :
      (t : T)
      → let (batch, tables) = claim_batch config.batch_size config.name none locked (outbox t) in
        ((calls.claim_batch config.batch_size config.name t).0 ≡ ok batch)
        × (outbox (calls.claim_batch config.batch_size config.name t).1 ≡ tables)
        × (checkpoint (calls.claim_batch config.batch_size config.name t).1 ≡ checkpoint t)
  pub mark_law :
      (ids : List ℕ) (t : T)
      → ((calls.mark_batch_processed ids config.name t).0 ≡ ok tt)
        × (outbox (calls.mark_batch_processed ids config.name t).1
            ≡ mark_batch_processed now ids config.name (outbox t))
        × (checkpoint (calls.mark_batch_processed ids config.name t).1 ≡ checkpoint t)

module _ {S T : Type 0} (config : ProjectorConfig) (calls : WorkerCalls T)
    (apply : OutboxEvent → Exec S (Unit {0})) {now : ℕ} {locked : ℕ → Bool}
    (laws : WorkerLaws calls config now locked) where
  -- What a worker looks like from above.
  abbrev pub view : S → T → Projector S
  view written t = record {
    written = written;
    checkpoint = laws.checkpoint t;
    outbox = laws.outbox t;
  }
