-- ===== src/Tests/Workers.antt =====
-- The projector worker over an outbox and a checkpoint in memory.
use wallex_sanbox.Prelude.{ℕ, ◌+◌, ◌≡◌, refl, Bool, true, false, Option, none, some, []}
use wallex_sanbox.Exec.{plain, ok, err, Exec}
use wallex_sanbox.Outbox.{OutboxEvent, OutboxTables, claim_batch, mark_batch_processed}
use wallex_sanbox.Projections.{ProjectorCheckpoint}
use wallex_sanbox.Projections.Worker.{
  ProjectorConfig, WorkerCalls, Worker, first_checkpoint, start, ensure_checkpoint,
}
use wallex_sanbox.Projections.Worker.Refined.{WorkerLaws}
use wallex_sanbox.Projections.Worker.Restarts.{rests, starts, failing_start_stalls}
use wallex_sanbox.Tests.Outbox.{outbox}

abbrev worker_config : ProjectorConfig
worker_config = record {
  name = "ledger";
  batch_size = 10;
  poll_interval_ms = 1000;
  error_backoff_ms = 5000;
  max_retries = 3;
}

abbrev Memory : Type 0
Memory = Option ProjectorCheckpoint × OutboxTables

abbrev unlocked : ℕ → Bool
unlocked i = false

abbrev memory_calls : WorkerCalls Memory
memory_calls = record {
  claim_batch = λ size name m.
      let (batch, tables) = claim_batch size name none unlocked m.1 in (ok batch, (m.0, tables));
  mark_batch_processed = λ ids name m. (ok tt, (m.0, mark_batch_processed 9 ids name m.1));
  find_checkpoint = λ name m. (ok m.0, m);
  upsert_checkpoint = λ name c m. (ok tt, (some c, m.1));
  insert_checkpoint = λ name c m. (ok tt, (some c, m.1));
}

abbrev memory_laws : WorkerLaws memory_calls worker_config 9 unlocked
memory_laws = record {
  outbox = λ m. m.1;
  checkpoint = λ m. m.0;
  find_law = λ m. refl;
  upsert_law = λ c m. (refl, refl, refl);
  claim_law = λ m. (refl, refl, refl);
  mark_law = λ ids m. (refl, refl, refl);
}

abbrev counts : OutboxEvent → Exec ℕ (Unit {0})
counts m n = (ok tt, n + 1)

abbrev at_work : Worker ℕ Memory
at_work = record {
  is_running = true;
  consecutive_errors = 2;
  written = 0;
  tables = (some first_checkpoint, outbox);
  loops = 1;
  slept = [];
}

-- A database that has lost its connection.
abbrev lost_calls : WorkerCalls Memory
lost_calls = record memory_calls { find_checkpoint = λ name m. (err (plain "no connection"), m) }

abbrev at_rest : Worker ℕ Memory
at_rest = record at_work { is_running = false; loops = 0 }

abbrev failed_start : Worker ℕ Memory
failed_start = record at_rest { is_running = true }

failing_start_stalls_example :
    let (r, failed) = start worker_config lost_calls counts at_rest in
    (r ≡ err (plain "no connection"))
    × (failed_start ≡ failed)
    × (start worker_config lost_calls counts failed_start ≡ (ok tt, failed))
unfolding start ensure_checkpoint
failing_start_stalls_example =
    failing_start_stalls worker_config lost_calls counts at_rest failed_start
      (plain "no connection") refl refl refl (starts (starts rests))
