-- ===== src/Projections/Worker.antt =====
-- wallet/infrastructure/projections/base-projector.worker.ts with all that its calls may throw: the
-- worker's start, stop and polling. The outbox and the table of checkpoints are an interface. A stop
-- comes between two turns of a loop, as while the loop sleeps. Logs and metrics are left out.
pub mod Refined
pub mod Restarts
use wallex_sanbox.Prelude.{
  ℕ, suc, ◌-◌, ◌*◌, String, Bool, true, false, Option, none, some, List, [], ◌∷◌, ◌++◌, leb,
  if◌then◌else◌,
}
use wallex_sanbox.Prelude.Int.{pos}
use wallex_sanbox.Exec.{Result, ok, err, Exec, pure, ◌>>=◌, ◌>>◌}
use wallex_sanbox.Outbox.{OutboxEvent}
use wallex_sanbox.Projections.{ProjectorCheckpoint, is_already_processed, checkpoint_of}

pub record ProjectorConfig : Type 0 where
  pub name : String
  pub batch_size : ℕ
  pub poll_interval_ms : ℕ
  pub error_backoff_ms : ℕ
  pub max_retries : ℕ

-- The calls of the outbox's service and of the table of checkpoints, on the tables of the database.
pub record WorkerCalls (T : Type 0) : Type 0 where
  pub claim_batch : ℕ → String → Exec T (List OutboxEvent)
  pub mark_batch_processed : List ℕ → String → Exec T (Unit {0})
  -- `findOne`, `upsert` and `insert` at the name of the projector
  pub find_checkpoint : String → Exec T (Option ProjectorCheckpoint)
  pub upsert_checkpoint : String → ProjectorCheckpoint → Exec T (Unit {0})
  pub insert_checkpoint : String → ProjectorCheckpoint → Exec T (Unit {0})

-- The worker, with what its projection writes, the tables, the number of loops that poll, and the
-- milliseconds of its waits, the last one last.
pub record Worker (S T : Type 0) : Type 0 where
  pub is_running : Bool
  pub consecutive_errors : ℕ
  pub written : S
  pub tables : T
  pub loops : ℕ
  pub slept : List ℕ

-- The checkpoint of a worker that has not processed an event.
abbrev pub first_checkpoint : ProjectorCheckpoint
first_checkpoint = record {
  aggregate_id = none;
  last_processed_version = pos 0;
  last_processed_id = some 0;
}

module _ {S T : Type 0} (config : ProjectorConfig) (calls : WorkerCalls T)
    (apply : OutboxEvent → Exec S (Unit {0})) where
  abbrev pub on_tables : {A : Type 0} → Exec T A → Exec (S × T) A
  on_tables m s = let (r, t) = m s.1 in (r, (s.0, t))

  abbrev pub on_written : {A : Type 0} → Exec S A → Exec (S × T) A
  on_written m s = let (r, w) = m s.0 in (r, (w, s.1))

  -- The body of the `try` for one message.
  abbrev unless_processed : OutboxEvent → Option ProjectorCheckpoint → Exec (S × T) (Unit {0})
  unless_processed message c =
      if is_already_processed c message
      then pure tt
      else (on_written (apply message)
          >> on_tables (calls.upsert_checkpoint config.name (checkpoint_of message)))

  unfoldable pub process_message : OutboxEvent → Exec (S × T) (Unit {0})
  process_message message =
      on_tables (calls.find_checkpoint config.name) >>= unless_processed message

  -- A message that throws is only logged, and the loop goes on.
  abbrev and_then : ℕ → Result (Unit {0}) × (S × T) → (S × T → List ℕ × (S × T)) → List ℕ × (S × T)
  and_then id (ok _, s) others = let (ids, after) = others s in (id ∷ ids, after)
  and_then id (err e, s) others = others s

  -- The loop of `processBatch`, with `processedIds`.
  unfoldable pub process_all : List OutboxEvent → S × T → List ℕ × (S × T)
  unfolding process_message
  process_all [] s = ([], s)
  process_all (m ∷ ms) s = and_then m.id (process_message m s) (process_all ms)

  abbrev pub mark_all : List ℕ → Exec (S × T) (Unit {0})
  mark_all [] = pure tt
  mark_all (i ∷ is) = on_tables (calls.mark_batch_processed (i ∷ is) config.name)

  unfoldable pub process_claimed : List OutboxEvent → Exec (S × T) (Unit {0})
  unfolding process_all
  process_claimed batch s = let (ids, s') = process_all batch s in mark_all ids s'

  -- The body of the loop's `try`: whether there was a batch to process.
  abbrev pub claimed : List OutboxEvent → Exec (S × T) Bool
  claimed [] = pure false
  claimed (m ∷ ms) = process_claimed (m ∷ ms) >> pure true

  unfoldable pub claim_and_process : Exec (S × T) Bool
  unfolding process_claimed
  claim_and_process = on_tables (calls.claim_batch config.batch_size config.name) >>= claimed

  -- The wait after so many errors in a row.
  abbrev pub backoff : ℕ → ℕ
  backoff errors =
      if leb config.max_retries errors
      then config.error_backoff_ms * errors
      else config.error_backoff_ms

  abbrev pub after_turn : Worker S T → Result Bool → Worker S T
  after_turn w (ok true) = record w { consecutive_errors = 0 }
  after_turn w (ok false) = record w { slept = w.slept ++ (config.poll_interval_ms ∷ []) }
  after_turn w (err e) =
      let errors = suc w.consecutive_errors in
      record w { consecutive_errors = errors; slept = w.slept ++ (backoff errors ∷ []) }

  -- What a loop does next: a turn while the worker is running, and else it ends.
  unfoldable pub next_turn : Worker S T → Worker S T
  unfolding claim_and_process
  next_turn w =
      let (r, (written, tables)) = claim_and_process (w.written, w.tables) in
      if w.is_running
      then after_turn (record w { written = written; tables = tables }) r
      else record w { loops = w.loops - 1 }

  abbrev unless_exists : Option ProjectorCheckpoint → Exec T (Unit {0})
  unless_exists none = calls.insert_checkpoint config.name first_checkpoint
  unless_exists (some c) = pure tt

  unfoldable pub ensure_checkpoint : Exec T (Unit {0})
  ensure_checkpoint = calls.find_checkpoint config.name >>= unless_exists

  -- `start`, where `isRunning` is set before the checkpoint is ensured
  abbrev pub polling : Worker S T → Result (Unit {0}) × T → Result (Unit {0}) × Worker S T
  polling w (ok _, t) = (ok tt, record w { is_running = true; tables = t; loops = suc w.loops })
  polling w (err e, t) = (err e, record w { is_running = true; tables = t })

  unfoldable pub start : Exec (Worker S T) (Unit {0})
  unfolding ensure_checkpoint
  start w = if w.is_running then (ok tt, w) else polling w (ensure_checkpoint w.tables)

abbrev pub stop : {S T : Type 0} → Worker S T → Worker S T
stop w = record w { is_running = false }
