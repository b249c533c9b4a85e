-- ===== src/Projections/Worker/Restarts.antt =====
-- What starting a worker again does.
use wallex_sanbox.Prelude.{ℕ, zero, suc, ◌+◌, ◌≡◌, ◌≢◌, refl, ap, ◌∙◌, true, false, some, arith}
use wallex_sanbox.Exec.{Error, Result, ok, err, Exec}
use wallex_sanbox.Outbox.{OutboxEvent}
use wallex_sanbox.Projections.{ProjectorCheckpoint}
use wallex_sanbox.Projections.Worker.{
  ProjectorConfig, WorkerCalls, Worker, start, stop, next_turn, ensure_checkpoint, polling,
}

module _ {S T : Type 0} (config : ProjectorConfig) (calls : WorkerCalls T)
    (apply : OutboxEvent → Exec S (Unit {0})) where
  -- What becomes of a worker that nobody stops: it is started, and its loops take their turns.
  pub data Runs : Worker S T → Worker S T → Type 0 where
    rests : {w : Worker S T} → Runs w w
    starts : {w w' : Worker S T} → Runs (start config calls apply w).1 w' → Runs w w'
    turns : {w w' : Worker S T} → w.loops ≢ 0 → Runs (next_turn config calls apply w) w' → Runs w w'

  pub start_running :
      (w : Worker S T) → w.is_running ≡ true → start config calls apply w ≡ (ok tt, w)
  unfolding start
  start_running w running = rw running refl

  idle_stays : {w w' : Worker S T} → w.is_running ≡ true → w.loops ≡ 0 → Runs w w' → w' ≡ w
  idle_stays running idle rests = refl
  idle_stays {w} running idle (starts r) =
      let same : (start config calls apply w).1 ≡ w = ap (λ x. x.1) (start_running w running) in
      idle_stays (ap (λ x. x.is_running) same ∙ running) (ap (λ x. x.loops) same ∙ idle) r ∙ same
  idle_stays running idle (turns some_loop r) = absurd (some_loop idle)

  pub start_succeeds :
      (w : Worker S T) (t : T)
      → w.is_running ≡ false
      → ensure_checkpoint config calls apply w.tables ≡ (ok tt, t)
      → start config calls apply w
        ≡ (ok tt, record w { is_running = true; tables = t; loops = suc w.loops })
  unfolding start
  start_succeeds w t stopped fine = rw (stopped, fine) refl

  polling_fails :
      (w : Worker S T) (e : Error) (x : Result (Unit {0}) × T)
      → x.0 ≡ err e
      → polling config calls apply w x ≡ (err e, record w { is_running = true; tables = x.1 })
  polling_fails w e (ok u, t) p = absurd (cc p)
  polling_fails w e (err d, t) p = ap (λ r. (r, record w { is_running = true; tables = t })) p

  pub start_fails :
      (w : Worker S T) (e : Error)
      → w.is_running ≡ false
      → (ensure_checkpoint config calls apply w.tables).0 ≡ err e
      → start config calls apply w ≡ (
        err e,
        record w { is_running = true; tables = (ensure_checkpoint config calls apply w.tables).1 },
      )
  unfolding start
  start_fails w e stopped fails = rw stopped (polling_fails w e _ fails)

  -- Where the checkpoint cannot be ensured, the first start of a worker throws, but the worker counts as
  -- running: whatever is started afterwards, nothing polls, as long as nobody stops the worker, and a
  -- further start reports success.
  pub failing_start_stalls :
      (w w' : Worker S T) (e : Error)
      → w.is_running ≡ false
      → w.loops ≡ 0
      → (ensure_checkpoint config calls apply w.tables).0 ≡ err e
      → Runs (start config calls apply w).1 w'
      → let (r, failed) = start config calls apply w in
        (r ≡ err e) × (w' ≡ failed) × (start config calls apply w' ≡ (ok tt, failed))
  failing_start_stalls w w' e stopped idle fails runs =
      let first = start_fails w e stopped fails in
      let running : (start config calls apply w).1.is_running ≡ true =
        ap (λ x. x.1.is_running) first in
      let stays = idle_stays running (ap (λ x. x.1.loops) first ∙ idle) runs in
      (ap (λ x. x.0) first, stays, rw stays (start_running _ running))

  abbrev pub restarts : ℕ → Worker S T → Worker S T
  restarts zero w = w
  restarts (suc n) w = restarts n (start config calls apply (stop w)).1

  restart_adds :
      (c : ProjectorCheckpoint) (w : Worker S T)
      → calls.find_checkpoint config.name w.tables ≡ (ok (some c), w.tables)
      → (start config calls apply (stop w)).1 ≡ record w { is_running = true; loops = suc w.loops }
  unfolding start ensure_checkpoint
  restart_adds c w found = rw found refl

  -- A stop and a start before the loops have taken a turn leave the loops there and add one to
  -- them: after `n` of them, where the checkpoint exists, `n` more loops poll the outbox.
  pub restarts_add_loops :
      (n : ℕ) (c : ProjectorCheckpoint) (w : Worker S T)
      → calls.find_checkpoint config.name w.tables ≡ (ok (some c), w.tables)
      → ((restarts n w).loops ≡ n + w.loops) × ((restarts n w).tables ≡ w.tables)
  restarts_add_loops zero c w found = (omega arith, refl)
  restarts_add_loops (suc n) c w found =
      let more = restart_adds c w found in
      let (l, t) =
        restarts_add_loops n c (record w { is_running = true; loops = suc w.loops }) found in
      rw (restarts, more) (l ∙ omega arith, t)
