-- ===== src/Projections/Bootstrap.antt =====
-- wallet/infrastructure/projections/projector-bootstrap.service.ts: the two workers, started and
-- stopped together. Their starts and stops touch different checkpoints, and the tables that each uses
-- are a part of its state. Logs are left out.
use wallex_sanbox.Prelude.{◌≡◌, refl, ap, ◌∙◌, Bool, true, false, suc, if◌then◌else◌}
use wallex_sanbox.Exec.{Error, Result, ok, err, Exec}
use wallex_sanbox.Outbox.{OutboxEvent}
use wallex_sanbox.Projections.Worker.{
  ProjectorConfig, WorkerCalls, Worker, start, stop, ensure_checkpoint,
}
use wallex_sanbox.Projections.Worker.Restarts.{start_succeeds, start_fails, start_running}

-- What `Promise.all` makes of two outcomes: an error if there is one, here the first.
abbrev both : Result (Unit {0}) → Result (Unit {0}) → Result (Unit {0})
both (ok _) r = r
both (err e) r = err e

-- One of the two workers: what is configured and called, and its state.
pub record ProjectorService (S T : Type 0) : Type 0 where
  pub config : ProjectorConfig
  pub calls : WorkerCalls T
  pub apply : OutboxEvent → Exec S (Unit {0})

module _ {S T S' T' : Type 0} (read_model_projector : ProjectorService S T)
    (ledger_projector : ProjectorService S' T') where
  abbrev pub Workers : Type 0
  Workers = Worker S T × Worker S' T'

  abbrev pub start_read_model : Exec (Worker S T) (Unit {0})
  start_read_model =
      start read_model_projector.config read_model_projector.calls read_model_projector.apply

  abbrev pub start_ledger : Exec (Worker S' T') (Unit {0})
  start_ledger = start ledger_projector.config ledger_projector.calls ledger_projector.apply

  unfoldable pub start_all : Exec Workers (Unit {0})
  start_all (read_model, ledger) =
      let (r, read_model') = start_read_model read_model in
      let (r', ledger') = start_ledger ledger in (both r r', (read_model', ledger'))

  unfoldable pub stop_all : Workers → Workers
  stop_all (read_model, ledger) = (stop read_model, stop ledger)

  -- An error is only logged.
  unfoldable pub on_module_init : Bool → Workers → Workers
  unfolding start_all
  on_module_init auto_start ws = if auto_start then (start_all ws).1 else ws

  unfoldable pub on_module_destroy : Workers → Workers
  unfolding stop_all
  on_module_destroy ws = stop_all ws

  -- Where the checkpoint of the ledger's worker cannot be ensured when the module is initialised, and
  -- that of the read model's can, the application starts with one worker: the read model's polls,
  -- nothing polls for the ledger, and a later `startAll` changes nothing and reports success.
  pub init_half_started :
      (w : Worker S T) (w' : Worker S' T') (t : T) (e : Error)
      → w.is_running ≡ false
      → w'.is_running ≡ false
      → w'.loops ≡ 0
      → ensure_checkpoint read_model_projector.config read_model_projector.calls
          read_model_projector.apply w.tables
        ≡ (ok tt, t)
      → (ensure_checkpoint ledger_projector.config ledger_projector.calls ledger_projector.apply
          w'.tables).0
        ≡ err e
      → let after = on_module_init true (w, w') in
        (after.0.loops ≡ suc w.loops) × (after.1.loops ≡ 0) × (start_all after ≡ (ok tt, after))
  unfolding on_module_init start_all
  init_half_started w w' t e rest rest' idle fine fails =
      let read_model =
        start_succeeds read_model_projector.config read_model_projector.calls
          read_model_projector.apply w t rest fine in
      let ledger =
        start_fails ledger_projector.config ledger_projector.calls ledger_projector.apply w' e rest'
          fails in
      let again =
        start_running read_model_projector.config read_model_projector.calls
          read_model_projector.apply (start_read_model w).1 (ap (λ x. x.1.is_running) read_model) in
      let again' =
        start_running ledger_projector.config ledger_projector.calls ledger_projector.apply
          (start_ledger w').1 (ap (λ x. x.1.is_running) ledger) in
      (ap (λ x. x.1.loops) read_model, ap (λ x. x.1.loops) ledger ∙ idle, rw (again, again') refl)
