-- ===== src/Tests/Projections.antt =====
-- Projections at concrete inputs.
use wallex_sanbox.Prelude.{ℕ, ◌+◌, ◌≡◌, refl, none, some, [], ◌∷◌, ◌==◌, arith, if◌then◌else◌}
use wallex_sanbox.Prelude.Int.{pos}
use wallex_sanbox.Number.{fin}
use wallex_sanbox.Exec.{plain, ok, err, Exec}
use wallex_sanbox.Aggregate.{WalletAggregate, rehydrate}
use wallex_sanbox.Aggregate.Balance.{balance_of}
use wallex_sanbox.Database.{Table, TableLaws}
use wallex_sanbox.Outbox.{OutboxEvent, mark_batch_processed}
use wallex_sanbox.Projections.{
  WalletReadModel, project, Projector, is_already_processed, process_batch,
}
use wallex_sanbox.Projections.Totals.{projection_agrees}
use wallex_sanbox.Projections.Batch.{failed_message_lost}
use wallex_sanbox.Tests.Memory.{table, table_laws, Rows}
use wallex_sanbox.Tests.Worlds.{alice_created, alice_credited, alice_history}
use wallex_sanbox.Tests.Outbox.{event_at, outbox}

abbrev documents : Table WalletReadModel
documents = table (λ m. m.id) (λ m. m)

abbrev documents_laws : TableLaws documents (λ m. m.id) (λ m. m)
documents_laws = table_laws (λ m. m.id) (λ m. m) (λ m. refl)

abbrev no_documents : Rows WalletReadModel
no_documents k = none

projection_agrees_example :
    let (r, rows') = project documents alice_history no_documents in
    (a : WalletAggregate) × (m : WalletReadModel) × (r ≡ ok tt)
    × (rehydrate "now" "alice" alice_history ≡ ok a)
    × (rows' "alice" ≡ some m)
    × (balance_of a.state ≡ some m.balance)
projection_agrees_example =
    projection_agrees documents documents_laws "now" "alice" "owner" (some (fin (pos 100)))
      alice_created (alice_credited ∷ []) no_documents refl (tt, tt) (refl, (refl, tt))

-- A projection that counts, and one that fails on the first event.
abbrev count : OutboxEvent → Exec ℕ (Unit {0})
count m n = (ok tt, n + 1)

abbrev count_others : OutboxEvent → Exec ℕ (Unit {0})
count_others m n = if m.id == 1 then (err (plain "no connection"), n) else (ok tt, n + 1)

abbrev started : Projector ℕ
started = record { written = 0; checkpoint = none; outbox = outbox }

failed_message_lost_example :
    let first = process_batch count_others 9 "ledger" (event_at 1 ∷ event_at 2 ∷ []) started in
    (first.outbox ≡ mark_batch_processed 9 (2 ∷ []) "ledger" outbox)
    × (process_batch count_others 10 "ledger" (event_at 1 ∷ []) first
        ≡ record first { outbox = mark_batch_processed 10 (1 ∷ []) "ledger" first.outbox })
unfolding is_already_processed
failed_message_lost_example =
    failed_message_lost count_others 9 10 "ledger" (event_at 1) (event_at 2) started
      (plain "no connection") (omega arith) refl refl refl refl
