-- ===== src/Tests/Ledger.antt =====
-- The ledger at concrete inputs.
use Prim.Native.String.{◌++◌ as text_append}
use wallex_sanbox.Prelude.{
  ℕ, Option, ◌≡◌, refl, String, none, some, List, [], ◌∷◌, ◌++◌, arith, if◌then◌else◌,
}
use wallex_sanbox.Prelude.Int.{ℤ, pos, ◌+ℤ◌}
use wallex_sanbox.Number.{Number, fin, sub, is_truthy}
use wallex_sanbox.Exec.{ok, err, unique_violation}
use wallex_sanbox.Domain.{wallet_credited}
use wallex_sanbox.Aggregate.{WalletAggregate, rehydrate}
use wallex_sanbox.Aggregate.Balance.{balance_of, total_credited, total_debited}
use wallex_sanbox.Outbox.{OutboxEvent}
use wallex_sanbox.Ledger.{
  LedgerRow, LedgerTable, BalanceSummary, get_wallet_balance_summary, get_transaction_history,
  matches,
}
use wallex_sanbox.Ledger.Table.{
  LedgerTableLaws, keep, latest_of, is_used, window, row_at, as_number,
}
use wallex_sanbox.Ledger.Projection.{LedgerProjection, project}
use wallex_sanbox.Ledger.Books.{summary_exceeds}
use wallex_sanbox.Ledger.Projector.{apply, handle_wallet_credited, insert_once}
use wallex_sanbox.Ledger.Projector.Chain.{IsChained, apply-IsChained}
use wallex_sanbox.Ledger.Projector.Duplicates.{second_credit_lost}
use wallex_sanbox.Number.Text.{parse_int, digits, more_digits}
use wallex_sanbox.Ledger.Rest.{number_or, get_wallet_transactions}
use wallex_sanbox.Ledger.Rest.Pages.{page}
use wallex_sanbox.Tests.Worlds.{alice_history, alice_created, alice_credited}
use wallex_sanbox.Tests.Outbox.{event_at}

abbrev as_natural : Option Number → Option ℕ
as_natural (some (fin (pos n))) = some n
as_natural o = none

natural : (o : Option ℕ) → as_natural (as_number o) ≡ o
natural none = refl
natural (some n) = refl

-- A table in memory, where no time passes.
abbrev table : LedgerTable
table = record {
  Rows = List LedgerRow;
  insert = λ e rows.
      if is_used e.reference_id rows
      then (err unique_violation, rows)
      else (ok tt, row_at 0 e ∷ rows);
  save = λ e rows.
      if is_used e.reference_id rows
      then (err unique_violation, rows)
      else (ok (row_at 0 e), row_at 0 e ∷ rows);
  find_latest = λ w rows. ok (latest_of w rows);
  get_many =
      λ test limit offset rows. ok (window (as_natural limit) (as_natural offset) (keep test rows));
}

abbrev laws : LedgerTableLaws table
laws = record {
  contents = λ rows. rows;
  time = λ rows. 0;
  insert_new = λ e rows h. rw h (refl, refl);
  insert_taken = λ e rows h. rw h refl;
  save_new = λ e rows h. rw h (refl, refl);
  latest_law = λ w rows. refl;
  get_many_law = λ test limit offset rows. rw (natural limit, natural offset) refl;
}

abbrev fresh : LedgerProjection (List LedgerRow)
fresh = record { balance_cache = λ k. none; rows = [] }

summary_exceeds_example :
    let s' = project table alice_history fresh in
    (a : WalletAggregate) × (b : ℤ) × (summary : BalanceSummary) × (rehydrate "now" "alice"
        alice_history
      ≡ ok a)
    × (balance_of a.state ≡ some (fin b))
    × (get_wallet_balance_summary table "alice" s'.rows ≡ ok summary)
    × (summary.total_credits ≡ fin (pos 100 +ℤ total_credited (alice_credited ∷ [])))
    × (summary.total_debits ≡ fin (total_debited (alice_credited ∷ [])))
    × (sub summary.total_credits summary.total_debits ≡ fin (pos 100 +ℤ b))
    × (s'.balance_cache "alice" ≡ some (fin (pos 100 +ℤ b)))
unfolding is_truthy
summary_exceeds_example =
    summary_exceeds table laws "now" "alice" "owner" 100 alice_created (alice_credited ∷ []) fresh
      refl refl (tt, tt) (refl, (refl, tt))

no_row-IsChained : (id : String) → IsChained 100 id []
no_row-IsChained id = tt

apply-IsChained_example : IsChained 100 "q" (apply 100 table "5" (event_at 1) []).1
apply-IsChained_example =
    apply-IsChained 100 table laws "5" (event_at 1) [] (omega arith) tt (λ c. absurd c)
      no_row-IsChained "q"

abbrev credit_of_five : OutboxEvent
credit_of_five = record (event_at 1) {
  payload = record {
    event = record { aggregate_id = "q"; body = wallet_credited (fin (pos 5)) none };
    metadata = (event_at 1).payload.metadata;
  };
}

second_credit_lost_example :
    let rows' = (apply 100 table "5" credit_of_five []).1 in
    apply 100 table "5" credit_of_five rows' ≡ (ok tt, rows')
second_credit_lost_example =
    second_credit_lost 100 table laws "5" credit_of_five credit_of_five [] tt tt refl

abbrev three_rows : List LedgerRow
three_rows =
    (apply 100 table "5" credit_of_five
      (apply 100 table "6" credit_of_five (apply 100 table "7" credit_of_five []).1).1).1

-- No date is asked for.
abbrev no_date : String → ℕ
no_date s = 0

-- A limit of 0 is no limit.
no_limit :
    page table laws no_date "q" none none none three_rows (some "0") none
    ≡ ok (record { name = some "q"; count = 3; transactions = three_rows })
unfolding number_or parse_int digits more_digits get_wallet_transactions get_transaction_history
    matches is_truthy apply handle_wallet_credited insert_once
no_limit = refl
