-- ===== src/Ledger/Rest.antt =====
-- ledger/interfaces/rest/ledger.controller.ts. A request's parts are arguments. How the language reads
-- a date is the parameter `new_date`; texts that are no date, and types of transactions that there are
-- not, are left out, as are the framework's routing and the health route.
pub mod Pages
use wallex_sanbox.Prelude.{ℕ, String, Option, none, some, List, length, str_eq, if◌then◌else◌}
use wallex_sanbox.Prelude.Int.{pos}
use wallex_sanbox.Number.{Number, fin}
use wallex_sanbox.Number.Text.{parse_int}
use wallex_sanbox.Exec.{Result, ok, err}
use wallex_sanbox.Ledger.{
  LedgerTable, LedgerRow, TransactionType, TransactionHistoryFilters, BalanceSummary,
  get_transaction_history, get_wallet_balance_summary,
}

-- `text ? parseInt(text, 10) : standard`
unfoldable pub number_or : ℕ → Option String → Number
number_or standard none = fin (pos standard)
number_or standard (some s) = if str_eq s "" then fin (pos standard) else parse_int s

-- What is answered under the name that was asked for, with the number of transactions.
pub record TransactionList : Type 0 where
  pub name : Option String
  pub count : ℕ
  pub transactions : List LedgerRow

abbrev listed : Option String → Result (List LedgerRow) → Result TransactionList
listed name (ok found) = ok (record { name = name; count = length found; transactions = found })
listed name (err e) = err e

abbrev named : {A : Type 0} → String → Result A → Result (String × A)
named name (ok a) = ok (name, a)
named name (err e) = err e

module _ (table : LedgerTable) (new_date : String → ℕ) where
  open table use {Rows}

  -- `text ? new Date(text) : undefined`
  abbrev date_of : Option String → Option ℕ
  date_of none = none
  date_of (some s) = if str_eq s "" then none else some (new_date s)

  abbrev pub filters_of :
      Option String
      → Option TransactionType
      → Option String
      → Option String
      → Option String
      → Option String
      → TransactionHistoryFilters
  filters_of wallet_id transaction_type start_date end_date limit offset = record {
    wallet_id = wallet_id;
    transaction_type = transaction_type;
    start_date = date_of start_date;
    end_date = date_of end_date;
    reference_id = none;
    limit = some (number_or 50 limit);
    offset = some (number_or 0 offset);
  }

  unfoldable pub get_wallet_transactions :
      String
      → Option TransactionType
      → Option String
      → Option String
      → Option String
      → Option String
      → Rows
      → Result TransactionList
  get_wallet_transactions wallet_id transaction_type start_date end_date limit offset rows =
      listed (some wallet_id) (
        get_transaction_history table
          (filters_of (some wallet_id) transaction_type start_date end_date limit offset) rows)

  unfoldable pub get_all_transactions :
      Option TransactionType
      → Option String
      → Option String
      → Option String
      → Option String
      → Rows
      → Result TransactionList
  get_all_transactions transaction_type start_date end_date limit offset rows = listed none (
      get_transaction_history table
        (filters_of none transaction_type start_date end_date limit offset) rows)

  unfoldable pub get_transactions_by_reference : String → Rows → Result TransactionList
  get_transactions_by_reference reference_id rows = listed (some reference_id) (
      get_transaction_history table
        (record {
          wallet_id = none;
          transaction_type = none;
          start_date = none;
          end_date = none;
          reference_id = some reference_id;
          limit = none;
          offset = none;
        })
        rows)

  -- `getWalletBalanceSummary`
  unfoldable pub get_summary : String → Rows → Result (String × BalanceSummary)
  get_summary wallet_id rows = named wallet_id (get_wallet_balance_summary table wallet_id rows)
