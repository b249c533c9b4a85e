-- ===== src/Ledger.antt =====
-- ledger: the entries of the ledger, the service that records and queries them
-- (ledger/application/ledger.service.ts), and the projection of a wallet's events by the handlers of
-- ledger/application/event-handlers. The table is a parameter, with the times that it gives to its
-- rows. Amounts are the numbers that the decimal columns hold, since the code converts what it reads.
-- Metadata and the rows' own identifiers are left out.
pub mod Projector
pub mod Table
pub mod Projection
pub mod Related
pub mod Totals
pub mod Books
pub mod Rest
use wallex_sanbox.Prelude.{
  ℕ, zero, suc, ◌+◌, String, Bool, true, false, not, ◌&&◌, ◌||◌, Option, none, some, List, [], ◌∷◌,
  map, length, str_eq, leb, ◌==◌, get_or, is_some, if◌then◌else◌,
}
use wallex_sanbox.Number.{Number, zero_number, add, is_truthy}
use wallex_sanbox.Exec.{Result, ok, err, Exec, pure, ◌>>=◌, ◌>>◌}
use wallex_sanbox.Domain.{
  EventData, wallet_created, wallet_credited, wallet_debited, StoredWalletEvent,
}
use wallex_sanbox.Wallets.{Transactions}

pub data TransactionType : Type 0 where
  credit debit transfer_out transfer_in : TransactionType

pub record LedgerEntry : Type 0 where
  pub wallet_id : String
  pub transaction_type : TransactionType
  pub amount : Number
  pub balance_before : Number
  pub balance_after : Number
  pub description : Option String
  pub reference_id : Option String
  pub related_wallet_id : Option String

-- A row, with the time at which it was created.
pub record LedgerRow : Type 0 where
  pub entry : LedgerEntry
  pub open entry use *
  pub created_at : ℕ

-- The calls of TypeORM's repository that the code makes.
pub record LedgerTable : Type 1 where
  pub Rows : Type 0
  pub insert : LedgerEntry → Rows → Result (Unit {0}) × Rows
  pub save : LedgerEntry → Rows → Result LedgerRow × Rows
  -- `findOne({ where: { walletId }, order: { createdAt: 'DESC', id: 'DESC' } })`
  pub find_latest : String → Rows → Result (Option LedgerRow)
  -- a query builder's `getMany`, with its conditions, in descending order of the creation times, and
  -- with its limit and offset
  pub get_many : (LedgerRow → Bool) → Option Number → Option Number → Rows → Result (List LedgerRow)

pub record TransactionHistoryFilters : Type 0 where
  pub wallet_id : Option String
  pub transaction_type : Option TransactionType
  pub start_date : Option ℕ
  pub end_date : Option ℕ
  pub reference_id : Option String
  pub limit : Option Number
  pub offset : Option Number

abbrev same_type : TransactionType → TransactionType → Bool
same_type credit credit = true
same_type debit debit = true
same_type transfer_out transfer_out = true
same_type transfer_in transfer_in = true
same_type s t = false

abbrev maybe_equal : Option String → String → Bool
maybe_equal none s = false
maybe_equal (some t) s = str_eq t s

-- A condition is there only with a filter, which is not one if it is missing or the empty text.
abbrev asks_text : Option String → (String → Bool) → Bool
asks_text none test = true
asks_text (some s) test = str_eq s "" || test s

abbrev asks {ℓ} : {A : Type ℓ} → Option A → (A → Bool) → Bool
asks none test = true
asks (some a) test = test a

unfoldable pub matches : TransactionHistoryFilters → LedgerRow → Bool
matches f row =
    asks_text f.wallet_id (λ w. str_eq row.entry.wallet_id w)
    && (asks f.transaction_type (λ t. same_type row.entry.transaction_type t)
        && (asks f.start_date (λ d. leb d row.created_at)
            && (asks f.end_date (λ d. leb row.created_at d)
                && asks_text f.reference_id (λ r. maybe_equal row.entry.reference_id r))))

-- `if (filters.limit)`: a limit or an offset of 0 or NaN is none.
abbrev pub if_asked : Option Number → Option Number
if_asked none = none
if_asked (some n) = if is_truthy n then some n else none

abbrev pub of_wallet : String → TransactionHistoryFilters
of_wallet wallet_id = record {
  wallet_id = some wallet_id;
  transaction_type = none;
  start_date = none;
  end_date = none;
  reference_id = none;
  limit = none;
  offset = none;
}

pub record BalanceSummary : Type 0 where
  pub total_credits : Number
  pub total_debits : Number
  pub transaction_count : ℕ
  pub last_transaction : Option LedgerRow

abbrev pub is_credit : TransactionType → Bool
is_credit credit = true
is_credit transfer_in = true
is_credit t = false

abbrev pub is_debit : TransactionType → Bool
is_debit debit = true
is_debit transfer_out = true
is_debit t = false

-- `.filter(…).reduce((sum, e) => sum + Number(e.amount), 0)`
unfoldable pub sum_amounts : (TransactionType → Bool) → Number → List LedgerRow → Number
sum_amounts test sum [] = sum
sum_amounts test sum (r ∷ rs) =
    sum_amounts test (if test r.entry.transaction_type then add sum r.entry.amount else sum) rs

abbrev first : List LedgerRow → Option LedgerRow
first [] = none
first (r ∷ rs) = some r

abbrev pub summary_of : List LedgerRow → BalanceSummary
summary_of rows = record {
  total_credits = sum_amounts is_credit zero_number rows;
  total_debits = sum_amounts is_debit zero_number rows;
  transaction_count = length rows;
  last_transaction = first rows;
}

module _ (table : LedgerTable) where
  open table use {Rows}

  unfoldable pub record_entry : LedgerEntry → Exec Rows LedgerRow
  record_entry entry = table.save entry

  -- The rows that one transaction saves.
  abbrev save_all : List LedgerEntry → Exec Rows (List LedgerRow)
  save_all [] = pure []
  save_all (e ∷ es) = do r ← table.save e; rs ← save_all es; pure (r ∷ rs)

  unfoldable pub record_entries : Transactions Rows → List LedgerEntry → Exec Rows (List LedgerRow)
  record_entries tx entries = tx.transaction (List LedgerRow) (save_all entries)

  unfoldable pub get_transaction_history :
      TransactionHistoryFilters → Rows → Result (List LedgerRow)
  unfolding matches
  get_transaction_history f rows =
      table.get_many (matches f) (if_asked f.limit) (if_asked f.offset) rows

  unfoldable pub get_wallet_balance_summary : String → Rows → Result BalanceSummary
  unfolding get_transaction_history
  get_wallet_balance_summary wallet_id rows =
      elim (get_transaction_history (of_wallet wallet_id) rows) [
        | ok found ↦ ok (summary_of found)
        | err e ↦ err e
      ]
