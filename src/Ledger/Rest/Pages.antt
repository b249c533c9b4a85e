-- ===== src/Ledger/Rest/Pages.antt =====
-- The pages of a wallet's transactions.
use wallex_sanbox.Prelude.{ℕ, String, Option}
use wallex_sanbox.Number.{Number}
use wallex_sanbox.Exec.{Result}
use wallex_sanbox.Ledger.{LedgerTable, TransactionType}
use wallex_sanbox.Ledger.Table.{LedgerTableLaws}
use wallex_sanbox.Ledger.Rest.{TransactionList, get_wallet_transactions}

module _ (table : LedgerTable) (laws : LedgerTableLaws table) (new_date : String → ℕ) where
  module _ (id : String) (kind : Option TransactionType) (start_date end_date : Option String)
      (rows : table.Rows) where
    abbrev pub page : Option String → Option String → Result TransactionList
    page limit offset =
        get_wallet_transactions table new_date id kind start_date end_date limit offset rows
