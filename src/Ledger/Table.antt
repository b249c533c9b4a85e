-- ===== src/Ledger/Table.antt =====
-- What is documented of the ledger's table (database/migrations/1730000000003 and 1730000000008,
-- which make the reference of an entry unique), while the database answers and the times of its rows
-- do not decrease.
use wallex_sanbox.Prelude.{
  ℕ, zero, suc, ◌≡◌, String, Bool, true, false, ◌||◌, Option, none, some, List, [], ◌∷◌, str_eq,
  if◌then◌else◌,
}
use wallex_sanbox.Prelude.Int.{pos}
use wallex_sanbox.Number.{Number, fin}
use wallex_sanbox.Exec.{ok, err, unique_violation}
use wallex_sanbox.Ledger.{LedgerEntry, LedgerRow, LedgerTable}

-- The rows of a wallet, or those with a property, from the newest to the oldest.
abbrev pub keep : (LedgerRow → Bool) → List LedgerRow → List LedgerRow
keep test [] = []
keep test (r ∷ rs) = let rest = keep test rs in if test r then r ∷ rest else rest

abbrev pub latest_of : String → List LedgerRow → Option LedgerRow
latest_of wallet_id [] = none
latest_of wallet_id (r ∷ rs) =
    let rest = latest_of wallet_id rs in if str_eq r.entry.wallet_id wallet_id then some r else rest

abbrev has_reference : Option String → String → Bool
has_reference none s = false
has_reference (some t) s = str_eq t s

-- Is the reference that of a row? A missing one is that of none.
abbrev pub is_used : Option String → List LedgerRow → Bool
is_used none rows = false
is_used (some s) [] = false
is_used (some s) (r ∷ rs) = has_reference r.entry.reference_id s || is_used (some s) rs

abbrev pub offset_by : ℕ → List LedgerRow → List LedgerRow
offset_by zero rs = rs
offset_by (suc n) [] = []
offset_by (suc n) (r ∷ rs) = offset_by n rs

abbrev pub limit_to : ℕ → List LedgerRow → List LedgerRow
limit_to zero rs = []
limit_to (suc n) [] = []
limit_to (suc n) (r ∷ rs) = r ∷ limit_to n rs

abbrev pub window : Option ℕ → Option ℕ → List LedgerRow → List LedgerRow
window none none rs = rs
window none (some n) rs = offset_by n rs
window (some k) none rs = limit_to k rs
window (some k) (some n) rs = limit_to k (offset_by n rs)

abbrev pub as_number : Option ℕ → Option Number
as_number none = none
as_number (some n) = some (fin (pos n))

-- A row at the time that the database gives it.
abbrev pub row_at : ℕ → LedgerEntry → LedgerRow
row_at t e = record { entry = e; created_at = t }

pub record LedgerTableLaws (table : LedgerTable) : Type 0 where
  pub contents : table.Rows → List LedgerRow
  pub time : table.Rows → ℕ
  pub insert_new :
      (e : LedgerEntry) (rows : table.Rows)
      → is_used e.reference_id (contents rows) ≡ false
      → ((table.insert e rows).0 ≡ ok tt)
        × (contents (table.insert e rows).1 ≡ row_at (time rows) e ∷ contents rows)
  pub insert_taken :
      (e : LedgerEntry) (rows : table.Rows)
      → is_used e.reference_id (contents rows) ≡ true
      → table.insert e rows ≡ (err unique_violation, rows)
  pub save_new :
      (e : LedgerEntry) (rows : table.Rows)
      → is_used e.reference_id (contents rows) ≡ false
      → ((table.save e rows).0 ≡ ok (row_at (time rows) e))
        × (contents (table.save e rows).1 ≡ row_at (time rows) e ∷ contents rows)
  pub latest_law :
      (wallet_id : String) (rows : table.Rows)
      → table.find_latest wallet_id rows ≡ ok (latest_of wallet_id (contents rows))
  pub get_many_law :
      (test : LedgerRow → Bool) (limit offset : Option ℕ) (rows : table.Rows)
      → table.get_many test (as_number limit) (as_number offset) rows
        ≡ ok (window limit offset (keep test (contents rows)))
