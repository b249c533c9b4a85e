-- ===== src/Ledger/Totals.antt =====
-- The sums over entries that the summary of a wallet makes, entry by entry.
use wallex_sanbox.Prelude.{ℕ, ◌≡◌, ap, ◌∙◌, Bool, true, false, List, [], ◌∷◌, if◌then◌else◌}
use wallex_sanbox.Prelude.Int.{ℤ, pos, ◌+ℤ◌, ◌-ℤ◌, int_laws}
use wallex_sanbox.Number.{fin, add, sub}
use wallex_sanbox.Ledger.{LedgerRow, credit, debit, transfer_out, is_credit, is_debit, sum_amounts}

-- The sums that the summary makes, from any number on.
pub record Totals (rows : List LedgerRow) (c d : ℤ) : Type 0 where
  pub credits : (n : ℤ) → sum_amounts is_credit (fin n) rows ≡ fin (n +ℤ c)
  pub debits : (n : ℤ) → sum_amounts is_debit (fin n) rows ≡ fin (n +ℤ d)

pub Totals-nil : Totals [] (pos 0) (pos 0)
unfolding sum_amounts
Totals-nil = record {
  credits = λ n. ap fin (omega int_laws);
  debits = λ n. ap fin (omega int_laws);
}

pub credit_row :
    (r : LedgerRow) (rs : List LedgerRow) (c d x : ℤ)
    → r.entry.transaction_type ≡ credit
    → r.entry.amount ≡ fin x
    → Totals rs c d
    → Totals (r ∷ rs) (c +ℤ x) d
unfolding sum_amounts add
credit_row r rs c d x kind amount t = record {
  credits = λ n. rw (kind, amount) (t.credits (n +ℤ x) ∙ ap fin (omega int_laws));
  debits = λ n. rw kind (t.debits n);
}

pub debit_row :
    (r : LedgerRow) (rs : List LedgerRow) (c d x : ℤ) (transfers : Bool)
    → r.entry.transaction_type ≡ (if transfers then transfer_out else debit)
    → r.entry.amount ≡ fin x
    → Totals rs c d
    → Totals (r ∷ rs) c (d +ℤ x)
unfolding sum_amounts add
debit_row r rs c d x true kind amount t = record {
  credits = λ n. rw kind (t.credits n);
  debits = λ n. rw (kind, amount) (t.debits (n +ℤ x) ∙ ap fin (omega int_laws));
}
debit_row r rs c d x false kind amount t = record {
  credits = λ n. rw kind (t.credits n);
  debits = λ n. rw (kind, amount) (t.debits (n +ℤ x) ∙ ap fin (omega int_laws));
}

pub zero_right : (a : ℤ) → a +ℤ pos 0 ≡ a
zero_right a = omega int_laws

pub zero_left : (a : ℤ) → pos 0 +ℤ a ≡ a
zero_left a = omega int_laws

pub zero_twice : (a : ℤ) → pos 0 +ℤ (pos 0 +ℤ a) ≡ a
zero_twice a = omega int_laws

pub difference : (n : ℕ) (c d : ℤ) → sub (fin (pos n +ℤ c)) (fin d) ≡ fin (pos n +ℤ (c -ℤ d))
unfolding sub
difference n c d = ap fin (omega int_laws)
