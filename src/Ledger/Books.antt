-- ===== src/Ledger/Books.antt =====
-- The totals of a wallet's entries after its history is projected.
use wallex_sanbox.Prelude.{
  ℕ, zero, suc, ◌≡◌, refl, ap, ◌∙◌, String, Bool, true, false, ◌||◌, ◌&&◌, none, some, List, [],
  ◌∷◌, str_eq, eq_refl, All, arith, get_or, is_some,
}
use wallex_sanbox.Prelude.Int.{ℤ, pos, ltb_ℤ, eqb_ℤ, ◌+ℤ◌, ◌-ℤ◌, int_laws}
use wallex_sanbox.Number.{Number, fin, nan, infinity, neg_infinity, add, sub, lt, is_truthy}
use wallex_sanbox.Number.Sums.{+ℤ_assoc}
use wallex_sanbox.Exec.{ok}
use wallex_sanbox.Domain.{
  EventData, wallet_created, wallet_credited, wallet_debited, StoredWalletEvent,
}
use wallex_sanbox.Aggregate.{WalletAggregate, rehydrate, unless_falsy}
use wallex_sanbox.Aggregate.Balance.{
  IsMove, credit_of, debit_of, total_credited, total_debited, balance_of, balance_sums,
}
use wallex_sanbox.Ledger.{
  LedgerTable, LedgerEntry, LedgerRow, BalanceSummary, summary_of, matches, of_wallet,
  get_wallet_balance_summary,
}
use wallex_sanbox.Ledger.Totals.{
  Totals, Totals-nil, credit_row, debit_row, zero_right, zero_left, zero_twice, difference,
}
use wallex_sanbox.Ledger.Table.{LedgerTableLaws, keep, row_at}
use wallex_sanbox.Ledger.Projection.{
  LedgerProjection, set_balance, handle, on_event, project, created_ledger_entry,
  credited_ledger_entry, debited_ledger_entry, related_wallet,
}

-- A query for a wallet finds the wallet's rows.
own_row : (id : String) (r : LedgerRow) → r.entry.wallet_id ≡ id → matches (of_wallet id) r ≡ true
unfolding matches
own_row id r h = rw (h, eq_refl id) (or_true (str_eq id ""))
  where
    or_true : (b : Bool) → ((b || true) && true) ≡ true
    or_true true = refl
    or_true false = refl

-- The state after an event's balance is in the map.
abbrev with_balance : {R : Type 0} → String → Number → LedgerProjection R → LedgerProjection R
with_balance id b s = record s { balance_cache = set_balance id b s.balance_cache }

module _ (table : LedgerTable) (laws : LedgerTableLaws table) where
  abbrev pub own_rows : String → table.Rows → List LedgerRow
  own_rows id rows = keep (matches (of_wallet id)) (laws.contents rows)

  -- The state of the projection in the middle of a wallet's history.
  record HasBooks (s : LedgerProjection table.Rows) (id : String) (c d : ℤ) : Type 0 where
    totals : Totals (own_rows id s.rows) c d
    cached : s.balance_cache id ≡ some (fin (c -ℤ d))

  handled :
      (entry : LedgerEntry) (id : String) (s : LedgerProjection table.Rows)
      → entry.reference_id ≡ none
      → entry.wallet_id ≡ id
      → own_rows id (handle table entry s).rows
        ≡ row_at (laws.time s.rows) entry ∷ own_rows id s.rows
  unfolding handle
  handled entry id s free own =
      let saved = laws.save_new entry s.rows (rw free refl) in
      rw (saved.1, own_row id (row_at (laws.time s.rows) entry) own) refl

  step :
      (body : EventData) (id : String) (s : LedgerProjection table.Rows) (c d : ℤ)
      → IsMove body
      → HasBooks s id c d
      → HasBooks (on_event table body id s) id (c +ℤ credit_of body) (d +ℤ debit_of body)
  unfolding add sub handle
  step (wallet_credited (fin x) description) id s c d m h =
      let entry = credited_ledger_entry id (fin x) description (fin (c -ℤ d)) (fin (c -ℤ d +ℤ x)) in
      let cached = with_balance id (fin (c -ℤ d +ℤ x)) s in
      let rows = handled entry id cached refl refl in
      rw (h.cached, zero_right d)
        (record {
          totals = rw rows (credit_row _ (own_rows id s.rows) c d x refl refl h.totals);
          cached = rw (eq_refl id) (ap (λ z. some (fin z)) (omega int_laws));
        })
  step (wallet_debited (fin x) description) id s c d m h =
      let related = related_wallet (get_or description "") in
      let entry =
        debited_ledger_entry id (fin x) description (fin (c -ℤ d)) (fin (c -ℤ d -ℤ x)) related in
      let cached = with_balance id (fin (c -ℤ d -ℤ x)) s in
      let rows = handled entry id cached refl refl in
      rw (h.cached, zero_right c)
        (record {
          totals =
              rw rows (debit_row _ (own_rows id s.rows) c d x (is_some related) refl refl h.totals);
          cached = rw (eq_refl id) (ap (λ z. some (fin z)) (omega int_laws));
        })
  step (wallet_credited nan d') id s c d m h = absurd m
  step (wallet_credited infinity d') id s c d m h = absurd m
  step (wallet_credited neg_infinity d') id s c d m h = absurd m
  step (wallet_debited nan d') id s c d m h = absurd m
  step (wallet_debited infinity d') id s c d m h = absurd m
  step (wallet_debited neg_infinity d') id s c d m h = absurd m
  step (wallet_created o i) id s c d m h = absurd m

  summary_found :
      (id : String) (rows : table.Rows)
      → get_wallet_balance_summary table id rows ≡ ok (summary_of (own_rows id rows))
  unfolding get_wallet_balance_summary
  summary_found id rows =
      rw (laws.get_many_law (matches (of_wallet id)) none none rows, get_wallet_balance_summary)
        refl

  moves :
      (es : List StoredWalletEvent) (id : String) (s : LedgerProjection table.Rows) (c d : ℤ)
      → All (λ e. IsMove e.body) es
      → All (λ e. e.event.aggregate_id ≡ id) es
      → HasBooks s id c d
      → HasBooks (project table es s) id (c +ℤ total_credited es) (d +ℤ total_debited es)
  unfolding project total_credited total_debited
  moves [] id s c d m own h = rw (zero_right c, zero_right d) h
  moves (e ∷ es) id s c d m own h =
      let next = step e.body id s c d m.0 h in
      rw
        (
          +ℤ_assoc c (credit_of e.body) (total_credited es),
          +ℤ_assoc d (debit_of e.body) (total_debited es),
          own.0,
        )
        (moves es id (on_event table e.body id s) (c +ℤ credit_of e.body) (d +ℤ debit_of e.body) m.1
          own.1 next)

  opening :
      (owner id : String) (n : ℕ) (s : LedgerProjection table.Rows)
      → own_rows id s.rows ≡ []
      → HasBooks
          (on_event table (wallet_created owner (unless_falsy (fin (pos n)))) id s)
          id
          (pos n)
          (pos 0)
  unfolding is_truthy lt handle
  opening owner id zero s fresh = record {
    totals = rw fresh Totals-nil;
    cached = rw (eq_refl id) (ap (λ z. some (fin z)) (omega int_laws));
  }
  opening owner id (suc n) s fresh =
      let funded : ltb_ℤ (pos 0) (pos (suc n)) ≡ true = ground arith in
      let truthy : eqb_ℤ (pos (suc n)) (pos 0) ≡ false = ground arith in
      let entry = created_ledger_entry id (fin (pos (suc n))) in
      let cached = with_balance id (fin (pos (suc n))) s in
      let rows = handled entry id cached refl refl in
      rw truthy (
        rw funded (record {
          totals = rw rows (
              rw fresh (
                rw (zero_left (pos (suc n))) at (
                  credit_row (row_at (laws.time s.rows) entry) [] (pos 0) (pos 0) (pos (suc n)) refl
                    refl Totals-nil)));
          cached = rw (eq_refl id) (ap (λ z. some (fin z)) (omega int_laws));
        }))

  -- Project a wallet's history from where the ledger has no entry of the wallet: a creation with an
  -- initial balance that is a natural number, as the aggregate writes it, and then credits and
  -- debits of finite amounts, all of the wallet. The summary of the wallet is then found. Its debits
  -- are the total debited, its credits the total credited plus the initial balance, so that they
  -- differ by the balance of the rehydrated aggregate plus the initial balance, and so does the
  -- balance that the projection keeps.
  pub summary_exceeds :
      (now id owner : String) (n : ℕ) (e : StoredWalletEvent) (es : List StoredWalletEvent)
      (s : LedgerProjection table.Rows)
      → own_rows id s.rows ≡ []
      → e.body ≡ wallet_created owner (unless_falsy (fin (pos n)))
      → All (λ x. IsMove x.body) es
      → All (λ x. x.event.aggregate_id ≡ id) (e ∷ es)
      → let s' = project table (e ∷ es) s in
        (a : WalletAggregate) × (b : ℤ) × (summary : BalanceSummary) × (rehydrate now id (e ∷ es)
          ≡ ok a)
        × (balance_of a.state ≡ some (fin b))
        × (get_wallet_balance_summary table id s'.rows ≡ ok summary)
        × (summary.total_credits ≡ fin (pos n +ℤ total_credited es))
        × (summary.total_debits ≡ fin (total_debited es))
        × (sub summary.total_credits summary.total_debits ≡ fin (pos n +ℤ b))
        × (s'.balance_cache id ≡ some (fin (pos n +ℤ b)))
  unfolding project
  summary_exceeds now id owner n e es s fresh k m own =
      let (a, run, balance) = balance_sums now id owner (unless_falsy (fin (pos n))) e es k m in
      let s1 = on_event table e.body e.event.aggregate_id s in
      let opened : HasBooks s1 id (pos n) (pos 0) = rw (k, own.0) (opening owner id n s fresh) in
      let books = moves es id s1 (pos n) (pos 0) m own.1 opened in
      let s' = project table es s1 in
      let credits = books.totals.credits (pos 0) ∙ ap fin (zero_left _) in
      let debits = books.totals.debits (pos 0) ∙ ap fin (zero_twice _) in
      (
        a,
        total_credited es -ℤ total_debited es,
        summary_of (own_rows id s'.rows),
        run,
        balance,
        summary_found id s'.rows,
        credits,
        debits,
        rw (credits, debits) (difference n (total_credited es) (total_debited es)),
        books.cached ∙ ap (λ z. some (fin z)) (omega int_laws),
      )
