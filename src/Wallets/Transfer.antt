-- ===== src/Wallets/Transfer.antt =====
-- A transfer between rows is all or nothing.
use wallex_sanbox.Prelude.{
  ◌≡◌, refl, ap, ◌∙◌, sym, ◌≢◌, String, true, some, str_eq, eq_iff, eq_refl, inl, inr, Bool-cases,
  if◌then◌else◌,
}
use wallex_sanbox.Number.{Number, add, sub}
use wallex_sanbox.Exec.{Error, Result, ok, err, Exec, pure, ◌>>=◌}
use wallex_sanbox.Database.{Table, TableLaws}
use wallex_sanbox.Wallets.{
  WalletEntity, Transactions, can_debit, credit, debit, transfer, with_balance,
}
use wallex_sanbox.Wallets.Funds.{KeepsFunds, credit_cases, debit_cases}

-- What is documented of a transaction: it commits what its operation wrote, or, if that throws,
-- nothing.
pub record TransactionLaws {S : Type 0} (tx : Transactions S) : Type 1 where
  pub commit :
      (A : Type 0) (op : Exec S A) (s s' : S) (a : A)
      → op s ≡ (ok a, s')
      → tx.transaction A op s ≡ (ok a, s')
  pub rollback :
      (A : Type 0) (op : Exec S A) (s s' : S) (e : Error)
      → op s ≡ (err e, s')
      → tx.transaction A op s ≡ (err e, s)

module _ {S A : Type 0} (tx : Transactions S) (laws : TransactionLaws tx) where
  -- A transaction that throws has written nothing.
  failed_writes_nothing :
      (op : Exec S A) (s : S) (e : Error)
      → (tx.transaction A op s).0 ≡ err e
      → tx.transaction A op s ≡ (err e, s)
  failed_writes_nothing op s e h = by_outcome (op s).0 (op s).1 refl
    where
      by_outcome : (r : Result A) (s' : S) → op s ≡ (r, s') → tx.transaction A op s ≡ (err e, s)
      by_outcome (ok a) s' p = absurd (cc (laws.commit A op s s' a p, h))
      by_outcome (err f) s' p = cc (laws.rollback A op s s' f p, h)

if_unequal {ℓ} : {A : Type ℓ} (s t : String) (a b : A) → s ≢ t → (if str_eq s t then a else b) ≡ b
if_unequal s t a b ne = elim (Bool-cases (str_eq s t)) [
  | inl same ↦ absurd (ne ((eq_iff s t).0 same))
  | inr different ↦ rw different
]

module _ (table : Table WalletEntity) {saved : WalletEntity → WalletEntity}
    (laws : TableLaws table (λ w. w.id) saved) (keeps : KeepsFunds saved)
    (tx : Transactions table.Rows) (tx_laws : TransactionLaws tx) where
  saves :
      (x : WalletEntity) (rows : table.Rows)
      → table.save x rows ≡ (ok (saved x), (table.save x rows).1)
  saves x rows = ap (λ r. (r, (table.save x rows).1)) (laws.save_result x rows)

  debits :
      (id : String) (amount : Number) (w : WalletEntity) (rows : table.Rows)
      → laws.row rows id ≡ some w
      → can_debit w amount ≡ true
      → let x = with_balance (sub w.balance amount) w in
        debit table id amount rows ≡ (ok (saved x), (table.save x rows).1)
  debits id amount w rows h can = elim (debit_cases table laws keeps id amount rows) [
    | inl (gone, _) ↦ absurd (cc (gone, h))
    | inr (v, there, e) ↦
        let same : v ≡ w = cc (there, h) in
        e ∙ rw (same, can) (saves (with_balance (sub w.balance amount) w) rows)
  ]

  credits :
      (id : String) (amount : Number) (u : WalletEntity) (rows : table.Rows)
      → laws.row rows id ≡ some u
      → let y = with_balance (add u.balance amount) u in
        credit table id amount rows ≡ (ok (saved y), (table.save y rows).1)
  credits id amount u rows h = elim (credit_cases table laws keeps id amount rows) [
    | inl (gone, _) ↦ absurd (cc (gone, h))
    | inr (v, there, e) ↦
        let same : v ≡ u = cc (there, h) in
        e ∙ rw same (saves (with_balance (add u.balance amount) u) rows)
  ]

  -- A transfer that throws, at either wallet, leaves every row as it was.
  pub transfer_fails :
      (source target : String) (amount : Number) (rows : table.Rows) (e : Error)
      → (transfer table tx source target amount rows).0 ≡ err e
      → (transfer table tx source target amount rows).1 ≡ rows
  unfolding transfer
  transfer_fails source target amount rows e h =
      ap (λ p. p.1) (failed_writes_nothing tx tx_laws _ rows e h)

  -- Between two different wallets that have rows under their identifiers, of which the first can be
  -- debited, a transfer succeeds. Then the first row has the amount less, the second the amount
  -- more, and every other row is as it was.
  pub transfer_moves :
      (source target : String) (amount : Number) (w u : WalletEntity) (rows : table.Rows)
      → source ≢ target
      → laws.row rows source ≡ some w
      → laws.row rows target ≡ some u
      → w.id ≡ source
      → u.id ≡ target
      → can_debit w amount ≡ true
      → let (r, rows') = transfer table tx source target amount rows in
        let w' = saved (with_balance (sub w.balance amount) w) in
        let u' = saved (with_balance (add u.balance amount) u) in
        (r ≡ ok (w', u'))
        × (laws.row rows' source ≡ some w')
        × (laws.row rows' target ≡ some u')
        × ((k : String) → k ≢ source → k ≢ target → laws.row rows' k ≡ laws.row rows k)
  unfolding transfer
  transfer_moves source target amount w u rows ne hw hu iw iu can =
      let x = with_balance (sub w.balance amount) w in
      let y = with_balance (add u.balance amount) u in
      let rows1 = (table.save x rows).1 in
      let rows2 = (table.save y rows1).1 in
      let first = debits source amount w rows hw can in
      let still = laws.save_row x rows target ∙ rw iw (if_unequal source target _ _ ne) ∙ hu in
      let second = credits target amount u rows1 still in
      let op : Exec table.Rows (WalletEntity × WalletEntity) =
        debit table source amount >>= λ a. credit table target amount >>= λ b. pure (a, b) in
      let run : op rows ≡ (ok (saved x, saved y), rows2) = rw first (rw second) in
      let result =
        tx_laws.commit (WalletEntity × WalletEntity) op rows rows2 (saved x, saved y) run in
      rw result (
        refl,
        laws.save_row y rows1 source
            ∙ rw iu (if_unequal target source _ _ (λ e. ne (sym e)))
            ∙ laws.save_row x rows source
            ∙ rw (iw, eq_refl source),
        laws.save_row y rows1 target ∙ rw (iu, eq_refl target),
        λ k ks kt.
            laws.save_row y rows1 k
            ∙ rw iu (if_unequal target k _ _ (λ e. kt (sym e)))
            ∙ laws.save_row x rows k
            ∙ rw iw (if_unequal source k _ _ (λ e. ks (sym e))),
      )
