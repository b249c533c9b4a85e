-- ===== src/Wallets/Funds.antt =====
-- The rows keep what is available equal to the balance less what is held, and a transfer moves
-- the amount or changes nothing.
use wallex_sanbox.Prelude.{
  ℕ, ◌≡◌, refl, ◌≢◌, String, false, none, some, eq_iff, arith, inl, inr, ◌⊎◌, Option-cases,
  Bool-cases, if◌then◌else◌, ◌==◌,
}
use wallex_sanbox.Prelude.Int.{pos}
use wallex_sanbox.Number.{Number, add, sub}
use wallex_sanbox.Exec.{not_found, insufficient_funds, event_concurrency, ok, err}
use wallex_sanbox.Database.{Table, TableLaws}
use wallex_sanbox.Wallets.{
  WalletEntity, can_debit, credit, debit, with_balance, with_held, update_held_balance,
  update_with_version_check, find_by_id_or_fail,
}

-- What is available is the balance less what is held.
abbrev pub IsConsistent : WalletEntity → Type 0
IsConsistent w = w.available_balance ≡ sub w.balance w.held_balance

-- What saving a row may not change.
pub record KeepsFunds (saved : WalletEntity → WalletEntity) : Type 0 where
  pub balance : (w : WalletEntity) → (saved w).balance ≡ w.balance
  pub held : (w : WalletEntity) → (saved w).held_balance ≡ w.held_balance
  pub available : (w : WalletEntity) → (saved w).available_balance ≡ w.available_balance

module _ (table : Table WalletEntity) {saved : WalletEntity → WalletEntity}
    (laws : TableLaws table (λ w. w.id) saved) (keeps : KeepsFunds saved) where
  -- Every row is filed under its own identifier, and is consistent.
  pub record IsValid (rows : table.Rows) : Type 0 where
    pub filed : (k : String) (w : WalletEntity) → laws.row rows k ≡ some w → w.id ≡ k
    pub consistent : (k : String) (w : WalletEntity) → laws.row rows k ≡ some w → IsConsistent w

  saved-IsConsistent : (w : WalletEntity) → IsConsistent w → IsConsistent (saved w)
  saved-IsConsistent w c = cc (keeps.available w, keeps.balance w, keeps.held w, c)

  -- Saving a consistent row keeps the table valid.
  save-IsValid :
      (w : WalletEntity) (rows : table.Rows)
      → IsConsistent w
      → IsValid rows
      → IsValid (table.save w rows).1
  save-IsValid w rows c v = record {
    filed = λ k x h.
        ground (arith, laws.save_row w rows k, eq_iff w.id k, laws.saved_key w, v.filed k x, h);
    consistent = λ k x h.
        ground (arith, laws.save_row w rows k, saved-IsConsistent w c, v.consistent k x, h);
  }

  pub found :
      (id : String) (w : WalletEntity) (rows : table.Rows)
      → laws.row rows id ≡ some w
      → find_by_id_or_fail table id rows ≡ (ok w, rows)
  unfolding find_by_id_or_fail
  found id w rows h = rw (laws.find_one_law, h)

  pub missing :
      (id : String) (rows : table.Rows)
      → laws.row rows id ≡ none
      → find_by_id_or_fail table id rows ≡ (err (not_found id), rows)
  unfolding find_by_id_or_fail
  missing id rows h = rw (laws.find_one_law, h)

  -- What a credit does on every branch.
  pub credit_cases :
      (id : String) (amount : Number) (rows : table.Rows)
      → ((laws.row rows id ≡ none) × (credit table id amount rows ≡ (err (not_found id), rows)))
        ⊎ ((w : WalletEntity) × (laws.row rows id ≡ some w)
            × (credit table id amount rows
                ≡ table.save (with_balance (add w.balance amount) w) rows))
  unfolding credit
  credit_cases id amount rows = elim (Option-cases (laws.row rows id)) [
    | inl h ↦ inl (h, rw (missing id rows h))
    | inr (w, h) ↦ inr (w, h, rw (found id w rows h))
  ]

  pub debit_cases :
      (id : String) (amount : Number) (rows : table.Rows)
      → ((laws.row rows id ≡ none) × (debit table id amount rows ≡ (err (not_found id), rows)))
        ⊎ ((w : WalletEntity) × (laws.row rows id ≡ some w)
            × (debit table id amount rows ≡ (
                if can_debit w amount
                then table.save (with_balance (sub w.balance amount) w) rows
                else (err (insufficient_funds id w.available_balance amount), rows))))
  unfolding debit
  debit_cases id amount rows = elim (Option-cases (laws.row rows id)) [
    | inl h ↦ inl (h, rw (missing id rows h))
    | inr (w, h) ↦ inr (
      w,
      h,
      elim (Bool-cases (can_debit w amount)) [
        | inl e ↦ rw (found id w rows h, e)
        | inr e ↦ rw (found id w rows h, e)
      ],
    )
  ]

  pub credit-IsValid :
      (id : String) (amount : Number) (rows : table.Rows)
      → IsValid rows
      → IsValid (credit table id amount rows).1
  credit-IsValid id amount rows v = elim (credit_cases id amount rows) [
    | inl (_, e) ↦ rw e v
    | inr (w, h, e) ↦ rw e (save-IsValid (with_balance (add w.balance amount) w) rows refl v)
  ]

  pub debit-IsValid :
      (id : String) (amount : Number) (rows : table.Rows)
      → IsValid rows
      → IsValid (debit table id amount rows).1
  debit-IsValid id amount rows v = elim (debit_cases id amount rows) [
    | inl (_, e) ↦ rw e v
    | inr (w, h, e) ↦ elim (Bool-cases (can_debit w amount)) [
      | inl can ↦ rw (e, can) (save-IsValid (with_balance (sub w.balance amount) w) rows refl v)
      | inr short ↦ rw (e, short) v
    ]
  ]

  -- Writing a held balance, whatever it is and whether or not there is a row, keeps every row filed
  -- under its identifier with an available balance that is the balance less what is held.
  pub update_held_balance-IsValid :
      (id : String) (held : Number) (rows : table.Rows)
      → IsValid rows
      → IsValid (update_held_balance table id held rows).1
  unfolding update_held_balance
  update_held_balance-IsValid id held rows v = elim (Option-cases (laws.row rows id)) [
    | inl h ↦ rw (missing id rows h) v
    | inr (w, h) ↦ rw (found id w rows h) (save-IsValid (with_held held w) rows refl v)
  ]

  -- An update of a row at a version that is not the row's is refused and writes nothing.
  pub update_stale :
      (id : String) (expected : ℕ) (updates : WalletEntity → WalletEntity) (w : WalletEntity)
      (rows : table.Rows)
      → laws.row rows id ≡ some w
      → w.version ≢ expected
      → update_with_version_check table id expected updates rows
        ≡ (err (event_concurrency (pos expected) (pos w.version)), rows)
  unfolding update_with_version_check
  update_stale id expected updates w rows h ne =
      let differs : (w.version == expected) ≡ false = ground arith in
      rw (found id w rows h, differs)
