-- ===== src/ReadModel/Projected.antt =====
-- What the projector of the read model leaves in the row of a wallet.
use wallex_sanbox.Prelude.{◌≡◌, refl, ◌∙◌, String, some, eq_refl}
use wallex_sanbox.Exec.{ok}
use wallex_sanbox.Domain.{EventData, wallet_created, wallet_credited, wallet_debited}
use wallex_sanbox.Outbox.{OutboxEvent}
use wallex_sanbox.ReadModel.{
  Conversions, ReadWallet, ReadTable, ReadTableLaws, Value, number, text, or_zero, apply,
  apply_body, plus, minus, handle_wallet_credited, handle_wallet_debited,
}

-- A credit or a debit.
abbrev pub IsChange : EventData → Type 0
IsChange (wallet_created owner initial) = ⊥
IsChange e = Unit

module _ (c : Conversions) (table : ReadTable) (laws : ReadTableLaws table) where
  -- The row of a wallet, under its identifier, with the text of its balance.
  pub record HasText (rows : table.Rows) (id owner s : String) : Type 0 where
    pub stored_row :
        laws.row rows id ≡ some (record { id = id; owner_id = owner; balance = text s })

  saved_text :
      (w : ReadWallet) (s : String) (rows : table.Rows)
      → laws.stored w.balance ≡ some s
      → HasText (table.save w rows).1 w.id w.owner_id s
  saved_text w s rows h = record {
    stored_row = (laws.save_law w s rows h w.id).1 ∙ rw (eq_refl w.id) refl;
  }

  -- What a message makes of the balance that the driver gives back.
  abbrev pub moved : EventData → Value → Value
  moved (wallet_created owner initial) v = number (or_zero initial)
  moved (wallet_credited amount description) v = plus c v amount
  moved (wallet_debited amount description) v = minus c v amount

  move_body :
      (body : EventData) (id owner s t : String) (rows : table.Rows)
      → IsChange body
      → HasText rows id owner s
      → laws.stored (moved body (text s)) ≡ some t
      → let (r, rows') = apply_body c table body id rows in (r ≡ ok tt) × HasText rows' id owner t
  unfolding handle_wallet_credited handle_wallet_debited
  move_body (wallet_credited amount d) id owner s t rows m h e =
      let w : ReadWallet = record { id = id; owner_id = owner; balance = plus c (text s) amount } in
      rw (laws.find_one_law, h.stored_row)
        (rw ((laws.save_law w t rows e id).0) (refl, saved_text w t rows e))
  move_body (wallet_debited amount d) id owner s t rows m h e =
      let w : ReadWallet = record {
        id = id;
        owner_id = owner;
        balance = minus c (text s) amount;
      } in
      rw (laws.find_one_law, h.stored_row)
        (rw ((laws.save_law w t rows e id).0) (refl, saved_text w t rows e))
  move_body (wallet_created o i) id owner s t rows m h e = absurd m

  -- A credit of a wallet whose row has the balance `s` as text succeeds where the column takes what
  -- it writes, which is the text `s` with the text of the amount behind it, no sum. A debit writes
  -- the number that `s` stands for less the amount.
  pub change_writes :
      (message : OutboxEvent) (owner s t : String) (rows : table.Rows)
      → IsChange message.payload.body
      → HasText rows message.aggregate_id owner s
      → laws.stored (moved message.payload.body (text s)) ≡ some t
      → let (r, rows') = apply c table message rows in
        (r ≡ ok tt) × HasText rows' message.aggregate_id owner t
  unfolding apply
  change_writes message owner s t rows =
      move_body message.payload.body message.aggregate_id owner s t rows
