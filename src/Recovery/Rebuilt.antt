-- ===== src/Recovery/Rebuilt.antt =====
-- The balances that a rebuild writes.
use wallex_sanbox.Prelude.{
  ◌≡◌, refl, ap, ◌∙◌, String, false, Option, some, get_or, List, [], ◌∷◌, str_eq, eq_refl, ◌≢◌,
  eq_iff, All, Bool-cases, inl, inr,
}
use wallex_sanbox.Prelude.Int.{ℤ, pos, ◌+ℤ◌, ◌-ℤ◌, int_laws}
use wallex_sanbox.Number.{fin, nan, infinity, neg_infinity, add, sub}
use wallex_sanbox.Exec.{ok}
use wallex_sanbox.Domain.{
  EventData, wallet_created, wallet_credited, wallet_debited, StoredWalletEvent,
}
use wallex_sanbox.Aggregate.{WalletAggregate, rehydrate}
use wallex_sanbox.Aggregate.Balance.{
  IsMove, credit_of, debit_of, total_credited, total_debited, balance_of, balance_sums, regroup,
}
use wallex_sanbox.EventStore.Client.{KurrentClient, KurrentLaws}
use wallex_sanbox.EventStore.Read.{IsStream, read_stream_lem}
use wallex_sanbox.ReadModel.{ReadWallet, ReadTable, ReadTableLaws, number, text}
use wallex_sanbox.ReadModel.Finite.{initial_number, or_zero_finite}
use wallex_sanbox.Recovery.{
  RebuiltState, rebuild_body, rebuild_events, initial_rebuild, rebuild_wallet_read_model,
}

rebuild_step :
    (body : EventData) (s : RebuiltState) (b : ℤ)
    → IsMove body
    → s.balance ≡ fin b
    → ((rebuild_body body s).balance ≡ fin (b +ℤ credit_of body -ℤ debit_of body))
      × ((rebuild_body body s).owner_id ≡ s.owner_id)
unfolding add sub
rebuild_step (wallet_credited (fin x) d) s b m h = (rw h (ap fin (omega int_laws)), refl)
rebuild_step (wallet_debited (fin x) d) s b m h = (rw h (ap fin (omega int_laws)), refl)
rebuild_step (wallet_credited nan d) s b m h = absurd m
rebuild_step (wallet_credited infinity d) s b m h = absurd m
rebuild_step (wallet_credited neg_infinity d) s b m h = absurd m
rebuild_step (wallet_debited nan d) s b m h = absurd m
rebuild_step (wallet_debited infinity d) s b m h = absurd m
rebuild_step (wallet_debited neg_infinity d) s b m h = absurd m
rebuild_step (wallet_created o i) s b m h = absurd m

pub rebuild_moves :
    (es : List StoredWalletEvent) (s : RebuiltState) (b : ℤ)
    → All (λ e. IsMove e.body) es
    → s.balance ≡ fin b
    → let s' = rebuild_events es s in
      (s'.balance ≡ fin (b +ℤ total_credited es -ℤ total_debited es)) × (s'.owner_id ≡ s.owner_id)
unfolding rebuild_events total_credited total_debited
rebuild_moves [] s b m h = (h ∙ ap fin (omega int_laws), refl)
rebuild_moves (e ∷ es) s b m h =
    let (balance, owner) = rebuild_step e.body s b m.0 h in
    let (sum, same) =
      rebuild_moves es (rebuild_body e.body s) (b +ℤ credit_of e.body -ℤ debit_of e.body) m.1
        balance in
    (
      sum
          ∙ ap fin (
              regroup b (credit_of e.body) (debit_of e.body) (total_credited es)
                (total_debited es)),
      same ∙ owner,
    )

rebuild_history :
    (owner : String) (initial : Option ℤ) (e : StoredWalletEvent) (es : List StoredWalletEvent)
    → e.body ≡ wallet_created owner (initial_number initial)
    → All (λ e. IsMove e.body) es
    → rebuild_events (e ∷ es) initial_rebuild ≡ record {
      balance = fin (get_or initial (pos 0) +ℤ total_credited es -ℤ total_debited es);
      owner_id = some owner;
    }
unfolding rebuild_events
rebuild_history owner initial e es h m =
    let first = rebuild_body e.body initial_rebuild in
    let first_balance : first.balance ≡ fin (get_or initial (pos 0)) =
      rw h (or_zero_finite initial) in
    let first_owner : first.owner_id ≡ some owner = rw h refl in
    let (sum, same) = rebuild_moves es first (get_or initial (pos 0)) m first_balance in
    λ i. record { balance = sum i; owner_id = (same ∙ first_owner) i }

not_empty : (s : String) → s ≢ "" → str_eq s "" ≡ false
not_empty s h = elim (Bool-cases (str_eq s "")) [
  | inl e ↦ absurd (h ((eq_iff s "").0 e))
  | inr e ↦ e
]

module _ {client : KurrentClient} (laws : KurrentLaws client) (table : ReadTable)
    (table_laws : ReadTableLaws table) where
  -- Take a wallet whose stream holds a creation, with a finite initial balance or none and an owner
  -- that is not the empty text, and then credits and debits of finite amounts, and a column that
  -- takes the balance. A rebuild then succeeds, and the row that it writes has a balance that is the
  -- balance of the rehydrated aggregate plus the initial balance. The event store stays as it was.
  pub rebuilt_exceeds :
      (now id owner s : String) (initial : Option ℤ) (e : StoredWalletEvent)
      (es : List StoredWalletEvent) (db : client.Db) (rows : table.Rows)
      → IsStream laws db id (e ∷ es)
      → e.body ≡ wallet_created owner (initial_number initial)
      → All (λ x. IsMove x.body) es
      → owner ≢ ""
      → table_laws.stored
          (number (fin (get_or initial (pos 0) +ℤ total_credited es -ℤ total_debited es)))
        ≡ some s
      → let (r, (db', rows')) = rebuild_wallet_read_model client table id (db, rows) in
        (a : WalletAggregate) × (b : ℤ) × (r ≡ ok tt)
        × (db' ≡ db)
        × (rehydrate now id (e ∷ es) ≡ ok a)
        × (balance_of a.state ≡ some (fin b))
        × (table_laws.row rows' id ≡ some (record { id = id; owner_id = owner; balance = text s }))
        × (table_laws.stored (number (fin (get_or initial (pos 0) +ℤ b))) ≡ some s)
  unfolding rebuild_wallet_read_model
  rebuilt_exceeds now id owner s initial e es db rows st k m named fits =
      let (a, run, balance) = balance_sums now id owner (initial_number initial) e es k m in
      let total = fin (get_or initial (pos 0) +ℤ total_credited es -ℤ total_debited es) in
      let w : ReadWallet = record { id = id; owner_id = owner; balance = number total } in
      let no_empty : str_eq owner "" ≡ false = not_empty owner named in
      let (written, _) = table_laws.upsert_law w s rows fits id in
      rw (read_stream_lem laws id db (e ∷ es) st, rebuild_history owner initial e es k m, no_empty)
        (
          a,
          total_credited es -ℤ total_debited es,
          written,
          refl,
          run,
          balance,
          (table_laws.upsert_law w s rows fits id).1 ∙ rw (eq_refl id) refl,
          ap (λ z. table_laws.stored (number (fin z))) (omega int_laws) ∙ fits,
        )
