-- ===== src/ReadModel.antt =====
-- wallet/infrastructure/read-model/wallet.entity.ts and
-- wallet/infrastructure/projections/read-model.projector.ts: the read model in a table. Its balance
-- is a decimal column without a transformer, which the driver of the database gives back as text.
-- How numbers are written as texts and read from them are parameters. Dates are left out.
pub mod Finite
pub mod Projected
use Prim.Native.String.{◌++◌ as text_append}
use wallex_sanbox.Prelude.{ℕ, ◌≡◌, String, Option, none, some, str_eq, if◌then◌else◌}
use wallex_sanbox.Number.{Number, zero_number, add, sub, is_truthy}
use wallex_sanbox.Exec.{Result, ok, Exec, pure, ◌>>=◌, ◌>>◌}
use wallex_sanbox.Domain.{EventData, wallet_created, wallet_credited, wallet_debited}
use wallex_sanbox.Outbox.{OutboxEvent}

-- What a variable of the language holds: a number, or the text of one.
pub data Value : Type 0 where
  number : Number → Value
  text : String → Value

-- `String(n)` and `Number(s)`
pub record Conversions : Type 0 where
  pub show : Number → String
  pub to_number : String → Number

pub record ReadWallet : Type 0 where
  pub id : String
  pub owner_id : String
  pub balance : Value

-- The calls of TypeORM's repository that the code makes.
pub record ReadTable : Type 1 where
  pub Rows : Type 0
  pub find_one : String → Rows → Result (Option ReadWallet)
  pub save : ReadWallet → Rows → Result ReadWallet × Rows
  -- `upsert(entity, ['id'])`
  pub upsert : ReadWallet → Rows → Result (Unit {0}) × Rows
  -- `update({ id }, { balance })`
  pub update_balance : String → Value → Rows → Result ℕ × Rows

-- `value || 0`
abbrev pub or_zero : Option Number → Number
or_zero none = zero_number
or_zero (some n) = if is_truthy n then n else zero_number

module _ (c : Conversions) where
  -- `value + n`, which joins texts
  abbrev pub plus : Value → Number → Value
  plus (number a) n = number (add a n)
  plus (text s) n = text (text_append s (c.show n))

  -- A value in an arithmetic operation other than `+`.
  abbrev pub numeric : Value → Number
  numeric (number a) = a
  numeric (text s) = c.to_number s

  abbrev pub minus : Value → Number → Value
  minus v n = number (sub (numeric v) n)

  module _ (table : ReadTable) where
    open table use {Rows}

    abbrev pub find : String → Exec Rows (Option ReadWallet)
    find wallet_id rows = (table.find_one wallet_id rows, rows)

    unfoldable pub handle_wallet_created : String → String → Option Number → Exec Rows (Unit {0})
    handle_wallet_created wallet_id owner_id initial_balance =
        table.upsert (record {
          id = wallet_id;
          owner_id = owner_id;
          balance = number (or_zero initial_balance);
        })

    abbrev pub save_if_found : (Value → Value) → Option ReadWallet → Exec Rows (Unit {0})
    save_if_found f none = pure tt
    save_if_found f (some w) = table.save (record w { balance = f w.balance }) >> pure tt

    unfoldable pub handle_wallet_credited : String → Number → Exec Rows (Unit {0})
    handle_wallet_credited wallet_id amount = find wallet_id >>= save_if_found (λ v. plus v amount)

    unfoldable pub handle_wallet_debited : String → Number → Exec Rows (Unit {0})
    handle_wallet_debited wallet_id amount = find wallet_id >>= save_if_found (λ v. minus v amount)

    abbrev pub apply_body : EventData → String → Exec Rows (Unit {0})
    apply_body (wallet_created owner initial) id = handle_wallet_created id owner initial
    apply_body (wallet_credited amount description) id = handle_wallet_credited id amount
    apply_body (wallet_debited amount description) id = handle_wallet_debited id amount

    -- `ReadModelProjector.apply`, where the type of the message is that of its payload
    unfoldable pub apply : OutboxEvent → Exec Rows (Unit {0})
    unfolding handle_wallet_created handle_wallet_credited handle_wallet_debited
    apply message = apply_body message.payload.body message.aggregate_id

-- What is documented of the table. A value goes into a decimal column if `stored` takes it, and comes
-- back as the text of the decimal.
pub record ReadTableLaws (t : ReadTable) : Type 0 where
  pub row : t.Rows → String → Option ReadWallet
  pub stored : Value → Option String
  pub find_one_law : (k : String) (rows : t.Rows) → t.find_one k rows ≡ ok (row rows k)
  pub save_law :
      (w : ReadWallet) (s : String) (rows : t.Rows)
      → stored w.balance ≡ some s
      → (k : String)
      → ((t.save w rows).0 ≡ ok (record w { balance = text s }))
        × (row (t.save w rows).1 k
            ≡ (if str_eq w.id k then some (record w { balance = text s }) else row rows k))
  pub upsert_law :
      (w : ReadWallet) (s : String) (rows : t.Rows)
      → stored w.balance ≡ some s
      → (k : String)
      → ((t.upsert w rows).0 ≡ ok tt)
        × (row (t.upsert w rows).1 k
            ≡ (if str_eq w.id k then some (record w { balance = text s }) else row rows k))
