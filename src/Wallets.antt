-- ===== src/Wallets.antt =====
-- wallet/domain/entities/wallet.entity.ts and wallet/infrastructure/persistence/wallet.repository.ts:
-- the write-side rows of the wallets. The table and transactions are parameters. A method's optional
-- entity manager only chooses the connection. Metadata, dates and the list of holds are left out.
pub mod Funds
pub mod Transfer
use wallex_sanbox.Prelude.{
  ℕ, String, Bool, true, false, not, ◌&&◌, Option, none, some, ◌==◌, if◌then◌else◌,
}
use wallex_sanbox.Prelude.Int.{pos}
use wallex_sanbox.Number.{Number, zero_number, add, sub, le}
use wallex_sanbox.Exec.{
  Error, already_exists, not_found, insufficient_funds, event_concurrency, Result, ok, err, Exec,
  pure, throw, ◌>>=◌, ◌>>◌, throw_if,
}
use wallex_sanbox.Database.{Table}

pub data WalletStatus : Type 0 where
  active suspended closed : WalletStatus

pub record WalletEntity : Type 0 where
  pub id : String
  pub owner_id : String
  pub balance : Number
  pub held_balance : Number
  pub available_balance : Number
  pub status : WalletStatus
  pub version : ℕ
  pub currency : String

-- `dataSource.transaction`
pub record Transactions (S : Type 0) : Type 1 where
  pub transaction : (A : Type 0) → Exec S A → Exec S A

unfoldable pub is_active : WalletStatus → Bool
is_active active = true
is_active s = false

unfoldable pub calculate_available_balance : WalletEntity → Number
calculate_available_balance w = sub w.balance w.held_balance

unfoldable pub can_debit : WalletEntity → Number → Bool
unfolding is_active
can_debit w amount = is_active w.status && le amount w.available_balance

-- A new balance, and the available one that follows.
abbrev pub with_balance : Number → WalletEntity → WalletEntity
with_balance b w = record w { balance = b; available_balance = sub b w.held_balance }

abbrev pub with_held : Number → WalletEntity → WalletEntity
with_held h w = record w { held_balance = h; available_balance = sub w.balance h }

module _ (table : Table WalletEntity) where
  open table use {Rows}

  abbrev pub find_by_id : String → Exec Rows (Option WalletEntity)
  find_by_id wallet_id rows = (table.find_one wallet_id rows, rows)

  abbrev found_or_throw : String → Option WalletEntity → Exec Rows WalletEntity
  found_or_throw wallet_id none = throw (not_found wallet_id)
  found_or_throw wallet_id (some w) = pure w

  unfoldable pub find_by_id_or_fail : String → Exec Rows WalletEntity
  find_by_id_or_fail wallet_id = find_by_id wallet_id >>= found_or_throw wallet_id

  abbrev pub new_wallet : String → String → Number → String → WalletEntity
  new_wallet wallet_id owner initial currency = record {
    id = wallet_id;
    owner_id = owner;
    balance = initial;
    held_balance = zero_number;
    available_balance = initial;
    status = active;
    version = 0;
    currency = currency;
  }

  abbrev create_if_none :
      String → String → Number → String → Option WalletEntity → Exec Rows WalletEntity
  create_if_none wallet_id owner initial currency (some w) = throw (already_exists wallet_id)
  create_if_none wallet_id owner initial currency none =
      table.save (new_wallet wallet_id owner initial currency)

  unfoldable pub create : String → String → Number → String → Exec Rows WalletEntity
  create wallet_id owner initial currency =
      find_by_id wallet_id >>= create_if_none wallet_id owner initial currency

  unfoldable pub credit : String → Number → Exec Rows WalletEntity
  unfolding find_by_id_or_fail
  credit wallet_id amount = do
    w ← find_by_id_or_fail wallet_id
    table.save (with_balance (add w.balance amount) w)

  unfoldable pub debit : String → Number → Exec Rows WalletEntity
  unfolding find_by_id_or_fail can_debit
  debit wallet_id amount = do
    w ← find_by_id_or_fail wallet_id
    throw_if (not (can_debit w amount)) (insufficient_funds wallet_id w.available_balance amount)
    table.save (with_balance (sub w.balance amount) w)

  -- The updates are any change of the entity's fields.
  unfoldable pub update_with_version_check :
      String → ℕ → (WalletEntity → WalletEntity) → Exec Rows WalletEntity
  unfolding find_by_id_or_fail
  update_with_version_check wallet_id expected_version updates = do
    w ← find_by_id_or_fail wallet_id
    throw_if (not (w.version == expected_version))
        (event_concurrency (pos expected_version) (pos w.version))
    table.save (updates w)

  unfoldable pub update_status : String → WalletStatus → Exec Rows WalletEntity
  unfolding find_by_id_or_fail
  update_status wallet_id status = do
    w ← find_by_id_or_fail wallet_id
    table.save (record w { status = status })

  unfoldable pub update_held_balance : String → Number → Exec Rows WalletEntity
  unfolding find_by_id_or_fail
  update_held_balance wallet_id held_balance = do
    w ← find_by_id_or_fail wallet_id
    table.save (with_held held_balance w)

  unfoldable pub transfer :
      Transactions Rows → String → String → Number → Exec Rows (WalletEntity × WalletEntity)
  transfer tx from_wallet_id to_wallet_id amount = tx.transaction (WalletEntity × WalletEntity) (do
    source ← debit from_wallet_id amount
    target ← credit to_wallet_id amount
    pure (source, target))
