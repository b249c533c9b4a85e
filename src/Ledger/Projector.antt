-- ===== src/Ledger/Projector.antt =====
-- wallet/infrastructure/projections/ledger.projector.ts: the ledger's entries from the messages of the
-- outbox. The clock is an argument, as the text of `Date.now()`. `unit` is one, in the smallest unit
-- of amounts. Metadata and logs are left out.
pub mod Chain
pub mod Whole
pub mod Duplicates
use Prim.Native.String.{◌++◌ as text_append}
use wallex_sanbox.Prelude.{
  ℕ, suc, ◌+◌, ◌-◌, ◌*◌, ◌/◌, String, Bool, true, false, not, Option, none, some, str_eq, get_or,
  if◌then◌else◌,
}
use wallex_sanbox.Prelude.Int.{ℤ, pos, negsuc, ◌-ℤ◌}
use wallex_sanbox.Number.{
  Number, fin, nan, infinity, neg_infinity, zero_number, add, sub, is_truthy,
}
use wallex_sanbox.Exec.{Error, unique_violation, Result, ok, err, Exec, pure, ◌>>=◌}
use wallex_sanbox.Domain.{EventData, wallet_created, wallet_credited, wallet_debited}
use wallex_sanbox.Outbox.{OutboxEvent}
use wallex_sanbox.ReadModel.{or_zero}
use wallex_sanbox.Ledger.{LedgerTable, LedgerEntry, LedgerRow, TransactionType, credit, debit}

-- To the nearest whole number, upwards from the middle of two.
unfoldable pub round_integer : ℕ → ℤ → ℤ
round_integer unit (pos n) = pos ((2 * n + unit) / (2 * unit) * unit)
round_integer unit (negsuc n) = pos 0 -ℤ pos ((2 * suc n + unit - 1) / (2 * unit) * unit)

-- `Math.round(n)`
unfoldable pub round : ℕ → Number → Number
unfolding round_integer
round unit (fin z) = fin (round_integer unit z)
round unit n = n

-- `metadata.eventId`, which no metadata of the outbox has
abbrev event_id : Option String
event_id = none

abbrev text_or : Option String → String → String
text_or none d = d
text_or (some s) d = if str_eq s "" then d else s

abbrev pub entry_of :
    String → TransactionType → Number → Number → Number → String → String → LedgerEntry
entry_of wallet_id kind amount before after description reference = record {
  wallet_id = wallet_id;
  transaction_type = kind;
  amount = amount;
  balance_before = before;
  balance_after = after;
  description = some description;
  reference_id = some (text_or event_id reference);
  related_wallet_id = none;
}

abbrev pub created_reference : String → String
created_reference wallet_id = text_append wallet_id "-created"

abbrev pub credited_reference : String → String → String
credited_reference wallet_id now = text_append wallet_id (text_append "-credited-" now)

abbrev pub debited_reference : String → String → String
debited_reference wallet_id now = text_append wallet_id (text_append "-debited-" now)

-- `latestEntry ? latestEntry.balanceAfter : 0`
abbrev pub balance_after_or_zero : Option LedgerRow → Number
balance_after_or_zero none = zero_number
balance_after_or_zero (some r) = r.entry.balance_after

module _ (unit : ℕ) (table : LedgerTable) where
  open table use {Rows}

  -- A duplicate reference is ignored.
  abbrev without_duplicate : Result (Unit {0}) × Rows → Result (Unit {0}) × Rows
  without_duplicate (err unique_violation, rows) = (ok tt, rows)
  without_duplicate (r, rows) = (r, rows)

  unfoldable pub insert_once : LedgerEntry → Exec Rows (Unit {0})
  insert_once entry rows = without_duplicate (table.insert entry rows)

  unfoldable pub handle_wallet_created : String → Option Number → Exec Rows (Unit {0})
  unfolding round
  handle_wallet_created wallet_id initial_balance =
      let amount = round unit (or_zero initial_balance) in
      if not (is_truthy amount)
      then pure tt
      else insert_once (
          entry_of wallet_id credit amount zero_number amount "Initial balance"
            (created_reference wallet_id))

  abbrev find_latest : String → Exec Rows (Option LedgerRow)
  find_latest wallet_id rows = (table.find_latest wallet_id rows, rows)

  unfoldable pub handle_wallet_credited :
      String → String → Number → Option String → Exec Rows (Unit {0})
  unfolding round
  handle_wallet_credited now wallet_id amount description = do
    let amt = round unit (or_zero (some amount))
    latest ← find_latest wallet_id
    let before = round unit (balance_after_or_zero latest)
    insert_once (
        entry_of wallet_id credit amt before (add before amt) (text_or description "Credit")
          (credited_reference wallet_id now))

  unfoldable pub handle_wallet_debited :
      String → String → Number → Option String → Exec Rows (Unit {0})
  unfolding round
  handle_wallet_debited now wallet_id amount description = do
    let amt = round unit (or_zero (some amount))
    latest ← find_latest wallet_id
    let before = round unit (balance_after_or_zero latest)
    insert_once (
        entry_of wallet_id debit amt before (sub before amt) (text_or description "Debit")
          (debited_reference wallet_id now))

  abbrev pub apply_body : String → EventData → String → Exec Rows (Unit {0})
  apply_body now (wallet_created owner initial) id = handle_wallet_created id initial
  apply_body now (wallet_credited amount description) id =
      handle_wallet_credited now id amount description
  apply_body now (wallet_debited amount description) id =
      handle_wallet_debited now id amount description

  -- `LedgerProjector.apply`, where the type of the message is that of its payload
  unfoldable pub apply : String → OutboxEvent → Exec Rows (Unit {0})
  apply now message = apply_body now message.payload.body message.aggregate_id
