-- ===== src/Ledger/Projection.antt =====
-- ledger/application/ledger-projection.service.ts and the handlers of
-- ledger/application/event-handlers: entries for a wallet's events, with the balances before and
-- after from a map that the service keeps. Metadata is left out.
use Prim.Native.Char.{code}
use wallex_sanbox.Prelude.{
  ℕ, String, Bool, ◌||◌, Option, none, some, List, [], ◌∷◌, str_eq, get_or, is_some, ◌==◌,
  if◌then◌else◌,
}
use wallex_sanbox.Number.{Number, zero_number, add, sub, lt}
use wallex_sanbox.Domain.{
  EventData, wallet_created, wallet_credited, wallet_debited, StoredWalletEvent,
}
use wallex_sanbox.Ledger.{LedgerTable, LedgerEntry, credit, debit, transfer_out, record_entry}

-- What `.` of a regular expression does not match.
abbrev pub is_line_end : ℕ → Bool
is_line_end c = c == 10 || (c == 13 || (c == 8232 || c == 8233))

-- `.+`, greedy: the rest of the line
unfoldable pub rest_of_line : String → String
rest_of_line String.[] = String.[]
rest_of_line (String.◌∷◌ c s) =
    if is_line_end (code c) then String.[] else String.◌∷◌ c (rest_of_line s)

-- The text behind a prefix.
unfoldable pub after_prefix : String → String → Option String
after_prefix String.[] s = some s
after_prefix (String.◌∷◌ c p) String.[] = none
after_prefix (String.◌∷◌ c p) (String.◌∷◌ d s) =
    let rest = after_prefix p s in if code c == code d then rest else none

abbrev pub group : Option String → Option String
group none = none
group (some s) = let line = rest_of_line s in if str_eq line "" then none else some line

abbrev pub first_of : Option String → Option String → Option String
first_of none o = o
first_of (some s) o = some s

abbrev pub match_here : String → Option String
match_here s =
    first_of (group (after_prefix "Transfer to wallet " s))
      (group (after_prefix "Transfer from wallet " s))

-- `description.match(/Transfer (?:to|from) wallet (.+)/)`, with its group
unfoldable pub related_wallet : String → Option String
unfolding rest_of_line after_prefix
related_wallet String.[] = match_here String.[]
related_wallet (String.◌∷◌ c s) = first_of (match_here (String.◌∷◌ c s)) (related_wallet s)

-- `text || fallback`
abbrev text_or : Option String → String → String
text_or none d = d
text_or (some s) d = if str_eq s "" then d else s

abbrev pub created_ledger_entry : String → Number → LedgerEntry
created_ledger_entry wallet_id initial = record {
  wallet_id = wallet_id;
  transaction_type = credit;
  amount = initial;
  balance_before = zero_number;
  balance_after = initial;
  description = some "Initial balance";
  reference_id = none;
  related_wallet_id = none;
}

abbrev pub credited_ledger_entry : String → Number → Option String → Number → Number → LedgerEntry
credited_ledger_entry wallet_id amount description before after = record {
  wallet_id = wallet_id;
  transaction_type = credit;
  amount = amount;
  balance_before = before;
  balance_after = after;
  description = some (text_or description "Credit transaction");
  reference_id = none;
  related_wallet_id = none;
}

abbrev pub debited_ledger_entry :
    String → Number → Option String → Number → Number → Option String → LedgerEntry
debited_ledger_entry wallet_id amount description before after related = record {
  wallet_id = wallet_id;
  transaction_type = if is_some related then transfer_out else debit;
  amount = amount;
  balance_before = before;
  balance_after = after;
  description =
      some (text_or description (if is_some related then "Transfer out" else "Debit transaction"));
  reference_id = none;
  related_wallet_id = related;
}

-- The service's map of balances, and the rows.
pub record LedgerProjection (R : Type 0) : Type 0 where
  pub balance_cache : String → Option Number
  pub rows : R

abbrev pub set_balance : String → Number → (String → Option Number) → String → Option Number
set_balance k v m j = if str_eq k j then some v else m j

unfoldable pub clear_cache : {R : Type 0} → LedgerProjection R → LedgerProjection R
clear_cache s = record s { balance_cache = λ k. none }

module _ (table : LedgerTable) where
  abbrev pub State : Type 0
  State = LedgerProjection table.Rows

  -- A handler logs what recording throws.
  unfoldable pub handle : LedgerEntry → State → State
  unfolding record_entry
  handle entry s = record s { rows = (record_entry table entry s.rows).1 }

  abbrev on_wallet_created : String → Number → State → State
  on_wallet_created id initial s =
      let cached = record s { balance_cache = set_balance id initial s.balance_cache } in
      if lt zero_number initial then handle (created_ledger_entry id initial) cached else cached

  abbrev on_wallet_credited : String → Number → Option String → State → State
  on_wallet_credited id amount description s =
      let before = get_or (s.balance_cache id) zero_number in
      let after = add before amount in
      handle (credited_ledger_entry id amount description before after)
        (record s { balance_cache = set_balance id after s.balance_cache })

  abbrev on_wallet_debited : String → Number → Option String → State → State
  on_wallet_debited id amount description s =
      let before = get_or (s.balance_cache id) zero_number in
      let after = sub before amount in
      handle
        (debited_ledger_entry id amount description before after
          (related_wallet (get_or description "")))
        (record s { balance_cache = set_balance id after s.balance_cache })

  abbrev pub on_event : EventData → String → State → State
  on_event (wallet_created owner initial) id s = on_wallet_created id (get_or initial zero_number) s
  on_event (wallet_credited amount description) id s = on_wallet_credited id amount description s
  on_event (wallet_debited amount description) id s = on_wallet_debited id amount description s

  unfoldable pub project : List StoredWalletEvent → State → State
  unfolding handle related_wallet
  project [] s = s
  project (e ∷ es) s = project es (on_event e.body e.event.aggregate_id s)
