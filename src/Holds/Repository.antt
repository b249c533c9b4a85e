-- ===== src/Holds/Repository.antt =====
-- wallet/infrastructure/persistence/hold.repository.ts: the holds' rows. The table is a parameter, and
-- so are the queries on it. A method's optional entity manager only chooses the connection.
use Prim.Native.String.{◌++◌ as text_append}
use wallex_sanbox.Prelude.{
  ℕ, String, Bool, false, ◌&&◌, Option, none, some, List, str_eq, ltb, if◌then◌else◌,
}
use wallex_sanbox.Number.{Number}
use wallex_sanbox.Exec.{plain, Result, ok, err, Exec, pure, throw, ◌>>=◌}
use wallex_sanbox.Database.{Table}
use wallex_sanbox.Holds.{
  HoldEntity, HoldType, active, expired, is_active, release as release_hold,
  capture as capture_hold, expire as expire_hold,
}

pub record CreateHoldDto : Type 0 where
  pub wallet_id : String
  pub amount : Number
  pub hold_type : HoldType
  pub reference : Option String
  pub description : Option String
  pub expires_at : Option ℕ

-- `text || null`
abbrev or_null : Option String → Option String
or_null none = none
or_null (some s) = if str_eq s "" then none else some s

-- A new row, at the identifier that the database gives it.
abbrev pub new_hold : String → CreateHoldDto → HoldEntity
new_hold id data' = record {
  id = id;
  wallet_id = data'.wallet_id;
  amount = data'.amount;
  status = active;
  hold_type = data'.hold_type;
  reference = or_null data'.reference;
  description = or_null data'.description;
  expires_at = data'.expires_at;
  released_at = none;
  captured_at = none;
}

-- A method of an entity within one of the repository.
abbrev pub lift : {S A : Type 0} → Result A → Exec S A
lift r s = (r, s)

module _ (table : Table HoldEntity) where
  open table use {Rows}

  unfoldable pub create : String → CreateHoldDto → Exec Rows HoldEntity
  create id data' = table.save (new_hold id data')

  abbrev pub find_by_id : String → Exec Rows (Option HoldEntity)
  find_by_id hold_id rows = (table.find_one hold_id rows, rows)

  abbrev found_or_throw : String → Option HoldEntity → Exec Rows HoldEntity
  found_or_throw hold_id none =
      throw (plain (text_append "Hold " (text_append hold_id " not found")))
  found_or_throw hold_id (some h) = pure h

  unfoldable pub find_by_id_or_fail : String → Exec Rows HoldEntity
  find_by_id_or_fail hold_id = find_by_id hold_id >>= found_or_throw hold_id

  unfoldable pub release : String → ℕ → Exec Rows HoldEntity
  unfolding find_by_id_or_fail
  release hold_id now = do
    h ← find_by_id_or_fail hold_id
    h' ← lift (release_hold now h)
    table.save h'

  unfoldable pub capture : String → ℕ → Exec Rows HoldEntity
  unfolding find_by_id_or_fail
  capture hold_id now = do
    h ← find_by_id_or_fail hold_id
    h' ← lift (capture_hold now h)
    table.save h'

  unfoldable pub expire : String → Exec Rows HoldEntity
  unfolding find_by_id_or_fail
  expire hold_id = do h ← find_by_id_or_fail hold_id; h' ← lift (expire_hold h); table.save h'

-- The queries of the repository and of its builder, on the rows of the table.
pub record HoldQueries (Rows : Type 0) : Type 0 where
  -- `find({ where })`, and with `order: { createdAt: 'DESC' }`
  pub find : (HoldEntity → Bool) → Rows → Result (List HoldEntity)
  pub find_newest : (HoldEntity → Bool) → Rows → Result (List HoldEntity)
  -- `findOne({ where })`
  pub find_one_where : (HoldEntity → Bool) → Rows → Result (Option HoldEntity)
  -- `SUM(hold.amount)`, which the driver returns as text, or null where there is no row
  pub sum_amount : (HoldEntity → Bool) → Rows → Result (Option String)
  -- `update({ id: In(<identifiers>) }, changes)`
  pub update_in : List String → (HoldEntity → HoldEntity) → Rows → Result (Unit {0}) × Rows

abbrev pub of_wallet : String → HoldEntity → Bool
of_wallet wallet_id h = str_eq h.wallet_id wallet_id

abbrev pub active_of : String → HoldEntity → Bool
active_of wallet_id h = of_wallet wallet_id h && is_active h.status

abbrev refers_to : String → HoldEntity → Bool
refers_to reference h = elim h.reference [ none ↦ false | some r ↦ str_eq r reference ]

-- `expiresAt: LessThan(new Date())`, which a missing time is not
abbrev pub overdue : ℕ → HoldEntity → Bool
overdue now h =
    is_active h.status && elim h.expires_at [ none ↦ false | some limit ↦ ltb limit now ]

-- `result?.total || '0'`
abbrev pub total_text : Option String → String
total_text none = "0"
total_text (some s) = if str_eq s "" then "0" else s

module _ {Rows : Type 0} (queries : HoldQueries Rows) where
  unfoldable pub find_by_wallet_id : String → Rows → Result (List HoldEntity)
  find_by_wallet_id wallet_id = queries.find_newest (of_wallet wallet_id)

  unfoldable pub find_active_by_wallet_id : String → Rows → Result (List HoldEntity)
  unfolding is_active
  find_active_by_wallet_id wallet_id = queries.find_newest (active_of wallet_id)

  unfoldable pub find_by_reference : String → Rows → Result (Option HoldEntity)
  find_by_reference reference = queries.find_one_where (refers_to reference)

  unfoldable pub calculate_total_active_holds : (String → Number) → String → Rows → Result Number
  unfolding is_active
  calculate_total_active_holds parse_float wallet_id rows =
      elim (queries.sum_amount (active_of wallet_id) rows) [
        | ok total ↦ ok (parse_float (total_text total))
        | err e ↦ err e
      ]

  unfoldable pub find_expired_active_holds : ℕ → Rows → Result (List HoldEntity)
  unfolding is_active
  find_expired_active_holds now = queries.find (overdue now)

  unfoldable pub bulk_expire : List String → Exec Rows (Unit {0})
  bulk_expire hold_ids = queries.update_in hold_ids (λ h. record h { status = expired })
