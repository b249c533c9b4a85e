-- ===== src/Holds.antt =====
-- wallet/domain/entities/hold.entity.ts: a hold and its changes of status. Times are milliseconds,
-- the present one an argument. Metadata and the row's own dates are left out.
pub mod Repository
pub mod Settled
pub mod Totals
pub mod Bulk
use Prim.Native.String.{◌++◌ as text_append}
use wallex_sanbox.Prelude.{
  ℕ, String, Bool, true, false, not, Option, none, some, ltb, if◌then◌else◌,
}
use wallex_sanbox.Number.{Number}
use wallex_sanbox.Exec.{plain, Result, ok, err}

pub data HoldStatus : Type 0 where
  active released expired captured : HoldStatus

pub data HoldType : Type 0 where
  payment authorization refund escrow other : HoldType

pub record HoldEntity : Type 0 where
  pub id : String
  pub wallet_id : String
  pub amount : Number
  pub status : HoldStatus
  pub hold_type : HoldType
  pub reference : Option String
  pub description : Option String
  pub expires_at : Option ℕ
  pub released_at : Option ℕ
  pub captured_at : Option ℕ

unfoldable pub is_active : HoldStatus → Bool
is_active active = true
is_active s = false

abbrev is_past : ℕ → Option ℕ → Bool
is_past now none = false
is_past now (some limit) = ltb limit now

abbrev expired_at : ℕ → Option ℕ → HoldStatus → Bool
expired_at now limit expired = true
expired_at now limit s = is_past now limit

unfoldable pub is_expired : ℕ → HoldEntity → Bool
is_expired now h = expired_at now h.expires_at h.status

-- The text of a status in a message.
abbrev pub status_text : HoldStatus → String
status_text active = "ACTIVE"
status_text released = "RELEASED"
status_text expired = "EXPIRED"
status_text captured = "CAPTURED"

abbrev cannot : String → HoldStatus → Result HoldEntity
cannot verb s = err (plain (text_append verb (text_append " hold in status: " (status_text s))))

unfoldable pub release : ℕ → HoldEntity → Result HoldEntity
unfolding is_active
release now h =
    if not (is_active h.status)
    then cannot "Cannot release" h.status
    else ok (record h { status = released; released_at = some now })

unfoldable pub capture : ℕ → HoldEntity → Result HoldEntity
unfolding is_active
capture now h =
    if not (is_active h.status)
    then cannot "Cannot capture" h.status
    else ok (record h { status = captured; captured_at = some now })

unfoldable pub expire : HoldEntity → Result HoldEntity
unfolding is_active
expire h =
    if not (is_active h.status)
    then cannot "Cannot expire" h.status
    else ok (record h { status = expired })
