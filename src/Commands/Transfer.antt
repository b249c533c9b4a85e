-- ===== src/Commands/Transfer.antt =====
-- wallet/application/commands/handlers/transfer-wallet.handler.ts. `Promise.all` runs both calls to
-- the end; here the one for the source first, which touches other streams and rows.
pub mod Moves
pub mod Halves
pub mod Order
pub mod Locks
use Prim.Native.Nat.{Ordering}
use Prim.Native.String.{◌++◌ as text_append, compare}
use wallex_sanbox.Prelude.{
  ℕ, String, Bool, true, false, Option, none, some, List, length, if◌then◌else◌, str_eq,
}
use wallex_sanbox.Prelude.Int.{ℤ, pos, ◌+ℤ◌}
use wallex_sanbox.Number.{Number}
use wallex_sanbox.Exec.{Error, plain, not_found, Result, ok, err, Exec, pure, throw, ◌>>=◌, ◌>>◌}
use wallex_sanbox.Domain.{StoredWalletEvent}
use wallex_sanbox.Aggregate.{
  WalletAggregate, WalletState, credit, debit, mark_events_committed, snapshot,
}
use wallex_sanbox.EventStore.{append_to_stream}
use wallex_sanbox.Snapshots.{load_aggregate, create_snapshot_if_needed}
use wallex_sanbox.Wallets.{transfer}
use wallex_sanbox.Outbox.{enqueue}
use wallex_sanbox.Commands.{
  Services, World, Times, in_db, in_rows, in_outbox, attempt, options_of, locked,
}

pub record TransferCommand : Type 0 where
  pub from_wallet_id : String
  pub to_wallet_id : String
  pub amount : Number
  pub description : Option String

abbrev pub TransferResult : Type 0
TransferResult = Option WalletState × Option WalletState

-- Both, with the first error.
abbrev pub both : {S A : Type 0} → Exec S A → Exec S A → Exec S A
both m k w = let (r, w1) = m w in let (q, w2) = k w1 in ((elim r [ ok a ↦ q | err e ↦ err e ]), w2)

-- `description || …`
abbrev pub or_default : Option String → String → String
or_default none d = d
or_default (some t) d = if str_eq t "" then d else t

abbrev pub from_description : TransferCommand → Option String
from_description command =
    some (or_default command.description (text_append "Transfer to wallet " command.to_wallet_id))

abbrev pub to_description : TransferCommand → Option String
to_description command =
    some
      (or_default command.description (text_append "Transfer from wallet " command.from_wallet_id))

-- `[from, to].sort()`, by code points (which differs from the language's code units beyond the
-- basic plane only)
abbrev pub sorted : Ordering → String → String → String × String
sorted Ordering.gt a b = (b, a)
sorted o a b = (a, b)

abbrev pub lock_order : String → String → String × String
lock_order a b = sorted (compare a b) a b

module _ (s : Services) where
  -- Behind the appends. What the write side and the outbox throw is only logged.
  abbrev pub finish_transfer :
      TransferCommand
      → Times
      → WalletAggregate
      → ℤ
      → WalletAggregate
      → ℤ
      → List StoredWalletEvent
      → List StoredWalletEvent
      → Exec (World s) TransferResult
  finish_transfer command t from_aggregate from_count to_aggregate to_count from_committed
        to_committed =
      attempt (
        in_rows (
          transfer s.wallets s.transactions command.from_wallet_id command.to_wallet_id
            command.amount))
      >> attempt (
          in_outbox (
            both (enqueue t.enqueued from_committed (options_of command.from_wallet_id))
              (enqueue t.enqueued to_committed (options_of command.to_wallet_id))))
      >> in_db (
          both
            (create_snapshot_if_needed s.client s.config t.saved
              (mark_events_committed from_aggregate) (from_count +ℤ pos (length from_committed)))
            (create_snapshot_if_needed s.client s.config t.saved
              (mark_events_committed to_aggregate) (to_count +ℤ pos (length to_committed))))
      >> pure (
        snapshot (mark_events_committed from_aggregate),
        snapshot (mark_events_committed to_aggregate),
      )

  -- The appends are two calls, the source's first.
  abbrev pub commit_transfer :
      TransferCommand
      → Times
      → WalletAggregate
      → ℤ
      → WalletAggregate
      → ℤ
      → Exec (World s) TransferResult
  commit_transfer command t from_aggregate from_count to_aggregate to_count =
      in_db (
        append_to_stream s.client t.appended command.from_wallet_id from_aggregate.pending_events
          from_aggregate.persisted_version)
      >>= λ (from_committed : List StoredWalletEvent).
          in_db (
            append_to_stream s.client t.appended command.to_wallet_id to_aggregate.pending_events
              to_aggregate.persisted_version)
          >>= finish_transfer command t from_aggregate from_count to_aggregate to_count
              from_committed

  -- The outcomes of `debit` on the source and of `credit` on the destination.
  abbrev pub decide_transfer :
      TransferCommand
      → Times
      → ℤ
      → ℤ
      → Result (Unit {0}) × WalletAggregate
      → Result (Unit {0}) × WalletAggregate
      → Exec (World s) TransferResult
  decide_transfer command t from_count to_count (err e, a) q = throw e
  decide_transfer command t from_count to_count (ok _, a) (err e, b) = throw e
  decide_transfer command t from_count to_count (ok _, a) (ok _, b) =
      commit_transfer command t a from_count b to_count

  abbrev pub transfer_loaded :
      TransferCommand
      → Times
      → WalletAggregate × ℤ
      → Option (WalletAggregate × ℤ)
      → Exec (World s) TransferResult
  transfer_loaded command t source none = throw (not_found command.to_wallet_id)
  transfer_loaded command t (a, from_count) (some (b, to_count)) =
      decide_transfer command t from_count to_count
        (debit t.changed command.amount (from_description command) a)
        (credit t.changed command.amount (to_description command) b)

  abbrev pub load_target :
      TransferCommand → Times → Option (WalletAggregate × ℤ) → Exec (World s) TransferResult
  load_target command t none = throw (not_found command.from_wallet_id)
  load_target command t (some source) =
      in_db (load_aggregate s.client t.loaded command.to_wallet_id)
      >>= transfer_loaded command t source

  -- What the two locks protect.
  unfoldable pub transfer_protected : TransferCommand → Times → Exec (World s) TransferResult
  transfer_protected command t =
      in_db (load_aggregate s.client t.loaded command.from_wallet_id) >>= load_target command t

  unfoldable pub transfer_wallet :
      (ℕ → World s → World s) → TransferCommand → Times → Exec (World s) TransferResult
  unfolding locked transfer_protected
  transfer_wallet sleep command t =
      let (first, second) = lock_order command.from_wallet_id command.to_wallet_id in
      if str_eq command.from_wallet_id command.to_wallet_id
      then throw (plain "Cannot transfer to the same wallet")
      else locked s sleep first (locked s sleep second (transfer_protected command t))
