-- ===== src/Aggregate/Balance.antt =====
-- The balance of a rehydrated wallet is what was credited less what was debited.
use wallex_sanbox.Prelude.{
  String, ◌≡◌, refl, ap, ◌∙◌, Option, none, some, List, [], ◌∷◌, arith, All,
}
use wallex_sanbox.Prelude.Int.{ℤ, pos, ◌+ℤ◌, ◌-ℤ◌, int_laws}
use wallex_sanbox.Number.{Number, fin, nan, infinity, neg_infinity, zero_number, add, sub}
use wallex_sanbox.Exec.{ok}
use wallex_sanbox.Domain.{
  EventData, wallet_created, wallet_credited, wallet_debited, StoredWalletEvent,
}
use wallex_sanbox.Aggregate.{
  WalletAggregate, WalletState, blank, apply_historical_event, apply_history, rehydrate,
  clear_pending_events,
}
use wallex_sanbox.Aggregate.Loads.{rehydrate_replays}

-- A credit or a debit of a finite amount.
abbrev pub IsMove : EventData → Type 0
IsMove (wallet_credited (fin x) d) = Unit
IsMove (wallet_debited (fin x) d) = Unit
IsMove e = ⊥

abbrev pub credit_of : EventData → ℤ
credit_of (wallet_credited (fin x) d) = x
credit_of e = pos 0

abbrev pub debit_of : EventData → ℤ
debit_of (wallet_debited (fin x) d) = x
debit_of e = pos 0

unfoldable pub total_credited : List StoredWalletEvent → ℤ
total_credited [] = pos 0
total_credited (e ∷ es) = credit_of e.body +ℤ total_credited es

unfoldable pub total_debited : List StoredWalletEvent → ℤ
total_debited [] = pos 0
total_debited (e ∷ es) = debit_of e.body +ℤ total_debited es

abbrev pub balance_of : Option WalletState → Option Number
balance_of none = none
balance_of (some s) = some s.balance

credit_only : (b x : ℤ) → b +ℤ x ≡ b +ℤ x -ℤ pos 0
credit_only b x = omega int_laws

debit_only : (b x : ℤ) → b -ℤ x ≡ b +ℤ pos 0 -ℤ x
debit_only b x = omega int_laws

move_step :
    (now : String) (e : StoredWalletEvent) (body : EventData) (a : WalletAggregate) (b : ℤ)
    → e.body ≡ body
    → IsMove body
    → balance_of a.state ≡ some (fin b)
    → ((apply_historical_event now e a).0 ≡ ok tt)
      × (balance_of (apply_historical_event now e a).1.state
          ≡ some (fin (b +ℤ credit_of body -ℤ debit_of body)))
unfolding apply_historical_event add sub
move_step now e (wallet_credited (fin x) d) a b h m k = ground (arith, credit_only b x)
move_step now e (wallet_debited (fin x) d) a b h m k = ground (arith, debit_only b x)
move_step now e (wallet_credited nan d) a b h m k = absurd m
move_step now e (wallet_credited infinity d) a b h m k = absurd m
move_step now e (wallet_credited neg_infinity d) a b h m k = absurd m
move_step now e (wallet_debited nan d) a b h m k = absurd m
move_step now e (wallet_debited infinity d) a b h m k = absurd m
move_step now e (wallet_debited neg_infinity d) a b h m k = absurd m
move_step now e (wallet_created o i) a b h m k = absurd m

pub regroup : (b c d t u : ℤ) → b +ℤ c -ℤ d +ℤ t -ℤ u ≡ b +ℤ (c +ℤ t) -ℤ (d +ℤ u)
regroup b c d t u = omega int_laws

moves_sum :
    (now : String) (es : List StoredWalletEvent) (a : WalletAggregate) (b : ℤ)
    → All (λ e. IsMove e.body) es
    → balance_of a.state ≡ some (fin b)
    → (c : WalletAggregate) × (apply_history now es a ≡ (ok tt, c))
      × (balance_of c.state ≡ some (fin (b +ℤ total_credited es -ℤ total_debited es)))
unfolding apply_history total_credited total_debited
moves_sum now [] a b m h = (a, refl, h ∙ ap (λ x. some (fin x)) (omega int_laws))
moves_sum now (e ∷ es) a b m h =
    let (done, balance) = move_step now e e.body a b refl m.0 h in
    let (c, run, sum) =
      moves_sum now es (apply_historical_event now e a).1 (b +ℤ credit_of e.body -ℤ debit_of e.body)
        m.1 balance in
    (
      c,
      rw done run,
      sum
          ∙ ap (λ x. some (fin x))
              (regroup b (credit_of e.body) (debit_of e.body) (total_credited es)
                (total_debited es)),
    )

from_zero : (c d : ℤ) → pos 0 +ℤ c -ℤ d ≡ c -ℤ d
from_zero c d = omega int_laws

opening_balance :
    (now id owner : String) (initial : Option Number) (e : StoredWalletEvent)
    → e.body ≡ wallet_created owner initial
    → ((apply_historical_event now e (blank id)).0 ≡ ok tt)
      × (balance_of (apply_historical_event now e (blank id)).1.state ≡ some zero_number)
unfolding apply_historical_event
opening_balance now id owner initial e h = ground arith

replay_after :
    (now : String) (e : StoredWalletEvent) (es : List StoredWalletEvent) (a c : WalletAggregate)
    → (apply_historical_event now e a).0 ≡ ok tt
    → apply_history now es (apply_historical_event now e a).1 ≡ (ok tt, c)
    → apply_history now (e ∷ es) a ≡ (ok tt, c)
unfolding apply_history
replay_after now e es a c h k = rw h k

-- A history that is a creation and then credits and debits of finite amounts rehydrates, and the
-- balance is the total of the credits less the total of the debits: the initial balance that the
-- creation carries counts only through the credit that follows it.
pub balance_sums :
    (now id owner : String) (initial : Option Number) (e : StoredWalletEvent)
    (es : List StoredWalletEvent)
    → e.body ≡ wallet_created owner initial
    → All (λ e. IsMove e.body) es
    → (a : WalletAggregate) × (rehydrate now id (e ∷ es) ≡ ok a)
      × (balance_of a.state ≡ some (fin (total_credited es -ℤ total_debited es)))
unfolding clear_pending_events
balance_sums now id owner initial e es h m =
    let (done, balance) = opening_balance now id owner initial e h in
    let first = (apply_historical_event now e (blank id)).1 in
    let (c, run, sum) = moves_sum now es first (pos 0) m balance in
    (
      clear_pending_events c,
      rehydrate_replays now id (e ∷ es) c (replay_after now e es (blank id) c done run),
      sum ∙ ap (λ x. some (fin x)) (from_zero (total_credited es) (total_debited es)),
    )
