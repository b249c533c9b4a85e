-- ===== src/Rest/Answers.antt =====
-- What the routes of credits and debits answer, from the request to the event store.
use mathlib.Core.Path.{subst}
use wallex_sanbox.Prelude.{ℕ, arith, ◌≡◌, ap, ◌∙◌, String, false, Option, some, List, str_eq}
use wallex_sanbox.Number.{Number}
use wallex_sanbox.Exec.{Error, ok, err}
use wallex_sanbox.Domain.{StoredWalletEvent}
use wallex_sanbox.Aggregate.{WalletState, WalletAggregate, rehydrate}
use wallex_sanbox.Aggregate.Methods.{credit_cases, debit_cases}
use wallex_sanbox.Aggregate.History.{Change, credited, debited, perform}
use wallex_sanbox.EventStore.Client.{KurrentLaws}
use wallex_sanbox.Commands.{Services, World, Times, change_wallet}
use wallex_sanbox.Commands.Loading.{IsWallet}
use wallex_sanbox.Commands.Changes.{change_refused}
use wallex_sanbox.Commands.Locked.{Acquires, UpToCache, change_locked}
use wallex_sanbox.Rest.{
  Reply, fails, bad_request, handle_error, WalletResponse, reply_to_change, MutateWalletBalanceDto,
  change_command, post_credit, post_debit,
}

-- What a wallet that exists refuses is told apart as a bad request.
perform_refuses :
    (c : Change) (now : String) (amount : Number) (d : Option String) (a : WalletAggregate)
    (state : WalletState) (e : Error)
    → a.state ≡ some state
    → (perform c now amount d a).0 ≡ err e
    → handle_error e ≡ bad_request e
unfolding perform handle_error
perform_refuses credited now amount d a state e there p =
    ground (arith, credit_cases now amount d a there, p)
perform_refuses debited now amount d a state e there p =
    ground (arith, debit_cases now amount d a there, p)

module _ {s : Services} (sleep : ℕ → World s → World s) where
  abbrev pub post_change :
      Change → String → MutateWalletBalanceDto → Times → World s → Reply WalletResponse × World s
  post_change credited = post_credit s sleep
  post_change debited = post_debit s sleep

  -- The answer of the protected part, from where the lock is acquired.
  answered :
      (c : Change) (wallet_id : String) (dto : MutateWalletBalanceDto) (t : Times) (token : String)
      (w w1 : World s)
      → str_eq wallet_id "" ≡ false
      → Acquires sleep wallet_id w token w1
      → let protected = change_wallet s c (change_command wallet_id dto) t w1 in
        let (reply, w') = post_change c wallet_id dto t w in
        (reply ≡ reply_to_change protected.0) × UpToCache w' protected.1
  unfolding post_credit post_debit
  answered credited wallet_id dto t token w w1 named got =
      let ((r, same), _) = change_locked sleep (change_command wallet_id dto) t token w w1 got in
      rw named (ap reply_to_change r, same)
  answered debited wallet_id dto t token w w1 named got =
      let (_, (r, same)) = change_locked sleep (change_command wallet_id dto) t token w w1 got in
      rw named (ap reply_to_change r, same)

  module _ (laws : KurrentLaws s.client) where
    -- A credit or a debit that the wallet does not accept is answered as a bad request with the error's
    -- message, and nothing is written but the lock.
    pub refusal_answered :
        (c : Change) (wallet_id : String) (dto : MutateWalletBalanceDto) (t : Times)
        (token : String) (w w1 : World s) {history : List StoredWalletEvent} (a : WalletAggregate)
        (state : WalletState) (e : Error)
        → str_eq wallet_id "" ≡ false
        → Acquires sleep wallet_id w token w1
        → (i : IsWallet laws w1.db wallet_id history)
        → rehydrate i.taken_at wallet_id history ≡ ok a
        → a.state ≡ some state
        → (perform c t.changed dto.amount dto.description a).0 ≡ err e
        → let (reply, w') = post_change c wallet_id dto t w in
          (reply ≡ fails (bad_request e)) × UpToCache w' w1
    refusal_answered c wallet_id dto t token w w1 a state e named got i run there refused =
        let (reply, cache) = answered c wallet_id dto t token w w1 named got in
        let left = change_refused laws c (change_command wallet_id dto) t w1 a e i run refused in
        (
          reply
              ∙ ap (λ x. reply_to_change x.0) left
              ∙ ap fails
                  (perform_refuses c t.changed dto.amount dto.description a state e there refused),
          subst (UpToCache (post_change c wallet_id dto t w).1) (ap (λ x. x.1) left) cache,
        )
