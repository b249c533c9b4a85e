-- ===== src/Commands/Transfer/Locks.antt =====
-- The transfer handler with its two locks.
use wallex_sanbox.Prelude.{ℕ, ◌≡◌, ◌≢◌, ◌∙◌, String, str_eq, eq_iff, Bool-cases, inl, inr}
use wallex_sanbox.Commands.{Services, World, Times, locked}
use wallex_sanbox.Commands.Locked.{Acquires, UpToCache, UpToCache-trans, locked_lem}
use wallex_sanbox.Commands.Transfer.{
  TransferCommand, transfer_wallet, transfer_protected, lock_order,
}

module _ {s : Services} where
  -- Once both locks are acquired, in their order, a transfer between two different wallets is what the
  -- protected part does from there, and the releases change nothing but the cache.
  pub transfer_locked :
      (sleep : ℕ → World s → World s) (command : TransferCommand) (t : Times)
      (first_token second_token : String) (w w1 w2 : World s)
      → command.from_wallet_id ≢ command.to_wallet_id
      → let (first, second) = lock_order command.from_wallet_id command.to_wallet_id in
        Acquires sleep first w first_token w1
        → Acquires sleep second w1 second_token w2
        → let (r, w') = transfer_wallet s sleep command t w in
          (r ≡ (transfer_protected s command t w2).0)
          × UpToCache w' (transfer_protected s command t w2).1
  unfolding transfer_wallet
  transfer_locked sleep command t first_token second_token w w1 w2 ne h1 h2 =
      let first = (lock_order command.from_wallet_id command.to_wallet_id).0 in
      let second = (lock_order command.from_wallet_id command.to_wallet_id).1 in
      let protected = transfer_protected s command t in
      let (r2, c2) = locked_lem sleep second second_token protected w1 w2 h2 in
      let (r1, c1) = locked_lem sleep first first_token (locked s sleep second protected) w w1 h1 in
      elim (Bool-cases (str_eq command.from_wallet_id command.to_wallet_id)) [
        | inl same ↦ absurd (ne ((eq_iff command.from_wallet_id command.to_wallet_id).0 same))
        | inr apart ↦ rw apart (
          r1 ∙ r2,
          UpToCache-trans (locked s sleep first (locked s sleep second protected) w).1
              (locked s sleep second protected w1).1 (protected w2).1 c1 c2,
        )
      ]
