-- ===== src/Tests/Rest.antt =====
-- Requests to the routes of credits and debits.
use wallex_sanbox.Prelude.{◌≡◌, refl, none}
use wallex_sanbox.Prelude.Int.{pos}
use wallex_sanbox.Number.{fin, lt, le, is_finite}
use wallex_sanbox.Exec.{insufficient_funds}
use wallex_sanbox.Aggregate.{debit}
use wallex_sanbox.Aggregate.History.{debited, perform}
use wallex_sanbox.Lock.{acquire_with_retry, acquire}
use wallex_sanbox.Commands.Locked.{UpToCache}
use wallex_sanbox.Rest.{MutateWalletBalanceDto, fails, bad_request, post_debit}
use wallex_sanbox.Rest.Answers.{refusal_answered}
use wallex_sanbox.Tests.Memory.{laws}
use wallex_sanbox.Tests.Worlds.{services, times, both_world, wallet_at}
use wallex_sanbox.Tests.Commands.{alice-IsWallet, alice_loads, no_wait, alice_locked}

abbrev thirty : MutateWalletBalanceDto
thirty = record { amount = fin (pos 30); description = none }

abbrev too_much : MutateWalletBalanceDto
too_much = record { amount = fin (pos 101); description = none }

refusal_answered_example :
    let (reply, w') = post_debit services no_wait "alice" too_much times both_world in
    (reply ≡ fails (bad_request (insufficient_funds "alice" (fin (pos 100)) (fin (pos 101)))))
    × UpToCache w' alice_locked
unfolding perform debit is_finite le lt acquire_with_retry acquire
refusal_answered_example =
    refusal_answered no_wait laws debited "alice" too_much times "token" both_world alice_locked
      (wallet_at "alice" (pos 100) (pos 1))
      (record {
        id = "alice";
        owner_id = "owner";
        balance = fin (pos 100);
        created_at = "appended";
        updated_at = "appended";
        version = pos 1;
      })
      (insufficient_funds "alice" (fin (pos 100)) (fin (pos 101))) refl refl alice-IsWallet
      (alice_loads alice-IsWallet.taken_at) refl refl
