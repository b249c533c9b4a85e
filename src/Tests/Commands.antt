-- ===== src/Tests/Commands.antt =====
-- The command handlers at concrete worlds.
use wallex_sanbox.Prelude.{
  ℕ, ◌≡◌, ◌≢◌, refl, String, Option, none, some, [], ◌∷◌, ◌++◌, arith, length,
}
use wallex_sanbox.Prelude.Int.{ℤ, pos}
use wallex_sanbox.Number.{fin}
use wallex_sanbox.Exec.{ok, err, event_concurrency}
use wallex_sanbox.Domain.{StoredWalletEvent}
use wallex_sanbox.Aggregate.{WalletState, WalletAggregate, create, rehydrate}
use wallex_sanbox.Aggregate.Creation.{created, create_cases, initial_state}
use wallex_sanbox.EventStore.{stream_name, to_stored}
use wallex_sanbox.Snapshots.{snapshot_stream_name, load_aggregate}
use wallex_sanbox.Commands.Create.{CreateWalletCommand}
use wallex_sanbox.Commands.Steps.{KeepsOthers}
use wallex_sanbox.Commands.Loading.{IsWallet}
use wallex_sanbox.Number.{add, lt, le, is_finite, is_truthy}
use wallex_sanbox.Prelude.{eq_iff}
use wallex_sanbox.Prelude.Int.{◌+ℤ◌}
use wallex_sanbox.Aggregate.{apply_history, apply_historical_event, debit, credit}
use wallex_sanbox.Aggregate.Replay.{SameState}
use wallex_sanbox.Aggregate.History.{debited, perform, rehydrate-IsHistory, opened}
use wallex_sanbox.Aggregate.Loads.{IsLoadOf}
use wallex_sanbox.Commands.{World, ChangeCommand, change_wallet, change_loaded}
use wallex_sanbox.Commands.Races.{command_of, second_writer_refused}
use wallex_sanbox.Commands.Changes.{change_committed}
use wallex_sanbox.Commands.Transfer.{
  TransferCommand, from_description, to_description, transfer_protected,
}
use wallex_sanbox.Commands.Transfer.Moves.{transfer_committed, KeepsApart}
use wallex_sanbox.Tests.Memory.{laws, put}
use wallex_sanbox.Tests.Worlds.{
  services, create_alice, times, both_world, alice_history, bob_history, wallet_at,
}

abbrev alice_aggregate : WalletAggregate
alice_aggregate = created "created" "alice" "owner" (fin (pos 100))

abbrev alice_state : WalletState
alice_state = initial_state "created" "alice" "owner" (fin (pos 100)) (pos 1)

apart : ◌≢◌ {A = String} "alice" "bob"
apart h = absurd (cc ((eq_iff "alice" "bob").1 h))

abbrev bob_aggregate : WalletAggregate
bob_aggregate = created "created" "bob" "owner" (fin (pos 0))

pub alice-IsWallet : IsWallet laws both_world.db "alice" alice_history
unfolding stream_name snapshot_stream_name create to_stored lt is_truthy ◌+ℤ◌
alice-IsWallet = record {
  lived =
      opened "created" "owner" (fin (pos 100)) alice_aggregate
        (create_cases "created" "alice" "owner" (fin (pos 100))) (refl, refl, (refl, refl, tt));
  stream = record { records = (refl, refl, refl, (refl, refl, refl, tt)); whole = refl };
  taken_at = "now";
  fits = tt;
}

pub bob-IsWallet : IsWallet laws both_world.db "bob" bob_history
unfolding stream_name snapshot_stream_name create to_stored lt is_truthy ◌+ℤ◌
bob-IsWallet = record {
  lived =
      opened "created" "owner" (fin (pos 0)) bob_aggregate
        (create_cases "created" "bob" "owner" (fin (pos 0))) (refl, refl, tt);
  stream = record { records = (refl, refl, refl, tt); whole = refl };
  taken_at = "now";
  fits = tt;
}

pub alice_loads :
    (now : String) → rehydrate now "alice" alice_history ≡ ok (wallet_at "alice" (pos 100) (pos 1))
unfolding rehydrate apply_history apply_historical_event ◌+ℤ◌ add
alice_loads now = refl

bob_loads : (now : String) → rehydrate now "bob" bob_history ≡ ok (wallet_at "bob" (pos 0) (pos 0))
unfolding rehydrate apply_history apply_historical_event ◌+ℤ◌ add
bob_loads now = refl

abbrev pub debit_alice : ChangeCommand
debit_alice = record { wallet_id = "alice"; amount = fin (pos 30); description = none }

change_committed_example :
    let x =
      (perform debited "changed" (fin (pos 30)) none (wallet_at "alice" (pos 100) (pos 1))).1 in
    let (r, w') = change_wallet services debited debit_alice times both_world in
    (state : WalletState) × (e : StoredWalletEvent) × (r ≡ ok (some state))
    × SameState (some state) x.state
    × (x.pending_events ≡ e.event ∷ [])
    × IsWallet laws w'.db "alice" (alice_history ++ e ∷ [])
    × KeepsOthers laws "alice" both_world.db w'.db
unfolding perform debit is_finite le lt
change_committed_example =
    change_committed laws debited debit_alice times both_world (wallet_at "alice" (pos 100) (pos 1))
      (omega arith) alice-IsWallet (alice_loads alice-IsWallet.taken_at) refl

-- Two debits, of which either alone is covered.
second_writer_refused_example :
    (loaded : Option (WalletAggregate × ℤ)) × (loaded' : Option (WalletAggregate × ℤ))
    × (load_aggregate services.client "loaded" "alice" both_world.db ≡ (ok loaded, both_world.db))
    × (load_aggregate services.client "loaded" "alice" both_world.db ≡ (ok loaded', both_world.db))
    × (let (r, w') =
          change_loaded services debited
            (command_of "alice" (fin (pos 70)) none)
            times
            loaded
            both_world in
        (state : WalletState) × (v : ℤ) × (r ≡ ok (some state))
        × (v +ℤ pos 1 ≡ pos (length alice_history))
        × (change_loaded services debited (command_of "alice" (fin (pos 60)) none) times loaded' w'
            ≡ (err (event_concurrency v (pos (length alice_history))), w')))
unfolding perform debit is_finite le lt
second_writer_refused_example =
    second_writer_refused laws debited debited "alice" (fin (pos 70)) (fin (pos 60)) none none times
      times both_world (wallet_at "alice" (pos 100) (pos 1)) (omega arith) alice-IsWallet
      (alice_loads alice-IsWallet.taken_at) refl refl

abbrev alice_to_bob : TransferCommand
alice_to_bob = record {
  from_wallet_id = "alice";
  to_wallet_id = "bob";
  amount = fin (pos 40);
  description = none;
}

transfer_committed_example :
    let x =
      (debit "changed"
        (fin (pos 40))
        (from_description alice_to_bob)
        (wallet_at "alice" (pos 100) (pos 1))).1 in
    let y =
      (credit "changed"
        (fin (pos 40))
        (to_description alice_to_bob)
        (wallet_at "bob" (pos 0) (pos 0))).1 in
    let (r, w') = transfer_protected services alice_to_bob times both_world in
    (from_state : Option WalletState) × (to_state : Option WalletState) × (d : StoredWalletEvent)
    × (e : StoredWalletEvent) × (r ≡ ok (from_state, to_state))
    × SameState from_state x.state
    × SameState to_state y.state
    × (x.pending_events ≡ d.event ∷ [])
    × (y.pending_events ≡ e.event ∷ [])
    × IsWallet laws w'.db "alice" (alice_history ++ d ∷ [])
    × IsWallet laws w'.db "bob" (bob_history ++ e ∷ [])
    × KeepsApart laws "alice" "bob" both_world.db w'.db
unfolding debit credit is_finite le lt
transfer_committed_example =
    transfer_committed laws alice_to_bob times both_world (wallet_at "alice" (pos 100) (pos 1))
      (wallet_at "bob" (pos 0) (pos 0)) (omega arith) apart alice-IsWallet bob-IsWallet
      (alice_loads alice-IsWallet.taken_at) (bob_loads bob-IsWallet.taken_at) refl refl

rehydrate-IsHistory_example :
    (a : WalletAggregate) × (rehydrate "now" "alice" alice_history ≡ ok a)
    × IsLoadOf "alice" alice_history a
rehydrate-IsHistory_example = rehydrate-IsHistory "alice" "now" alice-IsWallet.lived

abbrev pub no_wait : ℕ → World services → World services
no_wait n w = w

abbrev pub alice_locked : World services
alice_locked = record both_world { cache = put "lock:wallet:alice" (some "token") (λ k. none) }

abbrev create_keyed : CreateWalletCommand
create_keyed = record create_alice { idempotency_key = some "k" }
