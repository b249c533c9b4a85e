-- ===== src/Tests/Worlds.antt =====
-- A world in memory with two wallets, as the create handler leaves it.
use wallex_sanbox.Prelude.{ℕ, suc, String, Option, none, some, List, [], ◌∷◌, true}
use wallex_sanbox.Prelude.Int.{ℤ, pos}
use wallex_sanbox.Number.{Number, fin}
use wallex_sanbox.Domain.{StoredWalletEvent, wallet_created, wallet_credited}
use wallex_sanbox.Aggregate.{WalletAggregate}
use wallex_sanbox.EventStore.Client.{RecordedEvent, wallet_data}
use wallex_sanbox.Commands.{Services, World, Times}
use wallex_sanbox.Commands.Create.{CreateWalletCommand, CreateTimes}
use wallex_sanbox.Tests.Memory as Memory

abbrev pub services : Services
services = record {
  client = Memory.client;
  config = record { snapshot_threshold = 3; keep_last_snapshots = 2 };
  wallets = Memory.table (λ w. w.id) (λ w. w);
  keys = Memory.table (λ r. r.key) (λ r. r);
  hash_request = λ q. q.wallet_id;
  Cache = Memory.Cache;
  redis = Memory.redis;
  tokens = λ n. "token";
  transactions = Memory.transactions;
}

abbrev pub empty_world : World services
empty_world = record {
  db = Memory.no_streams;
  rows = λ k. none;
  key_rows = λ k. none;
  outbox = record { answers = true; next_id = 1; events = []; processing = [] };
  cache = λ k. none;
}

abbrev pub create_alice : CreateWalletCommand
create_alice = record {
  wallet_id = "alice";
  owner_id = "owner";
  initial_balance = fin (pos 100);
  idempotency_key = none;
  correlation_id = none;
}

abbrev pub create_times : CreateTimes
create_times = record {
  checked = 1;
  pending = 1;
  created = "created";
  appended = "appended";
  enqueued = 2;
  stored = 3;
}

abbrev pub times : Times
times = record {
  loaded = "loaded";
  changed = "changed";
  appended = "later";
  enqueued = 4;
  saved = "saved";
}

abbrev created_event : String → Option Number → StoredWalletEvent
created_event id initial = record {
  event = record { aggregate_id = id; body = wallet_created "owner" initial };
  metadata = record {
    version = pos 0;
    occurred_at = "appended";
    correlation_id = none;
    causation_id = none;
  };
}

abbrev pub alice_created : StoredWalletEvent
alice_created = created_event "alice" (some (fin (pos 100)))

abbrev pub alice_credited : StoredWalletEvent
alice_credited = record {
  event = record {
    aggregate_id = "alice";
    body = wallet_credited (fin (pos 100)) (some "Initial balance");
  };
  metadata = record {
    version = pos 1;
    occurred_at = "appended";
    correlation_id = none;
    causation_id = none;
  };
}

abbrev pub alice_history : List StoredWalletEvent
alice_history = alice_created ∷ alice_credited ∷ []

abbrev pub bob_history : List StoredWalletEvent
bob_history = created_event "bob" none ∷ []

-- The histories as they are recorded.
abbrev recorded : ℕ → StoredWalletEvent → RecordedEvent
recorded n e = record {
  body = wallet_data e.body;
  metadata = some (record {
    occurred_at = some e.metadata.occurred_at;
    correlation_id = none;
    causation_id = none;
  });
  revision = n;
  created = "today";
}

abbrev recorded_from : ℕ → List StoredWalletEvent → List RecordedEvent
recorded_from n [] = []
recorded_from n (e ∷ es) = recorded n e ∷ recorded_from (suc n) es

abbrev pub both_world : World services
both_world = record empty_world {
  db =
      Memory.put "wallet-alice" (record { events = recorded_from 0 alice_history; total = 2 })
        (Memory.put "wallet-bob" (record { events = recorded_from 0 bob_history; total = 1 })
          Memory.no_streams);
}

-- The wallets as their histories rehydrate.
abbrev pub wallet_at : String → ℤ → ℤ → WalletAggregate
wallet_at id balance version = record {
  id = id;
  pending_events = [];
  state = some (record {
    id = id;
    owner_id = "owner";
    balance = fin balance;
    created_at = "appended";
    updated_at = "appended";
    version = version;
  });
  version = version;
  persisted_version = version;
}
