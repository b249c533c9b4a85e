-- ===== src/Tests/Outbox.antt =====
-- The outbox at concrete inputs.
use wallex_sanbox.Prelude.{ℕ, ◌≤◌, Bool, true, false, none, [], ◌∷◌}
use wallex_sanbox.Prelude.Int.{pos}
use wallex_sanbox.Number.{fin}
use wallex_sanbox.Domain.{wallet_debited}
use wallex_sanbox.Prelude.{length, All}
use wallex_sanbox.Outbox.{OutboxEvent, OutboxTables, claim_batch}
use wallex_sanbox.Outbox.Claim.{IsSorted, IsClaimable, claim_batch_lem}

-- An outbox with three events, the last of which another consumer has processed.
abbrev pub event_at : ℕ → OutboxEvent
event_at n = record {
  id = n;
  aggregate_id = "q";
  event_type = "WalletDebited";
  event_version = pos n;
  payload = record {
    event = record { aggregate_id = "q"; body = wallet_debited (fin (pos 1)) none };
    metadata = record {
      version = pos n;
      occurred_at = "today";
      correlation_id = none;
      causation_id = none;
    };
  };
  correlation_id = none;
  causation_id = none;
  created_at = n;
  processed_at = none;
  consumer = none;
}

abbrev pub outbox : OutboxTables
outbox = record {
  answers = true;
  next_id = 4;
  events = event_at 3 ∷ event_at 1 ∷ event_at 2 ∷ [];
  processing = (3, "ledger") ∷ [];
}

abbrev pub none_locked : ℕ → Bool
none_locked n = false

claim_batch_lem_example :
    let batch = (claim_batch 2 "ledger" none none_locked outbox).0 in
    (length batch ≤ 2)
    × IsSorted batch
    × All (IsClaimable "ledger" none none_locked outbox.processing) batch
claim_batch_lem_example = claim_batch_lem 2 "ledger" none none_locked outbox
