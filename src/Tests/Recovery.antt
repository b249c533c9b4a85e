-- ===== src/Tests/Recovery.antt =====
-- Recovery and the read model at concrete inputs.
use Prim.Native.String.{◌++◌ as text_append}
use wallex_sanbox.Prelude.{
  ℕ, zero, suc, ◌/◌, ◌%◌, ◌≡◌, ◌≢◌, refl, String, false, Option, none, some, [], ◌∷◌, ◌==◌,
  if◌then◌else◌,
}
use wallex_sanbox.Prelude.Int.{ℤ, pos, negsuc, ◌+ℤ◌, ◌-ℤ◌}
use wallex_sanbox.Number.{Number, fin, nan, infinity, neg_infinity}
use wallex_sanbox.Exec.{Result, ok, err, plain}
use wallex_sanbox.Aggregate.{WalletAggregate, rehydrate}
use wallex_sanbox.Aggregate.Balance.{balance_of, total_credited, total_debited}
use wallex_sanbox.Domain.{wallet_credited}
use wallex_sanbox.Outbox.{OutboxEvent, OutboxTables, claim_batch, ids_of}
use wallex_sanbox.ReadModel.{
  Value, number, text, Conversions, ReadWallet, ReadTable, ReadTableLaws, apply,
}
use wallex_sanbox.ReadModel.Projected.{HasText, change_writes}
use wallex_sanbox.Recovery.{
  RecoveryService, retry_stale_events, force_reprocess_unprocessed, rebuild_wallet_read_model,
}
use wallex_sanbox.Recovery.Rebuilt.{rebuilt_exceeds}
use wallex_sanbox.Recovery.Resets.{resets_change_no_claim}
use wallex_sanbox.Tests.Memory.{put, client, laws}
use wallex_sanbox.Tests.Worlds.{both_world, alice_history, alice_created, alice_credited}
use wallex_sanbox.Tests.History.{alice-IsStream}
use wallex_sanbox.Tests.Outbox.{outbox, none_locked, event_at}

abbrev digit : ℕ → String
digit d =
    if d == 0
    then "0"
    else (if d == 1
        then "1"
        else (if d == 2
            then "2"
            else (if d == 3
                then "3"
                else (if d == 4
                    then "4"
                    else (if d == 5
                        then "5"
                        else (if d == 6
                            then "6"
                            else (if d == 7 then "7" else (if d == 8 then "8" else "9"))))))))

-- The decimal text of a number below 10 ^ the first one.
show_digits : ℕ → ℕ → String
show_digits zero n = ""
show_digits (suc k) n =
    let more = show_digits k (n / 10) in
    text_append (if n / 10 == 0 then "" else more) (digit (n % 10))

show : Number → String
unfolding show_digits
show (fin (pos n)) = show_digits 9 n
show (fin (negsuc n)) = text_append "-" (show_digits 9 (suc n))
show nan = "NaN"
show infinity = "Infinity"
show neg_infinity = "-Infinity"

abbrev conversions : Conversions
conversions = record { show = show; to_number = λ s. fin (pos 0) }

abbrev column : Value → Option String
column (text s) = some s
column (number n) = some (show n)

abbrev MemoryRows : Type 0
MemoryRows = String → Option ReadWallet

abbrev saved : ReadWallet → MemoryRows → Option String → Result ReadWallet × MemoryRows
saved w rows none = (err (plain "invalid input syntax for type numeric"), rows)
saved w rows (some s) =
    (ok (record w { balance = text s }), put w.id (some (record w { balance = text s })) rows)

abbrev done : Result ReadWallet × MemoryRows → Result (Unit {0}) × MemoryRows
done (ok w, rows) = (ok tt, rows)
done (err e, rows) = (err e, rows)

abbrev read_table : ReadTable
read_table = record {
  Rows = MemoryRows;
  find_one = λ k rows. ok (rows k);
  save = λ w rows. saved w rows (column w.balance);
  upsert = λ w rows. done (saved w rows (column w.balance));
  update_balance = λ k v rows. (ok 0, rows);
}

abbrev read_laws : ReadTableLaws read_table
read_laws = record {
  row = λ rows k. rows k;
  stored = column;
  find_one_law = λ k rows. refl;
  save_law = λ w s rows h k. rw h (refl, refl);
  upsert_law = λ w s rows h k. rw h (refl, refl);
}

abbrev no_rows : MemoryRows
no_rows k = none

named : ◌≢◌ {A = String} "owner" ""
named h = cc

rebuilt_exceeds_example :
    let (r, (db', rows')) =
      rebuild_wallet_read_model client read_table "alice" (both_world.db, no_rows) in
    (a : WalletAggregate) × (b : ℤ) × (r ≡ ok tt)
    × (db' ≡ both_world.db)
    × (rehydrate "now" "alice" alice_history ≡ ok a)
    × (balance_of a.state ≡ some (fin b))
    × (rows' "alice" ≡ some (record { id = "alice"; owner_id = "owner"; balance = text "200" }))
    × (column (number (fin (pos 100 +ℤ b))) ≡ some "200")
unfolding show total_credited total_debited ◌+ℤ◌ ◌-ℤ◌
rebuilt_exceeds_example =
    rebuilt_exceeds laws read_table read_laws "now" "alice" "owner" "200" (some (pos 100))
      alice_created (alice_credited ∷ []) both_world.db no_rows alice-IsStream refl (tt, tt) named
      refl

abbrev service : RecoveryService
service = record { is_recovering = false; outbox = outbox }

resets_change_no_claim_example :
    let claimed = λ (t : OutboxTables). ids_of (claim_batch 2 "ledger" none none_locked t).0 in
    (claimed (retry_stale_events 900000 service).outbox ≡ claimed outbox)
    × (claimed (force_reprocess_unprocessed outbox).1 ≡ claimed outbox)
resets_change_no_claim_example = resets_change_no_claim 900000 2 "ledger" none none_locked service

abbrev q_rows : MemoryRows
q_rows = put "q" (some (record { id = "q"; owner_id = "owner"; balance = text "100.00" })) no_rows

q-HasText : HasText conversions read_table read_laws q_rows "q" "owner" "100.00"
q-HasText = record { stored_row = refl }

-- A credit of 50.
abbrev credit_message : OutboxEvent
credit_message = record (event_at 1) {
  payload = record {
    event = record { aggregate_id = "q"; body = wallet_credited (fin (pos 50)) none };
    metadata = (event_at 1).payload.metadata;
  };
}

change_writes_example :
    let (r, rows') = apply conversions read_table credit_message q_rows in
    (r ≡ ok tt) × HasText conversions read_table read_laws rows' "q" "owner" "100.0050"
unfolding show
change_writes_example =
    change_writes conversions read_table read_laws credit_message "owner" "100.00" "100.0050" q_rows
      tt q-HasText refl
