-- ===== src/Kafka/Projecting/ReadModel.antt =====
-- wallet/infrastructure/projections/read-model-kafka.consumer.ts: what the consumer of the read model
-- makes of a message. The table is a parameter. Dates and logs are left out.
use wallex_sanbox.Prelude.{String, Bool, true, false, Option}
use wallex_sanbox.Number.{Number, zero_number}
use wallex_sanbox.Exec.{Result, ok, err, Exec, pure}
use wallex_sanbox.Kafka.Projecting.{
  WalletEvent, Kind, created, credited, debited, transfer_initiated, transfer_completed, unknown,
  kind_of, number_or, Consumed, is_behind, process_message,
}

pub record NewReadWallet : Type 0 where
  pub id : Option String
  pub owner_id : Option String
  pub balance : Number

pub record ConsumedReadModel : Type 1 where
  pub Rows : Type 0
  -- `findOne({ where: { id } })`
  pub exists : Option String → Rows → Result Bool
  pub save : NewReadWallet → Rows → Result (Unit {0}) × Rows
  -- `update({ id }, { balance })`
  pub update : Option String → Option Number → Rows → Result (Unit {0}) × Rows

-- `ReadModelKafkaConsumer`
module _ (table : ConsumedReadModel) where
  open table use {Rows as ModelRows}

  abbrev save_if_new : WalletEvent → Result Bool → Exec ModelRows (Unit {0})
  save_if_new e (err x) rows = (err x, rows)
  save_if_new e (ok true) rows = (ok tt, rows)
  save_if_new e (ok false) rows =
      table.save
        (record {
          id = e.payload.wallet_id;
          owner_id = e.payload.owner_id;
          balance = number_or e.payload.initial_balance zero_number;
        })
        rows

  abbrev create_if_new : WalletEvent → Exec ModelRows (Unit {0})
  create_if_new e rows = save_if_new e (table.exists e.payload.wallet_id rows) rows

  abbrev pub apply_to_read_model : Kind → WalletEvent → Exec ModelRows (Unit {0})
  apply_to_read_model created e = create_if_new e
  apply_to_read_model credited e = table.update e.payload.wallet_id e.payload.balance
  apply_to_read_model debited e = table.update e.payload.wallet_id e.payload.balance
  apply_to_read_model transfer_initiated e = table.update e.payload.from_wallet_id e.payload.balance
  apply_to_read_model transfer_completed e = table.update e.payload.to_wallet_id e.payload.balance
  apply_to_read_model unknown e = pure tt

  unfoldable pub consume_into_read_model : WalletEvent → Exec (Consumed ModelRows) (Unit {0})
  unfolding process_message is_behind kind_of
  consume_into_read_model =
      process_message (λ e s. ok (is_behind s.checkpoint e))
        (λ e. apply_to_read_model (kind_of e.event_type) e)
