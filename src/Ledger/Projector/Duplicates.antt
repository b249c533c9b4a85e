-- ===== src/Ledger/Projector/Duplicates.antt =====
-- What the references of entries keep out.
use wallex_sanbox.Prelude.{
  ℕ, ◌≡◌, refl, ap, String, true, Option, some, eq_refl, Bool-cases, inl, inr,
}
use wallex_sanbox.Number.{Number}
use wallex_sanbox.Exec.{ok}
use wallex_sanbox.Domain.{EventData, wallet_created, wallet_credited, wallet_debited}
use wallex_sanbox.Outbox.{OutboxEvent}
use wallex_sanbox.Ledger.{LedgerTable, LedgerEntry}
use wallex_sanbox.Ledger.Table.{LedgerTableLaws, is_used}
use wallex_sanbox.Ledger.Projector.{
  insert_once, apply, apply_body, handle_wallet_credited, credited_reference,
}

abbrev pub IsCredit : EventData → Type 0
IsCredit (wallet_credited amount description) = Unit
IsCredit e = ⊥

module _ (unit : ℕ) (table : LedgerTable) (laws : LedgerTableLaws table) where
  -- Two entries of one reference: the first insert takes it, and the second writes nothing.
  second_ignored :
      (e f : LedgerEntry) (s : String) (rows : table.Rows)
      → e.reference_id ≡ some s
      → f.reference_id ≡ some s
      → let rows' = (insert_once unit table e rows).1 in
        insert_once unit table f rows' ≡ (ok tt, rows')
  unfolding insert_once
  second_ignored e f s rows p q = elim (Bool-cases (is_used e.reference_id (laws.contents rows))) [
    | inl taken ↦
        let again : is_used f.reference_id (laws.contents rows) ≡ true = rw q (rw p at taken) in
        rw (laws.insert_taken e rows taken) (rw (laws.insert_taken f rows again) refl)
    | inr free ↦
        let rows' = (table.insert e rows).1 in
        let (done, added) = laws.insert_new e rows free in
        let out : table.insert e rows ≡ (ok tt, rows') = ap (λ r. (r, rows')) done in
        let again : is_used f.reference_id (laws.contents rows') ≡ true =
          rw (q, added, p, eq_refl s) refl in
        rw out (rw (laws.insert_taken f rows' again) refl)
  ]

  credited_once :
      (now id : String) (x y : Number) (d d' : Option String) (rows : table.Rows)
      → let rows' = (handle_wallet_credited unit table now id x d rows).1 in
        handle_wallet_credited unit table now id y d' rows' ≡ (ok tt, rows')
  unfolding handle_wallet_credited
  credited_once now id x y d d' rows =
      rw (laws.latest_law, laws.latest_law)
        (second_ignored _ _ (credited_reference id now) rows refl refl)

  bodies_once :
      (now id : String) (b b' : EventData) (rows : table.Rows)
      → IsCredit b
      → IsCredit b'
      → let rows' = (apply_body unit table now b id rows).1 in
        apply_body unit table now b' id rows' ≡ (ok tt, rows')
  bodies_once now id (wallet_credited x d) (wallet_credited y d') rows h k =
      credited_once now id x y d d' rows
  bodies_once now id (wallet_credited x d) (wallet_debited y d') rows h k = absurd k
  bodies_once now id (wallet_credited x d) (wallet_created o i) rows h k = absurd k
  bodies_once now id (wallet_debited x d) b' rows h k = absurd h
  bodies_once now id (wallet_created o i) b' rows h k = absurd h

  -- Of two credits of one wallet that are applied at the same reading of the clock, the second is
  -- reported as applied and writes nothing, whatever the amounts and whatever became of the first.
  pub second_credit_lost :
      (now : String) (first second : OutboxEvent) (rows : table.Rows)
      → IsCredit first.payload.body
      → IsCredit second.payload.body
      → first.aggregate_id ≡ second.aggregate_id
      → let rows' = (apply unit table now first rows).1 in
        apply unit table now second rows' ≡ (ok tt, rows')
  unfolding apply
  second_credit_lost now first second rows h k same =
      rw (← same)
        (bodies_once now first.aggregate_id first.payload.body second.payload.body rows h k)
