-- ===== src/Ledger/Projector/Chain.antt =====
-- The entries of each wallet follow one another: each begins with the balance at which the one before
-- it has ended.
use mathlib.Core.Path.{subst}
use wallex_sanbox.Prelude.{
  ℕ, ◌<◌, ◌≡◌, refl, ap, sym, String, Bool, true, false, Option, none, some, List, [], ◌∷◌, str_eq,
  eq_iff, get_or, Bool-cases, inl, inr, if◌then◌else◌,
}
use wallex_sanbox.Prelude.Int.{ℤ, pos}
use wallex_sanbox.Number.{Number, fin, nan, infinity, neg_infinity, add, sub, is_truthy}
use wallex_sanbox.Exec.{ok}
use wallex_sanbox.Domain.{EventData, wallet_created, wallet_credited, wallet_debited}
use wallex_sanbox.Aggregate.Creation.{zero_add}
use wallex_sanbox.Outbox.{OutboxEvent}
use wallex_sanbox.ReadModel.{or_zero}
use wallex_sanbox.ReadModel.Finite.{initial_number, or_zero_finite}
use wallex_sanbox.Ledger.{LedgerTable, LedgerEntry, LedgerRow, is_credit}
use wallex_sanbox.Ledger.Table.{LedgerTableLaws, latest_of, row_at, is_used}
use wallex_sanbox.Ledger.Projector.{
  round, insert_once, apply, apply_body, handle_wallet_created, handle_wallet_credited,
  handle_wallet_debited, balance_after_or_zero,
}
use wallex_sanbox.Ledger.Projector.Whole.{
  IsWhole, zero-IsWhole, add-IsWhole, sub-IsWhole, round-IsWhole, round_self,
}

-- The balance at which a wallet's entries have ended.
abbrev pub latest_balance : String → List LedgerRow → Number
latest_balance id rows = balance_after_or_zero (latest_of id rows)

-- The balance that an entry comes to.
abbrev pub moved : LedgerEntry → Number
moved e =
    if is_credit e.transaction_type
    then add e.balance_before e.amount
    else sub e.balance_before e.amount

abbrev pub IsFinite : EventData → Type 0
IsFinite (wallet_created o none) = Unit
IsFinite (wallet_created o (some (fin z))) = Unit
IsFinite (wallet_credited (fin z) d) = Unit
IsFinite (wallet_debited (fin z) d) = Unit
IsFinite e = ⊥

abbrev pub IsCreation : EventData → Type 0
IsCreation (wallet_created o i) = Unit
IsCreation e = ⊥

module _ (unit : ℕ) where
  -- An entry on top of others.
  pub record Follows (e : LedgerEntry) (before : Number) : Type 0 where
    pub starts : e.balance_before ≡ before
    pub ends : e.balance_after ≡ moved e
    pub whole : IsWhole unit e.balance_after

  abbrev FollowsIf : Bool → LedgerEntry → Number → Type 0
  FollowsIf true e before = Follows e before
  FollowsIf false e before = Unit

  -- From the newest to the oldest.
  abbrev pub IsChained : String → List LedgerRow → Type 0
  IsChained id [] = Unit
  IsChained id (r ∷ rs) =
      FollowsIf (str_eq r.entry.wallet_id id) r.entry (latest_balance id rs) × IsChained id rs

  latest-IsWhole :
      (id : String) (rows : List LedgerRow)
      → IsChained id rows
      → IsWhole unit (latest_balance id rows)
  latest-IsWhole id [] h = zero-IsWhole unit
  latest-IsWhole id (r ∷ rs) h = elim (Bool-cases (str_eq r.entry.wallet_id id)) [
    | inl own ↦ rw own ((rw own at h).0.whole)
    | inr other ↦ rw other (latest-IsWhole id rs h.1)
  ]

  chain-cons :
      (r : LedgerRow) (rows : List LedgerRow)
      → Follows r.entry (latest_balance r.entry.wallet_id rows)
      → ((id : String) → IsChained id rows)
      → (id : String) → IsChained id (r ∷ rows)
  chain-cons r rows f h id = elim (Bool-cases (str_eq r.entry.wallet_id id)) [
    | inl own ↦
        let name : r.entry.wallet_id ≡ id = (eq_iff r.entry.wallet_id id).0 own in
        rw own (subst (λ k. Follows r.entry (latest_balance k rows)) name f, h id)
    | inr other ↦ rw other (tt, h id)
  ]

  module _ (table : LedgerTable) (laws : LedgerTableLaws table) where
    insert-IsChained :
        (e : LedgerEntry) (rows : table.Rows)
        → Follows e (latest_balance e.wallet_id (laws.contents rows))
        → ((id : String) → IsChained id (laws.contents rows))
        → (id : String) → IsChained id (laws.contents (insert_once unit table e rows).1)
    unfolding insert_once
    insert-IsChained e rows f h id =
        elim (Bool-cases (is_used e.reference_id (laws.contents rows))) [
          | inl taken ↦ rw (laws.insert_taken e rows taken) (h id)
          | inr free ↦
              let (done, added) = laws.insert_new e rows free in
              let out : table.insert e rows ≡ (ok tt, (table.insert e rows).1) =
                ap (λ r. (r, (table.insert e rows).1)) done in
              rw out (rw added (chain-cons (row_at (laws.time rows) e) (laws.contents rows) f h id))
        ]

    created-IsChained :
        (id : String) (initial : Option ℤ) (rows : table.Rows)
        → latest_of id (laws.contents rows) ≡ none
        → ((k : String) → IsChained k (laws.contents rows))
        → (k : String)
        → IsChained k
            (laws.contents (handle_wallet_created unit table id (initial_number initial) rows).1)
    unfolding handle_wallet_created
    created-IsChained id initial rows fresh h k =
        let amount = round unit (or_zero (initial_number initial)) in
        let whole : IsWhole unit amount =
          rw (or_zero_finite initial) (round-IsWhole unit (get_or initial (pos 0))) in
        elim (Bool-cases (is_truthy amount)) [
          | inl positive ↦ rw positive (
              insert-IsChained _ rows
                (record { starts = rw fresh refl; ends = sym (zero_add amount); whole = whole }) h
                k)
          | inr nothing ↦ rw nothing (h k)
        ]

    credited-IsChained :
        (now id : String) (z : ℤ) (description : Option String) (rows : table.Rows)
        → 0 < unit
        → ((k : String) → IsChained k (laws.contents rows))
        → (k : String)
        → IsChained k
            (laws.contents (handle_wallet_credited unit table now id (fin z) description rows).1)
    unfolding handle_wallet_credited
    credited-IsChained now id z description rows u h k =
        let before = latest_balance id (laws.contents rows) in
        let before_whole = latest-IsWhole id (laws.contents rows) (h id) in
        let same = round_self unit before u before_whole in
        let amount = round unit (or_zero (some (fin z))) in
        let whole : IsWhole unit amount = rw (or_zero_finite (some z)) (round-IsWhole unit z) in
        rw (laws.latest_law id rows) (
          insert-IsChained _ rows
            (record {
              starts = same;
              ends = refl;
              whole = rw same (add-IsWhole unit before amount before_whole whole);
            })
            h k)

    debited-IsChained :
        (now id : String) (z : ℤ) (description : Option String) (rows : table.Rows)
        → 0 < unit
        → ((k : String) → IsChained k (laws.contents rows))
        → (k : String)
        → IsChained k
            (laws.contents (handle_wallet_debited unit table now id (fin z) description rows).1)
    unfolding handle_wallet_debited
    debited-IsChained now id z description rows u h k =
        let before = latest_balance id (laws.contents rows) in
        let before_whole = latest-IsWhole id (laws.contents rows) (h id) in
        let same = round_self unit before u before_whole in
        let amount = round unit (or_zero (some (fin z))) in
        let whole : IsWhole unit amount = rw (or_zero_finite (some z)) (round-IsWhole unit z) in
        rw (laws.latest_law id rows) (
          insert-IsChained _ rows
            (record {
              starts = same;
              ends = refl;
              whole = rw same (sub-IsWhole unit before amount before_whole whole);
            })
            h k)

    -- A message of a finite amount leaves every wallet's entries chained: each begins with the
    -- balance at which the one before it has ended, or with zero, and ends with the amount more or
    -- less, which is a whole number. A creation is asked to come before every other entry of its
    -- wallet.
    pub apply-IsChained :
        (now : String) (message : OutboxEvent) (rows : table.Rows)
        → 0 < unit
        → IsFinite message.payload.body
        → (IsCreation message.payload.body
            → latest_of message.aggregate_id (laws.contents rows) ≡ none)
        → ((id : String) → IsChained id (laws.contents rows))
        → (id : String) → IsChained id (laws.contents (apply unit table now message rows).1)
    unfolding apply
    apply-IsChained now message rows u finite fresh h =
        by_body message.payload.body message.aggregate_id finite fresh
      where
        by_body :
            (body : EventData) (wallet_id : String)
            → IsFinite body
            → (IsCreation body → latest_of wallet_id (laws.contents rows) ≡ none)
            → (id : String)
            → IsChained id (laws.contents (apply_body unit table now body wallet_id rows).1)
        by_body (wallet_created o none) w f c = created-IsChained w none rows (c tt) h
        by_body (wallet_created o (some (fin z))) w f c = created-IsChained w (some z) rows (c tt) h
        by_body (wallet_created o (some nan)) w f c = absurd f
        by_body (wallet_created o (some infinity)) w f c = absurd f
        by_body (wallet_created o (some neg_infinity)) w f c = absurd f
        by_body (wallet_credited (fin z) d) w f c = credited-IsChained now w z d rows u h
        by_body (wallet_credited nan d) w f c = absurd f
        by_body (wallet_credited infinity d) w f c = absurd f
        by_body (wallet_credited neg_infinity d) w f c = absurd f
        by_body (wallet_debited (fin z) d) w f c = debited-IsChained now w z d rows u h
        by_body (wallet_debited nan d) w f c = absurd f
        by_body (wallet_debited infinity d) w f c = absurd f
        by_body (wallet_debited neg_infinity d) w f c = absurd f
