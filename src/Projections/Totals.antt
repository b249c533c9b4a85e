-- ===== src/Projections/Totals.antt =====
-- The balances that the projections arrive at.
use mathlib.Core.Path.{subst}
use wallex_sanbox.Prelude.{
  ◌≡◌, refl, ap, ◌∙◌, sym, String, Option, some, get_or, List, [], ◌∷◌, ◌++◌, eq_refl, All,
}
use wallex_sanbox.Prelude.Int.{ℤ, pos, ◌+ℤ◌, ◌-ℤ◌, int_laws}
use wallex_sanbox.Number.{Number, zero_number, fin, nan, infinity, neg_infinity, add, sub}
use wallex_sanbox.Exec.{ok}
use wallex_sanbox.Domain.{
  EventData, wallet_created, wallet_credited, wallet_debited, StoredWalletEvent,
}
use wallex_sanbox.Aggregate.{WalletAggregate, rehydrate}
use wallex_sanbox.Aggregate.Balance.{
  IsMove, credit_of, debit_of, total_credited, total_debited, balance_of, balance_sums, regroup,
}
use wallex_sanbox.Database.{Table, TableLaws}
use wallex_sanbox.Projections.{
  WalletReadModel, AuditTrailEntry, negated, apply_balance_change, project_event, project_body,
  project, change_entry, created_entry,
}

from_zero : (c d : ℤ) → c -ℤ d ≡ pos 0 +ℤ c -ℤ d
from_zero c d = omega int_laws

module _ (repository : Table WalletReadModel)
    (laws : TableLaws repository (λ m. m.id) (λ m. m)) where
  -- The document of a wallet, with its balance.
  pub record HasBalance (rows : repository.Rows) (id : String) (b : ℤ) : Type 0 where
    pub document : WalletReadModel
    pub stored : laws.row rows id ≡ some document
    pub own : document.id ≡ id
    pub balance : document.balance ≡ fin b

  saved_row :
      (m : WalletReadModel) (rows : repository.Rows) (id : String)
      → m.id ≡ id
      → laws.row (repository.save m rows).1 id ≡ some m
  saved_row m rows id h = rw (laws.save_row m rows id, h, eq_refl id) refl

  change_found :
      (wallet_id id : String) (v : ℤ) (b c : ℤ) (delta : Number) (entry : AuditTrailEntry)
      (rows : repository.Rows)
      → wallet_id ≡ id
      → HasBalance rows id b
      → add (fin b) delta ≡ fin c
      → let (r, rows') = apply_balance_change repository wallet_id v delta entry rows in
        (r ≡ ok tt) × HasBalance rows' id c
  unfolding apply_balance_change
  change_found wallet_id id v b c delta entry rows same h e =
      let m = record h.document {
        balance = add h.document.balance delta;
        version = v;
        audit_trail = h.document.audit_trail ++ entry ∷ [];
      } in
      rw same (
        rw (laws.find_one_law id rows, h.stored)
          (rw (laws.save_result m rows) (
            refl,
            record {
              document = m;
              stored = saved_row m rows id h.own;
              own = h.own;
              balance = ap (λ y. add y delta) h.balance ∙ e;
            },
          )))

  via :
      {id : String} {b : ℤ} (e : StoredWalletEvent) (rows : repository.Rows) {body : EventData}
      → e.body ≡ body
      → let (r, rows') = project_body repository body e rows in
        (r ≡ ok tt) × HasBalance rows' id b
        → let (q, rows'') = project_event repository e rows in (q ≡ ok tt) × HasBalance rows'' id b
  unfolding project_event
  via {id = id} {b = b} e rows k h =
      subst
        (λ body.
          let (r, rows') = project_body repository body e rows in
          (r ≡ ok tt) × HasBalance rows' id b)
        (sym k) h

  project_step :
      (e : StoredWalletEvent) (body : EventData) (id : String) (b : ℤ) (rows : repository.Rows)
      → e.body ≡ body
      → IsMove body
      → e.event.aggregate_id ≡ id
      → HasBalance rows id b
      → let (r, rows') = project_event repository e rows in
        (r ≡ ok tt) × HasBalance rows' id (b +ℤ credit_of body -ℤ debit_of body)
  unfolding project_event add sub
  project_step e (wallet_credited (fin x) d) id b rows k m own h = via e rows k (
      change_found e.event.aggregate_id id e.metadata.version b (b +ℤ x -ℤ pos 0) (fin x)
        (change_entry e (fin x) (get_or d "Credit")) rows own h (ap fin (omega int_laws)))
  project_step e (wallet_debited (fin x) d) id b rows k m own h = via e rows k (
      change_found e.event.aggregate_id id e.metadata.version b (b +ℤ pos 0 -ℤ x) (negated (fin x))
        (change_entry e (fin x) (get_or d "Debit")) rows own h (ap fin (omega int_laws)))
  project_step e (wallet_credited nan d) id b rows k m own h = absurd m
  project_step e (wallet_credited infinity d) id b rows k m own h = absurd m
  project_step e (wallet_credited neg_infinity d) id b rows k m own h = absurd m
  project_step e (wallet_debited nan d) id b rows k m own h = absurd m
  project_step e (wallet_debited infinity d) id b rows k m own h = absurd m
  project_step e (wallet_debited neg_infinity d) id b rows k m own h = absurd m
  project_step e (wallet_created o i) id b rows k m own h = absurd m

  project_moves :
      (es : List StoredWalletEvent) (id : String) (b : ℤ) (rows : repository.Rows)
      → All (λ e. IsMove e.body) es
      → All (λ e. e.event.aggregate_id ≡ id) es
      → HasBalance rows id b
      → let (r, rows') = project repository es rows in
        (r ≡ ok tt) × HasBalance rows' id (b +ℤ total_credited es -ℤ total_debited es)
  unfolding project total_credited total_debited
  project_moves [] id b rows m own h = (
    refl,
    record {
      document = h.document;
      stored = h.stored;
      own = h.own;
      balance = h.balance ∙ ap fin (omega int_laws);
    },
  )
  project_moves (e ∷ es) id b rows m own h =
      let (done, next) = project_step e e.body id b rows refl m.0 own.0 h in
      let c = b +ℤ credit_of e.body -ℤ debit_of e.body in
      let (rest, last) = project_moves es id c (project_event repository e rows).1 m.1 own.1 next in
      rw done (
        rest,
        record {
          document = last.document;
          stored = last.stored;
          own = last.own;
          balance =
              last.balance
              ∙ ap fin (
                  regroup b (credit_of e.body) (debit_of e.body) (total_credited es)
                    (total_debited es));
        },
      )

  -- The projection of a wallet's history, which is a creation and then credits and debits of finite
  -- amounts, all of this wallet, succeeds, and its document has the balance of the aggregate that
  -- the history rehydrates to, whatever was stored before.
  pub projection_agrees :
      (now id owner : String) (initial : Option Number) (e : StoredWalletEvent)
      (es : List StoredWalletEvent) (rows : repository.Rows)
      → e.body ≡ wallet_created owner initial
      → All (λ x. IsMove x.body) es
      → All (λ x. x.event.aggregate_id ≡ id) (e ∷ es)
      → let (r, rows') = project repository (e ∷ es) rows in
        (a : WalletAggregate) × (m : WalletReadModel) × (r ≡ ok tt)
        × (rehydrate now id (e ∷ es) ≡ ok a)
        × (laws.row rows' id ≡ some m)
        × (balance_of a.state ≡ some m.balance)
  unfolding project
  projection_agrees now id owner initial e es rows k m own =
      let (a, run, balance) = balance_sums now id owner initial e es k m in
      let document : WalletReadModel = record {
        id = e.event.aggregate_id;
        owner_id = owner;
        balance = zero_number;
        version = e.metadata.version;
        audit_trail = created_entry e ∷ [];
      } in
      let stored = (repository.save document rows).1 in
      let (opened, stored) = via e rows k (
        rw (laws.save_result document rows) (
          refl,
          record {
            document = document;
            stored = saved_row document rows id own.0;
            own = own.0;
            balance = refl;
          },
        )) in
      let (done, last) =
        project_moves es id (pos 0) (project_event repository e rows).1 m own.1 stored in
      rw opened (
        a,
        last.document,
        done,
        run,
        last.stored,
        balance
            ∙ ap some
                (ap fin (from_zero (total_credited es) (total_debited es)) ∙ sym last.balance),
      )
