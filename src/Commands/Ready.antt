-- ===== src/Commands/Ready.antt =====
-- A loaded wallet that has accepted a change, ready for the append.
use mathlib.Core.Path.{subst}
use wallex_sanbox.Prelude.{
  String, ◌≡◌, refl, ap, ◌∙◌, sym, Option, none, some, List, [], ◌∷◌, ◌++◌, length, arith, is_some,
  true,
}
use wallex_sanbox.Prelude.Int.{ℤ, pos, ◌+ℤ◌}
use wallex_sanbox.Number.{Number}
use wallex_sanbox.Exec.{ok}
use wallex_sanbox.Domain.{StoredWalletEvent, WalletDomainEvent, wallet_credited, wallet_debited}
use wallex_sanbox.Aggregate.{WalletAggregate, WalletState, credit, debit, rehydrate}
use wallex_sanbox.Aggregate.Methods.{StateValid}
use wallex_sanbox.Aggregate.Replay.{SameView, Stamped}
use wallex_sanbox.Aggregate.History.{
  Change, credited, debited, perform, perform-IsLive, IsHistory, changed,
}
use wallex_sanbox.Aggregate.Loads.{IsLive}
use wallex_sanbox.EventStore.Client.{KurrentClient, KurrentLaws}
use wallex_sanbox.EventStore.{committed_events}
use wallex_sanbox.EventStore.Append.{Stamped-committed}
use wallex_sanbox.Snapshots.{load_aggregate}
use wallex_sanbox.Commands.Loading.{IsWallet, perform_alike, wallet_loads}

-- An accepted change of a loaded wallet leaves exactly one event to store.
pub one_event :
    (c : Change) (now : String) (amount : Number) (d : Option String) (a : WalletAggregate)
    → a.pending_events ≡ []
    → (perform c now amount d a).0 ≡ ok tt
    → (e : WalletDomainEvent) × ((perform c now amount d a).1.pending_events ≡ e ∷ [])
      × (e.aggregate_id ≡ a.id)
unfolding perform credit debit
one_event credited now amount d a p h =
    (record { aggregate_id = a.id; body = wallet_credited amount d }, ground arith, refl)
one_event debited now amount d a p h =
    (record { aggregate_id = a.id; body = wallet_debited amount d }, ground arith, refl)

pub committed_one :
    (now id : String) (v : ℤ) (event : WalletDomainEvent)
    → event.aggregate_id ≡ id
    → (e : StoredWalletEvent) × (committed_events now id v (event ∷ []) ≡ e ∷ [])
      × (e.event ≡ event)
unfolding committed_events
committed_one now id v event h = (_, refl, ground arith)

pub committed_version :
    (now id : String) (v : ℤ) (event : WalletDomainEvent) (e : StoredWalletEvent)
    → committed_events now id v (event ∷ []) ≡ e ∷ []
    → e.metadata.version ≡ v
unfolding committed_events
committed_version now id v event e h = cc h

pub ok-injective : {A : Type 0} {a b : A} → ok a ≡ ok b → a ≡ b
ok-injective h = cc h

state_of : (s : Option WalletState) → is_some s ≡ true → (t : WalletState) × (s ≡ some t)
state_of none h = absurd (cc h)
state_of (some t) h = (t, refl)

pub live_state :
    (id : String) (history : List StoredWalletEvent) (x : WalletAggregate)
    → IsLive id history x
    → (state : WalletState) × (x.state ≡ some state) × (state.id ≡ id)
live_state id history x live =
    let (state, h) = state_of x.state live.has_state in
    (state, h, (subst (StateValid x.id x.version) h live.valid.state_valid).0 ∙ live.ids)

-- What an append of the aggregate's one event needs.
pub record IsReady (appended id : String) (history : List StoredWalletEvent) (x : WalletAggregate)
    : Type 0 where
  pub event : WalletDomainEvent
  pub live : IsLive id history x
  pub pending : x.pending_events ≡ event ∷ []
  pub own : event.aggregate_id ≡ id
  pub lived :
      IsHistory id
        (history ++ committed_events appended id (x.persisted_version +ℤ pos 1) (event ∷ []))

module _ {client : KurrentClient} (laws : KurrentLaws client) where
  pub change-IsReady :
      (c : Change) (loaded_at changed_at appended id : String) (amount : Number) (d : Option String)
      (db : client.Db) {history : List StoredWalletEvent} (a : WalletAggregate)
      → (i : IsWallet laws db id history) → rehydrate i.taken_at id history ≡ ok a
      → (perform c changed_at amount d a).0 ≡ ok tt
      → (b : WalletAggregate) × (load_aggregate client loaded_at id db
          ≡ (ok (some (b, pos (length history))), db))
        × ((perform c changed_at amount d b).0 ≡ ok tt)
        × SameView (perform c changed_at amount d b).1 (perform c changed_at amount d a).1
        × ((perform c changed_at amount d b).1.pending_events
            ≡ (perform c changed_at amount d a).1.pending_events)
        × IsReady appended id history (perform c changed_at amount d b).1
  change-IsReady c loaded_at changed_at appended id amount d db {history = history} a i run
        accepted =
      let (a', b, run', load, loaded, view, p, q) = wallet_loads laws loaded_at id db i in
      let one : a' ≡ a = ok-injective (sym run' ∙ run) in
      let (outcome, alike, same_pending, same_persisted) =
        perform_alike c changed_at changed_at amount d a b (subst (SameView b) one view)
          (p ∙ ap (λ x. x.persisted_version) one) (q ∙ ap (λ x. x.pending_events) one) in
      let x = (perform c changed_at amount d a).1 in
      let y = (perform c changed_at amount d b).1 in
      let v = y.persisted_version +ℤ pos 1 in
      let (event, pending, own) =
        one_event c changed_at amount d b load.pending (outcome ∙ accepted) in
      let stored = committed_events appended id v (event ∷ []) in
      let stamped : Stamped v (event ∷ []) stored =
        Stamped-committed appended id v (event ∷ []) (own ∙ load.ids, tt) in
      (
        b,
        loaded,
        outcome ∙ accepted,
        alike,
        same_pending,
        record {
          event = event;
          live = perform-IsLive c id changed_at amount d history b load;
          pending = pending;
          own = own ∙ load.ids;
          lived =
              changed c changed_at i.taken_at amount d a stored i.lived run accepted
                (subst (λ w. Stamped (w +ℤ pos 1) x.pending_events stored) same_persisted
                  (subst (λ es. Stamped v es stored) (sym pending ∙ same_pending) stamped))
                refl;
        },
      )
