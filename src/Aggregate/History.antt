-- ===== src/Aggregate/History.antt =====
-- The histories that commands can write: a created wallet's events, then those of accepted credits
-- and debits on the rehydrated wallet. Each of them rehydrates.
use mathlib.Core.Path.{subst}
use wallex_sanbox.Prelude.{
  String, ◌≡◌, refl, ◌∙◌, Option, some, List, [], ◌∷◌, ◌++◌, arith, inl, inr, Bool-cases, is_some,
  true,
}
use wallex_sanbox.Prelude.Int.{pos, negsuc, ◌+ℤ◌}
use wallex_sanbox.Number.{Number, add, lt, zero_number}
use wallex_sanbox.Exec.{ok}
use wallex_sanbox.Domain.{StoredWalletEvent}
use wallex_sanbox.Aggregate.{
  Action, WalletAggregate, blank, apply_historical_event, create, credit, debit, rehydrate,
}
use wallex_sanbox.Aggregate.Methods.{IsValid, credit-IsValid, debit-IsValid}
use wallex_sanbox.Aggregate.Creation.{
  created, opening_event, funding_event, initial_state, zero_add, create-eq-ok, created-IsValid,
}
use wallex_sanbox.Aggregate.Replay.{
  SameView, Stamped, IsSourced, step_credited, apply_history-one, moved-IsSourced, credit-IsSourced,
  debit-IsSourced,
}
use wallex_sanbox.Aggregate.Loads.{IsLoadOf, IsLive, commit_loads}

-- A wallet with its first event only.
abbrev just_opened : String → String → String → Number → WalletAggregate
just_opened now id owner initial = record {
  id = id;
  pending_events = opening_event id owner initial ∷ [];
  state = some (initial_state now id owner zero_number (pos 0));
  version = pos 0;
  persisted_version = negsuc 0;
}

opening_step :
    (t now id owner : String) (initial : Number) (e : StoredWalletEvent)
    → e.event ≡ opening_event id owner initial
    → e.metadata.version ≡ pos 0
    → let (r, b) = apply_historical_event now e (blank id) in
      (r ≡ ok tt) × SameView b (just_opened t id owner initial)
unfolding apply_historical_event
opening_step t now id owner initial e h k = ground arith

just_opened-IsSourced :
    (t id owner : String) (initial : Number) → IsSourced [] (just_opened t id owner initial)
unfolding ◌+ℤ◌
just_opened-IsSourced t id owner initial now [] h = absurd h
just_opened-IsSourced t id owner initial now (e ∷ []) h =
    let (done, view) = opening_step t now id owner initial e h.0 h.1 in
    ((apply_historical_event now e (blank id)).1, apply_history-one now e (blank id) done, view)
just_opened-IsSourced t id owner initial now (e ∷ x ∷ es) h = absurd h.2

just_opened-IsValid :
    (t id owner : String) (initial : Number) → IsValid (just_opened t id owner initial)
unfolding ◌+ℤ◌
just_opened-IsValid t id owner initial = record {
  counted = refl;
  state_valid = (refl, refl, omega arith);
}

created-IsSourced :
    (t id owner : String) (initial : Number) → IsSourced [] (created t id owner initial)
unfolding ◌+ℤ◌
created-IsSourced t id owner initial = elim (Bool-cases (lt zero_number initial)) [
  | inl e ↦
      let a = just_opened t id owner initial in
      rw e (
        rw zero_add at (
          moved-IsSourced [] t (funding_event id initial) (add zero_number initial)
            (initial_state t id owner zero_number (pos 0)) a
            (λ now x b view p q.
              step_credited now x initial (some "Initial balance") a b
                (initial_state t id owner zero_number (pos 0)) (funding_event id initial) t refl
                view p refl q)
            (just_opened-IsValid t id owner initial) (just_opened-IsSourced t id owner initial)))
  | inr e ↦ rw e (just_opened-IsSourced t id owner initial)
]

-- The commands that move funds.
pub data Change : Type 0 where
  credited debited : Change

unfoldable pub perform : Change → String → Number → Option String → Action
perform credited = credit
perform debited = debit

perform-IsValid :
    (c : Change) (now : String) (amount : Number) (d : Option String) (a : WalletAggregate)
    → IsValid a
    → IsValid (perform c now amount d a).1
unfolding perform
perform-IsValid credited = credit-IsValid
perform-IsValid debited = debit-IsValid

perform-IsSourced :
    (c : Change) (now : String) (amount : Number) (d : Option String)
    (history : List StoredWalletEvent) (a : WalletAggregate)
    → IsValid a
    → IsSourced history a
    → IsSourced history (perform c now amount d a).1
unfolding perform
perform-IsSourced credited = credit-IsSourced
perform-IsSourced debited = debit-IsSourced

perform_keeps :
    (c : Change) (now : String) (amount : Number) (d : Option String) (a : WalletAggregate)
    → ((perform c now amount d a).1.id ≡ a.id)
      × ((perform c now amount d a).1.persisted_version ≡ a.persisted_version)
      × (is_some a.state ≡ true → is_some (perform c now amount d a).1.state ≡ true)
unfolding perform credit debit
perform_keeps credited now amount d a = ground arith
perform_keeps debited now amount d a = ground arith

pub perform-IsLive :
    (c : Change) (id now : String) (amount : Number) (d : Option String)
    (history : List StoredWalletEvent) (a : WalletAggregate)
    → IsLoadOf id history a
    → IsLive id history (perform c now amount d a).1
perform-IsLive c id now amount d history a l =
    let (ids, persisted, kept) = perform_keeps c now amount d a in
    record {
      valid = perform-IsValid c now amount d a l.valid;
      sourced = perform-IsSourced c now amount d history a l.valid l.sourced;
      counted = rw (persisted, l.persisted) l.counted;
      ids = ids ∙ l.ids;
      has_state = kept l.has_state;
    }

created-IsLive :
    (now id owner : String) (initial : Number) → IsLive id [] (created now id owner initial)
unfolding ◌+ℤ◌
created-IsLive now id owner initial = record {
  valid = created-IsValid now id owner initial;
  sourced = created-IsSourced now id owner initial;
  counted = ground arith;
  ids = ground arith;
  has_state = ground arith;
}

-- A wallet's life, by its history: `create`, then accepted credits and debits of the rehydrated
-- wallet. Each stores its pending events at the versions that follow the persisted one.
pub data IsHistory (id : String) : List StoredWalletEvent → Type 0 where
  opened :
      (now owner : String) (initial : Number) (a : WalletAggregate)
      {stored : List StoredWalletEvent}
      → create now id owner initial ≡ ok a
      → Stamped (a.persisted_version +ℤ pos 1) a.pending_events stored
      → IsHistory id stored
  changed :
      (c : Change) (now then : String) (amount : Number) (d : Option String) (a : WalletAggregate)
      {history : List StoredWalletEvent} (stored : List StoredWalletEvent)
      {longer : List StoredWalletEvent}
      → IsHistory id history
      → rehydrate then id history ≡ ok a
      → (perform c now amount d a).0 ≡ ok tt
      → Stamped
          ((perform c now amount d a).1.persisted_version +ℤ pos 1)
          (perform c now amount d a).1.pending_events
          stored
      → longer ≡ history ++ stored
      → IsHistory id longer

-- Every history that commands can write rehydrates: to a wallet that is valid (so its balance is
-- neither negative nor NaN), whose version numbers the last event, and with nothing pending.
pub rehydrate-IsHistory :
    (id now : String) {history : List StoredWalletEvent}
    → IsHistory id history
    → (a : WalletAggregate) × (rehydrate now id history ≡ ok a) × IsLoadOf id history a
rehydrate-IsHistory id now (opened t owner initial a {stored = stored} h st) =
    let live : IsLive id [] a =
      subst (IsLive id []) (create-eq-ok t id owner initial a h).1
        (created-IsLive t id owner initial) in
    let (b, run, load, _) = commit_loads id now [] stored a live st in (b, run, load)
rehydrate-IsHistory id now
      (changed c t then amount d a {history = history} stored earlier loaded accepted st same) =
    let (a', run, load) = rehydrate-IsHistory id then earlier in
    let is_load : IsLoadOf id history a = subst (IsLoadOf id history) (cc (run, loaded)) load in
    let live = perform-IsLive c id t amount d history a is_load in
    let (b, run', load', _) =
      commit_loads id now history stored (perform c t amount d a).1 live st in
    rw same (b, run', load')
