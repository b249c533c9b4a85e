-- ===== src/Aggregate/Snapshot.antt =====
-- Loading from a snapshot and the events behind it gives what a full replay gives.
use mathlib.Core.Path.{subst}
use wallex_sanbox.Prelude.{String, ◌≡◌, refl, ap, ◌∙◌, sym, some, List, [], ◌∷◌, ◌++◌, arith}
use wallex_sanbox.Prelude.Int.{ℤ}
use wallex_sanbox.Exec.{Result, ok, err, ◌>>◌, modify, continue}
use wallex_sanbox.Domain.{StoredWalletEvent}
use wallex_sanbox.Aggregate.{
  Action, built, WalletAggregate, WalletState, blank, apply_historical_event, apply_history,
  rehydrate, rehydrate_from_snapshot, clear_pending_events,
}
use wallex_sanbox.Aggregate.Replay.{SameState, SameView, apply_history-append}
use wallex_sanbox.Aggregate.Loads.{apply_history-IsLoaded}

apply_historical_event-SameView :
    (now then : String) (e : StoredWalletEvent) (a b : WalletAggregate)
    → SameView a b
    → ((apply_historical_event now e a).0 ≡ (apply_historical_event then e b).0)
      × SameView (apply_historical_event now e a).1 (apply_historical_event then e b).1
unfolding apply_historical_event
apply_historical_event-SameView now then e a b v = ground arith

continue-SameView :
    (r r' : Result (Unit {0})) (f g : Action) (a b : WalletAggregate)
    → r ≡ r'
    → SameView a b
    → ((f a).0 ≡ (g b).0) × SameView (f a).1 (g b).1
    → ((continue r (λ _. f) a).0 ≡ (continue r' (λ _. g) b).0)
      × SameView (continue r (λ _. f) a).1 (continue r' (λ _. g) b).1
continue-SameView (ok _) (ok _) f g a b p v h = h
continue-SameView (err e) (err e') f g a b p v h = (cc, v)
continue-SameView (ok _) (err e) f g a b p v h = absurd (cc p)
continue-SameView (err e) (ok _) f g a b p v h = absurd (cc p)

apply_history-SameView :
    (now then : String) (es : List StoredWalletEvent) (a b : WalletAggregate)
    → SameView a b
    → ((apply_history now es a).0 ≡ (apply_history then es b).0)
      × SameView (apply_history now es a).1 (apply_history then es b).1
unfolding apply_history
apply_history-SameView now then [] a b v = (refl, v)
apply_history-SameView now then (e ∷ es) a b v =
    let (same, view) = apply_historical_event-SameView now then e a b v in
    continue-SameView (apply_historical_event now e a).0 (apply_historical_event then e b).0
      (apply_history now es) (apply_history then es) (apply_historical_event now e a).1
      (apply_historical_event then e b).1 same view
      (apply_history-SameView now then es (apply_historical_event now e a).1
        (apply_historical_event then e b).1 view)

-- Two loads with one outcome: the same error, or aggregates that differ in timestamps at most.
abbrev pub SameLoad : Result WalletAggregate → Result WalletAggregate → Type 0
SameLoad (ok a) (ok b) =
    SameView a b
    × (a.persisted_version ≡ b.persisted_version)
    × (a.pending_events ≡ b.pending_events)
SameLoad (err e) (err f) = e ≡ f
SameLoad a b = ⊥

-- The aggregate that a snapshot restores, before the later events.
abbrev restored : String → WalletState → ℤ → WalletAggregate
restored id s v = record (blank id) { state = some s; version = v; persisted_version = v }

finish_alike :
    (r r' : Result (Unit {0})) (a b : WalletAggregate)
    → r ≡ r'
    → SameView a b
    → (r ≡ ok tt → a.persisted_version ≡ a.version)
    → (r' ≡ ok tt → b.persisted_version ≡ b.version)
    → SameLoad
        (built (continue r (λ _. modify clear_pending_events) a))
        (built (continue r' (λ _. modify clear_pending_events) b))
unfolding clear_pending_events
finish_alike (ok _) (ok _) a b h v p q = (
  record { ids = v.ids; versions = v.versions; states = v.states },
  p refl ∙ v.versions ∙ sym (q refl),
  refl,
)
finish_alike (err e) (err f) a b h v p q = cc
finish_alike (ok _) (err e) a b h v p q = absurd (cc h)
finish_alike (err e) (ok _) a b h v p q = absurd (cc h)

persisted_after :
    (now : String) (es : List StoredWalletEvent) (a : WalletAggregate)
    → a.persisted_version ≡ a.version
    → (apply_history now es a).0 ≡ ok tt
    → (apply_history now es a).1.persisted_version ≡ (apply_history now es a).1.version
persisted_after now es a p h =
    let after = (apply_history now es a).1 in
    (apply_history-IsLoaded now es a after (ap (λ r. (r, after)) h)).persisted p

loads_alike :
    (now then : String) (es : List StoredWalletEvent) (a b : WalletAggregate)
    → SameView a b
    → a.persisted_version ≡ a.version
    → b.persisted_version ≡ b.version
    → SameLoad
        (built ((apply_history now es >> modify clear_pending_events) a))
        (built ((apply_history then es >> modify clear_pending_events) b))
loads_alike now then es a b v p q =
    let (same, view) = apply_history-SameView now then es a b v in
    finish_alike (apply_history now es a).0 (apply_history then es b).0 (apply_history now es a).1
      (apply_history then es b).1 same view (persisted_after now es a p)
      (persisted_after then es b q)

built-eq-ok :
    (r : Result (Unit {0})) (c a : WalletAggregate)
    → built (continue r (λ _. modify clear_pending_events) c) ≡ ok a
    → (r ≡ ok tt) × (clear_pending_events c ≡ a)
built-eq-ok (ok _) c a h = (refl, cc)
built-eq-ok (err e) c a h = absurd (cc h)

clear_nothing : (c : WalletAggregate) → c.pending_events ≡ [] → clear_pending_events c ≡ c
unfolding clear_pending_events
clear_nothing c h = ground arith

-- A rehydrated aggregate is what the replay reaches.
rehydrated :
    (now id : String) (es : List StoredWalletEvent) (a : WalletAggregate)
    → rehydrate now id es ≡ ok a
    → apply_history now es (blank id) ≡ (ok tt, a)
rehydrated now id es a h =
    let reached = (apply_history now es (blank id)).1 in
    let (done, cleared) =
      built-eq-ok (apply_history now es (blank id)).0 reached a (unfold rehydrate in h) in
    let run = ap (λ r. (r, reached)) done in
    let same =
      clear_nothing reached (apply_history-IsLoaded now es (blank id) reached run).pending in
    cc (run, same, cleared)

-- Take the events before a snapshot, which rehydrate to a wallet, and a snapshot of an aggregate
-- that looks like that wallet. Loading from the snapshot and the later events has the outcome of
-- rehydrating from all events: the same error, or the same wallet up to timestamps.
pub snapshot_equivalent :
    (now then id : String) (before later : List StoredWalletEvent) (a b : WalletAggregate)
    (s : WalletState)
    → rehydrate then id before ≡ ok b
    → SameView a b
    → a.state ≡ some s
    → SameLoad
        (rehydrate_from_snapshot now id s a.version later)
        (rehydrate then id (before ++ later))
unfolding rehydrate_from_snapshot rehydrate
snapshot_equivalent now then id before later a b s h v e =
    let run = rehydrated then id before b h in
    let loaded = apply_history-IsLoaded then before (blank id) b run in
    rw (apply_history-append then before later (blank id) b run) (
      loads_alike now then later (restored id s a.version) b
        (record {
          ids = sym loaded.ids;
          versions = v.versions;
          states = subst (λ x. SameState x b.state) e v.states;
        })
        refl (loaded.persisted refl))

-- The clock shows in timestamps at most.
pub rehydrate_alike :
    (now then id : String) (es : List StoredWalletEvent)
    → SameLoad (rehydrate now id es) (rehydrate then id es)
unfolding rehydrate
rehydrate_alike now then id es =
    loads_alike now then es (blank id) (blank id)
      (record { ids = refl; versions = refl; states = tt }) refl refl
