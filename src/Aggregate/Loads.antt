-- ===== src/Aggregate/Loads.antt =====
-- What a good history rehydrates to, and that storing the pending events of a live aggregate gives one.
use mathlib.Core.Path.{subst}
use mathlib.Core.List.{append-nil}
use wallex_sanbox.Prelude.{
  String, ◌≡◌, refl, ap, ◌∙◌, sym, Option, none, some, List, [], ◌∷◌, ◌++◌, length, length-append,
  arith, ℕ, suc, is_some, true, ◌+◌,
}
use wallex_sanbox.Prelude.Int.{ℤ, pos, ◌+ℤ◌, int_laws, pos_part, neg_part}
use wallex_sanbox.Number.{IsNonneg}
use wallex_sanbox.Exec.{ok, >>=-eq-ok}
use wallex_sanbox.Domain.{WalletDomainEvent, StoredWalletEvent}
use wallex_sanbox.Aggregate.{
  WalletAggregate, WalletState, blank, apply_historical_event, apply_history, rehydrate,
  clear_pending_events,
}
use wallex_sanbox.Aggregate.Methods.{IsValid, StateValid}
use wallex_sanbox.Aggregate.Replay.{SameState, SameView, Stamped, ReplaysTo, IsSourced}

pub SameState-trans : (r s t : Option WalletState) → SameState r s → SameState s t → SameState r t
SameState-trans none none none h k = tt
SameState-trans (some r) (some s) (some t) h k = ground arith
SameState-trans none (some s) t h k = absurd h
SameState-trans (some r) none t h k = absurd h
SameState-trans none none (some t) h k = absurd k
SameState-trans (some r) (some s) none h k = absurd k

pub SameState-symm : (s t : Option WalletState) → SameState s t → SameState t s
SameState-symm none none h = tt
SameState-symm (some s) (some t) h = ground arith
SameState-symm none (some t) h = absurd h
SameState-symm (some s) none h = absurd h

pub SameView-trans : (a b c : WalletAggregate) → SameView a b → SameView b c → SameView a c
SameView-trans a b c h k = record {
  ids = h.ids ∙ k.ids;
  versions = h.versions ∙ k.versions;
  states = SameState-trans a.state b.state c.state h.states k.states;
}

pub SameView-symm : (a b : WalletAggregate) → SameView a b → SameView b a
SameView-symm a b h = record {
  ids = sym h.ids;
  versions = sym h.versions;
  states = SameState-symm a.state b.state h.states;
}

pub StateValid-SameState :
    (i j : String) (v w : ℤ) (s t : Option WalletState)
    → i ≡ j
    → v ≡ w
    → SameState s t
    → StateValid j w t
    → StateValid i v s
StateValid-SameState i j v w none none p q h k = tt
StateValid-SameState i j v w (some s) (some t) p q h k =
    (h.0 ∙ k.0 ∙ sym p, h.3 ∙ k.1 ∙ sym q, subst IsNonneg (sym h.2) k.2)
StateValid-SameState i j v w none (some t) p q h k = absurd h
StateValid-SameState i j v w (some s) none p q h k = absurd h

-- What a replay leaves alone or keeps equal.
pub record IsLoaded (a b : WalletAggregate) : Type 0 where
  pub pending : b.pending_events ≡ a.pending_events
  pub ids : b.id ≡ a.id
  pub persisted : a.persisted_version ≡ a.version → b.persisted_version ≡ b.version

apply_historical_event-IsLoaded :
    (now : String) (e : StoredWalletEvent) (a : WalletAggregate)
    → (apply_historical_event now e a).0 ≡ ok tt
    → IsLoaded a (apply_historical_event now e a).1
unfolding apply_historical_event
apply_historical_event-IsLoaded now e a h = ground arith

pub apply_history-IsLoaded :
    (now : String) (es : List StoredWalletEvent) (a b : WalletAggregate)
    → apply_history now es a ≡ (ok tt, b)
    → IsLoaded a b
unfolding apply_history
apply_history-IsLoaded now [] a b h = ground arith
apply_history-IsLoaded now (e ∷ es) a b h =
    let (_, first, rest) =
      >>=-eq-ok (apply_historical_event now e) (λ _. apply_history now es) a h in
    let c = (apply_historical_event now e a).1 in
    let x = apply_historical_event-IsLoaded now e a first in
    let y = apply_history-IsLoaded now es c b rest in
    record {
      pending = y.pending ∙ x.pending;
      ids = y.ids ∙ x.ids;
      persisted = λ p. y.persisted (x.persisted p);
    }

-- `rehydrate` is the replay, with nothing pending.
pub rehydrate_replays :
    (now id : String) (history : List StoredWalletEvent) (b : WalletAggregate)
    → apply_history now history (blank id) ≡ (ok tt, b)
    → rehydrate now id history ≡ ok (clear_pending_events b)
unfolding rehydrate
rehydrate_replays now id history b h = rw h

pub length-Stamped :
    (v : ℤ) (es : List WalletDomainEvent) (stored : List StoredWalletEvent)
    → Stamped v es stored
    → length stored ≡ length es
length-Stamped v [] [] h = refl
length-Stamped v (e ∷ es) (s ∷ ss) h = ap suc (length-Stamped (v +ℤ pos 1) es ss h.2)
length-Stamped v [] (s ∷ ss) h = absurd h
length-Stamped v (e ∷ es) [] h = absurd h

-- The aggregate that a good history rehydrates to.
pub record IsLoadOf (id : String) (history : List StoredWalletEvent) (a : WalletAggregate)
    : Type 0 where
  pub valid : IsValid a
  pub sourced : IsSourced history a
  pub counted : a.version +ℤ pos 1 ≡ pos (length history)
  pub persisted : a.persisted_version ≡ a.version
  pub pending : a.pending_events ≡ []
  pub ids : a.id ≡ id
  pub has_state : is_some a.state ≡ true

pub same_is_some : (s t : Option WalletState) → SameState s t → is_some s ≡ is_some t
same_is_some none none h = refl
same_is_some (some s) (some t) h = refl
same_is_some none (some t) h = absurd h
same_is_some (some s) none h = absurd h

-- A live aggregate as a command leaves it, before its pending events are stored.
pub record IsLive (id : String) (history : List StoredWalletEvent) (a : WalletAggregate)
    : Type 0 where
  pub valid : IsValid a
  pub sourced : IsSourced history a
  pub counted : a.persisted_version +ℤ pos 1 ≡ pos (length history)
  pub ids : a.id ≡ id
  pub has_state : is_some a.state ≡ true

total_count :
    (v p w : ℤ) (n m h : ℕ)
    → v ≡ w
    → w ≡ p +ℤ pos n
    → p +ℤ pos 1 ≡ pos h
    → m ≡ n
    → v +ℤ pos 1 ≡ pos (h + m)
total_count v p w n m h e f g k = rw (e, f, k) (pos_step p n h g)
  where
    pos_step : (p : ℤ) (n h : ℕ) → p +ℤ pos 1 ≡ pos h → p +ℤ pos n +ℤ pos 1 ≡ pos (h + n)
    pos_step p n h g = omega (int_laws, ap pos_part g, ap neg_part g)

plus_zero : (x : ℤ) → x ≡ x +ℤ pos 0
plus_zero x = omega int_laws

-- With nothing pending, what looks like `a` is sourced by the events that replay to `a`.
pub resourced :
    (now : String) (v : ℤ) (events : List StoredWalletEvent) (a b : WalletAggregate)
    → SameView b a
    → ReplaysTo now events a
    → (more : List StoredWalletEvent) → Stamped v [] more
    → ReplaysTo now (events ++ more) b
resourced now v events a b same (c, run, view) [] h =
    (c, rw (append-nil, same.ids) run, SameView-trans c a b view (SameView-symm b a same))
resourced now v events a b same replays (s ∷ ss) h = absurd h

-- Once the pending events of a live aggregate are stored, the wallet loads, and as it was left.
pub commit_loads :
    (id now : String) (history stored : List StoredWalletEvent) (a : WalletAggregate)
    → IsLive id history a
    → Stamped (a.persisted_version +ℤ pos 1) a.pending_events stored
    → (b : WalletAggregate) × (rehydrate now id (history ++ stored) ≡ ok b)
      × IsLoadOf id (history ++ stored) b
      × SameView b a
unfolding clear_pending_events
commit_loads id now history stored a live st =
    let (c, run, view) = live.sourced now stored st in
    let b = clear_pending_events c in
    let loaded = apply_history-IsLoaded now (history ++ stored) (blank a.id) c run in
    let same : SameView b a = record {
      ids = view.ids;
      versions = view.versions;
      states = view.states;
    } in
    (
      b,
      rw (← live.ids) (rehydrate_replays now a.id (history ++ stored) c run),
      record {
        valid = record {
          counted = sym (loaded.persisted refl) ∙ plus_zero c.persisted_version;
          state_valid =
              StateValid-SameState c.id a.id c.version a.version c.state a.state view.ids
                view.versions view.states live.valid.state_valid;
        };
        sourced = λ later more h.
            resourced later (c.persisted_version +ℤ pos 1) (history ++ stored) a b same
              (live.sourced later stored st) more h;
        counted = rw (length-append history stored) (
            total_count c.version a.persisted_version a.version (length a.pending_events)
              (length stored) (length history) view.versions live.valid.counted live.counted
              (length-Stamped (a.persisted_version +ℤ pos 1) a.pending_events stored st));
        persisted = loaded.persisted refl;
        pending = refl;
        ids = view.ids ∙ live.ids;
        has_state = same_is_some c.state a.state view.states ∙ live.has_state;
      },
      same,
    )
