-- ===== src/Aggregate/Replay.antt =====
-- Event sourcing: an aggregate is what its history and its pending events replay to. Timestamps are
-- left out, since a command dates the state before the event store dates the event.
use mathlib.Core.List.{append_assoc}
use wallex_sanbox.Prelude.{
  String, ◌≡◌, refl, ap, ◌∙◌, Option, none, some, List, [], ◌∷◌, ◌++◌, length, arith, inl, inr, ℕ,
  Option-cases, Bool-cases,
}
use wallex_sanbox.Prelude.Int.{ℤ, pos, ◌+ℤ◌, int_laws}
use wallex_sanbox.Number.{Number, add, sub, lt}
use wallex_sanbox.Exec.{ok, >>=-eq-ok}
use wallex_sanbox.Domain.{WalletDomainEvent, StoredWalletEvent, wallet_credited, wallet_debited}
use wallex_sanbox.Aggregate.{
  WalletAggregate, WalletState, blank, apply_historical_event, apply_history, credit, debit,
}
use wallex_sanbox.Aggregate.Methods.{
  IsValid, moved, credit_cases, debit_cases, uninitialized, is_valid_amount,
}

abbrev pub SameState : Option WalletState → Option WalletState → Type 0
SameState none none = Unit
SameState (some s) (some t) =
    (s.id ≡ t.id) × (s.owner_id ≡ t.owner_id) × (s.balance ≡ t.balance) × (s.version ≡ t.version)
SameState s t = ⊥

-- Two aggregates that differ in timestamps and in what is pending at most.
pub record SameView (a b : WalletAggregate) : Type 0 where
  pub ids : a.id ≡ b.id
  pub versions : a.version ≡ b.version
  pub states : SameState a.state b.state

-- The stored form of some events: as given, at consecutive versions from `v` on.
abbrev pub Stamped : ℤ → List WalletDomainEvent → List StoredWalletEvent → Type 0
Stamped v [] [] = Unit
Stamped v (e ∷ es) (s ∷ ss) = (s.event ≡ e) × (s.metadata.version ≡ v) × Stamped (v +ℤ pos 1) es ss
Stamped v es ss = ⊥

-- What the events replay to looks like `a`.
abbrev pub ReplaysTo : String → List StoredWalletEvent → WalletAggregate → Type 0
ReplaysTo now events a =
    (b : WalletAggregate) × (apply_history now events (blank a.id) ≡ (ok tt, b)) × SameView b a

-- However the pending events come to be stored, the history with them replays to the aggregate.
abbrev pub IsSourced : List StoredWalletEvent → WalletAggregate → Type 0
IsSourced history a =
    (now : String) (stored : List StoredWalletEvent)
    → Stamped (a.persisted_version +ℤ pos 1) a.pending_events stored
    → ReplaysTo now (history ++ stored) a

pub apply_history-append :
    (now : String) (xs ys : List StoredWalletEvent) (a b : WalletAggregate)
    → apply_history now xs a ≡ (ok tt, b)
    → apply_history now (xs ++ ys) a ≡ apply_history now ys b
unfolding apply_history
apply_history-append now [] ys a b h = cc
apply_history-append now (x ∷ xs) ys a b h =
    let (_, first, rest) =
      >>=-eq-ok (apply_historical_event now x) (λ _. apply_history now xs) a h in
    rw first (apply_history-append now xs ys (apply_historical_event now x a).1 b rest)

pub step_credited :
    (now : String) (e : StoredWalletEvent) (amount : Number) (d : Option String)
    (a b : WalletAggregate) (s : WalletState) (event : WalletDomainEvent) (t : String)
    → a.state ≡ some s
    → SameView b a
    → e.event ≡ event
    → event.body ≡ wallet_credited amount d
    → e.metadata.version ≡ a.version +ℤ pos 1
    → let (r, b') = apply_historical_event now e b in
      (r ≡ ok tt) × SameView b' (moved t event (add s.balance amount) s a)
unfolding apply_historical_event
step_credited now e amount d a b s event t h v p q w = ground arith

pub step_debited :
    (now : String) (e : StoredWalletEvent) (amount : Number) (d : Option String)
    (a b : WalletAggregate) (s : WalletState) (event : WalletDomainEvent) (t : String)
    → a.state ≡ some s
    → SameView b a
    → e.event ≡ event
    → event.body ≡ wallet_debited amount d
    → e.metadata.version ≡ a.version +ℤ pos 1
    → let (r, b') = apply_historical_event now e b in
      (r ≡ ok tt) × SameView b' (moved t event (sub s.balance amount) s a)
unfolding apply_historical_event
step_debited now e amount d a b s event t h v p q w = ground arith

-- The stored form of events with one more at the end ends in the stored form of that one.
Stamped-snoc :
    (v : ℤ) (es : List WalletDomainEvent) (e : WalletDomainEvent) (stored : List StoredWalletEvent)
    → Stamped v (es ++ e ∷ []) stored
    → (front : List StoredWalletEvent) × (last : StoredWalletEvent) × (stored ≡ front ++ last ∷ [])
      × Stamped v es front
      × (last.event ≡ e)
      × (last.metadata.version ≡ v +ℤ pos (length es))
Stamped-snoc v [] e [] h = absurd h
Stamped-snoc v [] e (s ∷ []) h = ([], s, refl, tt, h.0, rw h.1 (omega int_laws))
Stamped-snoc v [] e (s ∷ t ∷ ss) h = absurd h.2
Stamped-snoc v (x ∷ es) e [] h = absurd h
Stamped-snoc v (x ∷ es) e (s ∷ ss) h =
    let (front, last, same, stamped, event, version) = Stamped-snoc (v +ℤ pos 1) es e ss h.2 in
    (s ∷ front, last, ap (λ l. s ∷ l) same, (h.0, h.1, stamped), event, rw version (omega int_laws))

pub apply_history-one :
    (now : String) (e : StoredWalletEvent) (a : WalletAggregate)
    → (apply_historical_event now e a).0 ≡ ok tt
    → apply_history now (e ∷ []) a ≡ (ok tt, (apply_historical_event now e a).1)
unfolding apply_history
apply_history-one now e a h = rw h

next_version : (v p : ℤ) (n : ℕ) → v ≡ p +ℤ pos n → p +ℤ pos 1 +ℤ pos n ≡ v +ℤ pos 1
next_version v p n h = rw h (omega int_laws)

-- One more new event keeps an aggregate sourced, if replaying the event does what applying it did.
pub moved-IsSourced :
    (history : List StoredWalletEvent) (t : String) (event : WalletDomainEvent) (balance : Number)
    (s : WalletState) (a : WalletAggregate)
    → ((now : String) (e : StoredWalletEvent) (b : WalletAggregate)
        → SameView b a
        → e.event ≡ event
        → e.metadata.version ≡ a.version +ℤ pos 1
        → let (r, b') = apply_historical_event now e b in
          (r ≡ ok tt) × SameView b' (moved t event balance s a))
    → IsValid a
    → IsSourced history a
    → IsSourced history (moved t event balance s a)
moved-IsSourced history t event balance s a step v sourced now stored h =
    let (front, last, same, stamped, is_event, version) =
      Stamped-snoc (a.persisted_version +ℤ pos 1) a.pending_events event stored h in
    let (b, run, view) = sourced now front stamped in
    let (done, seen) =
      step now last b view is_event (
        version ∙ next_version a.version a.persisted_version (length a.pending_events) v.counted) in
    (
      (apply_historical_event now last b).1,
      rw (same, ← append_assoc history front (last ∷ []))
          (apply_history-append now (history ++ front) (last ∷ []) (blank a.id) b run
            ∙ apply_history-one now last b done),
      seen,
    )

pub credit-IsSourced :
    (t : String) (amount : Number) (description : Option String) (history : List StoredWalletEvent)
    (a : WalletAggregate)
    → IsValid a
    → IsSourced history a
    → IsSourced history (credit t amount description a).1
credit-IsSourced t amount description history a v h = elim (Option-cases a.state) [
  | inl e ↦ rw ((uninitialized t amount description a e).0) h
  | inr (s, e) ↦ elim (Bool-cases (is_valid_amount amount)) [
    | inl valid ↦
        rw (credit_cases t amount description a e, valid)
          (moved-IsSourced history t _ _ s a
            (λ now x b view p q. step_credited now x amount description a b s _ t e view p refl q) v
            h)
    | inr bad ↦ rw (credit_cases t amount description a e, bad) h
  ]
]

pub debit-IsSourced :
    (t : String) (amount : Number) (description : Option String) (history : List StoredWalletEvent)
    (a : WalletAggregate)
    → IsValid a
    → IsSourced history a
    → IsSourced history (debit t amount description a).1
debit-IsSourced t amount description history a v h = elim (Option-cases a.state) [
  | inl e ↦ rw ((uninitialized t amount description a e).1) h
  | inr (s, e) ↦ elim (Bool-cases (is_valid_amount amount)) [
    | inl valid ↦ elim (Bool-cases (lt s.balance amount)) [
      | inl short ↦ rw (debit_cases t amount description a e, valid, short) h
      | inr covered ↦
          rw (debit_cases t amount description a e, valid, covered)
            (moved-IsSourced history t _ _ s a
              (λ now x b view p q. step_debited now x amount description a b s _ t e view p refl q)
              v h)
    ]
    | inr bad ↦ rw (debit_cases t amount description a e, bad) h
  ]
]
