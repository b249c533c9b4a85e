-- ===== src/Aggregate/Creation.antt =====
-- What `create` does on every branch.
use wallex_sanbox.Prelude.{
  String, ◌≡◌, refl, ap, Bool-cases, inl, inr, true, false, some, [], ◌∷◌, arith, if◌then◌else◌,
}
use mathlib.Core.Path.{subst}
use wallex_sanbox.Prelude.Int.{ℤ, pos, negsuc, ◌+ℤ◌, int_laws}
use wallex_sanbox.Number.{Number, fin, nan, infinity, neg_infinity, zero_number, add, lt, IsNonneg}
use wallex_sanbox.Exec.{ok, err, invalid_amount}
use wallex_sanbox.Domain.{WalletDomainEvent, wallet_created, wallet_credited}
use wallex_sanbox.Aggregate.{WalletAggregate, WalletState, create, unless_falsy}
use wallex_sanbox.Aggregate.Methods.{IsValid}

-- The state of a wallet that has just been created.
abbrev pub initial_state : String → String → String → Number → ℤ → WalletState
initial_state now id owner balance version = record {
  id = id;
  owner_id = owner;
  balance = balance;
  created_at = now;
  updated_at = now;
  version = version;
}

abbrev pub opening_event : String → String → Number → WalletDomainEvent
opening_event id owner initial = record {
  aggregate_id = id;
  body = wallet_created owner (unless_falsy initial);
}

abbrev pub funding_event : String → Number → WalletDomainEvent
funding_event id initial = record {
  aggregate_id = id;
  body = wallet_credited initial (some "Initial balance");
}

-- The aggregate that `create` builds.
abbrev pub created : String → String → String → Number → WalletAggregate
created now id owner initial =
    if lt zero_number initial
    then record {
      id = id;
      pending_events = opening_event id owner initial ∷ funding_event id initial ∷ [];
      state = some (initial_state now id owner initial (pos 1));
      version = pos 1;
      persisted_version = negsuc 0;
    }
    else record {
      id = id;
      pending_events = opening_event id owner initial ∷ [];
      state = some (initial_state now id owner zero_number (pos 0));
      version = pos 0;
      persisted_version = negsuc 0;
    }

pub zero_add : (x : Number) → add zero_number x ≡ x
unfolding add
zero_add (fin x) = ap fin (omega int_laws)
zero_add nan = refl
zero_add infinity = refl
zero_add neg_infinity = refl

-- `create` builds an aggregate unless the initial balance is negative.
pub create_cases :
    (now id owner : String) (initial : Number)
    → create now id owner initial ≡ (
        if lt initial zero_number
        then err (invalid_amount initial)
        else ok (created now id owner initial))
unfolding create ◌+ℤ◌
create_cases now id owner initial = elim (Bool-cases (lt initial zero_number)) [
  | inl e ↦ rw e
  | inr e ↦ elim (Bool-cases (lt zero_number initial)) [
    | inl f ↦ rw (e, f, zero_add)
    | inr f ↦ rw (e, f)
  ]
]

positive-IsNonneg : (x : Number) → lt zero_number x ≡ true → IsNonneg x
unfolding lt
positive-IsNonneg (fin x) h = ground arith
positive-IsNonneg infinity h = tt
positive-IsNonneg nan h = cc
positive-IsNonneg neg_infinity h = cc

pub created-IsValid :
    (now id owner : String) (initial : Number) → IsValid (created now id owner initial)
unfolding ◌+ℤ◌
created-IsValid now id owner initial = elim (Bool-cases (lt zero_number initial)) [
  | inl e ↦
      rw e (record { counted = refl; state_valid = (refl, refl, positive-IsNonneg initial e) })
  | inr e ↦ rw e (record { counted = refl; state_valid = (refl, refl, omega arith) })
]

pub create-eq-ok :
    (now id owner : String) (initial : Number) (a : WalletAggregate)
    → create now id owner initial ≡ ok a
    → (lt initial zero_number ≡ false) × (created now id owner initial ≡ a)
create-eq-ok now id owner initial a h = elim (Bool-cases (lt initial zero_number)) [
  | inl e ↦ cc (create_cases now id owner initial, h, e)
  | inr e ↦ (e, cc (create_cases now id owner initial, h, e))
]

pub create-IsValid :
    (now id owner : String) (initial : Number) (a : WalletAggregate)
    → create now id owner initial ≡ ok a
    → IsValid a
create-IsValid now id owner initial a h =
    subst IsValid (create-eq-ok now id owner initial a h).1 (created-IsValid now id owner initial)
