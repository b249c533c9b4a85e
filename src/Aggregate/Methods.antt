-- ===== src/Aggregate/Methods.antt =====
-- What `credit` and `debit` do on every branch, and the invariant that they keep.
use wallex_sanbox.Prelude.{
  String, ◌≡◌, refl, Option-cases, Bool-cases, inl, inr, ◌↔◌, true, false, not, ◌&&◌, Option, none,
  some, [], ◌∷◌, ◌++◌, length, length-append, arith, ℕ, if◌then◌else◌, Bool, ◌+◌,
}
use mathlib.Core.Path.{subst}
use wallex_sanbox.Prelude.Int.{ℤ, pos, ◌+ℤ◌, ◌≤ℤ◌, int_laws, +ℤ_parts, -ℤ_parts}
use wallex_sanbox.Number.{
  Number, fin, nan, infinity, neg_infinity, zero_number, add, sub, lt, le, is_finite, IsNonneg,
}
use wallex_sanbox.Exec.{ok, err, plain, invalid_amount, insufficient_funds}
use wallex_sanbox.Domain.{WalletDomainEvent, wallet_credited, wallet_debited}
use wallex_sanbox.Aggregate.{WalletAggregate, WalletState, credit, debit}

-- What holds of the state: it belongs to the aggregate, carries its version, and its balance is
-- neither negative nor NaN.
abbrev pub StateValid : String → ℤ → Option WalletState → Type 0
StateValid id v none = Unit
StateValid id v (some s) = (s.id ≡ id) × (s.version ≡ v) × IsNonneg s.balance

-- The pending events are those since the persisted version.
pub record IsValid (a : WalletAggregate) : Type 0 where
  pub counted : a.version ≡ a.persisted_version +ℤ pos (length a.pending_events)
  pub state_valid : StateValid a.id a.version a.state

abbrev pub is_valid_amount : Number → Bool
is_valid_amount amount = is_finite amount && not (le amount zero_number)

add-IsNonneg :
    (b amount : Number) → IsNonneg b → is_valid_amount amount ≡ true → IsNonneg (add b amount)
unfolding add is_finite le
add-IsNonneg (fin b) (fin x) h e = grind (arith, +ℤ_parts b x)
add-IsNonneg nan x h e = absurd h
add-IsNonneg neg_infinity x h e = absurd h
add-IsNonneg infinity (fin x) h e = tt
add-IsNonneg b nan h e = cc
add-IsNonneg b infinity h e = cc
add-IsNonneg b neg_infinity h e = cc

sub-IsNonneg :
    (b amount : Number)
    → IsNonneg b
    → is_valid_amount amount ≡ true
    → lt b amount ≡ false
    → IsNonneg (sub b amount)
unfolding sub is_finite le lt
sub-IsNonneg (fin b) (fin x) h e f = grind (arith, -ℤ_parts b x)
sub-IsNonneg nan x h e f = absurd h
sub-IsNonneg neg_infinity x h e f = absurd h
sub-IsNonneg infinity (fin x) h e f = tt
sub-IsNonneg b nan h e f = cc
sub-IsNonneg b infinity h e f = cc
sub-IsNonneg b neg_infinity h e f = cc

-- What one accepted command does to an aggregate whose state is `s`.
abbrev pub moved :
    String → WalletDomainEvent → Number → WalletState → WalletAggregate → WalletAggregate
moved now event balance s a = record a {
  pending_events = a.pending_events ++ event ∷ [];
  version = a.version +ℤ pos 1;
  state = some (record s { balance = balance; updated_at = now; version = a.version +ℤ pos 1 });
}

module _ (now : String) (amount : Number) (description : Option String) where
  -- `credit` throws and changes nothing, or adds the amount in one new event.
  pub credit_cases :
      (a : WalletAggregate) {s : WalletState}
      → a.state ≡ some s
      → credit now amount description a ≡ (
          if is_valid_amount amount
          then (
            ok tt,
            moved now
                (record { aggregate_id = a.id; body = wallet_credited amount description })
                (add s.balance amount)
                s
                a,
          )
          else (err (invalid_amount amount), a))
  unfolding credit
  credit_cases a e = ground arith

  pub debit_cases :
      (a : WalletAggregate) {s : WalletState}
      → a.state ≡ some s
      → debit now amount description a ≡ (
          if is_valid_amount amount
          then (if lt s.balance amount
              then (err (insufficient_funds a.id s.balance amount), a)
              else (
                ok tt,
                moved now
                    (record { aggregate_id = a.id; body = wallet_debited amount description })
                    (sub s.balance amount)
                    s
                    a,
              ))
          else (err (invalid_amount amount), a))
  unfolding debit
  debit_cases a e = ground arith

count_step : (v p : ℤ) (n m : ℕ) → v ≡ p +ℤ pos n → m ≡ n + 1 → v +ℤ pos 1 ≡ p +ℤ pos m
count_step v p n m h k = rw (h, k) (omega int_laws)

moved-IsValid :
    (now : String) (event : WalletDomainEvent) (balance : Number) (s : WalletState)
    (a : WalletAggregate)
    → a.state ≡ some s
    → IsNonneg balance
    → IsValid a
    → IsValid (moved now event balance s a)
moved-IsValid now event balance s a e h v = record {
  counted =
      count_step a.version a.persisted_version (length a.pending_events)
        (length (a.pending_events ++ event ∷ [])) v.counted
        (omega (arith, length-append a.pending_events (event ∷ [])));
  state_valid = ((subst (StateValid a.id a.version) e v.state_valid).0, refl, h);
}

pub uninitialized :
    (now : String) (amount : Number) (description : Option String) (a : WalletAggregate)
    → a.state ≡ none
    → (credit now amount description a
        ≡ (err (plain "Wallet aggregate has not been initialized."), a))
      × (debit now amount description a
          ≡ (err (plain "Wallet aggregate has not been initialized."), a))
unfolding credit debit
uninitialized now amount description a e = ground arith

balance-IsNonneg :
    (a : WalletAggregate) (s : WalletState) → a.state ≡ some s → IsValid a → IsNonneg s.balance
balance-IsNonneg a s e v = (subst (StateValid a.id a.version) e v.state_valid).2

pub credit-IsValid :
    (now : String) (amount : Number) (description : Option String) (a : WalletAggregate)
    → IsValid a
    → IsValid (credit now amount description a).1
credit-IsValid now amount description a v = elim (Option-cases a.state) [
  | inl e ↦ rw ((uninitialized now amount description a e).0) v
  | inr (s, e) ↦ elim (Bool-cases (is_valid_amount amount)) [
    | inl valid ↦
        rw (credit_cases now amount description a e, valid)
          (moved-IsValid now _ _ s a e
            (add-IsNonneg s.balance amount (balance-IsNonneg a s e v) valid) v)
    | inr bad ↦ rw (credit_cases now amount description a e, bad) v
  ]
]

-- A debit, accepted or not, keeps a valid aggregate valid: the pending events are those since the
-- persisted version, the state has the aggregate's identifier and version, and its balance is
-- neither negative nor NaN.
pub debit-IsValid :
    (now : String) (amount : Number) (description : Option String) (a : WalletAggregate)
    → IsValid a
    → IsValid (debit now amount description a).1
debit-IsValid now amount description a v = elim (Option-cases a.state) [
  | inl e ↦ rw ((uninitialized now amount description a e).1) v
  | inr (s, e) ↦ elim (Bool-cases (is_valid_amount amount)) [
    | inl valid ↦ elim (Bool-cases (lt s.balance amount)) [
      | inl short ↦ rw (debit_cases now amount description a e, valid, short) v
      | inr covered ↦
          rw (debit_cases now amount description a e, valid, covered)
            (moved-IsValid now _ _ s a e
              (sub-IsNonneg s.balance amount (balance-IsNonneg a s e v) valid covered) v)
    ]
    | inr bad ↦ rw (debit_cases now amount description a e, bad) v
  ]
]

-- A wallet with a finite balance accepts the debit of a finite amount exactly if the amount is at
-- least 1 and at most the balance.
pub debit_accepts :
    (now : String) (x b : ℤ) (description : Option String) (a : WalletAggregate) (s : WalletState)
    → a.state ≡ some s
    → s.balance ≡ fin b
    → ((debit now (fin x) description a).0 ≡ ok tt) ↔ ((pos 1 ≤ℤ x) × (x ≤ℤ b))
unfolding is_finite le lt
debit_accepts now x b description a s e f =
    rw (debit_cases now (fin x) description a e, f) (ground arith)
