-- ===== src/Exec.antt =====
-- Methods that change a state and may throw. What was written before a throw stays written, so the
-- state comes back beside the error too.
use wallex_sanbox.Prelude.{◌≡◌, refl, ◌⊎◌, inl, inr, Bool, Option, if◌then◌else◌, String}
use wallex_sanbox.Number.{Number}
use wallex_sanbox.Prelude.Int.{ℤ}

-- wallet/domain/errors.ts, the framework's ConflictException, the errors that the code tells apart
-- by class or code, and any other `Error`.
pub data Error : Type 0 where
  already_exists not_found : String → Error
  insufficient_funds : String → Number → Number → Error
  invalid_amount : Number → Error
  event_concurrency : ℤ → ℤ → Error
  conflict : String → Error
  wrong_expected_version : Option ℤ → Error
  stream_not_found unique_violation : Error
  plain : String → Error

pub data Result (A : Type 0) : Type 0 where
  ok : A → Result A
  err : Error → Result A

pub Result-cases :
    {A : Type 0} (r : Result A) → ((a : A) × (r ≡ ok a)) ⊎ ((e : Error) × (r ≡ err e))
Result-cases (ok a) = inl (a, refl)
Result-cases (err e) = inr (e, refl)

abbrev pub Exec : Type 0 → Type 0 → Type 0
Exec S A = S → Result A × S

module _ {S A : Type 0} where
  abbrev pub pure : A → Exec S A
  pure a s = (ok a, s)

  abbrev pub throw : Error → Exec S A
  throw e s = (err e, s)

  abbrev pub gets : (S → A) → Exec S A
  gets f s = (ok (f s), s)

abbrev pub continue : {S A B : Type 0} → Result A → (A → Exec S B) → Exec S B
continue (ok a) f s = f a s
continue (err e) f s = (err e, s)

infixl 5 ◌>>=◌ ◌>>◌
abbrev pub ◌>>=◌ : {S A B : Type 0} → Exec S A → (A → Exec S B) → Exec S B
◌>>=◌ m f s = continue (m s).0 f (m s).1

abbrev pub ◌>>◌ : {S A B : Type 0} → Exec S A → Exec S B → Exec S B
m >> k = m >>= λ _. k

abbrev pub throw_if : {S : Type 0} → Bool → Error → Exec S (Unit {0})
throw_if c e s = (if c then err e else ok tt, s)

abbrev pub modify : {S : Type 0} → (S → S) → Exec S (Unit {0})
modify f s = (ok tt, f s)

module _ {S A B : Type 0} where
  -- Inversion of a successful bind.
  pub >>=-eq-ok :
      (m : Exec S A) (f : A → Exec S B) (s : S) {b : B} {s' : S}
      → (m >>= f) s ≡ (ok b, s')
      → (a : A) × ((m s).0 ≡ ok a) × (f a (m s).1 ≡ (ok b, s'))
  >>=-eq-ok m f s h = continue-eq-ok (m s).0 f (m s).1 h
    where
      continue-eq-ok :
          (r : Result A) (f : A → Exec S B) (s : S) {b : B} {s' : S}
          → continue r f s ≡ (ok b, s')
          → (a : A) × (r ≡ ok a) × (f a s ≡ (ok b, s'))
      continue-eq-ok (ok a) f s h = (a, refl, h)
      continue-eq-ok (err e) f s h = absurd (cc h)

  -- A bind after a step whose outcome is known.
  pub >>=-ok :
      (m : Exec S A) (f : A → Exec S B) (s : S) {a : A} {s' : S}
      → m s ≡ (ok a, s')
      → (m >>= f) s ≡ f a s'
  >>=-ok m f s h = rw h

  pub >>=-err :
      (m : Exec S A) (f : A → Exec S B) (s : S) {e : Error} {s' : S}
      → m s ≡ (err e, s')
      → (m >>= f) s ≡ (err e, s')
  >>=-err m f s h = rw h
