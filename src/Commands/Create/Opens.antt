-- ===== src/Commands/Create/Opens.antt =====
-- What creating a wallet commits, and when it is refused.
use wallex_sanbox.Prelude.{String, ◌≡◌, refl, Option, List, [], ◌∷◌, All, Bool-cases, inl, inr}
use wallex_sanbox.Prelude.Int.{ℤ, negsuc}
use wallex_sanbox.Number.{Number, lt, zero_number}
use wallex_sanbox.Exec.{Result, ok, err, Exec, ◌>>=◌}
use wallex_sanbox.Domain.{StoredWalletEvent, WalletDomainEvent}
use wallex_sanbox.Aggregate.{WalletState}
use wallex_sanbox.Aggregate.Creation.{created, opening_event, funding_event}
use wallex_sanbox.EventStore.Client.{KurrentLaws}
use wallex_sanbox.EventStore.{append_to_stream}
use wallex_sanbox.Commands.{Services, World, in_db}
use wallex_sanbox.Commands.Create.{
  CreateWalletCommand, CreateTimes, create_unless_exists, create_protected, fail_key,
}
use wallex_sanbox.Aggregate as Wallet

-- The events of a creation, of which there is at least one.
pub created_first :
    (now id owner : String) (initial : Number)
    → let a = created now id owner initial in
      (e : WalletDomainEvent) × (es : List WalletDomainEvent) × (a.pending_events ≡ e ∷ es)
      × All (λ x. x.aggregate_id ≡ id) (e ∷ es)
      × (a.persisted_version ≡ negsuc 0)
created_first now id owner initial = elim (Bool-cases (lt zero_number initial)) [
  | inl p ↦ rw p (
    opening_event id owner initial,
    funding_event id initial ∷ [],
    refl,
    (refl, (refl, tt)),
    refl,
  )
  | inr p ↦ rw p (opening_event id owner initial, [], refl, (refl, tt), refl)
]

module _ {s : Services} (laws : KurrentLaws s.client) where
  pub appended :
      (now id : String) (ps : List WalletDomainEvent) (e : WalletDomainEvent)
      (es : List WalletDomainEvent) (v u : ℤ) (stored : List StoredWalletEvent) (w : World s)
      (k : List StoredWalletEvent → Exec (World s) (Option WalletState))
      → ps ≡ e ∷ es
      → v ≡ u
      → (append_to_stream s.client now id (e ∷ es) u w.db).0 ≡ ok stored
      → (in_db (append_to_stream s.client now id ps v) >>= k) w
        ≡ k stored (record w { db = (append_to_stream s.client now id (e ∷ es) u w.db).1 })
  appended now id ps e es v u stored w k p q res = rw (p, q) (rw res refl)

  kept :
      (key : Option String) (o : Result (Option WalletState) × World s) (x : Option WalletState)
      → o.0 ≡ ok x
      → fail_key s key o ≡ o
  kept key (ok r, w) x h = refl
  kept key (err e, w) x h = absurd (cc h)

  pub fail_nothing :
      (command : CreateWalletCommand) (t : CreateTimes) (w : World s) (x : Option WalletState)
      → (create_unless_exists s command t w).0 ≡ ok x
      → create_protected s command t w ≡ create_unless_exists s command t w
  unfolding create_protected
  fail_nothing command t w x h =
      kept command.idempotency_key (create_unless_exists s command t w) x h
