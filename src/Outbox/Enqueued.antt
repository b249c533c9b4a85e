-- ===== src/Outbox/Enqueued.antt =====
-- Enqueuing an event that the outbox does not have yet.
use wallex_sanbox.Prelude.{
  ℕ, ◌+◌, ◌<◌, ◌≡◌, refl, String, true, false, none, List, [], ◌∷◌, ◌++◌, str_eq, eq_iff, ◌==◌,
  arith, All, Bool-cases, inl, inr,
}
use wallex_sanbox.Prelude.Int.{ℤ, ltb_ℤ, eqb_ℤ}
use wallex_sanbox.Exec.{ok}
use wallex_sanbox.Domain.{StoredWalletEvent}
use wallex_sanbox.Outbox.{
  OutboxEvent, OutboxTables, EnqueueOptions, new_rows, is_taken, any_taken, enqueue, is_processed,
  has_id, ids_of, type_name,
}

-- The rows of the outbox are numbered below the next identifier, also where they are marked, and
-- those of a wallet are of versions below the next one.
pub record IsTidy (t : OutboxTables) (aggregate_id : String) (version : ℤ) : Type 0 where
  pub numbered : All (λ r. r.id < t.next_id) t.events
  pub marked : All (λ p. p.0 < t.next_id) t.processing
  pub stored :
      All (λ r. r.aggregate_id ≡ aggregate_id → ltb_ℤ r.event_version version ≡ true) t.events

older_differs : (a b : ℤ) → ltb_ℤ a b ≡ true → eqb_ℤ b a ≡ false
older_differs a b h = ground arith

not_taken :
    (x : OutboxEvent) (rows : List OutboxEvent)
    → All (λ r. r.aggregate_id ≡ x.aggregate_id → ltb_ℤ r.event_version x.event_version ≡ true) rows
    → is_taken x rows ≡ false
unfolding is_taken
not_taken x [] h = refl
not_taken x (r ∷ rs) h = elim (Bool-cases (str_eq x.aggregate_id r.aggregate_id)) [
  | inl same ↦
      let ids : r.aggregate_id ≡ x.aggregate_id =
        cc ((eq_iff x.aggregate_id r.aggregate_id).0 same) in
      let differs = older_differs r.event_version x.event_version (h.0 ids) in
      rw (same, differs, not_taken x rs h.1) refl
  | inr other ↦ rw other (not_taken x rs h.1)
]

-- The row of a stored event.
abbrev pub row_of : ℕ → StoredWalletEvent → EnqueueOptions → ℕ → OutboxEvent
row_of now e options n = record {
  id = n;
  aggregate_id = options.aggregate_id;
  event_type = type_name e.body;
  event_version = e.metadata.version;
  payload = e;
  correlation_id = options.correlation_id;
  causation_id = options.causation_id;
  created_at = now;
  processed_at = none;
  consumer = none;
}

pub enqueue_one :
    (now : ℕ) (e : StoredWalletEvent) (options : EnqueueOptions) (t : OutboxTables)
    → t.answers ≡ true
    → IsTidy t options.aggregate_id e.metadata.version
    → enqueue now (e ∷ []) options t ≡ (
      ok tt,
      record t {
        events = t.events ++ row_of now e options t.next_id ∷ [];
        next_id = t.next_id + 1;
      },
    )
unfolding enqueue any_taken new_rows
enqueue_one now e options t answers tidy =
    rw (answers, not_taken (row_of now e options t.next_id) t.events tidy.stored) refl

pub new_id_unmarked :
    (n : ℕ) (consumer : String) (p : List (ℕ × String))
    → All (λ x. x.0 < n) p
    → is_processed n consumer p ≡ false
unfolding is_processed
new_id_unmarked n consumer [] h = refl
new_id_unmarked n consumer ((j, c) ∷ rest) h =
    let other : (n == j) ≡ false = ground (arith, h.0) in
    rw (other, new_id_unmarked n consumer rest h.1) refl

pub has_id-last :
    (i : ℕ) (x : OutboxEvent) (es : List OutboxEvent)
    → x.id ≡ i
    → has_id i (ids_of (es ++ x ∷ [])) ≡ true
has_id-last i x [] h = ground arith
has_id-last i x (e ∷ es) h = ground (arith, has_id-last i x es h)
