-- ===== src/Recovery/Resets.antt =====
-- The resets of the consumer column, and the claims of the consumers.
use wallex_sanbox.Prelude.{
  ℕ, zero, suc, ◌-◌, ◌≡◌, refl, ◌∙◌, String, Bool, not, ◌&&◌, Option, List, [], ◌∷◌, leb,
  Bool-cases, inl, inr,
}
use wallex_sanbox.Outbox.{
  OutboxEvent, OutboxTables, is_processed, is_old_enough, eligible, insert_by_id, sort_by_id, take,
  has_id, ids_of, update_ids, claim_batch,
}
use wallex_sanbox.Recovery.{
  RecoveryService, without_consumer, reset_consumers, retry_stale_events,
  force_reprocess_unprocessed, unprocessed_ids, stale, sort_by_time, stale_after_ms,
}

-- Two lists of events that differ at most in columns that no claim asks about.
abbrev SameRows : List OutboxEvent → List OutboxEvent → Type 0
SameRows [] [] = Unit
SameRows (x ∷ xs) (y ∷ ys) = (x.id ≡ y.id) × (x.created_at ≡ y.created_at) × SameRows xs ys
SameRows xs ys = ⊥

SameRows-refl : (xs : List OutboxEvent) → SameRows xs xs
SameRows-refl [] = tt
SameRows-refl (x ∷ xs) = (refl, refl, SameRows-refl xs)

SameRows-trans : (xs ys zs : List OutboxEvent) → SameRows xs ys → SameRows ys zs → SameRows xs zs
SameRows-trans [] [] [] h k = tt
SameRows-trans (x ∷ xs) (y ∷ ys) (z ∷ zs) h k =
    (h.0 ∙ k.0, h.1 ∙ k.1, SameRows-trans xs ys zs h.2 k.2)
SameRows-trans [] [] (z ∷ zs) h k = absurd k
SameRows-trans [] (y ∷ ys) zs h k = absurd h
SameRows-trans (x ∷ xs) [] zs h k = absurd h
SameRows-trans (x ∷ xs) (y ∷ ys) [] h k = absurd k

update-SameRows :
    (ids : List ℕ) (es : List OutboxEvent) → SameRows (update_ids without_consumer ids es) es
update-SameRows ids [] = tt
update-SameRows ids (e ∷ es) = elim (Bool-cases (has_id e.id ids)) [
  | inl hit ↦ rw hit (refl, refl, update-SameRows ids es)
  | inr miss ↦ rw miss (refl, refl, update-SameRows ids es)
]

reset-SameRows : (ids : List ℕ) (es : List OutboxEvent) → SameRows (reset_consumers ids es) es
unfolding reset_consumers
reset-SameRows [] es = SameRows-refl es
reset-SameRows (i ∷ is) es =
    let once = update_ids without_consumer (i ∷ []) es in
    SameRows-trans (reset_consumers is once) once es (reset-SameRows is once)
      (update-SameRows (i ∷ []) es)

module _ (consumer : String) (older_than : Option ℕ) (locked : ℕ → Bool)
    (p : List (ℕ × String)) where
  eligible-SameRows :
      (xs ys : List OutboxEvent)
      → SameRows xs ys
      → SameRows
          (eligible consumer older_than locked p xs)
          (eligible consumer older_than locked p ys)
  unfolding eligible
  eligible-SameRows [] [] h = tt
  eligible-SameRows [] (y ∷ ys) h = absurd h
  eligible-SameRows (x ∷ xs) [] h = absurd h
  eligible-SameRows (x ∷ xs) (y ∷ ys) h =
      let ih = eligible-SameRows xs ys h.2 in
      elim (Bool-cases (
        not (is_processed x.id consumer p)
        && (is_old_enough older_than x.created_at && not (locked x.id)))) [
          | inl c ↦ rw (c, (rw (h.0, h.1) at c)) (h.0, h.1, ih)
          | inr c ↦ rw (c, (rw (h.0, h.1) at c)) ih
        ]

insert-SameRows :
    (x y : OutboxEvent) (xs ys : List OutboxEvent)
    → x.id ≡ y.id
    → x.created_at ≡ y.created_at
    → SameRows xs ys
    → SameRows (insert_by_id x xs) (insert_by_id y ys)
unfolding insert_by_id
insert-SameRows x y [] [] i t h = (i, t, tt)
insert-SameRows x y [] (w ∷ ys) i t h = absurd h
insert-SameRows x y (v ∷ xs) [] i t h = absurd h
insert-SameRows x y (v ∷ xs) (w ∷ ys) i t h =
    let ih = insert-SameRows x y xs ys i t h.2 in
    elim (Bool-cases (leb x.id v.id)) [
      | inl c ↦ rw (c, (rw (i, h.0) at c)) (i, t, h)
      | inr c ↦ rw (c, (rw (i, h.0) at c)) (h.0, h.1, ih)
    ]

sort-SameRows :
    (xs ys : List OutboxEvent) → SameRows xs ys → SameRows (sort_by_id xs) (sort_by_id ys)
unfolding sort_by_id
sort-SameRows [] [] h = tt
sort-SameRows [] (y ∷ ys) h = absurd h
sort-SameRows (x ∷ xs) [] h = absurd h
sort-SameRows (x ∷ xs) (y ∷ ys) h =
    insert-SameRows x y (sort_by_id xs) (sort_by_id ys) h.0 h.1 (sort-SameRows xs ys h.2)

take-SameRows :
    (n : ℕ) (xs ys : List OutboxEvent) → SameRows xs ys → ids_of (take n xs) ≡ ids_of (take n ys)
take-SameRows zero xs ys h = refl
take-SameRows (suc n) [] [] h = refl
take-SameRows (suc n) [] (y ∷ ys) h = absurd h
take-SameRows (suc n) (x ∷ xs) [] h = absurd h
take-SameRows (suc n) (x ∷ xs) (y ∷ ys) h = cc (h.0, take-SameRows n xs ys h.2)

same_claims :
    (size : ℕ) (consumer : String) (older_than : Option ℕ) (locked : ℕ → Bool) (t : OutboxTables)
    (es : List OutboxEvent)
    → SameRows es t.events
    → ids_of (claim_batch size consumer older_than locked (record t { events = es })).0
      ≡ ids_of (claim_batch size consumer older_than locked t).0
unfolding claim_batch
same_claims size consumer older_than locked t es h =
    take-SameRows size _ _
      (sort-SameRows _ _ (eligible-SameRows consumer older_than locked t.processing es t.events h))

-- Neither the retry of stale events nor the reset of all unprocessed events changes which events a
-- consumer claims, whichever consumer, batch size, age and locked rows: the column that they reset
-- is one that no claim asks about.
pub resets_change_no_claim :
    (now size : ℕ) (consumer : String) (older_than : Option ℕ) (locked : ℕ → Bool)
    (s : RecoveryService)
    → let claimed =
        λ (t : OutboxTables). ids_of (claim_batch size consumer older_than locked t).0 in
      (claimed (retry_stale_events now s).outbox ≡ claimed s.outbox)
      × (claimed (force_reprocess_unprocessed s.outbox).1 ≡ claimed s.outbox)
unfolding retry_stale_events force_reprocess_unprocessed
resets_change_no_claim now size consumer older_than locked s = (
  elim (Bool-cases s.is_recovering) [
    | inl busy ↦ rw busy refl
    | inr idle ↦
        let found = take 100 (sort_by_time (stale (now - stale_after_ms) s.outbox.events)) in
        rw idle (
          same_claims size consumer older_than locked s.outbox
            (reset_consumers (ids_of found) s.outbox.events)
            (reset-SameRows (ids_of found) s.outbox.events))
  ],
  same_claims size consumer older_than locked s.outbox
      (update_ids without_consumer (unprocessed_ids s.outbox.events) s.outbox.events)
      (update-SameRows (unprocessed_ids s.outbox.events) s.outbox.events),
)
