-- ===== src/Outbox/Claim.antt =====
-- Which events a consumer claims, and which it never claims again.
use wallex_sanbox.Prelude.{
  ℕ, zero, suc, ◌≤◌, ◌≡◌, refl, ◌∙◌, String, Bool, true, false, not, ◌&&◌, ◌||◌, Option, List, [],
  ◌∷◌, length, str_eq, eq_iff, eq_refl, leb, ◌==◌, arith, All, Bool-cases, inl, inr, if◌then◌else◌,
}
use wallex_sanbox.Outbox.{
  OutboxEvent, OutboxTables, is_processed, is_old_enough, eligible, insert_by_id, sort_by_id, take,
  has_id, claim_batch, insert_processing, mark_batch_processed,
}

-- In ascending order of identifiers.
abbrev pub IsSorted : List OutboxEvent → Type 0
IsSorted [] = Unit
IsSorted (e ∷ []) = Unit
IsSorted (e ∷ x ∷ xs) = (e.id ≤ x.id) × IsSorted (x ∷ xs)

insert_by_id-IsSorted :
    (e : OutboxEvent) (xs : List OutboxEvent) → IsSorted xs → IsSorted (insert_by_id e xs)
unfolding insert_by_id
insert_by_id-IsSorted e [] h = tt
insert_by_id-IsSorted e (x ∷ []) h = elim (Bool-cases (leb e.id x.id)) [
  | inl l ↦ rw l (ground arith)
  | inr l ↦ rw l (ground arith)
]
insert_by_id-IsSorted e (x ∷ y ∷ ys) h = elim (Bool-cases (leb e.id x.id)) [
  | inl l ↦ rw l (ground arith)
  | inr l ↦
      let ih = insert_by_id-IsSorted e (y ∷ ys) h.1 in
      elim (Bool-cases (leb e.id y.id)) [
        | inl k ↦ rw (l, k) (ground arith)
        | inr k ↦ rw (l, k) (h.0, rw k at ih)
      ]
]

sort_by_id-IsSorted : (xs : List OutboxEvent) → IsSorted (sort_by_id xs)
unfolding sort_by_id
sort_by_id-IsSorted [] = tt
sort_by_id-IsSorted (x ∷ xs) = insert_by_id-IsSorted x (sort_by_id xs) (sort_by_id-IsSorted xs)

take-IsSorted : (n : ℕ) (xs : List OutboxEvent) → IsSorted xs → IsSorted (take n xs)
take-IsSorted zero xs h = tt
take-IsSorted (suc n) [] h = tt
take-IsSorted (suc zero) (x ∷ []) h = tt
take-IsSorted (suc (suc n)) (x ∷ []) h = tt
take-IsSorted (suc zero) (x ∷ y ∷ ys) h = tt
take-IsSorted (suc (suc n)) (x ∷ y ∷ ys) h = (h.0, take-IsSorted (suc n) (y ∷ ys) h.1)

take-length : (n : ℕ) (xs : List OutboxEvent) → length (take n xs) ≤ n
take-length zero xs = omega arith
take-length (suc n) [] = omega arith
take-length (suc n) (x ∷ xs) = omega (arith, take-length n xs)

module _ (P : OutboxEvent → Type 0) where
  insert_by_id-All :
      (e : OutboxEvent) (xs : List OutboxEvent) → P e → All P xs → All P (insert_by_id e xs)
  unfolding insert_by_id
  insert_by_id-All e [] p h = (p, tt)
  insert_by_id-All e (x ∷ xs) p h = elim (Bool-cases (leb e.id x.id)) [
    | inl l ↦ rw l (p, h)
    | inr l ↦ rw l (h.0, insert_by_id-All e xs p h.1)
  ]

  pub sort_by_id-All : (xs : List OutboxEvent) → All P xs → All P (sort_by_id xs)
  unfolding sort_by_id
  sort_by_id-All [] h = tt
  sort_by_id-All (x ∷ xs) h = insert_by_id-All x (sort_by_id xs) h.0 (sort_by_id-All xs h.1)

  pub take-All : (n : ℕ) (xs : List OutboxEvent) → All P xs → All P (take n xs)
  take-All zero xs h = tt
  take-All (suc n) [] h = tt
  take-All (suc n) (x ∷ xs) h = (h.0, take-All n xs h.1)

-- What the WHERE clause asks of an event that no other transaction has locked.
abbrev pub IsClaimable : String → Option ℕ → (ℕ → Bool) → List (ℕ × String) → OutboxEvent → Type 0
IsClaimable consumer older_than locked processing e =
    (is_processed e.id consumer processing ≡ false)
    × (is_old_enough older_than e.created_at ≡ true)
    × (locked e.id ≡ false)

conditions :
    (p o l : Bool) → (not p && (o && not l)) ≡ true → (p ≡ false) × (o ≡ true) × (l ≡ false)
conditions false true false h = (refl, refl, refl)
conditions true o l h = absurd (cc h)
conditions false false l h = absurd (cc h)
conditions false true true h = absurd (cc h)

eligible-All :
    (consumer : String) (older_than : Option ℕ) (locked : ℕ → Bool) (processing : List (ℕ × String))
    (es : List OutboxEvent)
    → All
        (IsClaimable consumer older_than locked processing)
        (eligible consumer older_than locked processing es)
unfolding eligible
eligible-All consumer older_than locked processing [] = tt
eligible-All consumer older_than locked processing (e ∷ es) =
    let rest = eligible-All consumer older_than locked processing es in
    elim (Bool-cases (
      not (is_processed e.id consumer processing)
      && (is_old_enough older_than e.created_at && not (locked e.id)))) [
        | inl c ↦ rw c (
          conditions (is_processed e.id consumer processing) (is_old_enough older_than e.created_at)
              (locked e.id) c,
          rest,
        )
        | inr c ↦ rw c rest
      ]

-- A claimed batch has at most the size asked for, is in order of identifiers, and has only events that
-- the consumer has not processed, that are old enough, and that no other transaction has locked.
pub claim_batch_lem :
    (size : ℕ) (consumer : String) (older_than : Option ℕ) (locked : ℕ → Bool) (t : OutboxTables)
    → let batch = (claim_batch size consumer older_than locked t).0 in
      (length batch ≤ size)
      × IsSorted batch
      × All (IsClaimable consumer older_than locked t.processing) batch
unfolding claim_batch
claim_batch_lem size consumer older_than locked t =
    let found = eligible consumer older_than locked t.processing t.events in
    (
      take-length size (sort_by_id found),
      take-IsSorted size (sort_by_id found) (sort_by_id-IsSorted found),
      take-All (IsClaimable consumer older_than locked t.processing) size (sort_by_id found) (
          sort_by_id-All (IsClaimable consumer older_than locked t.processing) found
            (eligible-All consumer older_than locked t.processing t.events)),
    )

no_ids : (s p : Bool) → p ≡ ((s && false) || p)
no_ids true p = refl
no_ids false p = refl

one_more : (s h e p : Bool) → ((s && h) || ((e && s) || p)) ≡ ((s && (e || h)) || p)
one_more true true true p = refl
one_more true true false p = refl
one_more true false true p = refl
one_more true false false p = refl
one_more false h true p = refl
one_more false h false p = refl

none_more :
    (s h e p : Bool) → (s ≡ true → e ≡ true → p ≡ true) → ((s && h) || p) ≡ ((s && (e || h)) || p)
none_more true true true p k = refl
none_more true true false p k = refl
none_more true false true p k = k refl refl
none_more true false false p k = refl
none_more false h e p k = refl

same_row :
    (i j : ℕ) (c consumer : String) (p : List (ℕ × String))
    → str_eq c consumer ≡ true
    → (i == j) ≡ true
    → is_processed j consumer p ≡ true
    → is_processed i c p ≡ true
same_row i j c consumer p a b h =
    let names = (eq_iff c consumer).0 a in let ids : i ≡ j = ground arith in rw (names, ids) h

-- Who has processed what, after an insert.
is_processed-insert :
    (i : ℕ) (c consumer : String) (ids : List ℕ) (p : List (ℕ × String))
    → is_processed i c (insert_processing consumer ids p)
      ≡ ((str_eq c consumer && has_id i ids) || is_processed i c p)
unfolding insert_processing is_processed
is_processed-insert i c consumer [] p = no_ids (str_eq c consumer) (is_processed i c p)
is_processed-insert i c consumer (j ∷ js) p =
    is_processed-insert i c consumer js (if is_processed j consumer p then p else (j, consumer) ∷ p)
    ∙ elim (Bool-cases (is_processed j consumer p)) [
      | inl d ↦ rw d (
          none_more (str_eq c consumer) (has_id i js) (i == j) (is_processed i c p)
            (λ a b. same_row i j c consumer p a b d))
      | inr d ↦ rw d (one_more (str_eq c consumer) (has_id i js) (i == j) (is_processed i c p))
    ]

-- After a batch is marked for a consumer, a consumer has processed an event exactly if it had
-- before, or if it is that consumer and the event is in the batch.
pub mark_batch_processed_lem :
    (now : ℕ) (ids : List ℕ) (consumer c : String) (t : OutboxTables) (i : ℕ)
    → is_processed i c (mark_batch_processed now ids consumer t).processing
      ≡ ((str_eq c consumer && has_id i ids) || is_processed i c t.processing)
unfolding mark_batch_processed is_processed
mark_batch_processed_lem now [] consumer c t i =
    no_ids (str_eq c consumer) (is_processed i c t.processing)
mark_batch_processed_lem now (j ∷ js) consumer c t i =
    is_processed-insert i c consumer (j ∷ js) t.processing

not_any : (a b : Bool) → (a || b) ≡ false → a ≡ false
not_any true b h = absurd (cc h)
not_any false b h = refl

-- Events that a consumer has marked as processed are in no later batch of that consumer.
pub marked_not_claimed :
    (now size : ℕ) (ids : List ℕ) (consumer : String) (older_than : Option ℕ) (locked : ℕ → Bool)
    (t : OutboxTables)
    → All
        (λ e. has_id e.id ids ≡ false)
        (claim_batch size consumer older_than locked (mark_batch_processed now ids consumer t)).0
marked_not_claimed now size ids consumer older_than locked t =
    let marked = mark_batch_processed now ids consumer t in
    weaken (claim_batch size consumer older_than locked marked).0
      (claim_batch_lem size consumer older_than locked marked).2
  where
    weaken :
        (es : List OutboxEvent)
        → All
            (IsClaimable consumer older_than locked
              (mark_batch_processed now ids consumer t).processing)
            es
        → All (λ e. has_id e.id ids ≡ false) es
    weaken [] h = tt
    weaken (e ∷ es) h = (
      not_any (has_id e.id ids) (is_processed e.id consumer t.processing) (
          rw (mark_batch_processed_lem now ids consumer consumer t e.id, eq_refl consumer) at
            h.0.0),
      weaken es h.1,
    )
