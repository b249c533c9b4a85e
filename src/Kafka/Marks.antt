-- ===== src/Kafka/Marks.antt =====
-- What marking a batch does to the events that a consumer can claim.
use wallex_sanbox.Prelude.{
  ℕ, ◌≤◌, ◌<◌, ◌≡◌, refl, ap, ◌∙◌, String, Bool, true, false, not, ◌&&◌, ◌||◌, none, List, [], ◌∷◌,
  length, arith, All, Bool-cases, inl, inr, eq_refl,
}
use wallex_sanbox.Outbox.{
  OutboxEvent, OutboxTables, is_processed, eligible, sort_by_id, has_id, ids_of, update_ids,
  claim_batch, mark_batch_processed,
}
use wallex_sanbox.Kafka.Members.{IsIn, IsIn-self, has_id-sort, take_all}
use wallex_sanbox.Outbox.Claim.{sort_by_id-All, take-All, mark_batch_processed_lem}

or_true : (b : Bool) → (b || true) ≡ true
or_true true = refl
or_true false = refl

module _ (consumer : String) (locked : ℕ → Bool) where
  -- The number of events that a claim has to choose from.
  abbrev pub claimable : OutboxTables → ℕ
  claimable t = length (eligible consumer none locked t.processing t.events)

  -- Columns that no claim asks about.
  eligible-update :
      (f : OutboxEvent → OutboxEvent) (ids : List ℕ) (p : List (ℕ × String)) (es : List OutboxEvent)
      → ((e : OutboxEvent) → (f e).id ≡ e.id)
      → length (eligible consumer none locked p (update_ids f ids es))
        ≡ length (eligible consumer none locked p es)
  unfolding eligible
  eligible-update f ids p [] same = refl
  eligible-update f ids p (e ∷ es) same =
      ground (arith, same e, eligible-update f ids p es same, Bool-cases (has_id e.id ids))

  module _ (p q : List (ℕ × String))
      (grows : (i : ℕ) → is_processed i consumer p ≡ true → is_processed i consumer q ≡ true) where
    -- More rows leave no more to claim.
    eligible_fewer :
        (es : List OutboxEvent)
        → length (eligible consumer none locked q es) ≤ length (eligible consumer none locked p es)
    unfolding eligible
    eligible_fewer [] = omega arith
    eligible_fewer (e ∷ es) = ground (arith, grows e.id, eligible_fewer es)

    -- The mark of one of them leaves less.
    Shrinks : OutboxEvent → List OutboxEvent → Type 0
    Shrinks x es =
        is_processed x.id consumer q ≡ true
        → length (eligible consumer none locked q es) < length (eligible consumer none locked p es)

    Shrinks-cons :
        (e : OutboxEvent) (es xs : List OutboxEvent)
        → All (λ x. Shrinks x es) xs
        → All (λ x. Shrinks x (e ∷ es)) xs
    unfolding eligible Shrinks
    Shrinks-cons e es [] h = tt
    Shrinks-cons e es (x ∷ xs) h =
        (λ m. ground (arith, grows e.id, h.0 m), Shrinks-cons e es xs h.1)

    Shrinks-head :
        (e : OutboxEvent) (es : List OutboxEvent)
        → (not (is_processed e.id consumer p) && (true && not (locked e.id))) ≡ true
        → Shrinks e (e ∷ es)
    unfolding eligible Shrinks
    Shrinks-head e es c m = ground (arith, c, m, eligible_fewer es)

    eligible-Shrinks :
        (es : List OutboxEvent) → All (λ x. Shrinks x es) (eligible consumer none locked p es)
    unfolding eligible
    eligible-Shrinks [] = tt
    eligible-Shrinks (e ∷ es) =
        let later = Shrinks-cons e es (eligible consumer none locked p es) (eligible-Shrinks es) in
        elim (Bool-cases (not (is_processed e.id consumer p) && (true && not (locked e.id)))) [
          | inl c ↦ rw c (Shrinks-head e es c, later)
          | inr c ↦ rw c later
        ]

    -- The marks of all of them leave none.
    eligible_gone :
        (es : List OutboxEvent)
        → All (λ x. is_processed x.id consumer q ≡ true) (eligible consumer none locked p es)
        → length (eligible consumer none locked q es) ≡ 0
    unfolding eligible
    eligible_gone [] h = refl
    eligible_gone (e ∷ es) h =
        elim (Bool-cases (not (is_processed e.id consumer p) && (true && not (locked e.id)))) [
          | inl c ↦ ground (arith, (rw c at h).0, eligible_gone es (rw c at h).1)
          | inr c ↦ ground (arith, grows e.id, eligible_gone es (rw c at h))
        ]

module _ (consumer : String) (locked : ℕ → Bool) (now : ℕ) where
  claimable-mark :
      (ids : List ℕ) (t : OutboxTables)
      → claimable consumer locked (mark_batch_processed now ids consumer t)
        ≡ length (
            eligible consumer none locked
              (mark_batch_processed now ids consumer t).processing
              t.events)
  unfolding mark_batch_processed
  claimable-mark [] t = refl
  claimable-mark (i ∷ is) t = eligible-update consumer locked _ (i ∷ is) _ t.events (λ e. refl)

  marks_grow :
      (ids : List ℕ) (t : OutboxTables) (i : ℕ)
      → is_processed i consumer t.processing ≡ true
      → is_processed i consumer (mark_batch_processed now ids consumer t).processing ≡ true
  marks_grow ids t i h =
      rw (mark_batch_processed_lem now ids consumer consumer t i, eq_refl consumer, h)
        (or_true (has_id i ids))

  marks-All :
      (xs es : List OutboxEvent) (t : OutboxTables)
      → All (IsIn xs) es
      → All
          (λ e.
            is_processed e.id consumer (mark_batch_processed now (ids_of xs) consumer t).processing
            ≡ true)
          es
  marks-All xs [] t h = tt
  marks-All xs (e ∷ es) t h = (
    rw (mark_batch_processed_lem now (ids_of xs) consumer consumer t e.id, eq_refl consumer, h.0)
        refl,
    marks-All xs es t h.1,
  )

  same_ids :
      (xs ys es : List OutboxEvent)
      → ((i : ℕ) → has_id i (ids_of xs) ≡ has_id i (ids_of ys))
      → All (IsIn ys) es
      → All (IsIn xs) es
  same_ids xs ys [] same h = tt
  same_ids xs ys (e ∷ es) same h = (same e.id ∙ h.0, same_ids xs ys es same h.1)

  -- The tables after a claim, and after the claimed batch is marked.
  abbrev pub after_claim : ℕ → OutboxTables → OutboxTables
  after_claim size t = (claim_batch size consumer none locked t).1

  abbrev pub claimed : ℕ → OutboxTables → List OutboxEvent
  claimed size t = (claim_batch size consumer none locked t).0

  abbrev pub after_mark : ℕ → OutboxTables → OutboxTables
  after_mark size t =
      mark_batch_processed now (ids_of (claimed size t)) consumer (after_claim size t)

  after_mark_counts :
      (size : ℕ) (t : OutboxTables)
      → claimable consumer locked (after_mark size t)
        ≡ length (eligible consumer none locked (after_mark size t).processing t.events)
  unfolding claim_batch
  after_mark_counts size t =
      claimable-mark (ids_of (claimed size t)) (after_claim size t)
      ∙ eligible-update consumer locked _ (ids_of (claimed size t)) _ t.events (λ e. refl)

  after_mark_grows :
      (size : ℕ) (t : OutboxTables) (i : ℕ)
      → is_processed i consumer t.processing ≡ true
      → is_processed i consumer (after_mark size t).processing ≡ true
  unfolding claim_batch
  after_mark_grows size t i h = marks_grow (ids_of (claimed size t)) (after_claim size t) i h

  -- A batch that is marked leaves fewer events to claim, unless it is empty.
  pub batch_shrinks :
      (size : ℕ) (t : OutboxTables)
      → 0 < length (claimed size t)
      → claimable consumer locked (after_mark size t) < claimable consumer locked t
  unfolding claim_batch Shrinks
  batch_shrinks size t h = rw (after_mark_counts size t) (
      head_shrinks (claimed size t)
        (take-All (λ x. Shrinks consumer locked p q grows x t.events) size _
          (sort_by_id-All (λ x. Shrinks consumer locked p q grows x t.events) _
            (eligible-Shrinks consumer locked p q grows t.events)))
        (marks-All (claimed size t) (claimed size t) (after_claim size t)
          (IsIn-self (claimed size t)))
        h)
    where
      p : List (ℕ × String)
      p = t.processing

      q : List (ℕ × String)
      q = (after_mark size t).processing

      grows : (i : ℕ) → is_processed i consumer p ≡ true → is_processed i consumer q ≡ true
      grows = after_mark_grows size t

      head_shrinks :
          (xs : List OutboxEvent)
          → All (λ x. Shrinks consumer locked p q grows x t.events) xs
          → All (λ x. is_processed x.id consumer q ≡ true) xs
          → 0 < length xs
          → length (eligible consumer none locked q t.events)
            < length (eligible consumer none locked p t.events)
      head_shrinks [] s m h = absurd (omega arith)
      head_shrinks (x ∷ xs) s m h = s.0 m.0

  -- A batch that is not full leaves none, once it is marked.
  pub short_batch_last :
      (size : ℕ) (t : OutboxTables)
      → length (claimed size t) < size
      → claimable consumer locked (after_mark size t) ≡ 0
  unfolding claim_batch
  short_batch_last size t h =
      let found = eligible consumer none locked t.processing t.events in
      let all : claimed size t ≡ sort_by_id found = take_all size (sort_by_id found) h in
      after_mark_counts size t
      ∙ eligible_gone consumer locked t.processing (after_mark size t).processing
          (after_mark_grows size t) t.events
          (marks-All (claimed size t) found (after_claim size t) (
            same_ids (claimed size t) found found
              (λ i. ap (λ l. has_id i (ids_of l)) all ∙ has_id-sort i found) (IsIn-self found)))
