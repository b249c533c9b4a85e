-- ===== src/Outbox/Rows.antt =====
-- The rows of the outbox through a claim and a mark.
use wallex_sanbox.Prelude.{
  ℕ, ◌≡◌, refl, String, Bool, true, false, not, ◌&&◌, none, List, [], ◌∷◌, length, ◌==◌, arith, All,
  Bool-cases, inl, inr,
}
use wallex_sanbox.Outbox.{OutboxEvent, eligible, update_ids, has_id, ids_of, is_processed}

pub eligible-keeps :
    (P : OutboxEvent → Type 0) (consumer : String) (locked : ℕ → Bool) (p : List (ℕ × String))
    (es : List OutboxEvent)
    → All P es
    → All P (eligible consumer none locked p es)
unfolding eligible
eligible-keeps P consumer locked p [] h = tt
eligible-keeps P consumer locked p (e ∷ es) h =
    let rest = eligible-keeps P consumer locked p es h.1 in
    elim (Bool-cases (not (is_processed e.id consumer p) && (true && not (locked e.id)))) [
      | inl c ↦ rw c (h.0, rest)
      | inr c ↦ rw c rest
    ]

module _ (P : OutboxEvent → Type 0) (f : OutboxEvent → OutboxEvent)
    (keeps : (e : OutboxEvent) → P e → P (f e)) where
  pub update_ids-All :
      (ids : List ℕ) (es : List OutboxEvent) → All P es → All P (update_ids f ids es)
  update_ids-All ids [] h = tt
  update_ids-All ids (e ∷ es) h =
      let rest = update_ids-All ids es h.1 in
      elim (Bool-cases (has_id e.id ids)) [
        | inl c ↦ rw c (keeps e h.0, rest)
        | inr c ↦ rw c (h.0, rest)
      ]

pub ids_of-update :
    (f : OutboxEvent → OutboxEvent) (ids : List ℕ) (es : List OutboxEvent)
    → ((e : OutboxEvent) → (f e).id ≡ e.id)
    → ids_of (update_ids f ids es) ≡ ids_of es
ids_of-update f ids [] same = refl
ids_of-update f ids (e ∷ es) same = elim (Bool-cases (has_id e.id ids)) [
  | inl c ↦ rw (c, same e, ids_of-update f ids es same) refl
  | inr c ↦ rw (c, ids_of-update f ids es same) refl
]

-- A row that is neither marked nor locked can be claimed.
pub none_left :
    (i : ℕ) (consumer : String) (locked : ℕ → Bool) (p : List (ℕ × String)) (es : List OutboxEvent)
    → length (eligible consumer none locked p es) ≡ 0
    → has_id i (ids_of es) ≡ true
    → locked i ≡ false
    → is_processed i consumer p ≡ true
unfolding eligible
none_left i consumer locked p [] h there free = absurd (cc there)
none_left i consumer locked p (e ∷ es) h there free = elim (Bool-cases (i == e.id)) [
  | inl same ↦
      let ids : e.id ≡ i = ground arith in
      elim (Bool-cases (is_processed i consumer p)) [
        | inl marked ↦ marked
        | inr unmarked ↦ absurd (cc (rw (ids, unmarked, free) at h))
      ]
  | inr other ↦
      let rest : length (eligible consumer none locked p es) ≡ 0 = ground (arith, h) in
      none_left i consumer locked p es rest (rw other at there) free
]
