-- ===== src/Kafka/Members.antt =====
-- The events of a list, by their identifiers.
use wallex_sanbox.Prelude.{
  ℕ, zero, suc, ◌<◌, ◌≡◌, refl, ap, ◌∙◌, true, ◌||◌, List, [], ◌∷◌, length, ◌==◌, arith, All,
}
use wallex_sanbox.Outbox.{OutboxEvent, insert_by_id, sort_by_id, take, has_id, ids_of}

-- Every event is among the sorted ones, by its identifier.
abbrev pub IsIn : List OutboxEvent → OutboxEvent → Type 0
IsIn xs e = has_id e.id (ids_of xs) ≡ true

pub IsIn-cons :
    (x : OutboxEvent) (xs ys : List OutboxEvent) → All (IsIn xs) ys → All (IsIn (x ∷ xs)) ys
IsIn-cons x xs [] h = tt
IsIn-cons x xs (y ∷ ys) h = (ground (arith, h.0), IsIn-cons x xs ys h.1)

pub IsIn-self : (xs : List OutboxEvent) → All (IsIn xs) xs
IsIn-self [] = tt
IsIn-self (x ∷ xs) = (ground arith, IsIn-cons x xs xs (IsIn-self xs))

pub has_id-insert :
    (i : ℕ) (e : OutboxEvent) (xs : List OutboxEvent)
    → has_id i (ids_of (insert_by_id e xs)) ≡ ((i == e.id) || has_id i (ids_of xs))
unfolding insert_by_id
has_id-insert i e [] = refl
has_id-insert i e (x ∷ xs) = ground (arith, has_id-insert i e xs)

pub has_id-sort :
    (i : ℕ) (xs : List OutboxEvent) → has_id i (ids_of (sort_by_id xs)) ≡ has_id i (ids_of xs)
unfolding sort_by_id
has_id-sort i [] = refl
has_id-sort i (x ∷ xs) =
    has_id-insert i x (sort_by_id xs) ∙ ap (λ b. i == x.id || b) (has_id-sort i xs)

-- A batch that is not full has them all.
pub take_all : (n : ℕ) (xs : List OutboxEvent) → length (take n xs) < n → take n xs ≡ xs
take_all zero xs h = absurd (omega arith)
take_all (suc n) [] h = refl
take_all (suc n) (x ∷ xs) h = ap (λ l. x ∷ l) (take_all n xs (omega arith))
