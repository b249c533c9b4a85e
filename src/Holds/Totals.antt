-- ===== src/Holds/Totals.antt =====
-- The sum of a wallet's active holds, and what is documented of their table.
use wallex_sanbox.Prelude.{
  ◌≡◌, refl, ap, ◌∙◌, sym, arith, String, Bool, true, false, ◌&&◌, Option, none, some, List, [],
  ◌∷◌, map, str_eq, eq_iff, Bool-cases, inl, inr, if◌then◌else◌,
}
use wallex_sanbox.Number.{Number, zero_number, add}
use wallex_sanbox.Number.Sums.{add_comm, add_assoc, zero_add}
use wallex_sanbox.Exec.{Error, ok, err, Result-cases}
use wallex_sanbox.Database.{Table}
use wallex_sanbox.Holds.{
  HoldEntity, is_active, release as release_hold, capture as capture_hold, expire as expire_hold,
}
use wallex_sanbox.Holds.Repository.{
  HoldQueries, of_wallet, active_of, total_text, calculate_total_active_holds, find_by_id_or_fail,
}
use wallex_sanbox.Holds.Settled.{
  HoldCall, releases, captures, expires, same_hold, target, entity_call, hold_call, hold_call_steps,
}

-- Rows as a list, filed by their identifiers.
abbrev pub lookup : String → List HoldEntity → Option HoldEntity
lookup id [] = none
lookup id (h ∷ hs) = let rest = lookup id hs in if str_eq h.id id then some h else rest

abbrev pub upserted : HoldEntity → List HoldEntity → List HoldEntity
upserted v [] = v ∷ []
upserted v (h ∷ hs) = let rest = upserted v hs in if str_eq h.id v.id then v ∷ hs else h ∷ rest

abbrev pub total_of : (HoldEntity → Bool) → List HoldEntity → Number
total_of c [] = zero_number
total_of c (h ∷ hs) = let rest = total_of c hs in if c h then add h.amount rest else rest

abbrev pub is_listed : String → List String → Bool
is_listed id [] = false
is_listed id (i ∷ is) = let rest = is_listed id is in if str_eq i id then true else rest

-- What is documented of the table and of the queries, while the database answers: `save` replaces the
-- row of its identifier, and a sum is the text of what its rows add up to.
pub record HoldLaws (table : Table HoldEntity) (queries : HoldQueries table.Rows)
    (parse_float : String → Number) : Type 0 where
  pub listing : table.Rows → List HoldEntity
  pub find_one_law :
      (id : String) (rows : table.Rows) → table.find_one id rows ≡ ok (lookup id (listing rows))
  pub save_law :
      (v : HoldEntity) (rows : table.Rows)
      → ((table.save v rows).0 ≡ ok v) × (listing (table.save v rows).1 ≡ upserted v (listing rows))
  pub sum_law :
      (c : HoldEntity → Bool) (rows : table.Rows)
      → (total : Option String) × (queries.sum_amount c rows ≡ ok total)
        × (parse_float (total_text total) ≡ total_of c (listing rows))
  pub update_law :
      (ids : List String) (f : HoldEntity → HoldEntity) (rows : table.Rows)
      → ((queries.update_in ids f rows).0 ≡ ok tt)
        × (listing (queries.update_in ids f rows).1
            ≡ map (λ h. if is_listed h.id ids then f h else h) (listing rows))

-- What a row adds to a total.
abbrev pub part : (HoldEntity → Bool) → HoldEntity → Number
part c h = if c h then h.amount else zero_number

total_step :
    (c : HoldEntity → Bool) (h : HoldEntity) (hs : List HoldEntity)
    → total_of c (h ∷ hs) ≡ add (part c h) (total_of c hs)
total_step c h hs = elim (Bool-cases (c h)) [
  | inl e ↦ rw e refl
  | inr e ↦ rw e (sym (zero_add (total_of c hs)))
]

exchange : (p q t : Number) → add (add p t) q ≡ add (add q t) p
exchange p q t = grind (arith, add_comm, add_assoc)

carry : (p t u q r : Number) → add t q ≡ add u r → add (add p t) q ≡ add (add p u) r
carry p t u q r h = sym (add_assoc p t q) ∙ ap (add p) h ∙ add_assoc p u r

-- Replacing a row exchanges what it adds to a total.
upserted_total :
    (c : HoldEntity → Bool) (v h : HoldEntity) (hs : List HoldEntity)
    → lookup v.id hs ≡ some h
    → add (total_of c (upserted v hs)) (part c h) ≡ add (total_of c hs) (part c v)
upserted_total c v h [] there = absurd (cc there)
upserted_total c v h (x ∷ xs) there = elim (Bool-cases (str_eq x.id v.id)) [
  | inl e ↦
      let same : x ≡ h = ground (arith, there, e) in
      rw e (
        ap (λ t. add t (part c h)) (total_step c v xs)
        ∙ exchange (part c v) (part c h) (total_of c xs)
        ∙ ap (λ t. add t (part c v)) (sym (total_step c h xs))
        ∙ ap (λ y. add (total_of c (y ∷ xs)) (part c v)) (sym same))
  | inr e ↦
      let behind : lookup v.id xs ≡ some h = ground (arith, there, e) in
      rw e (
        ap (λ t. add t (part c h)) (total_step c x (upserted v xs))
        ∙ carry (part c x) (total_of c (upserted v xs)) (total_of c xs) (part c h) (part c v)
            (upserted_total c v h xs behind)
        ∙ ap (λ t. add t (part c v)) (sym (total_step c x xs)))
]

lookup_id :
    (id : String) (h : HoldEntity) (hs : List HoldEntity) → lookup id hs ≡ some h → h.id ≡ id
lookup_id id h [] there = absurd (cc there)
lookup_id id h (x ∷ xs) there = ground (arith, there, eq_iff x.id id, lookup_id id h xs)

-- An accepted call takes an active hold, and leaves it with another status.
call_settles :
    (c : HoldCall) (h h' : HoldEntity) → entity_call c h ≡ ok h' → is_active h'.status ≡ false
unfolding release_hold capture_hold expire_hold is_active
call_settles (releases i now) h h' p = ground (arith, p)
call_settles (captures i now) h h' p = ground (arith, p)
call_settles (expires i) h h' p = ground (arith, p)

call_refuses :
    (c : HoldCall) (h : HoldEntity) (e : Error)
    → entity_call c h ≡ err e
    → is_active h.status ≡ false
unfolding release_hold capture_hold expire_hold
call_refuses (releases i now) h e p = ground (arith, p)
call_refuses (captures i now) h e p = ground (arith, p)
call_refuses (expires i) h e p = ground (arith, p)

call_accepted :
    (c : HoldCall) (h : HoldEntity)
    → is_active h.status ≡ true
    → (h' : HoldEntity) × (entity_call c h ≡ ok h')
call_accepted c h active = elim (Result-cases (entity_call c h)) [
  | inl there ↦ there
  | inr (e, p) ↦ absurd (cc (call_refuses c h e p, active))
]

unless_false : (b : Bool) (n : Number) → (if b && false then n else zero_number) ≡ zero_number
unless_false true n = refl
unless_false false n = refl

if_and_true :
    (b : Bool) (n : Number)
    → (if b && true then n else zero_number) ≡ (if b then n else zero_number)
if_and_true true n = refl
if_and_true false n = refl

module _ {table : Table HoldEntity} {queries : HoldQueries table.Rows}
    {parse_float : String → Number} (laws : HoldLaws table queries parse_float) where
  total_is :
      (wallet_id : String) (rows : table.Rows)
      → calculate_total_active_holds queries parse_float wallet_id rows
        ≡ ok (total_of (active_of wallet_id) (laws.listing rows))
  unfolding calculate_total_active_holds is_active
  total_is wallet_id rows =
      let (total, q, e) = laws.sum_law (active_of wallet_id) rows in
      rw (calculate_total_active_holds, q) (ap ok e)

  -- A call on an active hold, with the rows that it leaves.
  active_call :
      (c : HoldCall) (h : HoldEntity) (rows : table.Rows)
      → lookup (target c) (laws.listing rows) ≡ some h
      → is_active h.status ≡ true
      → (h' : HoldEntity) × (entity_call c h ≡ ok h')
        × ((hold_call table c rows).0 ≡ ok h')
        × (laws.listing (hold_call table c rows).1 ≡ upserted h' (laws.listing rows))
  unfolding find_by_id_or_fail
  active_call c h rows there active =
      let (h', p) = call_accepted c h active in
      let (r, l) = laws.save_law h' rows in
      let saves : hold_call table c rows ≡ table.save h' rows =
        rw (hold_call_steps table c, laws.find_one_law, there, p) refl in
      (h', p, ap (λ x. x.0) saves ∙ r, ap (λ x. laws.listing x.1) saves ∙ l)

  -- Releasing, capturing or expiring an active hold succeeds, and takes its amount out of the total of
  -- the active holds of its wallet, and nothing out of that of any other wallet.
  pub call_reduces_total :
      (c : HoldCall) (h : HoldEntity) (wallet_id : String) (rows : table.Rows)
      → lookup (target c) (laws.listing rows) ≡ some h
      → is_active h.status ≡ true
      → let (r, rows') = hold_call table c rows in
        (h' : HoldEntity) × (t : Number) × (r ≡ ok h')
        × (calculate_total_active_holds queries parse_float wallet_id rows' ≡ ok t)
        × (calculate_total_active_holds queries parse_float wallet_id rows
            ≡ ok (add t (if str_eq h.wallet_id wallet_id then h.amount else zero_number)))
  call_reduces_total c h wallet_id rows there active =
      let (h', p, r, l) = active_call c h rows there active in
      let counted = active_of wallet_id in
      let listing = laws.listing rows in
      let after = laws.listing (hold_call table c rows).1 in
      let filed : lookup h'.id listing ≡ some h =
        ap (λ k. lookup k listing) (same_hold c h h' p ∙ lookup_id (target c) h listing there)
        ∙ there in
      let gone : part counted h' ≡ zero_number =
        rw (call_settles c h h' p) (unless_false (of_wallet wallet_id h') h'.amount) in
      let counts : part counted h
          ≡ (if str_eq h.wallet_id wallet_id then h.amount else zero_number) =
        rw active (if_and_true (str_eq h.wallet_id wallet_id) h.amount) in
      let moves : add (total_of counted after) (part counted h) ≡ total_of counted listing = rw l (
        upserted_total counted h' h listing filed
        ∙ ap (add (total_of counted listing)) gone
        ∙ add_comm (total_of counted listing) zero_number
        ∙ zero_add (total_of counted listing)) in
      (
        h',
        total_of counted after,
        r,
        total_is wallet_id (hold_call table c rows).1,
        total_is wallet_id rows ∙ ap ok (sym moves ∙ ap (add (total_of counted after)) counts),
      )
