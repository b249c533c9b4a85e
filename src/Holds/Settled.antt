-- ===== src/Holds/Settled.antt =====
-- A hold leaves ACTIVE at most once.
use wallex_sanbox.Prelude.{
  arith, ℕ, ◌≡◌, refl, ◌∙◌, String, true, false, some, str_eq, eq_iff, List, [], ◌∷◌, inl, inr, ◌⊎◌,
  Option-cases, Bool-cases,
}
use wallex_sanbox.Exec.{Error, Result, Result-cases, ok, err, Exec, ◌>>=◌}
use wallex_sanbox.Database.{Table, TableLaws}
use wallex_sanbox.Holds.{
  HoldEntity, is_active, release as release_hold, capture as capture_hold, expire as expire_hold,
}
use wallex_sanbox.Holds.Repository.{find_by_id_or_fail, release, capture, expire, lift}

-- The calls that change a hold's status.
pub data HoldCall : Type 0 where
  releases captures : String → ℕ → HoldCall
  expires : String → HoldCall

-- The hold that a call is about, and what it does with the entity.
abbrev pub target : HoldCall → String
target (releases i now) = i
target (captures i now) = i
target (expires i) = i

abbrev pub entity_call : HoldCall → HoldEntity → Result HoldEntity
entity_call (releases i now) = release_hold now
entity_call (captures i now) = capture_hold now
entity_call (expires i) = expire_hold

module _ (table : Table HoldEntity) where
  abbrev pub hold_call : HoldCall → Exec table.Rows HoldEntity
  hold_call (releases i now) = release table i now
  hold_call (captures i now) = capture table i now
  hold_call (expires i) = expire table i

  -- The rows after one call after the other, those that throw included.
  unfoldable pub hold_calls : List HoldCall → table.Rows → table.Rows
  hold_calls [] rows = rows
  hold_calls (c ∷ cs) rows = hold_calls cs (hold_call c rows).1

  -- Every call finds the hold, changes the entity, and saves it.
  pub hold_call_steps :
      (c : HoldCall)
      → hold_call c
        ≡ (find_by_id_or_fail table (target c) >>= λ h. lift (entity_call c h) >>= table.save)
  unfolding release capture expire
  hold_call_steps (releases i now) = refl
  hold_call_steps (captures i now) = refl
  hold_call_steps (expires i) = refl

-- Only an active hold lets a call through.
pub was_active :
    (c : HoldCall) (h h' : HoldEntity) → entity_call c h ≡ ok h' → is_active h.status ≡ true
unfolding release_hold capture_hold expire_hold
was_active (releases i now) h h' p = ground (arith, p)
was_active (captures i now) h h' p = ground (arith, p)
was_active (expires i) h h' p = ground (arith, p)

-- A call keeps the hold's identifier.
pub same_hold : (c : HoldCall) (h h' : HoldEntity) → entity_call c h ≡ ok h' → h'.id ≡ h.id
unfolding release_hold capture_hold expire_hold
same_hold (releases i now) h h' p = ground (arith, p)
same_hold (captures i now) h h' p = ground (arith, p)
same_hold (expires i) h h' p = ground (arith, p)

pub refused :
    (c : HoldCall) (h : HoldEntity)
    → is_active h.status ≡ false
    → (e : Error) × (entity_call c h ≡ err e)
refused c h p = elim (Result-cases (entity_call c h)) [
  | inl (h', q) ↦ absurd (cc (was_active c h h' q, p))
  | inr there ↦ there
]

module _ (table : Table HoldEntity) {saved : HoldEntity → HoldEntity}
    (laws : TableLaws table (λ h. h.id) saved) where
  -- Every row is filed under its own identifier.
  abbrev pub IsFiled : table.Rows → Type 0
  IsFiled rows = (k : String) (h : HoldEntity) → laws.row rows k ≡ some h → h.id ≡ k

  -- A call on a hold that has a row.
  found :
      (c : HoldCall) (h : HoldEntity) (rows : table.Rows)
      → laws.row rows (target c) ≡ some h
      → hold_call table c rows ≡ (lift (entity_call c h) >>= table.save) rows
  unfolding find_by_id_or_fail
  found c h rows there = rw (hold_call_steps table c, laws.find_one_law, there) refl

  -- A call saves the changed hold or leaves the rows as they were.
  call_cases :
      (c : HoldCall) (rows : table.Rows)
      → ((hold_call table c rows).1 ≡ rows)
        ⊎ ((h h' : HoldEntity) × (laws.row rows (target c) ≡ some h)
            × (entity_call c h ≡ ok h')
            × ((hold_call table c rows).1 ≡ (table.save h' rows).1))
  unfolding find_by_id_or_fail
  call_cases c rows = elim (Option-cases (laws.row rows (target c))) [
    | inl gone ↦ inl (rw (hold_call_steps table c, laws.find_one_law, gone) refl)
    | inr (h, there) ↦ elim (Result-cases (entity_call c h)) [
      | inl (h', p) ↦ inr (h, h', there, p, rw (found c h rows there, p) refl)
      | inr (e, p) ↦ inl (rw (found c h rows there, p) refl)
    ]
  ]

  call-IsFiled :
      (c : HoldCall) (rows : table.Rows) → IsFiled rows → IsFiled (hold_call table c rows).1
  call-IsFiled c rows filed = elim (call_cases c rows) [
    | inl same ↦ rw same filed
    | inr (h, h', there, p, e) ↦ rw e (λ k x found.
        ground
          (arith, laws.save_row h' rows k, eq_iff h'.id k, laws.saved_key h', filed k x, found))
  ]

  call_stays :
      (c : HoldCall) (id : String) (h : HoldEntity) (rows : table.Rows)
      → IsFiled rows
      → laws.row rows id ≡ some h
      → is_active h.status ≡ false
      → laws.row (hold_call table c rows).1 id ≡ some h
  call_stays c id h rows filed there inactive = elim (call_cases c rows) [
    | inl same ↦ rw same there
    | inr (x, x', at, p, e) ↦
        let key : x'.id ≡ target c = same_hold c x x' p ∙ filed (target c) x at in
        kept x x' at p key e
  ]
    where
      kept :
          (x x' : HoldEntity)
          → laws.row rows (target c) ≡ some x
          → entity_call c x ≡ ok x'
          → x'.id ≡ target c
          → (hold_call table c rows).1 ≡ (table.save x' rows).1
          → laws.row (hold_call table c rows).1 id ≡ some h
      kept x x' at p key e = elim (Bool-cases (str_eq x'.id id)) [
        | inl same ↦
            let name : x'.id ≡ id = (eq_iff x'.id id).0 same in
            let row : x ≡ h = cc (at, there, key, name) in
            absurd (cc (was_active c x x' p, row, inactive))
        | inr other ↦ rw e (laws.save_row x' rows id ∙ rw other there)
      ]

  -- Take rows filed under their identifiers, in which a hold is not active, and calls of release,
  -- capture and expire in any order, for any holds and at any times. Afterwards the hold's row is
  -- as it was, and every such call for it throws and writes nothing.
  pub settled_stays :
      (cs : List HoldCall) (id : String) (h : HoldEntity) (rows : table.Rows)
      → IsFiled rows
      → laws.row rows id ≡ some h
      → is_active h.status ≡ false
      → let rows' = hold_calls table cs rows in
        (laws.row rows' id ≡ some h)
        × ((c : HoldCall)
            → target c ≡ id
            → (e : Error) × (hold_call table c rows' ≡ (err e, rows')))
  unfolding hold_calls
  settled_stays [] id h rows filed there inactive = (
    there,
    λ c same. let (e, p) = refused c h inactive in (e, found c h rows (rw same there) ∙ rw p refl),
  )
  settled_stays (c ∷ cs) id h rows filed there inactive =
      settled_stays cs id h (hold_call table c rows).1 (call-IsFiled c rows filed)
        (call_stays c id h rows filed there inactive) inactive
