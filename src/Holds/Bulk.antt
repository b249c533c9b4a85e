-- ===== src/Holds/Bulk.antt =====
-- What the bulk update does to holds that have left ACTIVE.
use wallex_sanbox.Prelude.{
  ◌≡◌, refl, ap, ◌∙◌, arith, String, true, false, some, List, [], ◌∷◌, map, str_eq, eq_iff,
  Bool-cases, inl, inr, if◌then◌else◌,
}
use wallex_sanbox.Exec.{Error, ok, err}
use wallex_sanbox.Number.{Number}
use wallex_sanbox.Database.{Table}
use wallex_sanbox.Holds.{HoldEntity, is_active, expired}
use wallex_sanbox.Holds.Repository.{HoldQueries, bulk_expire, find_by_id_or_fail}
use wallex_sanbox.Holds.Settled.{HoldCall, target, hold_call, hold_call_steps, refused}
use wallex_sanbox.Holds.Totals.{HoldLaws, lookup, is_listed}

abbrev expires_listed : List String → HoldEntity → HoldEntity
expires_listed ids h = if is_listed h.id ids then record h { status = expired } else h

kept_id : (ids : List String) (h : HoldEntity) → (expires_listed ids h).id ≡ h.id
kept_id ids h = elim (Bool-cases (is_listed h.id ids)) [ inl e ↦ rw e refl | inr e ↦ rw e refl ]

now_expired :
    (ids : List String) (h : HoldEntity)
    → is_listed h.id ids ≡ true
    → expires_listed ids h ≡ record h { status = expired }
now_expired ids h e = rw e refl

lookup_expired :
    (ids : List String) (id : String) (h : HoldEntity) (hs : List HoldEntity)
    → is_listed id ids ≡ true
    → lookup id hs ≡ some h
    → lookup id (map (expires_listed ids) hs) ≡ some (record h { status = expired })
lookup_expired ids id h [] listed there = absurd (cc there)
lookup_expired ids id h (x ∷ xs) listed there = elim (Bool-cases (str_eq x.id id)) [
  | inl e ↦
      let same : x ≡ h = ground (arith, there, e) in
      let name : x.id ≡ id = (eq_iff x.id id).0 e in
      let found = now_expired ids x (ap (λ k. is_listed k ids) name ∙ listed) in
      let here : str_eq (expires_listed ids x).id id ≡ true =
        ap (λ k. str_eq k id) (kept_id ids x) ∙ e in
      rw here (ap some found ∙ ap {A = HoldEntity} (λ y. some (record y { status = expired })) same)
  | inr e ↦
      let behind : lookup id xs ≡ some h = ground (arith, there, e) in
      let apart : str_eq (expires_listed ids x).id id ≡ false =
        ap (λ k. str_eq k id) (kept_id ids x) ∙ e in
      rw apart (lookup_expired ids id h xs listed behind)
]

module _ {table : Table HoldEntity} {queries : HoldQueries table.Rows}
    {parse_float : String → Number} (laws : HoldLaws table queries parse_float) where
  -- A hold that is not active refuses to be released, captured or expired, and nothing is written. The
  -- bulk update makes it EXPIRED all the same where it is among the identifiers, whatever its status
  -- was.
  pub bulk_expire_overwrites :
      (c : HoldCall) (h : HoldEntity) (ids : List String) (rows : table.Rows)
      → lookup (target c) (laws.listing rows) ≡ some h
      → is_active h.status ≡ false
      → is_listed (target c) ids ≡ true
      → let (r, rows') = bulk_expire queries ids rows in
        ((e : Error) × (hold_call table c rows ≡ (err e, rows)))
        × (r ≡ ok tt)
        × (lookup (target c) (laws.listing rows') ≡ some (record h { status = expired }))
  unfolding bulk_expire find_by_id_or_fail
  bulk_expire_overwrites c h ids rows there inactive listed =
      let (e, p) = refused c h inactive in
      let (r, l) = laws.update_law ids (λ x. record x { status = expired }) rows in
      (
        (e, rw (hold_call_steps table c, laws.find_one_law, there, p) refl),
        r,
        ap (lookup (target c)) l ∙ lookup_expired ids (target c) h (laws.listing rows) listed there,
      )
