-- ===== src/Idempotency/Keys.antt =====
-- The life of an idempotency key: one request takes it, the response is kept, and what a failed key
-- does.
use wallex_sanbox.Prelude.{
  ℕ, ◌≤◌, ◌<◌, ◌≡◌, refl, ◌∙◌, ◌≢◌, String, true, false, none, some, str_eq, eq_iff, eq_refl, ltb,
  arith,
}
use wallex_sanbox.Exec.{conflict, ok, err}
use wallex_sanbox.Database.{Table, TableLaws}
use wallex_sanbox.Idempotency.{
  IdempotencyKey, completed, failed, try_get, store_pending, store, mark_failed, pending_record,
  expiry, being_processed, is_pending, by_status,
}

module _ {A Q : Type 0} (table : Table (IdempotencyKey A)) (hash_request : Q → String)
    {saved : IdempotencyKey A → IdempotencyKey A} (laws : TableLaws table (λ r. r.key) saved) where
  -- Only one request takes a key, not the empty one, that has no row: the first `storePending`
  -- succeeds, and a second one is a conflict and changes nothing.
  pub store_pending_once :
      (now after : ℕ) (key : String) (q r : Q) (rows : table.Rows)
      → str_eq key "" ≡ false
      → laws.row rows key ≡ none
      → let (first, taken) = store_pending table hash_request now key q rows in
        (first ≡ ok tt)
        × (store_pending table hash_request after key r taken ≡ (err being_processed, taken))
  unfolding store_pending
  store_pending_once now after key q r rows e h =
      let p = pending_record table hash_request now key q in
      let taken = (table.insert p rows).1 in
      rw (e, laws.insert_new p rows h)
        (
          refl,
          rw (
              laws.insert_taken (pending_record table hash_request after key r) p taken
                (laws.insert_row p rows key h ∙ rw (eq_refl key))),
        )

  -- A key that is taken is pending.
  pub store_pending_row :
      (now : ℕ) (key : String) (q : Q) (rows : table.Rows)
      → str_eq key "" ≡ false
      → laws.row rows key ≡ none
      → let (r, rows') = store_pending table hash_request now key q rows in
        (r ≡ ok tt) × (laws.row rows' key ≡ some (pending_record table hash_request now key q))
  unfolding store_pending
  store_pending_row now key q rows e h =
      let p = pending_record table hash_request now key q in
      rw (e, laws.insert_new p rows h) (refl, laws.insert_row p rows key h ∙ rw (eq_refl key))

  taken :
      (now : ℕ) (key : String) (q : Q) (r : IdempotencyKey A) (rows : table.Rows)
      → str_eq key "" ≡ false
      → laws.row rows key ≡ some r
      → store_pending table hash_request now key q rows ≡ (err being_processed, rows)
  unfolding store_pending
  taken now key q r rows e h =
      rw (e, laws.insert_taken (pending_record table hash_request now key q) r rows h)

  -- A known key with the request's hash, before it expires, acts by its status.
  try_get_found :
      (now : ℕ) (key : String) (q : Q) (r : IdempotencyKey A) (rows : table.Rows)
      → str_eq key "" ≡ false
      → laws.row rows key ≡ some r
      → ltb r.expires_at now ≡ false
      → r.request_hash ≡ hash_request q
      → try_get table hash_request now key (some q) rows
        ≡ by_status table hash_request r.status r.response rows
  unfolding try_get
  try_get_found now key q r rows e h l same =
      rw (e, laws.find_one_law key rows, h, l)
        (let known : str_eq r.request_hash (hash_request q) ≡ true = (eq_iff _ _).1 same in
          rw known)

  abbrev completes : ℕ → A → IdempotencyKey A → IdempotencyKey A
  completes now response r = record r {
    response = some response;
    status = completed;
    expires_at = expiry now;
  }

  store_found :
      (now : ℕ) (key : String) (response : A) (r : IdempotencyKey A) (rows : table.Rows)
      → str_eq key "" ≡ false
      → laws.row rows key ≡ some r
      → is_pending r.status ≡ true
      → ((store table hash_request now key response rows).0 ≡ ok tt)
        × (laws.row (store table hash_request now key response rows).1 key
            ≡ some (completes now response r))
  unfolding store
  store_found now key response r rows e h p =
      let (one, row) =
        laws.update_hit key (λ r. is_pending r.status) (completes now response) rows r h p in
      rw (e, one) (refl, row)

  -- Take a key, not the empty one, that is pending for a request. A response that is stored for it
  -- is what every retry of the same request gets until the key expires.
  pub try_get-store :
      (start now later : ℕ) (key : String) (q : Q) (response : A) (rows : table.Rows)
      → str_eq key "" ≡ false
      → laws.row rows key ≡ some (pending_record table hash_request start key q)
      → later ≤ expiry now
      → let (done, kept) = store table hash_request now key response rows in
        (done ≡ ok tt)
        × (try_get table hash_request later key (some q) kept ≡ (ok (some response), kept))
  try_get-store start now later key q response rows e h l =
      let p = pending_record table hash_request start key q in
      let (done, row) = store_found now key response p rows e h refl in
      (
        done,
        try_get_found later key q (completes now response p)
            (store table hash_request now key response rows).1 e row (ground arith) refl,
      )

  -- A key, not the empty one, that has a row with the hash of another request is a conflict until
  -- it expires, whatever its status, and nothing changes.
  pub try_get_other_request :
      (now : ℕ) (key : String) (q : Q) (r : IdempotencyKey A) (rows : table.Rows)
      → str_eq key "" ≡ false
      → laws.row rows key ≡ some r
      → now ≤ r.expires_at
      → r.request_hash ≢ hash_request q
      → try_get table hash_request now key (some q) rows
        ≡ (err (conflict "Idempotency key reused with different request"), rows)
  unfolding try_get
  try_get_other_request now key q r rows e h l differs =
      let fresh : ltb r.expires_at now ≡ false = ground arith in
      let unknown : str_eq r.request_hash (hash_request q) ≡ false =
        ground (arith, eq_iff r.request_hash (hash_request q)) in
      rw (e, laws.find_one_law key rows, h, fresh) (rw unknown)

  abbrev fails : IdempotencyKey A → IdempotencyKey A
  fails r = record r { status = failed }

  mark_failed_row :
      (key : String) (r : IdempotencyKey A) (rows : table.Rows)
      → str_eq key "" ≡ false
      → laws.row rows key ≡ some r
      → laws.row (mark_failed table hash_request key rows).1 key ≡ some (fails r)
  unfolding mark_failed
  mark_failed_row key r rows e h =
      let (one, row) = laws.update_hit key (λ x. true) fails rows r h refl in rw (e, one) row

  -- A key, not the empty one, that failed cannot be used again by its request while it is fresh:
  -- the lookup allows the retry, and then the retry cannot take the key.
  pub failed_key_stays :
      (now : ℕ) (key : String) (q : Q) (r : IdempotencyKey A) (rows : table.Rows)
      → str_eq key "" ≡ false
      → laws.row rows key ≡ some r
      → now ≤ r.expires_at
      → r.request_hash ≡ hash_request q
      → let failed_rows = (mark_failed table hash_request key rows).1 in
        (try_get table hash_request now key (some q) failed_rows ≡ (ok none, failed_rows))
        × (store_pending table hash_request now key q failed_rows
            ≡ (err being_processed, failed_rows))
  failed_key_stays now key q r rows e h l same =
      let marked = (mark_failed table hash_request key rows).1 in
      let row = mark_failed_row key r rows e h in
      (
        try_get_found now key q (fails r) marked e row (ground arith) same,
        taken now key q (fails r) marked e row,
      )

  -- An expired key, not the empty one, is dropped by the lookup, and the request can take it.
  pub expired_key_is_free :
      (now : ℕ) (key : String) (q : Q) (r : IdempotencyKey A) (rows : table.Rows)
      → str_eq key "" ≡ false
      → laws.row rows key ≡ some r
      → r.expires_at < now
      → let (answer, cleared) = try_get table hash_request now key (some q) rows in
        (answer ≡ ok none) × ((store_pending table hash_request now key q cleared).0 ≡ ok tt)
  unfolding try_get store_pending
  expired_key_is_free now key q r rows e h l =
      let old : ltb r.expires_at now ≡ true = ground arith in
      let (done, row) = laws.remove_law key key rows in
      rw (e, laws.find_one_law key rows, h, old)
        (rw done (
          refl,
          rw (
              laws.insert_new (pending_record table hash_request now key q)
                (table.remove key rows).1 (row ∙ rw (eq_refl key))),
        ))
