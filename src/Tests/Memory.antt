-- ===== src/Tests/Memory.antt =====
-- The event store, a table, Redis and transactions in memory: what is assumed of each of them holds.
use wallex_sanbox.Prelude.{
  ℕ, suc, ◌+◌, ◌≡◌, ◌≢◌, refl, ap, String, Bool, true, false, Option, none, some, List, [], ◌∷◌,
  ◌++◌, length, str_eq, eq_iff, eq_refl, if◌then◌else◌, Bool-cases, inl, inr,
}
use wallex_sanbox.Prelude.Int.{ℤ, pos}
use wallex_sanbox.Exec.{wrong_expected_version, unique_violation, Result, ok, err}
use wallex_sanbox.EventStore.Client.{
  KurrentClient, KurrentLaws, RecordedEvent, EventPayload, StreamState, RecordedAs, from_revision,
  found, resolve, last_resolved, meets, actual_state,
}
use wallex_sanbox.Database.{Table, TableLaws}
use wallex_sanbox.Lock.{Redis, RedisLaws}
use wallex_sanbox.Wallets.{Transactions}

abbrev pub put : {A : Type 0} → String → A → (String → A) → String → A
put k v f j = if str_eq k j then v else f j

pub put_apart : {A : Type 0} (k j : String) (v : A) (f : String → A) → k ≢ j → put k v f j ≡ f j
put_apart k j v f ne = elim (Bool-cases (str_eq k j)) [
  | inl e ↦ absurd (ne ((eq_iff k j).0 e))
  | inr e ↦ rw e refl
]

pub record Stream : Type 0 where
  pub events : List RecordedEvent
  pub total : ℕ

abbrev pub recorded : ℕ → List EventPayload → List RecordedEvent
recorded n [] = []
recorded n (p ∷ ps) =
    record { body = p.body; metadata = p.metadata; revision = n; created = "today" }
    ∷ recorded (suc n) ps

abbrev pub Streams : Type 0
Streams = String → Stream

abbrev pub no_streams : Streams
no_streams s = record { events = []; total = 0 }

abbrev extended : Stream → List EventPayload → Stream
extended t ps = record { events = t.events ++ recorded t.total ps; total = t.total + length ps }

abbrev last_revision : ℕ → List EventPayload → ℤ
last_revision n [] = pos n
last_revision n (p ∷ ps) = pos (n + length ps)

abbrev appended : String → List EventPayload → StreamState → Streams → Result ℤ × Streams
appended s ps st db =
    if meets (db s).total st
    then (ok (last_revision (db s).total ps), put s (extended (db s) ps) db)
    else (err (wrong_expected_version (actual_state (db s).total)), db)

abbrev pub client : KurrentClient
client = record {
  Db = Streams;
  read_stream = λ s n db. found (db s).events (resolve (from_revision n (db s).events));
  read_last = λ s db. found (db s).events (last_resolved (db s).events);
  append_to_stream = appended;
  set_max_count = λ s n db. (ok tt, db);
}

pub recorded-RecordedAs : (n : ℕ) (ps : List EventPayload) → RecordedAs n ps (recorded n ps)
recorded-RecordedAs n [] = tt
recorded-RecordedAs n (p ∷ ps) = (refl, refl, refl, recorded-RecordedAs (suc n) ps)

abbrev pub laws : KurrentLaws client
laws = record {
  contents = λ db s. (db s).events;
  count = λ db s. (db s).total;
  read_law = λ s n db. refl;
  read_last_law = λ s db. refl;
  append_meets = λ s p ps st db h. rw h (
    refl,
    rw (eq_refl s) refl,
    (
      recorded (db s).total (p ∷ ps),
      rw (eq_refl s) refl,
      recorded-RecordedAs (db s).total (p ∷ ps),
    ),
  );
  append_refused = λ s ps st db h. rw h refl;
  append_apart = λ s t ps st db ne. elim (Bool-cases (meets (db s).total st)) [
    | inl h ↦
        let kept = put_apart s t (extended (db s) ps) db ne in
        rw h (ap (λ x. x.events) kept, ap (λ x. x.total) kept)
    | inr h ↦ rw h (refl, refl)
  ];
  max_count_apart = λ s t n db ne. (refl, refl);
  max_count_last = λ s n db h. refl;
}

abbrev pub Rows : Type 0 → Type 0
Rows R = String → Option R

abbrev inserted : {R : Type 0} → (R → String) → R → Rows R → Option R → Result (Unit {0}) × Rows R
inserted key v rows none = (ok tt, put (key v) (some v) rows)
inserted key v rows (some w) = (err unique_violation, rows)

abbrev updated :
    {R : Type 0} → String → (R → Bool) → (R → R) → Rows R → Option R → Result ℕ × Rows R
updated k c f rows none = (ok 0, rows)
updated k c f rows (some v) = if c v then (ok 1, put k (some (f v)) rows) else (ok 0, rows)

abbrev pub table : {R : Type 0} → (R → String) → (R → R) → Table R
table {R = R} key saved = record {
  Rows = Rows R;
  find_one = λ k rows. ok (rows k);
  save = λ v rows. (ok (saved v), put (key v) (some (saved v)) rows);
  insert = λ v rows. inserted key v rows (rows (key v));
  update = λ k c f rows. updated k c f rows (rows k);
  remove = λ k rows. (ok tt, put k none rows);
  remove_where = λ c rows. (ok 0, rows);
}

abbrev pub table_laws :
    {R : Type 0} (key : R → String) (saved : R → R)
    → ((v : R) → key (saved v) ≡ key v)
    → TableLaws (table key saved) key saved
table_laws key saved same = record {
  row = λ rows k. rows k;
  saved_key = same;
  find_one_law = λ k rows. refl;
  save_result = λ v rows. refl;
  save_row = λ v rows k. refl;
  insert_new = λ v rows h. rw h refl;
  insert_row = λ v rows k h. rw h refl;
  insert_taken = λ v w rows h. rw h refl;
  update_hit = λ k c f rows v h p. rw (h, p) (refl, rw (eq_refl k) refl);
  update_missing = λ k c f rows h. rw h refl;
  update_miss = λ k c f rows v h p. rw (h, p) refl;
  remove_law = λ k j rows. (refl, refl);
}

abbrev pub Cache : Type 0
Cache = String → Option String

abbrev set_nx : String → String → Cache → Option String → Bool × Cache
set_nx k v c none = (true, put k (some v) c)
set_nx k v c (some w) = (false, c)

abbrev deleted : String → Cache → Option String → ℕ × Cache
deleted k c none = (0, c)
deleted k c (some v) = (1, put k none c)

-- Keys that do not expire.
abbrev pub redis : Redis Cache
redis = record {
  set_px_nx = λ k v ttl c. set_nx k v c (c k);
  get = λ k c. c k;
  del = λ k c. deleted k c (c k);
}

abbrev pub redis_laws : RedisLaws redis
redis_laws = record {
  set_free = λ k v ttl c h. rw h (refl, rw (eq_refl k) refl);
  set_taken = λ k v ttl c t h. rw h refl;
  set_apart = λ k v ttl c j ne. elim (c k) as (λ x. (set_nx k v c x).1 j ≡ c j) [
    | none ↦ put_apart k j (some v) c ne
    | some t ↦ refl
  ];
  del_found = λ k c t h. rw h (refl, rw (eq_refl k) refl);
  del_apart = λ k c j ne. elim (c k) as (λ x. (deleted k c x).1 j ≡ c j) [
    | none ↦ refl
    | some t ↦ put_apart k j none c ne
  ];
}

abbrev settled : {S A : Type 0} → S → Result A × S → Result A × S
settled s (ok a, s') = (ok a, s')
settled s (err e, s') = (err e, s)

abbrev pub transactions : {S : Type 0} → Transactions S
transactions {S = S} = record { transaction = λ A op s. settled s (op s) }
