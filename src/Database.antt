-- ===== src/Database.antt =====
-- The SQL database behind TypeORM's repositories, which are a package: the calls that the code makes
-- of one table, keyed by text, as a parameter, and what is documented of them. A call that changes
-- rows also returns the rows. `Row` is the entity.
use wallex_sanbox.Prelude.{
  ℕ, ◌≡◌, String, Bool, true, false, Option, none, some, str_eq, if◌then◌else◌,
}
use wallex_sanbox.Exec.{unique_violation, Result, ok, err}

pub record Table (Row : Type 0) : Type 1 where
  pub Rows : Type 0
  -- `findOne({ where: { <primary key> } })`
  pub find_one : String → Rows → Result (Option Row)
  -- `save(entity)`, with the saved entity
  pub save : Row → Rows → Result Row × Rows
  -- `insert(row)`
  pub insert : Row → Rows → Result (Unit {0}) × Rows
  -- `update({ <primary key>, <condition> }, changes)`, with the number of rows affected
  pub update : String → (Row → Bool) → (Row → Row) → Rows → Result ℕ × Rows
  -- `delete({ <primary key> })`
  pub remove : String → Rows → Result (Unit {0}) × Rows
  -- `delete({ <condition> })`, with the number of rows affected
  pub remove_where : (Row → Bool) → Rows → Result ℕ × Rows

-- What is documented of a table whose primary key is `key`, while the database answers. `saved` is
-- the entity as `save` stores it: the version and update columns move, the rest stays.
pub record TableLaws {Row : Type 0} (t : Table Row) (key : Row → String) (saved : Row → Row)
    : Type 0 where
  pub row : t.Rows → String → Option Row
  pub saved_key : (v : Row) → key (saved v) ≡ key v
  pub find_one_law : (k : String) (rows : t.Rows) → t.find_one k rows ≡ ok (row rows k)
  pub save_result : (v : Row) (rows : t.Rows) → (t.save v rows).0 ≡ ok (saved v)
  pub save_row :
      (v : Row) (rows : t.Rows) (k : String)
      → row (t.save v rows).1 k ≡ (if str_eq (key v) k then some (saved v) else row rows k)
  pub insert_new : (v : Row) (rows : t.Rows) → row rows (key v) ≡ none → (t.insert v rows).0 ≡ ok tt
  pub insert_row :
      (v : Row) (rows : t.Rows) (k : String)
      → row rows (key v) ≡ none
      → row (t.insert v rows).1 k ≡ (if str_eq (key v) k then some v else row rows k)
  pub insert_taken :
      (v w : Row) (rows : t.Rows)
      → row rows (key v) ≡ some w
      → t.insert v rows ≡ (err unique_violation, rows)
  pub update_hit :
      (k : String) (c : Row → Bool) (f : Row → Row) (rows : t.Rows) (v : Row)
      → row rows k ≡ some v
      → c v ≡ true
      → ((t.update k c f rows).0 ≡ ok 1) × (row (t.update k c f rows).1 k ≡ some (f v))
  pub update_missing :
      (k : String) (c : Row → Bool) (f : Row → Row) (rows : t.Rows)
      → row rows k ≡ none
      → t.update k c f rows ≡ (ok 0, rows)
  pub update_miss :
      (k : String) (c : Row → Bool) (f : Row → Row) (rows : t.Rows) (v : Row)
      → row rows k ≡ some v
      → c v ≡ false
      → t.update k c f rows ≡ (ok 0, rows)
  pub remove_law :
      (k j : String) (rows : t.Rows)
      → ((t.remove k rows).0 ≡ ok tt)
        × (row (t.remove k rows).1 j ≡ (if str_eq k j then none else row rows j))
