-- ===== src/Tests/Holds.antt =====
-- Holds at concrete inputs.
use Prim.Native.Char.{code}
use wallex_sanbox.Prelude.{
  ℕ, zero, suc, sym, str_eq, Bool-cases, inl, inr, String, ◌==◌, ap, ◌∙◌, if◌then◌else◌, false, map,
  arith, ◌≡◌, refl, none, some, [], ◌∷◌, List, eq_iff,
}
use wallex_sanbox.Prelude.Int.{pos, negsuc}
use wallex_sanbox.Number.{Number, add, fin, nan, infinity, neg_infinity}
use wallex_sanbox.Exec.{Error, ok, err}
use wallex_sanbox.Database.{Table, TableLaws}
use wallex_sanbox.Holds.{HoldEntity, payment, captured, expired, is_active}
use wallex_sanbox.Holds.Repository.{
  HoldQueries, new_hold, total_text, calculate_total_active_holds, bulk_expire,
}
use wallex_sanbox.Holds.Totals.{HoldLaws, lookup, upserted, total_of, is_listed, call_reduces_total}
use wallex_sanbox.Holds.Bulk.{bulk_expire_overwrites}
use wallex_sanbox.Holds.Settled.{
  HoldCall, releases, captures, expires, target, hold_call, hold_calls, IsFiled, settled_stays,
}
use wallex_sanbox.Tests.Memory.{put, table, table_laws, Rows}

abbrev holds : Table HoldEntity
holds = table (λ h. h.id) (λ h. h)

abbrev holds_laws : TableLaws holds (λ h. h.id) (λ h. h)
holds_laws = table_laws (λ h. h.id) (λ h. h) (λ h. refl)

abbrev held : HoldEntity
held = new_hold "h" (record {
  wallet_id = "q";
  amount = fin (pos 10);
  hold_type = payment;
  reference = some "";
  description = none;
  expires_at = some 90;
})

abbrev charged : HoldEntity
charged = record held { status = captured; captured_at = some 40 }

abbrev one_row : Rows HoldEntity
one_row = put "h" (some charged) (λ k. none)

one_row-IsFiled : IsFiled holds holds_laws one_row
one_row-IsFiled k h there = ground (arith, eq_iff "h" k, there)

abbrev some_calls : List HoldCall
some_calls = releases "h" 50 ∷ expires "h" ∷ captures "g" 60 ∷ []

settled_stays_example :
    let rows' = hold_calls holds some_calls one_row in
    (rows' "h" ≡ some charged)
    × ((c : HoldCall) → target c ≡ "h" → (e : Error) × (hold_call holds c rows' ≡ (err e, rows')))
unfolding is_active
settled_stays_example =
    settled_stays holds holds_laws some_calls "h" charged one_row one_row-IsFiled refl refl

-- Numbers as texts that parse back: a natural number is that many zeros and one more.
zeros : ℕ → String
zeros zero = String.[]
zeros (suc n) = String.◌∷◌ "0" (zeros n)

count_chars : String → ℕ
count_chars String.[] = 0
count_chars (String.◌∷◌ c s) = suc (count_chars s)

as_text : Number → String
unfolding zeros
as_text (fin (pos n)) = String.◌∷◌ "0" (zeros n)
as_text (fin (negsuc n)) = String.◌∷◌ "-" (zeros n)
as_text nan = "N"
as_text infinity = "I"
as_text neg_infinity = "J"

parse_text : String → Number
unfolding count_chars
parse_text String.[] = nan
parse_text (String.◌∷◌ c s) =
    if code c == 48
    then fin (pos (count_chars s))
    else (if code c == 45
        then fin (negsuc (count_chars s))
        else (if code c == 78 then nan else (if code c == 73 then infinity else neg_infinity)))

count-zeros : (n : ℕ) → count_chars (zeros n) ≡ n
unfolding count_chars zeros
count-zeros zero = refl
count-zeros (suc n) = ap suc (count-zeros n)

not_empty : (s : String) (n : ℕ) → count_chars s ≡ suc n → str_eq s "" ≡ false
unfolding count_chars
not_empty s n h = elim (Bool-cases (str_eq s "")) [
  | inl e ↦ absurd (cc (sym h ∙ ap count_chars ((eq_iff s "").0 e)))
  | inr e ↦ e
]

parse-text : (n : Number) → parse_text (total_text (some (as_text n))) ≡ n
unfolding parse_text as_text count_chars
parse-text (fin (pos n)) =
    rw (not_empty (String.◌∷◌ "0" (zeros n)) n (ap suc (count-zeros n)))
      (ap (λ k. fin (pos k)) (count-zeros n))
parse-text (fin (negsuc n)) =
    rw (not_empty (String.◌∷◌ "-" (zeros n)) n (ap suc (count-zeros n)))
      (ap (λ k. fin (negsuc k)) (count-zeros n))
parse-text nan = refl
parse-text infinity = refl
parse-text neg_infinity = refl

-- The holds' table as a list of rows.
abbrev listed_holds : Table HoldEntity
listed_holds = record {
  Rows = List HoldEntity;
  find_one = λ id hs. ok (lookup id hs);
  save = λ v hs. (ok v, upserted v hs);
  insert = λ v hs. (ok tt, upserted v hs);
  update = λ id c f hs. (ok 0, hs);
  remove = λ id hs. (ok tt, hs);
  remove_where = λ c hs. (ok 0, hs);
}

abbrev listed_queries : HoldQueries (List HoldEntity)
listed_queries = record {
  find = λ c hs. ok hs;
  find_newest = λ c hs. ok hs;
  find_one_where = λ c hs. ok none;
  sum_amount = λ c hs. ok (some (as_text (total_of c hs)));
  update_in = λ ids f hs. (ok tt, map (λ h. if is_listed h.id ids then f h else h) hs);
}

abbrev listed_laws : HoldLaws listed_holds listed_queries parse_text
listed_laws = record {
  listing = λ hs. hs;
  find_one_law = λ id hs. refl;
  save_law = λ v hs. (refl, refl);
  sum_law = λ c hs. (some (as_text (total_of c hs)), refl, parse-text (total_of c hs));
  update_law = λ ids f hs. (refl, refl);
}

abbrev two_holds : List HoldEntity
two_holds = record held { id = "g" } ∷ held ∷ []

call_reduces_total_example :
    let (r, rows') = hold_call listed_holds (captures "h" 60) two_holds in
    (h' : HoldEntity) × (t : Number) × (r ≡ ok h')
    × (calculate_total_active_holds listed_queries parse_text "q" rows' ≡ ok t)
    × (calculate_total_active_holds listed_queries parse_text "q" two_holds
        ≡ ok (add t (fin (pos 10))))
unfolding is_active
call_reduces_total_example =
    call_reduces_total listed_laws (captures "h" 60) held "q" two_holds refl refl

bulk_expire_overwrites_example :
    let (r, rows') = bulk_expire listed_queries ("h" ∷ []) (charged ∷ []) in
    ((e : Error) × (hold_call listed_holds (releases "h" 50) (charged ∷ [])
        ≡ (err e, charged ∷ [])))
    × (r ≡ ok tt)
    × (lookup "h" rows' ≡ some (record charged { status = expired }))
unfolding is_active
bulk_expire_overwrites_example =
    bulk_expire_overwrites listed_laws (releases "h" 50) charged ("h" ∷ []) (charged ∷ []) refl refl
      refl
