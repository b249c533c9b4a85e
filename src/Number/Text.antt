-- ===== src/Number/Text.antt =====
-- The language's `parseInt(text, 10)`.
use Prim.Native.Char.{Char, code}
use wallex_sanbox.Prelude.{
  ℕ, ◌+◌, ◌-◌, ◌*◌, String, Bool, ◌&&◌, ◌||◌, Option, none, some, leb, ◌==◌, if◌then◌else◌,
}
use wallex_sanbox.Prelude.Int.{pos, ◌-ℤ◌}
use wallex_sanbox.Number.{Number, fin, nan}

-- White space and the ends of lines.
abbrev is_space : ℕ → Bool
is_space c =
    (leb 9 c && leb c 13)
    || (c == 32
        || (c == 160
            || (c == 5760
                || ((leb 8192 c && leb c 8202)
                    || (c == 8232
                        || (c == 8233
                            || (c == 8239 || (c == 8287 || (c == 12288 || c == 65279)))))))))

abbrev is_digit : ℕ → Bool
is_digit c = leb 48 c && leb c 57

-- The digits up to the first character that is none.
unfoldable pub more_digits : ℕ → String → ℕ
more_digits n String.[] = n
more_digits n (String.◌∷◌ c s) =
    let rest = more_digits (n * 10 + (code c - 48)) s in if is_digit (code c) then rest else n

unfoldable pub digits : String → Option ℕ
unfolding more_digits
digits String.[] = none
digits (String.◌∷◌ c s) = if is_digit (code c) then some (more_digits (code c - 48) s) else none

abbrev positive : Option ℕ → Number
positive none = nan
positive (some n) = fin (pos n)

abbrev negative : Option ℕ → Number
negative none = nan
negative (some n) = fin (pos 0 -ℤ pos n)

abbrev with_sign : Char → String → Number
with_sign c s =
    if code c == 45
    then negative (digits s)
    else if code c == 43
    then positive (digits s)
    else positive (digits (String.◌∷◌ c s))

unfoldable pub parse_int : String → Number
unfolding digits
parse_int String.[] = nan
parse_int (String.◌∷◌ c s) =
    let rest = parse_int s in if is_space (code c) then rest else with_sign c s
