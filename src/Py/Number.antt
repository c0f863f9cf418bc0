-- ===== src/Py/Number.antt =====
-- Python's integers, and `str` and `int` on them.
pub mod Decimal
use Prim.Native.Char.{code}
use cartona_odoo.Base.{
  ℕ, zero, suc, ◌+◌, ◌*◌, ◌-◌, ◌/◌, ◌%◌, ◌<>◌, Bool, true, false, ◌&&◌, ◌||◌, Option, none, some,
  List, [], ◌∷◌, String, ltb, leb, ◌==◌, if◌then◌else◌,
}

-- Integers; `negsuc n` is -(n + 1).
pub data ℤ : Type 0 where
  pos : ℕ → ℤ
  negsuc : ℕ → ℤ

-- The decimal digits of a number, most significant first.
abbrev digit : ℕ → String
digit n =
    if n == 0
    then "0"
    else if n == 1
    then "1"
    else if n == 2
    then "2"
    else if n == 3
    then "3"
    else if n == 4
    then "4"
    else if n == 5
    then "5"
    else if n == 6
    then "6"
    else if n == 7
    then "7"
    else if n == 8
    then "8"
    else "9"

decimal_within : ℕ → ℕ → String
decimal_within zero n = ""
decimal_within (suc fuel) n =
    let rest = decimal_within fuel (n / 10) in if ltb n 10 then digit n else rest <> digit (n % 10)

-- `str(n)`: a number has fewer digits than its successor.
unfoldable pub decimal : ℕ → String
unfolding decimal_within
decimal n = decimal_within (suc n) n

unfoldable pub str_int : ℤ → String
unfolding decimal
str_int (pos n) = decimal n
str_int (negsuc n) = "-" <> decimal (suc n)

-- The code points of a text.
abbrev pub codes : String → List ℕ
codes String.[] = []
codes (String.◌∷◌ c s) = code c ∷ codes s

is_space : ℕ → Bool
is_space c = c == 32 || (leb 9 c && leb c 13)

is_digit : ℕ → Bool
is_digit c = leb 48 c && leb c 57

-- Only white space is left.
blank : List ℕ → Bool
unfolding is_space
blank [] = true
blank (c ∷ cs) = is_space c && blank cs

-- The digits after the first one: a single `_` may stand between two digits.
int_digits : ℕ → Bool → List ℕ → Option ℕ
unfolding is_digit is_space blank
int_digits n after_digit [] = if after_digit then some n else none
int_digits n after_digit (c ∷ cs) =
    let next = int_digits (n * 10 + (c - 48)) true cs in
    let skip = int_digits n false cs in
    if is_digit c
    then next
    else if after_digit && c == 95
    then skip
    else if after_digit && is_space c && blank cs
    then some n
    else none

signed : (ℕ → ℤ) → Option ℕ → Option ℤ
signed f none = none
signed f (some n) = some (f n)

abbrev negate : ℕ → ℤ
negate zero = pos zero
negate (suc n) = negsuc n

int_sign : List ℕ → Option ℤ
unfolding int_digits signed
int_sign [] = none
int_sign (c ∷ cs) =
    if c == 45
    then signed negate (int_digits 0 false cs)
    else if c == 43
    then signed pos (int_digits 0 false cs)
    else signed pos (int_digits 0 false (c ∷ cs))

strip : List ℕ → List ℕ
unfolding is_space
strip [] = []
strip (c ∷ cs) = let rest = strip cs in if is_space c then rest else c ∷ cs

-- `int(text)` on ASCII text; `none` is a `ValueError`
unfoldable pub int_of_text : String → Option ℤ
unfolding strip int_sign
int_of_text s = int_sign (strip (codes s))
