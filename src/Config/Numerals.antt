-- ===== src/Config/Numerals.antt =====
-- `int(text)`, `text.split("-", 1)` and the formats of numbers that config.py uses.
use Prim.Native.Char.{code}
use Prim.Native.String.{◌++◌ as append, count}
use get_receipt.Base.{
  zero, ℕ, suc, ◌+◌, ◌-◌, ◌*◌, ◌/◌, ◌%◌, String, Option, none, some, List, [], ◌∷◌, find?, filter,
  length, ◌==◌, nat_eq, if◌then◌else◌, leb, Bool, true, false, not, ◌&&◌, is_none,
}
use get_receipt.Base.Integers.{ℤ, pos, negate}
use get_receipt.Base.Text.{codes, strip, between}

-- The zero of each of Unicode's runs of decimal digits, which `int` reads as well.
abbrev digit_zeros : List ℕ
digit_zeros =
    48 ∷ 1632 ∷ 1776 ∷ 1984 ∷ 2406 ∷ 2534 ∷ 2662 ∷ 2790 ∷ 2918 ∷ 3046 ∷ 3174 ∷ 3302 ∷ 3430 ∷ 3558
    ∷ 3664 ∷ 3792 ∷ 3872 ∷ 4160 ∷ 4240 ∷ 6112 ∷ 6160 ∷ 6470 ∷ 6608 ∷ 6784 ∷ 6800 ∷ 6992 ∷ 7088
    ∷ 7232 ∷ 7248 ∷ 42528 ∷ 43216 ∷ 43264 ∷ 43472 ∷ 43504 ∷ 43600 ∷ 44016 ∷ 65296 ∷ 66720 ∷ 68912
    ∷ 69734 ∷ 69872 ∷ 69942 ∷ 70096 ∷ 70384 ∷ 70736 ∷ 70864 ∷ 71248 ∷ 71360 ∷ 71472 ∷ 71904 ∷ 72016
    ∷ 72784 ∷ 73040 ∷ 73120 ∷ 92768 ∷ 92864 ∷ 93008 ∷ 120782 ∷ 120792 ∷ 120802 ∷ 120812 ∷ 120822
    ∷ 123200 ∷ 123632 ∷ 125264 ∷ 130032 ∷ []

unfoldable pub digit_value : ℕ → Option ℕ
digit_value c = elim (find? (λ z. between z (z + 9) c) digit_zeros) [
  | none ↦ none
  | some z ↦ some (c - z)
]

-- Digits with single underscores between them; `after` says that the last character was a digit.
unfoldable pub parse_digits : ℕ → Bool → List ℕ → Option ℕ
unfolding digit_value
parse_digits acc after [] = if after then some acc else none
parse_digits acc after (c ∷ cs) = elim (digit_value c) [
  | some d ↦ parse_digits (acc * 10 + d) true cs
  | none ↦ if c == b'_' && after then parse_digits acc false cs else none
]

abbrev parse_signed : List ℕ → Option ℤ
parse_signed [] = none
parse_signed (c ∷ cs) =
    if c == b'-'
    then elim (parse_digits 0 false cs) [ none ↦ none | some n ↦ some (negate (pos n)) ]
    else if c == b'+'
    then elim (parse_digits 0 false cs) [ none ↦ none | some n ↦ some (pos n) ]
    else elim (parse_digits 0 false (c ∷ cs)) [ none ↦ none | some n ↦ some (pos n) ]

-- `int(text)`, which refuses more than 4300 digits.
unfoldable pub parse_int : String → Option ℤ
unfolding parse_digits
parse_int text =
    let stripped = codes (strip text) in
    if leb (length (filter (λ c. not (is_none (digit_value c))) stripped)) 4300
    then parse_signed stripped
    else none

-- `text.split("-", 1)`, when it has two parts.
abbrev pub split_dash : String → Option (String × String)
split_dash String.[] = none
split_dash (String.◌∷◌ c s) =
    let rest = split_dash s in
    if code c == b'-'
    then some (String.[], s)
    else elim rest [ none ↦ none | some (before, after) ↦ some (String.◌∷◌ c before, after) ]

abbrev digit_text : ℕ → String
digit_text n =
    if n == 0
    then "0"
    else if n == 1
    then "1"
    else if n == 2
    then "2"
    else if n == 3
    then "3"
    else if n == 4
    then "4"
    else if n == 5
    then "5"
    else if n == 6
    then "6"
    else if n == 7
    then "7"
    else if n == 8
    then "8"
    else "9"

abbrev zeros : ℕ → String
zeros zero = ""
zeros (suc n) = append "0" (zeros n)

-- A number's decimal digits; the fuel is the number itself and one more, above the number of digits.
abbrev decimal_digits : ℕ → ℕ → String → String
decimal_digits zero n acc = acc
decimal_digits (suc fuel) n acc =
    let rest = decimal_digits fuel (n / 10) (append (digit_text (n % 10)) acc) in
    if leb n 9 then append (digit_text n) acc else rest

abbrev pub decimal : ℕ → String
decimal n = decimal_digits (suc n) n ""

-- `0>width`: zeros before the digits.
abbrev pub pad_zeros : ℕ → String → String
pad_zeros width text = append (zeros (width - count text)) text
