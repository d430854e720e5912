-- ===== src/Drive/Names.antt =====
-- The parts of a file's name in cloud/src/workflows/drive_status.py, its date and its numbers.
use Prim.Native.Char.{code}
use get_receipt.Base.{
  zero, ℕ, suc, ◌+◌, ◌-◌, ◌*◌, ◌%◌, String, Bool, false, not, ◌&&◌, ◌||◌, Option, none, some, List,
  [], ◌∷◌, if◌then◌else◌, ◌==◌, nat_eq, string_eq, contains, leb, is_none, all,
}
use get_receipt.Base.Text.{is_empty, is_space, codes, between, is_digit}
use get_receipt.Base.Integers.{ℤ, pos, negsuc}
use get_receipt.Config.Numerals.{digit_value, parse_int}

-- The groups of `_RECEIPT_FILE_NAME`; the date as its first six digits and the day.
pub record NameParts : Type 0 where
  pub month_digits : String
  pub day_digits : String
  pub partner : String
  pub amount : String

-- `n` characters of `\d`, and what follows them.
unfoldable pub take_digits : ℕ → String → Option (String × String)
unfolding digit_value
take_digits zero s = some (String.[], s)
take_digits (suc n) String.[] = none
take_digits (suc n) (String.◌∷◌ c s) =
    if is_none (digit_value (code c)) then none else elim (take_digits n s) [
      | none ↦ none
      | some (digits, rest) ↦ some (String.◌∷◌ c digits, rest)
    ]

-- The text around its last underscore.
unfoldable pub split_last : String → Option (String × String)
split_last String.[] = none
split_last (String.◌∷◌ c s) = elim (split_last s) [
  | some (before, after) ↦ some (String.◌∷◌ c before, after)
  | none ↦ if code c == b'_' then some (String.[], s) else none
]

-- `円.pdf` in either case, at the end.
abbrev is_ending : List ℕ → Bool
is_ending (y ∷ d ∷ p ∷ e ∷ f ∷ []) =
    y == 0x5186
    && (d == b'.'
        && ((p == b'p' || p == b'P') && ((e == b'd' || e == b'D') && (f == b'f' || f == b'F'))))
is_ending _ = false

-- The digits before the ending.
unfoldable pub amount_before : String → Option String
unfolding digit_value
amount_before String.[] = none
amount_before (String.◌∷◌ c s) =
    if is_none (digit_value (code c))
    then none
    else if is_ending (codes s)
    then some (String.◌∷◌ c String.[])
    else elim (amount_before s) [ none ↦ none | some digits ↦ some (String.◌∷◌ c digits) ]

-- `.+`, which no newline is part of.
abbrev is_line : String → Bool
is_line s = not (is_empty s) && all (λ c. not (c == 10)) (codes s)

abbrev after_date : String → Option String
after_date String.[] = none
after_date (String.◌∷◌ c s) = if code c == b'_' then some s else none

abbrev bind : {A B : Type 0} → Option A → (A → Option B) → Option B
bind none f = none
bind (some a) f = f a

-- `_RECEIPT_FILE_NAME.fullmatch`.
unfoldable pub name_parts : String → Option NameParts
unfolding take_digits split_last amount_before
name_parts name = bind (take_digits 6 name) (λ (month_digits, s).
    bind (take_digits 2 s) (λ (day_digits, t). bind (after_date t) (λ tail.
      bind (split_last tail) (λ (partner, ending). bind (amount_before ending) (λ amount.
        if is_line partner
        then some (record {
          month_digits = month_digits;
          day_digits = day_digits;
          partner = partner;
          amount = amount;
        })
        else none)))))

abbrev is_leap : ℕ → Bool
is_leap y = y % 4 == 0 && (not (y % 100 == 0) || y % 400 == 0)

abbrev days_in_month : ℕ → ℕ → ℕ
days_in_month y m =
    if m == 2
    then (if is_leap y then 29 else 28)
    else if contains (4 ∷ 6 ∷ 9 ∷ 11 ∷ []) m
    then 30
    else 31

-- `strptime` wants the month and the first digit of the day in ASCII, and the second digit of the day
-- but behind 1 and 2.
abbrev day_of : ℕ → ℕ → Option ℕ
day_of a b = elim (digit_value b) [
  | none ↦ none
  | some d ↦
      if is_digit a && (is_digit b || (a == b'1' || a == b'2'))
      then some ((a - b'0') * 10 + d)
      else none
]

abbrev month_of : ℕ → ℕ → Option ℕ
month_of a b = if is_digit a && is_digit b then some ((a - b'0') * 10 + (b - b'0')) else none

abbrev year_of : ℕ → ℕ → ℕ → ℕ → Option ℕ
year_of a b c d = bind (digit_value a) (λ x. bind (digit_value b) (λ y.
    bind (digit_value c) (λ z. bind (digit_value d) (λ w. some (x * 1000 + y * 100 + z * 10 + w)))))

abbrev is_date : Option ℕ → Option ℕ → Option ℕ → Bool
is_date (some y) (some m) (some d) = leb 1 y && (between 1 12 m && between 1 (days_in_month y m) d)
is_date _ _ _ = false

abbrev valid_codes : List ℕ → Bool
valid_codes (a ∷ b ∷ c ∷ d ∷ e ∷ f ∷ g ∷ h ∷ []) =
    is_date (year_of a b c d) (month_of e f) (day_of g h)
valid_codes _ = false

-- `_valid_date`.
unfoldable pub valid_date : String → Bool
unfolding digit_value
valid_date value = valid_codes (codes value)

-- `_optional_int`.
unfoldable pub optional_int : String → Option ℤ
unfolding parse_int
optional_int value = if is_empty value then none else parse_int value

abbrev pub positive : ℤ → Bool
positive (pos n) = leb 1 n
positive (negsuc n) = false

-- `re.sub(r"[\s_]+", "", value)`.
unfoldable pub squeezed : String → String
unfolding is_space
squeezed String.[] = String.[]
squeezed (String.◌∷◌ c s) =
    let rest = squeezed s in if is_space (code c) || code c == b'_' then rest else String.◌∷◌ c rest
