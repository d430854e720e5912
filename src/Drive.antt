-- ===== src/Drive.antt =====
-- cloud/src/workflows/drive_status.py: the receipt of a service and month among the files of Drive.
-- A file is known by the texts `str(file.get(name) or "")`, and Unicode's tables are parameters.
pub mod Order
pub mod Names
pub mod Matched
pub mod Newest
pub mod Acquired
mod Tests
use Prim.Native.Char.{Char, code}
use Prim.Native.String.{◌++◌ as append, count}
use get_receipt.Base.{
  zero, ℕ, suc, ◌+◌, ◌-◌, ◌*◌, ◌/◌, ◌%◌, String, Bool, true, false, not, ◌&&◌, ◌||◌, Option, none,
  some, List, [], ◌∷◌, map, filter, if◌then◌else◌, ◌==◌, nat_eq, string_eq, Result, ok, err, ◌>>=◌,
  or_raise, contains, leb, ltb, is_none, all, list_beq,
}
use get_receipt.Base.Text.{strip, is_empty, is_space, codes, between, is_digit}
use get_receipt.Base.Integers.{ℤ, pos, negsuc}
use get_receipt.Config.{ServiceDefinition, ConfigError, expected_transaction_month, parse_month_key}
use get_receipt.Config.Numerals.{digit_value, parse_int, pad_zeros, decimal}
use get_receipt.Drive.Order.{lex}
use get_receipt.Drive.Names.{NameParts, name_parts, valid_date, optional_int, positive, squeezed}

-- `unicodedata.normalize("NFKC", value)` and `str.casefold`.
pub record Unicode : Type 0 where
  pub nfkc : String → String
  pub casefold : String → String

pub record DriveFile : Type 0 where
  pub id : String
  pub name : String
  pub web_view_link : String
  pub mime_type : String
  pub modified_time : String
  pub size : String

-- `StoredReceipt`.
pub record StoredReceipt : Type 0 where
  pub file_id : String
  pub file_name : String
  pub web_view_link : String
  pub mime_type : String
  pub modified_time : String
  pub size : ℤ

-- The `ValueError`s and the `KeyError` of the search.
pub data DriveFault : Type 0 where
  config_fault : ConfigError → DriveFault
  number_too_long : DriveFault

-- `_valid_amount`, of digits.
unfoldable pub valid_amount : String → Result DriveFault Bool
unfolding parse_int
valid_amount value = elim (parse_int value) [
  | none ↦ err number_too_long
  | some n ↦ ok (positive n)
]

abbrev config_result : {A : Type 0} → Result ConfigError A → Result DriveFault A
config_result (ok a) = ok a
config_result (err e) = err (config_fault e)

abbrev year_text : ℤ → String
year_text (pos year) = pad_zeros 4 (decimal year)
year_text (negsuc n) = append "-" (pad_zeros 3 (decimal (suc n)))

-- The receipt's place in the order of `max`.
abbrev pub key_of : StoredReceipt → List (List ℕ)
key_of receipt = codes receipt.modified_time ∷ codes receipt.file_name ∷ codes receipt.file_id ∷ []

unfoldable pub key_lt : StoredReceipt → StoredReceipt → Bool
unfolding lex
key_lt a b = lex (lex ltb (λ x y. x == y)) list_beq (key_of a) (key_of b)

-- `max(matches, key=..., default=None)`: the first of the greatest.
unfoldable pub latest_from : StoredReceipt → List StoredReceipt → StoredReceipt
unfolding key_lt
latest_from best [] = best
latest_from best (receipt ∷ receipts) =
    latest_from (if key_lt best receipt then receipt else best) receipts

unfoldable pub latest : List StoredReceipt → Option StoredReceipt
unfolding latest_from
latest [] = none
latest (receipt ∷ receipts) = some (latest_from receipt receipts)

module _ (unicode : Unicode) where
  -- `_month_prefix`.
  unfoldable pub month_prefix : String → Result DriveFault String
  month_prefix target_month = do
    (year, month) ← config_result (parse_month_key (unicode.nfkc target_month))
    ok (append (year_text year) (pad_zeros 2 (decimal month)))

  -- `_normalize_partner`.
  unfoldable pub normalize_partner : String → String
  unfolding squeezed
  normalize_partner value = unicode.casefold (squeezed (unicode.nfkc value))

  abbrev pub aliases_of : ServiceDefinition → List String
  aliases_of service =
      filter (λ text. not (is_empty text))
        (map (λ alias. normalize_partner alias) (service.default_partner ∷ service.partner_aliases))

  abbrev pub stored : DriveFile → ℤ → StoredReceipt
  stored file size = record {
    file_id = file.id;
    file_name = file.name;
    web_view_link = file.web_view_link;
    mime_type = if is_empty file.mime_type then "application/pdf" else file.mime_type;
    modified_time = file.modified_time;
    size = size;
  }

  -- The file behind the test of the amount.
  abbrev sized : List String → DriveFile → NameParts → Option StoredReceipt
  sized aliases file parts =
      if not (contains aliases (normalize_partner parts.partner))
      then none
      else elim (optional_int file.size) [
        | none ↦ none
        | some size ↦ if positive size then some (stored file size) else none
      ]

  -- What a file is to the loop of `find_receipt`: a receipt, or none; the name's ending is tested in
  -- the pattern as well.
  unfoldable pub match_file :
      String → List String → DriveFile → Result DriveFault (Option StoredReceipt)
  unfolding name_parts valid_date valid_amount normalize_partner optional_int
  match_file prefix aliases file = elim (name_parts (unicode.nfkc file.name)) [
    | none ↦ ok none
    | some parts ↦
        if not (parts.month_digits == prefix)
          || not (valid_date (append parts.month_digits parts.day_digits))
        then ok none
        else elim (valid_amount parts.amount) [
          | err e ↦ err e
          | ok counts ↦ ok (if counts then sized aliases file parts else none)
        ]
  ]

  -- The loop of `find_receipt`.
  unfoldable pub matches_of :
      String → List String → List DriveFile → Result DriveFault (List StoredReceipt)
  unfolding match_file
  matches_of prefix aliases [] = ok []
  matches_of prefix aliases (file ∷ files) =
      let rest = matches_of prefix aliases files in
      elim (match_file prefix aliases file) [
        | err e ↦ err e
        | ok none ↦ rest
        | ok (some receipt) ↦ elim rest [ ok receipts ↦ ok (receipt ∷ receipts) | err e ↦ err e ]
      ]

  -- `find_receipt`.
  unfoldable pub find_receipt :
      List DriveFile → ServiceDefinition → String → Result DriveFault (Option StoredReceipt)
  unfolding month_prefix matches_of latest normalize_partner
  find_receipt files service target_month = do
    transaction_month ← config_result (expected_transaction_month service.id target_month)
    prefix ← month_prefix transaction_month
    receipts ← matches_of prefix (aliases_of service) files
    ok (latest receipts)

  -- `receipt_month_state`: whether the month is stored.
  unfoldable pub is_month_stored :
      List DriveFile → ServiceDefinition → String → Result DriveFault Bool
  unfolding find_receipt
  is_month_stored files service target_month = do
    receipt ← find_receipt files service target_month
    ok (not (is_none receipt))
