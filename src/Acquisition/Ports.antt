-- ===== src/Acquisition/Ports.antt =====
-- What an attempt calls, and the state that it threads through the calls.
use get_receipt.Base.{
  zero, ℕ, suc, String, Bool, false, ◌||◌, ◌&&◌, Option, none, some, List, [], ◌∷◌, ◌==◌, nat_eq,
  string_eq, if◌then◌else◌, Result, ok, err, leb, ◌>>=◌,
}
use get_receipt.Base.Integers.{ℤ, pos, negsuc}
use get_receipt.Config.{ServiceDefinition, parse_month_key, expected_transaction_month, ConfigError}
use get_receipt.Acquisition.Report.{ProgressEvent, StoredReceiptReference}

-- `datetime.date`.
pub record Date : Type 0 where
  pub year : ℕ
  pub month : ℕ
  pub day : ℕ

-- `ExtractedReceiptData`, in the two fields that the workflow reads.
pub record ExtractedReceiptData : Type 0 where
  pub transaction_date : Option Date
  pub amount_yen : Option ℤ

-- `ReceiptMetadata`.
pub record ReceiptMetadata : Type 0 where
  pub transaction_date : Date
  pub partner_name : String
  pub amount_yen : ℤ

-- An exception, by the attributes that the workflow looks up; an absent attribute is empty.
pub record Raised : Type 0 where
  pub type_name : String
  pub text : String
  pub code : String
  pub challenge_kind : String
  pub advice : String

-- A statement: its content, when that is bytes, and the text beside it.
pub record Statement : Type 0 where
  pub content : Option (List ℕ)
  pub metadata_text : String

-- A dictionary or an object: its names with their values, as texts.
abbrev pub Item : Type 0
Item = List (String × String)

-- A call of the outside world, which may raise.
abbrev pub Call : Type 0 → Type 0 → Type 0
Call W A = W → Result Raised A × W

-- The arguments of `run_auto_acquisition`, and the functions of other modules that read a PDF and
-- name a file.
pub record Ports (W : Type 0) : Type 0 where
  pub list_files : Call W (List Item)
  pub upsert_bytes : String → List ℕ → Call W (Unit {0})
  pub fetch_statement : String → Call W Statement
  pub receipt_finder : List Item → ServiceDefinition → String → Result Raised (Option Item)
  pub on_progress : Option (ProgressEvent → W → W)
  pub cancellation_requested : Option (Call W Bool)
  pub extract_receipt_data : List ℕ → String → String → Result Raised ExtractedReceiptData
  pub build_receipt_filename : ReceiptMetadata → String → Result Raised String

abbrev lookup : List (String × String) → String → Option String
lookup [] name = none
lookup ((k, v) ∷ rest) name = if k == name then some v else lookup rest name

-- `_value`.
unfoldable pub value_of : Item → List String → String → String
value_of item [] default = default
value_of item (name ∷ names) default = elim (lookup item name) [
  | some v ↦ v
  | none ↦ value_of item names default
]

-- `_stored_receipt_reference`.
unfoldable pub stored_receipt_reference : Item → StoredReceiptReference
unfolding value_of
stored_receipt_reference receipt = record {
  file_id = value_of receipt ("file_id" ∷ "id" ∷ []) "";
  file_name = value_of receipt ("file_name" ∷ "name" ∷ []) "";
  web_view_link = value_of receipt ("web_view_link" ∷ "drive_web_view_link" ∷ []) "";
}

abbrev pub or_text : String → String → String
or_text String.[] fallback = fallback
or_text (String.◌∷◌ c s) fallback = String.◌∷◌ c s

-- `_error_code`.
abbrev pub error_code : Raised → String → String
error_code error fallback = or_text error.code fallback

-- `%PDF`.
abbrev pub pdf_here : List ℕ → Bool
pdf_here (a ∷ b ∷ c ∷ d ∷ rest) = a == b'%' && b == b'P' && c == b'D' && d == b'F'
pdf_here _ = false

-- `b"%PDF" in content[:n]`: the mark ends within the first `n` bytes.
unfoldable pub has_pdf_mark : ℕ → List ℕ → Bool
has_pdf_mark n [] = false
has_pdf_mark zero (c ∷ cs) = false
has_pdf_mark (suc n) (c ∷ cs) = leb 3 n && pdf_here (c ∷ cs) || has_pdf_mark n cs

unfoldable pub first_chars : ℕ → String → String
first_chars n String.[] = String.[]
first_chars zero (String.◌∷◌ c s) = String.[]
first_chars (suc n) (String.◌∷◌ c s) = String.◌∷◌ c (first_chars n s)

abbrev pub raised_from : {A : Type 0} → Result ConfigError A → Result Raised A
raised_from (ok a) = ok a
raised_from (err e) =
    err
      (record { type_name = "ValueError"; text = ""; code = ""; challenge_kind = ""; advice = "" })

abbrev value_error : Raised
value_error = record {
  type_name = "ValueError";
  text = "";
  code = "";
  challenge_kind = "";
  advice = "";
}

abbrev same_month : ℤ → ℕ → Option Date → Option Date
same_month (pos year) month (some d) = if d.year == year && d.month == month then some d else none
same_month _ month d = none

abbrev first_day : ℤ → ℕ → Result Raised Date
first_day (pos year) month =
    if leb 1 year && leb year 9999
    then ok (record { year = year; month = month; day = 1 })
    else err value_error
first_day (negsuc n) month = err value_error

-- `date_in_target_month` of cloud/src/domain/periods.py.
unfoldable pub date_in_target_month : String → Option Date → Result Raised Date
date_in_target_month target_month candidate = do
  (year, month) ← raised_from (parse_month_key target_month)
  elim (same_month year month candidate) [ some d ↦ ok d | none ↦ first_day year month ]

abbrev or_value_error : {A : Type 0} → Option A → Result Raised A
or_value_error (some a) = ok a
or_value_error none = err value_error

-- `_receipt_metadata`.
unfoldable pub receipt_metadata :
    ServiceDefinition → String → ExtractedReceiptData → Result Raised ReceiptMetadata
unfolding date_in_target_month
receipt_metadata service target_month extracted = do
  amount_yen ← or_value_error extracted.amount_yen
  month ← raised_from (expected_transaction_month service.id target_month)
  transaction_date ← date_in_target_month month extracted.transaction_date
  ok (record {
    transaction_date = transaction_date;
    partner_name = service.default_partner;
    amount_yen = amount_yen;
  })

module _ {W : Type 0} (ports : Ports W) (target_month : String) where
  -- The name of the file, from the statement's metadata.
  unfoldable pub file_name_of : ServiceDefinition → List ℕ → String → Result Raised String
  unfolding receipt_metadata
  file_name_of service content metadata_text = do
    prefer_month ← raised_from (expected_transaction_month service.id target_month)
    extracted ← ports.extract_receipt_data content metadata_text prefer_month
    metadata ← receipt_metadata service target_month extracted
    ports.build_receipt_filename metadata "pdf"
