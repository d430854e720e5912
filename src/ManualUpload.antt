-- ===== src/ManualUpload.antt =====
-- cloud/src/workflows/manual_upload.py: a receipt that the owner uploads, saved by an acquisition
-- whose statement is the upload. NFKC, `str.lower` and the readings of a PDF are parameters.
pub mod Settled
mod Tests
use Prim.Native.Char.{code}
use Prim.Native.String.{◌++◌ as append, count}
use get_receipt.Base.{
  zero, ℕ, suc, ◌-◌, ◌*◌, String, Bool, true, false, not, ◌&&◌, ◌||◌, Option, none, some, List, [],
  ◌∷◌, ◌++◌, map, filter, any, if◌then◌else◌, Result, ok, err, ◌>>=◌, guard, length, leb, ltb,
  is_none, or_raise,
}
use get_receipt.Base.Integers.{ℤ}
use get_receipt.Base.Text.{is_part, starts_with, is_empty, is_space}
use get_receipt.Config.{
  ServiceDefinition, ConfigError, service_by_id, parse_month_key, expected_transaction_month,
  integer_text,
}
use get_receipt.Config.Numerals.{decimal, pad_zeros}
use get_receipt.Acquisition.Report.{AcquisitionResult}
use get_receipt.Acquisition.Ports.{Ports, Statement, pdf_here}
use get_receipt.Acquisition.Run.{Attempt}
use get_receipt.Acquisition.Workflow.{attempt}
use get_receipt.Acquisition.Outcome.Ended.{begin}

-- `MAX_MANUAL_PDF_BYTES`.
abbrev pub max_manual_pdf_bytes : ℕ
max_manual_pdf_bytes = 20 * 1024 * 1024

-- `ManualUploadError`, the exceptions of the configuration, and an attempt without a result, which
-- there is none of.
pub data UploadFault : Type 0 where
  upload_error : String → UploadFault
  config_fault : ConfigError → UploadFault
  no_result : UploadFault

-- `ManualUploadInspection`.
pub record Inspection : Type 0 where
  pub amount_yen : ℤ
  pub partner_found : Bool
  pub month_found : Bool
  pub warnings : List String

-- `unicodedata.normalize("NFKC", value).lower()`, `extract_pdf_text` and `extract_amount_yen`.
pub record PdfReader : Type 0 where
  pub lowered : String → String
  pub extract_pdf_text : List ℕ → String
  pub extract_amount_yen : String → Option ℤ

-- `requires_confirmation`.
abbrev pub requires_confirmation : Inspection → Bool
requires_confirmation inspection = not (no_warnings inspection.warnings)
  where
    no_warnings : List String → Bool
    no_warnings [] = true
    no_warnings (warning ∷ warnings) = false

abbrev pub config_result : {A : Type 0} → Result ConfigError A → Result UploadFault A
config_result (ok a) = ok a
config_result (err e) = err (config_fault e)

-- `re.sub(r"\s+", "", value)`.
unfoldable pub without_spaces : String → String
unfolding is_space
without_spaces String.[] = String.[]
without_spaces (String.◌∷◌ c s) =
    let rest = without_spaces s in if is_space (code c) then rest else String.◌∷◌ c rest

-- `value.replace(old, new)` for an `old` that is not empty, with the characters left to skip.
unfoldable pub replace_from : String → String → ℕ → String → String
replace_from old new skip String.[] = String.[]
replace_from old new (suc skip) (String.◌∷◌ c s) = replace_from old new skip s
replace_from old new zero (String.◌∷◌ c s) =
    let here = append new (replace_from old new (count old - 1) s) in
    let on = String.◌∷◌ c (replace_from old new zero s) in
    if starts_with old (String.◌∷◌ c s) then here else on

-- `_validate_pdf`, of bytes.
unfoldable pub validate_pdf : List ℕ → Result UploadFault (Unit {0})
validate_pdf content =
    if not (pdf_here content)
    then err (upload_error "PDFファイルを選んでください。")
    else if ltb max_manual_pdf_bytes (length content)
    then err (upload_error "PDFは20MB以下にしてください。")
    else ok tt

abbrev pub warnings_of : Bool → Bool → List String
warnings_of partner_found month_found =
    (if partner_found then [] else "PDF本文から請求元名を自動確認できませんでした。" ∷ [])
    ++ (if month_found then [] else "PDF本文から対象月を自動確認できませんでした。" ∷ [])

module _ (reader : PdfReader) where
  -- `_normalize`.
  unfoldable pub normalize : String → String
  unfolding without_spaces
  normalize value = without_spaces (reader.lowered value)

  abbrev pub month_patterns : ℤ → ℕ → List String
  month_patterns year month =
      let y = integer_text year in
      let m = decimal month in
      let mm = pad_zeros 2 m in
      append y (append "年" (append m "月"))
      ∷ append y (append "年" (append mm "月"))
      ∷ append y (append "/" m)
      ∷ append y (append "/" mm)
      ∷ append y (append "-" mm)
      ∷ append y mm
      ∷ []

  -- `_month_in_text`.
  unfoldable pub month_in_text : String → String → Result UploadFault Bool
  unfolding normalize is_part
  month_in_text text month_key = do
    (year, month) ← config_result (parse_month_key month_key)
    ok (any (λ pattern. is_part (normalize pattern) text) (month_patterns year month))

  abbrev pub hint_without_titles : String → String
  hint_without_titles alias =
      replace_from "中部テレコミュニケーション" "コミュファ" 0 (replace_from "株式会社" "" 0 (normalize alias))

  unfoldable pub partner_hints : ServiceDefinition → List String
  unfolding normalize replace_from
  partner_hints service =
      let aliases =
        map (λ alias. normalize alias) (service.default_partner ∷ service.partner_aliases) in
      filter (λ hint. not (is_empty hint))
        (aliases ++ map (λ alias. hint_without_titles alias) aliases)

  -- `any` over the two months. The code has them in a set, whose order matters only to a transaction
  -- month that cannot be read, before the year 0.
  unfoldable pub any_month : String → String → String → Result UploadFault Bool
  unfolding month_in_text
  any_month text target_month transaction_month = do
    of_usage ← month_in_text text target_month
    (if of_usage then ok true else month_in_text text transaction_month)

  abbrev pub text_in : List ℕ → String
  text_in content = normalize (reader.extract_pdf_text content)

  abbrev pub has_partner : ServiceDefinition → String → Bool
  has_partner service text = any (λ hint. is_part hint text) (partner_hints service)

  -- `inspect_manual_receipt`.
  unfoldable pub inspect_manual_receipt : String → String → List ℕ → Result UploadFault Inspection
  inspect_manual_receipt service_id target_month content = do
    service ← config_result (service_by_id service_id)
    month ← config_result (parse_month_key target_month)
    valid ← validate_pdf content
    let text = text_in content
    let partner_found = has_partner service text
    transaction_month ← config_result (expected_transaction_month service_id target_month)
    month_found ← any_month text target_month transaction_month
    amount ←
        or_raise (reader.extract_amount_yen text) (upload_error "PDFから請求金額を確認できません。別のPDFを選んでください。")
    ok (record {
      amount_yen = amount;
      partner_found = partner_found;
      month_found = month_found;
      warnings = warnings_of partner_found month_found;
    })

abbrev pub finished :
    {W : Type 0}
    → Result AcquisitionResult (Unit {0}) × Attempt W
    → Result UploadFault AcquisitionResult × W
finished (err r, a) = (ok r, a.world)
finished (ok u, a) = (err no_result, a.world)

module _ {W : Type 0} (reader : PdfReader) (ports : Ports W) where
  -- The acquisition's arguments, with `_UploadedFetcher`.
  abbrev pub upload_ports : List ℕ → Ports W
  upload_ports content = record ports {
    fetch_statement = λ month w. (
      ok (record { content = some content; metadata_text = reader.extract_pdf_text content }),
      w,
    );
    on_progress = none;
    cancellation_requested = none;
  }

  -- The part of `save_manual_receipt` behind the inspection.
  abbrev pub save_inspected :
      String → String → List ℕ → Bool → Inspection → W → Result UploadFault AcquisitionResult × W
  save_inspected service_id target_month content confirmed inspection w =
      if requires_confirmation inspection && not confirmed
      then (err (upload_error "請求元と対象月を目視確認してから保存してください。"), w)
      else finished (attempt (upload_ports content) service_id target_month (begin w))

  -- `save_manual_receipt`.
  unfoldable pub save_manual_receipt :
      String → String → List ℕ → Bool → W → Result UploadFault AcquisitionResult × W
  save_manual_receipt service_id target_month content confirmed w =
      elim (inspect_manual_receipt reader service_id target_month content) [
        | err e ↦ (err e, w)
        | ok inspection ↦ save_inspected service_id target_month content confirmed inspection w
      ]
