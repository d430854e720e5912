-- ===== src/Drive/Tests.antt =====
-- The search of a receipt in a concrete folder.
use get_receipt.Base.{
  Has, ◌⊎◌, String, true, false, some, none, ok, err, [], ◌∷◌, ◌≡◌, refl, List, Option, Result,
  if◌then◌else◌, ◌==◌, string_eq,
}
use get_receipt.Base.Integers.{pos}
use get_receipt.Config.{ServiceDefinition, services, expected_transaction_month}
use get_receipt.Drive.{
  StoredReceipt, Unicode, DriveFile, month_prefix, aliases_of, match_file, find_receipt,
}
use get_receipt.Acquisition.Report.{AcquisitionResult, acquired, already_exists}
use get_receipt.Acquisition.Ports.{Ports, Item}
use get_receipt.Acquisition.Run.{Attempt}
use get_receipt.Acquisition.Workflow.{attempt, checked_service}
use get_receipt.Acquisition.Outcome.Ended.{begin}
use get_receipt.Drive.Acquired.{InDrive, drive_finder, attempt-InDrive}
use get_receipt.Drive.Matched.{Named}
use get_receipt.Drive.Newest.{Explained, find_receipt-Explained}

abbrev plain : Unicode
plain = record { nfkc = λ text. text; casefold = λ text. text }

abbrev service : ServiceDefinition
service = record {
  id = "mobile";
  label = "携帯";
  default_partner = "NTT";
  portal_url = "";
  partner_aliases = [];
  transaction_month_offset = pos 0;
}

abbrev file_at : String → String → String → DriveFile
file_at name modified_time size = record {
  id = "f";
  name = name;
  web_view_link = "";
  mime_type = "";
  modified_time = modified_time;
  size = size;
}

abbrev folder : List DriveFile
folder =
    file_at "20260520_N_TT_7000円.pdf" "2026-05-21" "10"
    ∷ file_at "20260521_NTT_7000円.PDF" "2026-05-22" "10"
    ∷ file_at "20260532_NTT_7000円.pdf" "2026-05-23" "10"
    ∷ file_at "20260521_NTT_0円.pdf" "2026-05-23" "10"
    ∷ file_at "20260521_NTT_7000円.pdf" "2026-05-23" "0"
    ∷ []

month_known : expected_transaction_month service.id "2026-05" ≡ ok "2026-05"
unfolding expected_transaction_month find_receipt get_receipt.Base.Text.strip
    get_receipt.Config.parse_month_key month_prefix
month_known = refl

prefix_known : month_prefix plain "2026-05" ≡ ok "202605"
unfolding expected_transaction_month find_receipt get_receipt.Base.Text.strip
    get_receipt.Config.parse_month_key month_prefix
prefix_known = refl

find_receipt-Explained_example :
    Explained
      (match_file plain "202605" (aliases_of plain service))
      folder
      (find_receipt plain folder service "2026-05")
    × ((receipt : StoredReceipt)
        → find_receipt plain folder service "2026-05" ≡ ok (some receipt)
        → Has (Named plain "202605" (aliases_of plain service) receipt) folder)
find_receipt-Explained_example =
    find_receipt-Explained plain folder service "2026-05" "2026-05" "202605" month_known
      prefix_known

finds_latest :
    find_receipt plain folder service "2026-05"
    ≡ ok (
        some (record {
          file_id = "f";
          file_name = "20260521_NTT_7000円.PDF";
          web_view_link = "";
          mime_type = "application/pdf";
          modified_time = "2026-05-22";
          size = pos 10;
        }))
unfolding expected_transaction_month find_receipt get_receipt.Base.Text.strip
finds_latest = refl

abbrev mobile : ServiceDefinition
mobile = record {
  id = "mobile";
  label = "携帯";
  default_partner = "NTTファイナンス株式会社";
  portal_url = "https://webbilling.ntt-finance.co.jp/mem/b0201/init";
  partner_aliases = "NTTファイナンス株式会社" ∷ "株式会社NTTファイナンス" ∷ "株式会社NTTドコモ" ∷ [];
  transaction_month_offset = pos 0;
}

abbrev drive : Ports (List Item)
drive = record {
  list_files = λ w. (ok w, w);
  upsert_bytes =
      λ name content w. (ok tt, (("id", "1") ∷ ("name", name) ∷ ("size", "10") ∷ []) ∷ w);
  fetch_statement = λ month w.
      (ok (record { content = some (b'%' ∷ b'P' ∷ b'D' ∷ b'F' ∷ []); metadata_text = "" }), w);
  receipt_finder = λ files service month. ok none;
  on_progress = none;
  cancellation_requested = none;
  extract_receipt_data =
      λ content text month. ok (record { transaction_date = none; amount_yen = some (pos 100) });
  build_receipt_filename = λ metadata extension. ok "20260501_NTTファイナンス株式会社_100円.pdf";
}

mobile_checked : checked_service "mobile" "2026-05" ≡ some mobile
unfolding checked_service get_receipt.Base.Text.strip get_receipt.Config.parse_month_key
    get_receipt.Config.service_by_id
mobile_checked = refl

attempt-InDrive_example :
    (r : AcquisitionResult) × (a : Attempt (List Item)) × (attempt
        (record drive { receipt_finder = drive_finder plain })
        "mobile"
        "2026-05"
        (begin [])
      ≡ (err r, a))
    × ((r.outcome ≡ acquired) ⊎ (r.outcome ≡ already_exists)
        → (w : List Item) × InDrive drive plain mobile "202605" w r)
attempt-InDrive_example =
    attempt-InDrive plain drive mobile "2026-05" "2026-05" "202605" month_known prefix_known
      "mobile" [] mobile_checked
