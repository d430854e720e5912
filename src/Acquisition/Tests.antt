-- ===== src/Acquisition/Tests.antt =====
-- The acquisition's theorems at concrete inputs: a drive of files, and a portal that has a PDF.
use get_receipt.Base.{
  ◌+◌, ◌*◌, ◌-◌, ℕ, String, Option, none, some, List, [], ◌∷◌, ◌++◌, Result, ok, err, ◌≡◌, refl,
  true, false, Bool, ◌≤◌, arith,
}
use get_receipt.Base.Integers.{pos, negsuc}
use get_receipt.Config.{ServiceDefinition, services, service_by_id, shift_month}
use get_receipt.Config.Selectable.{selectable_months, month_keys, selectable_months-month_keys}
use get_receipt.Config.Months.{shift_month-shift_month}
use get_receipt.Acquisition.Report.{
  AcquisitionResult, ProgressEvent, checking_drive, fetching, awaiting_user_action, action_required,
}
use get_receipt.Acquisition.Ports.{Ports, Item, Raised}
use get_receipt.Acquisition.Run.{Attempt}
use get_receipt.Acquisition.Workflow.{attempt, checked_service}
use get_receipt.Acquisition.Outcome.{Good, Unaffected}
use get_receipt.Acquisition.Outcome.Ended.{attempt-Good, attempt_unsaved, begin}

abbrev first_item : List Item → Option Item
first_item [] = none
first_item (item ∷ items) = some item

abbrev drive : Ports (List Item)
drive = record {
  list_files = λ w. (ok w, w);
  upsert_bytes = λ name content w. (ok tt, (("id", "1") ∷ ("name", name) ∷ []) ∷ w);
  fetch_statement = λ month w.
      (ok (record { content = some (b'%' ∷ b'P' ∷ b'D' ∷ b'F' ∷ []); metadata_text = "" }), w);
  receipt_finder = λ files service month. ok (first_item files);
  on_progress = none;
  cancellation_requested = some (λ w. (ok false, w));
  extract_receipt_data =
      λ content text month. ok (record { transaction_date = none; amount_yen = some (pos 100) });
  build_receipt_filename = λ metadata extension. ok "receipt.pdf";
}

abbrev captcha : Raised
captcha = record {
  type_name = "SecurityChallengeRequired";
  text = "captcha";
  code = "";
  challenge_kind = "captcha";
  advice = "";
}

abbrev guarded_drive : Ports (List Item)
guarded_drive = record drive {
  fetch_statement = λ month w. (err captcha, w);
  cancellation_requested = none;
}

abbrev mobile : ServiceDefinition
mobile = record {
  id = "mobile";
  label = "携帯";
  default_partner = "NTTファイナンス株式会社";
  portal_url = "https://webbilling.ntt-finance.co.jp/mem/b0201/init";
  partner_aliases = "NTTファイナンス株式会社" ∷ "株式会社NTTファイナンス" ∷ "株式会社NTTドコモ" ∷ [];
  transaction_month_offset = pos 0;
}

mobile_checked : checked_service "mobile" "2026-05" ≡ some mobile
unfolding checked_service service_by_id get_receipt.Config.parse_month_key
    get_receipt.Base.Text.strip
mobile_checked = refl

attempt-Good_example :
    (r : AcquisitionResult) × (a : Attempt (List Item)) × (attempt drive "mobile" "2026-05"
        (begin [])
      ≡ (err r, a))
    × Good drive mobile "2026-05" r.outcome r
attempt-Good_example = attempt-Good drive mobile "mobile" "2026-05" [] mobile_checked

abbrev stopped_events : List ProgressEvent
stopped_events =
    record { stage = checking_drive; message = "Google Driveで取得済みPDFを確認しています。" }
    ∷ record { stage = fetching; message = "請求元から対象月のPDFを自動取得しています。" }
    ∷ record { stage = awaiting_user_action; message = "captcha" }
    ∷ []

abbrev stopped : AcquisitionResult
stopped = record {
  service_id = "mobile";
  target_month = "2026-05";
  outcome = action_required;
  events = stopped_events;
  receipt = none;
  failure = none;
  challenge = some (record { kind = "captcha"; message = "captcha" });
}

guarded-run :
    attempt guarded_drive "mobile" "2026-05" (begin [])
    ≡ (err stopped, record { world = []; events = stopped_events })
unfolding attempt checked_service service_by_id get_receipt.Config.parse_month_key
    get_receipt.Base.Text.strip get_receipt.Base.Exec.◌>>=◌ get_receipt.Acquisition.Run.check_with
guarded-run = refl

guarded-Unaffected : Unaffected guarded_drive (λ w. first_item w ≡ none)
guarded-Unaffected = record {
  notified = λ e w p. p;
  listed = λ w p. p;
  fetched = λ m w p. p;
  asked = λ ask w e p. cc e;
}

attempt_unsaved_example : first_item [] ≡ none
attempt_unsaved_example =
    attempt_unsaved guarded_drive "mobile" "2026-05" (λ w. first_item w ≡ none) [] stopped
      (record { world = []; events = stopped_events }) guarded-Unaffected refl guarded-run refl

shift_month-shift_month_example : shift_month (pos 2027) 1 (negsuc 0) ≡ (pos 2026, 12)
unfolding shift_month
shift_month-shift_month_example =
    shift_month-shift_month (pos 2026) 12 (pos 1) (omega arith) (omega arith)

selectable_months-month_keys_example :
    selectable_months 5 2026 3 ≡ some (month_keys 24312 (2026 * 12 + 3 - 24312))
selectable_months-month_keys_example =
    selectable_months-month_keys 5 2026 3 (omega arith) (omega arith) (omega arith)

spring : selectable_months 5 2026 3 ≡ some ("2026-01" ∷ "2026-02" ∷ "2026-03" ∷ [])
unfolding get_receipt.Config.month_key selectable_months shift_month
spring = refl
