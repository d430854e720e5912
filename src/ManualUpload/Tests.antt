-- ===== src/ManualUpload/Tests.antt =====
-- A manual upload to a concrete drive.
use get_receipt.Base.{
  ℕ, String, true, false, some, none, ok, err, [], ◌∷◌, ◌≡◌, ◌⊎◌, refl, List, Option,
}
use get_receipt.Base.Integers.{pos}
use get_receipt.Acquisition.Ports.{Ports, Item}
use get_receipt.ManualUpload.{PdfReader, upload_error, save_manual_receipt}
use get_receipt.ManualUpload.Settled.{Acceptable, Saved, Untouched, save_manual_receipt-Settled}

abbrev first_item : List Item → Option Item
first_item [] = none
first_item (item ∷ items) = some item

abbrev drive : Ports (List Item)
drive = record {
  list_files = λ w. (ok w, w);
  upsert_bytes = λ name content w. (ok tt, (("id", "1") ∷ ("name", name) ∷ []) ∷ w);
  fetch_statement = λ month w. (ok (record { content = none; metadata_text = "" }), w);
  receipt_finder = λ files service month. ok (first_item files);
  on_progress = none;
  cancellation_requested = none;
  extract_receipt_data =
      λ content text month. ok (record { transaction_date = none; amount_yen = some (pos 100) });
  build_receipt_filename = λ metadata extension. ok "receipt.pdf";
}

abbrev pdf : List ℕ
pdf = b'%' ∷ b'P' ∷ b'D' ∷ b'F' ∷ []

abbrev pypdf : PdfReader
pypdf = record {
  lowered = λ text. text;
  extract_pdf_text = λ content. "2026年5月分 7000円";
  extract_amount_yen = λ text. some (pos 7000);
}

save_manual_receipt-Settled_example :
    (Acceptable pypdf "mobile" "2026-05" pdf true
      × Saved pypdf drive "mobile" "2026-05" pdf true [])
    ⊎ ((Acceptable pypdf "mobile" "2026-05" pdf true → ⊥)
        × Untouched pypdf drive "mobile" "2026-05" pdf true [])
save_manual_receipt-Settled_example =
    save_manual_receipt-Settled pypdf drive "mobile" "2026-05" pdf true []

unconfirmed :
    save_manual_receipt pypdf drive "mobile" "2026-05" pdf false []
    ≡ (err (upload_error "請求元と対象月を目視確認してから保存してください。"), [])
unfolding get_receipt.Acquisition.Run.check_with get_receipt.Acquisition.Workflow.attempt
    get_receipt.Acquisition.Workflow.checked_service get_receipt.Base.Exec.◌>>=◌
    get_receipt.Base.Text.strip get_receipt.Config.expected_transaction_month
    get_receipt.Config.parse_month_key get_receipt.Config.service_by_id
    get_receipt.ManualUpload.any_month get_receipt.ManualUpload.inspect_manual_receipt
    get_receipt.ManualUpload.partner_hints get_receipt.ManualUpload.validate_pdf save_manual_receipt
unconfirmed = refl

confirmed_saves :
    (save_manual_receipt pypdf drive "mobile" "2026-05" pdf true []).1
    ≡ ((("id", "1") ∷ ("name", "receipt.pdf") ∷ []) ∷ [])
unfolding get_receipt.Acquisition.Run.check_with get_receipt.Acquisition.Workflow.attempt
    get_receipt.Acquisition.Workflow.checked_service get_receipt.Base.Exec.◌>>=◌
    get_receipt.Base.Text.strip get_receipt.Config.expected_transaction_month
    get_receipt.Config.parse_month_key get_receipt.Config.service_by_id
    get_receipt.ManualUpload.any_month get_receipt.ManualUpload.inspect_manual_receipt
    get_receipt.ManualUpload.partner_hints get_receipt.ManualUpload.validate_pdf save_manual_receipt
confirmed_saves = refl
