-- ===== src/Acquisition/Run.antt =====
-- `_run_auto_acquisition_unlocked` of cloud/src/workflows/auto_acquisition.py. A `return` before the
-- end is the error of the computation, so each stage either goes on or has the attempt's result.
-- `_ACQUISITION_LOCK` makes whole attempts run one after another.
use Prim.Native.String.{◌++◌ as append}
use get_receipt.Base.{
  ℕ, String, Bool, true, false, Option, none, some, List, [], ◌∷◌, ◌++◌, Result, ok, err, ◌==◌,
  string_eq, if◌then◌else◌, contains,
}
use get_receipt.Base.Exec.{Exec, pure, lift, gets, modify, ◌>>=◌, ◌>>◌}
use get_receipt.Config.{ServiceDefinition}
use get_receipt.Acquisition.Report.{
  Stage, checking_drive, fetching, awaiting_security_code, awaiting_user_action, completed, failed,
  AcquisitionResult, AcquisitionOutcome, already_exists, action_required, unsuccessful,
  ProgressEvent,
}
use get_receipt.Acquisition.Ports.{
  Ports, Call, Item, Raised, Statement, stored_receipt_reference, error_code, has_pdf_mark,
  first_chars, or_text,
}

pub record Attempt (W : Type 0) : Type 0 where
  pub world : W
  pub events : List ProgressEvent

abbrev pub not_issued_codes : List String
not_issued_codes =
    "COMMUFA_MONTH_NOT_ISSUED" ∷ "WEBBILLING_MONTH_NOT_ISSUED"
    ∷ "TOKUTEN_GRAPH_ATTACHMENT_NOT_FOUND" ∷ "ATTACHMENT_NOT_FOUND" ∷ "MESSAGE_NOT_FOUND" ∷ []

abbrev pub action_required_challenge_kinds : List String
action_required_challenge_kinds =
    "verification_code" ∷ "captcha" ∷ "interactive" ∷ "consent" ∷ "push_approval"
    ∷ "passkey_unavailable" ∷ []

abbrev pub awaiting : String → Stage
awaiting kind = if kind == "verification_code" then awaiting_security_code else awaiting_user_action

-- What `str` and the type say of an error, with the advice, in 400 characters.
abbrev with_advice : String → String → String
with_advice String.[] detail = detail
with_advice (String.◌∷◌ c s) detail = append detail (append " / " (String.◌∷◌ c s))

unfoldable pub detail_of : Raised → String
unfolding first_chars
detail_of error =
    first_chars 400 (with_advice error.advice (append error.type_name (append ": " error.text)))

abbrev pub is_requested : Result Raised Bool → Bool
is_requested (ok requested) = requested
is_requested (err e) = true

abbrev pub notify : {W : Type 0} → Option (ProgressEvent → W → W) → ProgressEvent → W → W
notify none event world = world
notify (some on_progress) event world = on_progress event world

abbrev pub Run : Type 0 → Type 0 → Type 0
Run W A = Exec (Attempt W) AcquisitionResult A

-- A call that changes the world only.
unfoldable pub call : {W A : Type 0} → Call W A → Run W (Result Raised A)
call f a = let (r, world) = f a.world in (ok r, record a { world = world })

module _ {W : Type 0} (ports : Ports W) (service_id target_month : String) where
  -- An event, told to the caller; what the caller raises is dropped.
  unfoldable pub emit : Stage → String → Run W (Unit {0})
  unfolding modify
  emit stage message = modify (λ a.
      let event : ProgressEvent = record { stage = stage; message = message } in
      record { world = notify ports.on_progress event a.world; events = a.events ++ event ∷ [] })

  unfoldable pub fail_with : {A : Type 0} → String → String → Stage → String → Run W A
  unfolding emit
  fail_with code message stage detail = do
    emit failed message
    events ← gets (λ a. a.events)
    lift (
        err (record {
          service_id = service_id;
          target_month = target_month;
          outcome = unsuccessful;
          events = events;
          receipt = none;
          failure =
              some (record { code = code; message = message; stage = stage; detail = detail });
          challenge = none;
        }))

  -- `if cancellation := cancelled(stage): return cancellation`.
  unfoldable pub check_with : Option (Call W Bool) → Stage → Run W (Unit {0})
  unfolding fail_with call
  check_with none stage = pure tt
  check_with (some cancellation_requested) stage = do
    requested ← call cancellation_requested
    elim (is_requested requested) [
      | true ↦ fail_with "ACQUISITION_CANCELLED" "キャンセルされたため、Google Driveへ保存せず処理を終了しました。" stage ""
      | false ↦ pure tt
    ]

  abbrev pub check_cancelled : Stage → Run W (Unit {0})
  check_cancelled stage = check_with ports.cancellation_requested stage

  abbrev pub search : ServiceDefinition → Result Raised (List Item) → Result Raised (Option Item)
  search service (err e) = err e
  search service (ok files) = ports.receipt_finder files service target_month

  -- `receipt_finder(storage.list_files(), service, target_month)`.
  unfoldable pub find_stored : ServiceDefinition → Run W (Result Raised (Option Item))
  unfolding call
  find_stored service = do
    listed ← call ports.list_files
    pure
        (elim listed [ err e ↦ err e | ok files ↦ ports.receipt_finder files service target_month ])

  -- The event at the end, and the result with the receipt that Drive lists.
  unfoldable pub complete : {A : Type 0} → AcquisitionOutcome → String → Item → Run W A
  unfolding emit stored_receipt_reference
  complete outcome message item = do
    emit completed message
    events ← gets (λ a. a.events)
    lift (
        err (record {
          service_id = service_id;
          target_month = target_month;
          outcome = outcome;
          events = events;
          receipt = some (stored_receipt_reference item);
          failure = none;
          challenge = none;
        }))

  -- The two checks of Drive before the upload, in their own words.
  unfoldable pub check_drive :
      ServiceDefinition → String → String → String → String → Run W (Unit {0})
  unfolding emit find_stored fail_with complete
  check_drive service announcement code message found = do
    emit checking_drive announcement
    existing ← find_stored service
    elim existing [
      | err e ↦ fail_with code message checking_drive ""
      | ok (some item) ↦ complete already_exists found item
      | ok none ↦ pure tt
    ]

  -- The `except` of the fetch.
  unfoldable pub fetch_failed : Raised → Run W Statement
  unfolding emit fail_with detail_of
  fetch_failed error =
      if contains action_required_challenge_kinds error.challenge_kind
      then (do
        let message = or_text error.text "追加認証コードの入力が必要です。"
        emit (awaiting error.challenge_kind) message
        events ← gets (λ a. a.events)
        lift (
            err (record {
              service_id = service_id;
              target_month = target_month;
              outcome = action_required;
              events = events;
              receipt = none;
              failure = none;
              challenge = some (record { kind = error.challenge_kind; message = message });
            })))
      else if error_code error "FETCH_FAILED" == "ACQUISITION_TIMEOUT"
      then fail_with (error_code error "FETCH_FAILED") "取得の制限時間内に終わらなかったので中止しました。" fetching
          "請求元の応答が遅いか、想定外の画面で止まっていました。もう一度実行すると、続きからではなく最初からやり直します。"
      else if contains not_issued_codes (error_code error "FETCH_FAILED")
      then fail_with (error_code error "FETCH_FAILED") (or_text error.text "この月の請求はまだ発行されていません。")
          fetching error.advice
      else fail_with (error_code error "FETCH_FAILED") "PDFの自動取得に失敗しました。" fetching (detail_of error)

  unfoldable pub pdf_content : Option (List ℕ) → String → Run W (List ℕ × String)
  unfolding fail_with has_pdf_mark
  pdf_content none metadata_text = fail_with "INVALID_PDF" "取得結果をPDFとして確認できませんでした。" fetching ""
  pdf_content (some content) metadata_text =
      if has_pdf_mark 1024 content
      then pure (content, metadata_text)
      else fail_with "INVALID_PDF" "取得結果をPDFとして確認できませんでした。" fetching ""

  -- The statement, and its content as a PDF's.
  unfoldable pub fetch : Run W (List ℕ × String)
  unfolding emit call fetch_failed pdf_content
  fetch = do
    emit fetching "請求元から対象月のPDFを自動取得しています。"
    fetched ← call (ports.fetch_statement target_month)
    statement ← elim fetched [ ok statement ↦ pure statement | err error ↦ fetch_failed error ]
    pdf_content statement.content statement.metadata_text
