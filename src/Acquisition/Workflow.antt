-- ===== src/Acquisition/Workflow.antt =====
-- The later stages of `_run_auto_acquisition_unlocked` in cloud/src/workflows/auto_acquisition.py,
-- and the whole attempt.
use get_receipt.Base.{ℕ, String, Option, none, some, List, ok, err, ◌==◌, string_eq, if◌then◌else◌}
use get_receipt.Base.Exec.{pure, ◌>>=◌, ◌>>◌}
use get_receipt.Config.{ServiceDefinition, service_by_id, parse_month_key}
use get_receipt.Acquisition.Report.{
  checking_drive, fetching, extracting, saving, verifying, acquired,
}
use get_receipt.Acquisition.Ports.{Ports, error_code, file_name_of}
use get_receipt.Acquisition.Run.{
  Run, call, emit, fail_with, check_cancelled, find_stored, complete, check_drive, fetch,
}

-- The checks of the arguments.
unfoldable pub checked_service : String → String → Option ServiceDefinition
checked_service service_id target_month = elim (service_by_id service_id) [
  | err e ↦ none
  | ok service ↦ elim (parse_month_key target_month) [ err e ↦ none | ok month ↦ some service ]
]

module _ {W : Type 0} (ports : Ports W) (service_id target_month : String) where
  unfoldable pub extract : ServiceDefinition → List ℕ → String → Run W String
  unfolding emit fail_with file_name_of
  extract service content metadata_text = do
    emit ports service_id target_month extracting "PDFから保存用メタデータを抽出しています。"
    elim (file_name_of ports target_month service content metadata_text) [
      | ok file_name ↦ pure file_name
      | err e ↦
          fail_with ports service_id target_month "METADATA_EXTRACTION_FAILED"
            "PDFの保存情報を確定できませんでした。" extracting ""
    ]

  -- The upload and its `except`.
  unfoldable pub save : List ℕ → String → Run W (Unit {0})
  unfolding emit call fail_with
  save content file_name = do
    emit ports service_id target_month saving "PDFをGoogle Driveへ保存しています。"
    uploaded ← call (ports.upsert_bytes file_name content)
    elim uploaded [
      | ok done ↦ pure tt
      | err error ↦
          if error_code error "DRIVE_SAVE_FAILED" == "ACQUISITION_CANCELLED"
          then (do
            check_cancelled ports service_id target_month saving
            fail_with ports service_id target_month (error_code error "DRIVE_SAVE_FAILED")
                "Google Driveへの保存開始前に処理がキャンセルされました。" saving "")
          else fail_with ports service_id target_month (error_code error "DRIVE_SAVE_FAILED")
              "Google DriveへのPDF保存に失敗しました。" saving ""
    ]

  -- The listing after the upload.
  unfoldable pub verify : ServiceDefinition → Run W (Unit {0})
  unfolding emit find_stored fail_with complete
  verify service = do
    emit ports service_id target_month verifying "Google Drive上のPDF実在を再確認しています。"
    stored ← find_stored ports service_id target_month service
    elim stored [
      | err e ↦
          fail_with ports service_id target_month "DRIVE_VERIFY_FAILED"
            "保存後のGoogle Drive再確認に失敗しました。" verifying ""
      | ok none ↦
          fail_with ports service_id target_month "SAVED_FILE_NOT_FOUND"
            "保存操作後もGoogle Drive上で対象PDFを確認できませんでした。" verifying ""
      | ok (some item) ↦
          complete ports service_id target_month acquired "PDFの自動取得とGoogle Drive保存が完了しました。" item
    ]

  unfoldable pub acquire : ServiceDefinition → Run W (Unit {0})
  unfolding check_drive fetch extract save verify
  acquire service = do
    check_cancelled ports service_id target_month checking_drive
    check_drive ports service_id target_month service "Google Driveで取得済みPDFを確認しています。"
        "DRIVE_CHECK_FAILED" "Google Driveの取得済み確認に失敗しました。" "対象月のPDFはGoogle Driveに保存済みです。"
    check_cancelled ports service_id target_month fetching
    (content, metadata_text) ← fetch ports service_id target_month
    check_cancelled ports service_id target_month fetching
    file_name ← extract service content metadata_text
    check_drive ports service_id target_month service "保存直前にGoogle Driveを再確認しています。"
        "DRIVE_RECHECK_FAILED" "保存直前のGoogle Drive確認に失敗しました。" "同じ対象月のPDFがGoogle Driveに保存済みです。"
    check_cancelled ports service_id target_month saving
    save content file_name
    verify service

  -- The attempt from its first line.
  unfoldable pub attempt : Run W (Unit {0})
  unfolding fail_with acquire
  attempt = elim (checked_service service_id target_month) [
    | none ↦
        fail_with ports service_id target_month "INVALID_REQUEST" "取得先または対象月の指定が不正です。"
          checking_drive ""
    | some service ↦ acquire service
  ]
