-- ===== src/Acquisition/Outcome/Whole.antt =====
-- The stages put together: every attempt ends in a good result.
use get_receipt.Base.{
  ℕ, String, true, Option, none, some, List, ok, ◌≡◌, refl, inl, inr, contains, string_eq, ◌==◌,
  Result-cases, Bool-cases,
}
use get_receipt.Base.Exec.{lift, gets, modify, ◌>>=◌}
use get_receipt.Base.Exec.Reports.{Reports, Reports-bind, Reports-pure}
use get_receipt.Config.{ServiceDefinition}
use get_receipt.Acquisition.Report.{
  saving, verifying, checking_drive, fetching, extracting, ProgressEvent, has_saving,
}
use get_receipt.Acquisition.Ports.{
  Ports, Raised, Statement, has_pdf_mark, error_code, or_text, file_name_of,
}
use get_receipt.Acquisition.Run.{
  Attempt, emit, awaiting, action_required_challenge_kinds, not_issued_codes, check_drive,
  fetch_failed, fetch, pdf_content,
}
use get_receipt.Acquisition.Workflow.{extract, save, verify, acquire}
use get_receipt.Acquisition.Outcome.{last?-append, has_saving-saving, Unaffected}
use get_receipt.Acquisition.Outcome.Stages.{
  emitted, Safe, Ends, Safe-emitted, Safe-called, fail_with-Reports, complete-Reports, emit-bind,
  call-bind, find_stored-bind, check_cancelled-Reports,
}

module _ {W : Type 0} (ports : Ports W) (service : ServiceDefinition) (target_month : String)
    (service_id : String) (P : W → Type 0) (keep : Unaffected ports P) where
  check_drive-Reports :
      (announcement code message found : String) (a : Attempt W)
      → Safe ports service target_month service_id P keep a
      → Reports
          (check_drive ports service_id target_month service announcement code message found)
          a
          (λ u t. Safe ports service target_month service_id P keep t)
          (Ends ports service target_month service_id P keep)
  unfolding check_drive
  check_drive-Reports announcement code message found a s =
      let s' =
        Safe-emitted ports service target_month service_id P keep checking_drive announcement a s in
      let t =
        Safe-called ports service target_month service_id P keep ports.list_files
          (emitted ports checking_drive announcement a) (keep.listed _) s' in
      emit-bind ports service target_month service_id P keep _ _ _ _ (
        find_stored-bind ports service target_month service_id P keep _ _ (
          λ e. fail_with-Reports ports service target_month service_id P keep _ _ _ _ _ t,
          Reports-pure tt _ t,
          λ item found_item.
              complete-Reports ports service target_month service_id P keep _ _ item _ t
                (λ r receipt f c st. ((_, found_item r receipt), f, c, st)),
        ))

  fetch_failed-Reports :
      (error : Raised) (a : Attempt W) {Q : Statement → Attempt W → Type 0}
      → Safe ports service target_month service_id P keep a
      → Reports
          (fetch_failed ports service_id target_month error)
          a
          Q
          (Ends ports service target_month service_id P keep)
  unfolding fetch_failed emit modify gets lift ◌>>=◌
  fetch_failed-Reports error a s =
      elim (Bool-cases (contains action_required_challenge_kinds error.challenge_kind)) [
        | inl e ↦
            let message = or_text error.text "追加認証コードの入力が必要です。" in
            let event : ProgressEvent = record {
              stage = awaiting error.challenge_kind;
              message = message;
            } in
            rw e (record {
              at = (
                (
                  record { kind = error.challenge_kind; message = message },
                  refl,
                  e,
                  refl,
                  refl,
                  rw (last?-append a.events event) refl,
                  rw (last?-append a.events event) refl,
                ),
                Safe-emitted ports service target_month service_id P keep
                    (awaiting error.challenge_kind) message a s,
              );
            })
        | inr e ↦
            rw e (elim (Bool-cases (error_code error "FETCH_FAILED" == "ACQUISITION_TIMEOUT")) [
              | inl k ↦
                  rw k (fail_with-Reports ports service target_month service_id P keep _ _ _ _ _ s)
              | inr k ↦
                  rw k
                    (elim (Bool-cases
                      (contains not_issued_codes (error_code error "FETCH_FAILED"))) [
                        | inl l ↦ rw l (
                            fail_with-Reports ports service target_month service_id P keep _ _ _ _ _
                              s)
                        | inr l ↦ rw l (
                            fail_with-Reports ports service target_month service_id P keep _ _ _ _ _
                              s)
                      ])
            ])
      ]

  checked :
      (content : Option (List ℕ)) (metadata_text : String) (a : Attempt W)
      → Safe ports service target_month service_id P keep a
      → Reports
          (pdf_content ports service_id target_month content metadata_text)
          a
          (λ r t.
            Safe ports service target_month service_id P keep t × (has_pdf_mark 1024 r.0 ≡ true))
          (Ends ports service target_month service_id P keep)
  unfolding pdf_content
  checked none metadata_text a s =
      fail_with-Reports ports service target_month service_id P keep _ _ _ _ _ s
  checked (some content) metadata_text a s = elim (Bool-cases (has_pdf_mark 1024 content)) [
    | inl e ↦ rw e (Reports-pure (content, metadata_text) a (s, e))
    | inr e ↦ rw e (fail_with-Reports ports service target_month service_id P keep _ _ _ _ _ s)
  ]

  fetch-Reports :
      (a : Attempt W)
      → Safe ports service target_month service_id P keep a
      → Reports
          (fetch ports service_id target_month)
          a
          (λ r t.
            Safe ports service target_month service_id P keep t × (has_pdf_mark 1024 r.0 ≡ true))
          (Ends ports service target_month service_id P keep)
  unfolding fetch
  fetch-Reports a s =
      let s' =
        Safe-emitted ports service target_month service_id P keep fetching "請求元から対象月のPDFを自動取得しています。"
          a s in
      let t =
        Safe-called ports service target_month service_id P keep
          (ports.fetch_statement target_month) (emitted ports fetching "請求元から対象月のPDFを自動取得しています。" a)
          (keep.fetched _ _) s' in
      emit-bind ports service target_month service_id P keep _ _ _ _ (
        call-bind ports service target_month service_id P keep _ _ _ (
          Reports-bind _ _ _
            (elim (Result-cases
              (ports.fetch_statement target_month
                (emitted ports fetching "請求元から対象月のPDFを自動取得しています。" a).world).0) [
                  | inl (statement, e) ↦ rw e (Reports-pure statement _ t)
                  | inr (error, e) ↦ rw e (fetch_failed-Reports error _ t)
                ])
            (λ statement u safe. checked statement.content statement.metadata_text u safe)))

  extract-Reports :
      (content : List ℕ) (metadata_text : String) (a : Attempt W)
      → Safe ports service target_month service_id P keep a
      → Reports
          (extract ports service_id target_month service content metadata_text)
          a
          (λ u t. Safe ports service target_month service_id P keep t)
          (Ends ports service target_month service_id P keep)
  unfolding extract
  extract-Reports content metadata_text a s =
      let t =
        Safe-emitted ports service target_month service_id P keep extracting
          "PDFから保存用メタデータを抽出しています。" a s in
      emit-bind ports service target_month service_id P keep _ _ _ _
        (elim (Result-cases (file_name_of ports target_month service content metadata_text)) [
          | inl (name, e) ↦ rw e (Reports-pure name _ t)
          | inr (x, e) ↦
              rw e (fail_with-Reports ports service target_month service_id P keep _ _ _ _ _ t)
        ])

  -- The upload of `content` ended in the world `w` without an error.
  abbrev UploadedTo : List ℕ → String → W → Type 0
  UploadedTo content file_name w =
      (before : W) × ((ports.upsert_bytes file_name content before).0 ≡ ok tt)
      × ((ports.upsert_bytes file_name content before).1 ≡ w)

  save-Reports :
      (content : List ℕ) (file_name : String) (a : Attempt W)
      → Reports
          (save ports service_id target_month content file_name)
          a
          (λ u t. (has_saving t.events ≡ true) × UploadedTo content file_name t.world)
          (Ends ports service target_month service_id P keep)
  unfolding save
  save-Reports content file_name a =
      let announced = emitted ports saving "PDFをGoogle Driveへ保存しています。" a in
      let seen : has_saving announced.events ≡ true =
        has_saving-saving a.events "PDFをGoogle Driveへ保存しています。" in
      emit-bind ports service target_month service_id P keep _ _ _ _ (
        call-bind ports service target_month service_id P keep _ _ _
          (elim (Result-cases (ports.upsert_bytes file_name content announced.world).0) [
            | inl (done, e) ↦ rw e (Reports-pure tt _ (seen, (announced.world, e, refl)))
            | inr (error, e) ↦
                rw e
                  (elim (Bool-cases
                    (error_code error "DRIVE_SAVE_FAILED" == "ACQUISITION_CANCELLED")) [
                      | inl k ↦ rw k (
                          Reports-bind _ _ _
                            (check_cancelled-Reports ports service target_month service_id P keep
                              saving _ (inr seen))
                            (λ u t s.
                              fail_with-Reports ports service target_month service_id P keep _ _ _ _
                                t s))
                      | inr k ↦ rw k (
                          fail_with-Reports ports service target_month service_id P keep _ _ _ _ _
                            (inr seen))
                    ])
          ]))

  verify-Reports :
      (content : List ℕ) (file_name : String) (a : Attempt W)
      → has_pdf_mark 1024 content ≡ true
      → has_saving a.events ≡ true
      → UploadedTo content file_name a.world
      → Reports
          (verify ports service_id target_month service)
          a
          (λ u t. ⊥)
          (Ends ports service target_month service_id P keep)
  unfolding verify
  verify-Reports content file_name a pdf seen (before, e, w) =
      let s =
        Safe-emitted ports service target_month service_id P keep verifying
          "Google Drive上のPDF実在を再確認しています。" a (inr seen) in
      let t =
        Safe-called ports service target_month service_id P keep ports.list_files
          (emitted ports verifying "Google Drive上のPDF実在を再確認しています。" a) (keep.listed _) s in
      emit-bind ports service target_month service_id P keep _ _ _ _ (
        find_stored-bind ports service target_month service_id P keep _ _ (
          λ x. fail_with-Reports ports service target_month service_id P keep _ _ _ _ _ t,
          fail_with-Reports ports service target_month service_id P keep _ _ _ _ _ t,
          λ item found_item.
              complete-Reports ports service target_month service_id P keep _ _ item _ t
                (λ r receipt f c st. (
                  record {
                    content = content;
                    file_name = file_name;
                    before = before;
                    message = "Google Drive上のPDF実在を再確認しています。";
                    is_pdf = pdf;
                    uploaded = e;
                    listed = rw w (found_item r receipt);
                  },
                  f,
                  c,
                  st,
                )),
        ))

  pub acquire-Reports :
      (a : Attempt W)
      → Safe ports service target_month service_id P keep a
      → Reports
          (acquire ports service_id target_month service)
          a
          (λ u t. ⊥)
          (Ends ports service target_month service_id P keep)
  unfolding acquire ◌>>=◌
  acquire-Reports a s =
      Reports-bind _ _ _
        (check_cancelled-Reports ports service target_month service_id P keep checking_drive a s)
        λ _ a1 s1. Reports-bind _ _ _ (check_drive-Reports _ _ _ _ a1 s1) λ _ a2 s2.
          Reports-bind _ _ _
            (check_cancelled-Reports ports service target_month service_id P keep fetching a2 s2)
            λ _ a3 s3. Reports-bind _ _ _ (fetch-Reports a3 s3) λ fetched a4 h4.
              let (s4, pdf) = h4 in
              Reports-bind _ _ _
                (check_cancelled-Reports ports service target_month service_id P keep fetching a4
                  s4)
                λ _ a5 s5.
                  Reports-bind _ _ _ (extract-Reports fetched.0 fetched.1 a5 s5) λ file_name a6 s6.
                    Reports-bind _ _ _ (check_drive-Reports _ _ _ _ a6 s6) λ _ a7 s7.
                      Reports-bind _ _ _
                        (check_cancelled-Reports ports service target_month service_id P keep saving
                          a7 s7)
                        λ _ a8 s8.
                          Reports-bind _ _ _ (save-Reports fetched.0 file_name a8) λ _ a9 h9.
                            let (seen, done) = h9 in
                            verify-Reports fetched.0 file_name a9 pdf seen done
