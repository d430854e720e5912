-- ===== src/Acquisition/Keeps.antt =====
-- An attempt leaves true what every call of its ports leaves true.
use get_receipt.Base.{
  ℕ, String, Bool, Option, none, some, List, ◌≡◌, refl, ◌==◌, string_eq, contains,
}
use get_receipt.Base.Exec.{modify}
use get_receipt.Base.Exec.Keeps.{
  Keeps, Keeps-pure, Keeps-lift, Keeps-gets, Keeps-cond, Keeps-bind, Keeps-option, Keeps-if,
  Keeps-result,
}
use get_receipt.Config.{ServiceDefinition}
use get_receipt.Acquisition.Report.{
  Stage, ProgressEvent, AcquisitionOutcome, checking_drive, fetching, saving,
}
use get_receipt.Acquisition.Ports.{
  Ports, Call, Item, Raised, file_name_of, has_pdf_mark, error_code,
}
use get_receipt.Acquisition.Run.{
  Attempt, call, emit, fail_with, check_with, check_cancelled, find_stored, complete, check_drive,
  fetch_failed, pdf_content, fetch, notify, is_requested, action_required_challenge_kinds,
  not_issued_codes,
}
use get_receipt.Acquisition.Workflow.{extract, save, verify, acquire, attempt, checked_service}

-- Every call and every notice leaves `Q` true.
pub record Undisturbed {W : Type 0} (ports : Ports W) (Q : W → Type 0) : Type 0 where
  pub notified : (e : ProgressEvent) (w : W) → Q w → Q (notify ports.on_progress e w)
  pub listed : (w : W) → Q w → Q (ports.list_files w).1
  pub uploaded :
      (name : String) (content : List ℕ) (w : W) → Q w → Q (ports.upsert_bytes name content w).1
  pub fetched : (month : String) (w : W) → Q w → Q (ports.fetch_statement month w).1
  pub asked :
      (ask : Call W Bool) (w : W) → ports.cancellation_requested ≡ some ask → Q w → Q (ask w).1

abbrev pub InWorld : {W : Type 0} → (W → Type 0) → Attempt W → Type 0
InWorld Q a = Q a.world

module _ {W : Type 0} (ports : Ports W) (service_id target_month : String) (Q : W → Type 0)
    (calm : Undisturbed ports Q) where
  call-Keeps :
      {A : Type 0} (f : Call W A) → ((w : W) → Q w → Q (f w).1) → Keeps (InWorld Q) (call f)
  unfolding call
  call-Keeps f h = record { at = λ a p. h a.world p }

  emit-Keeps :
      (stage : Stage) (message : String)
      → Keeps (InWorld Q) (emit ports service_id target_month stage message)
  unfolding emit modify
  emit-Keeps stage message = record { at = λ a p. calm.notified _ a.world p }

  fail_with-Keeps :
      {A : Type 0} (code message : String) (stage : Stage) (detail : String)
      → Keeps
          (InWorld Q)
          (fail_with ports service_id target_month {A = A} code message stage detail)
  unfolding fail_with
  fail_with-Keeps code message stage detail =
      Keeps-bind _ _ (emit-Keeps _ _) λ u. Keeps-bind _ _ (Keeps-gets _) λ es. Keeps-lift _

  complete-Keeps :
      {A : Type 0} (outcome : AcquisitionOutcome) (message : String) (item : Item)
      → Keeps (InWorld Q) (complete ports service_id target_month {A = A} outcome message item)
  unfolding complete
  complete-Keeps outcome message item =
      Keeps-bind _ _ (emit-Keeps _ _) λ u. Keeps-bind _ _ (Keeps-gets _) λ es. Keeps-lift _

  check_with-Keeps :
      (ask : Option (Call W Bool)) (stage : Stage)
      → ((f : Call W Bool) (w : W) → ask ≡ some f → Q w → Q (f w).1)
      → Keeps (InWorld Q) (check_with ports service_id target_month ask stage)
  unfolding check_with
  check_with-Keeps none stage h = Keeps-pure tt
  check_with-Keeps (some f) stage h =
      Keeps-bind _ _ (call-Keeps f (λ w. h f w refl))
        λ r. Keeps-cond (is_requested r) (fail_with-Keeps _ _ _ _) (Keeps-pure tt)

  check_cancelled-Keeps :
      (stage : Stage) → Keeps (InWorld Q) (check_cancelled ports service_id target_month stage)
  check_cancelled-Keeps stage =
      check_with-Keeps ports.cancellation_requested stage (λ f w. calm.asked f w)

  find_stored-Keeps :
      (service : ServiceDefinition)
      → Keeps (InWorld Q) (find_stored ports service_id target_month service)
  unfolding find_stored
  find_stored-Keeps service =
      Keeps-bind _ _ (call-Keeps ports.list_files calm.listed) λ r. Keeps-pure _

  check_drive-Keeps :
      (service : ServiceDefinition) (announcement code message found : String)
      → Keeps
          (InWorld Q)
          (check_drive ports service_id target_month service announcement code message found)
  unfolding check_drive
  check_drive-Keeps service announcement code message found = Keeps-bind _ _ (emit-Keeps _ _) λ u.
      Keeps-bind _ _ (find_stored-Keeps service) λ r.
        Keeps-result r (λ o. Keeps-option o (Keeps-pure tt) (λ item. complete-Keeps _ _ item))
          (λ e. fail_with-Keeps _ _ _ _)

  fetch_failed-Keeps :
      (error : Raised) → Keeps (InWorld Q) (fetch_failed ports service_id target_month error)
  unfolding fetch_failed
  fetch_failed-Keeps error =
      Keeps-if (contains action_required_challenge_kinds error.challenge_kind)
        (Keeps-bind _ _ (emit-Keeps _ _) λ u. Keeps-bind _ _ (Keeps-gets _) λ es. Keeps-lift _)
        (Keeps-if (error_code error "FETCH_FAILED" == "ACQUISITION_TIMEOUT")
          (fail_with-Keeps _ _ _ _)
          (Keeps-if (contains not_issued_codes (error_code error "FETCH_FAILED"))
            (fail_with-Keeps _ _ _ _) (fail_with-Keeps _ _ _ _)))

  pdf_content-Keeps :
      (content : Option (List ℕ)) (metadata_text : String)
      → Keeps (InWorld Q) (pdf_content ports service_id target_month content metadata_text)
  unfolding pdf_content
  pdf_content-Keeps none metadata_text = fail_with-Keeps _ _ _ _
  pdf_content-Keeps (some content) metadata_text =
      Keeps-if (has_pdf_mark 1024 content) (Keeps-pure _) (fail_with-Keeps _ _ _ _)

  fetch-Keeps : Keeps (InWorld Q) (fetch ports service_id target_month)
  unfolding fetch
  fetch-Keeps = Keeps-bind _ _ (emit-Keeps _ _) λ u.
      Keeps-bind _ _ (call-Keeps (ports.fetch_statement target_month) (calm.fetched target_month))
        λ r.
          Keeps-bind _ _
            (Keeps-result r (λ statement. Keeps-pure statement) (λ e. fetch_failed-Keeps e))
            λ st. pdf_content-Keeps st.content st.metadata_text

  extract-Keeps :
      (service : ServiceDefinition) (content : List ℕ) (metadata_text : String)
      → Keeps (InWorld Q) (extract ports service_id target_month service content metadata_text)
  unfolding extract
  extract-Keeps service content metadata_text = Keeps-bind _ _ (emit-Keeps _ _) λ u.
      Keeps-result (file_name_of ports target_month service content metadata_text)
        (λ name. Keeps-pure name) (λ e. fail_with-Keeps _ _ _ _)

  save-Keeps :
      (content : List ℕ) (file_name : String)
      → Keeps (InWorld Q) (save ports service_id target_month content file_name)
  unfolding save
  save-Keeps content file_name = Keeps-bind _ _ (emit-Keeps _ _) λ u.
      Keeps-bind _ _
        (call-Keeps (ports.upsert_bytes file_name content) (calm.uploaded file_name content))
        λ r.
          Keeps-result r (λ d. Keeps-pure tt)
            (λ e.
              Keeps-if (error_code e "DRIVE_SAVE_FAILED" == "ACQUISITION_CANCELLED")
                (Keeps-bind _ _ (check_cancelled-Keeps saving) λ v. fail_with-Keeps _ _ _ _)
                (fail_with-Keeps _ _ _ _))

  verify-Keeps :
      (service : ServiceDefinition)
      → Keeps (InWorld Q) (verify ports service_id target_month service)
  unfolding verify
  verify-Keeps service = Keeps-bind _ _ (emit-Keeps _ _) λ u.
      Keeps-bind _ _ (find_stored-Keeps service) λ r.
        Keeps-result r
          (λ o. Keeps-option o (fail_with-Keeps _ _ _ _) (λ item. complete-Keeps _ _ item))
          (λ e. fail_with-Keeps _ _ _ _)

  acquire-Keeps :
      (service : ServiceDefinition)
      → Keeps (InWorld Q) (acquire ports service_id target_month service)
  unfolding acquire
  acquire-Keeps service = Keeps-bind _ _ (check_cancelled-Keeps checking_drive) λ _.
      Keeps-bind _ _ (check_drive-Keeps service _ _ _ _) λ _.
        Keeps-bind _ _ (check_cancelled-Keeps fetching) λ _. Keeps-bind _ _ fetch-Keeps λ fetched.
          Keeps-bind _ _ (check_cancelled-Keeps fetching) λ _.
            Keeps-bind _ _ (extract-Keeps service fetched.0 fetched.1) λ file_name.
              Keeps-bind _ _ (check_drive-Keeps service _ _ _ _) λ _.
                Keeps-bind _ _ (check_cancelled-Keeps saving)
                  λ _. Keeps-bind _ _ (save-Keeps fetched.0 file_name) λ _. verify-Keeps service

  pub attempt-Keeps : Keeps (InWorld Q) (attempt ports service_id target_month)
  unfolding attempt
  attempt-Keeps =
      Keeps-option (checked_service service_id target_month) (fail_with-Keeps _ _ _ _)
        (λ service. acquire-Keeps service)
