-- ===== src/Worker/Swaps.antt =====
-- The worker's reads and transitions of its job, in cloud/src/workers/runner.py.
use get_receipt.Base.{
  String, Bool, true, false, not, ◌&&◌, ◌||◌, Option, none, some, List, [], ◌∷◌, Result, ok, err,
  ◌==◌, string_eq, find?, contains,
}
use get_receipt.Base.Exec.{pure, lift, ◌>>=◌, ◌>>◌}
use get_receipt.Jobs.Payload.{dict, Fields, field, text, bool, end}
use get_receipt.Jobs.Model.{
  Job, JobState, state_eq, running, waiting_for_challenge, succeeded, failed, intervention_required,
  cancelled,
}
use get_receipt.Jobs.Store.Create.{get_job}
use get_receipt.Jobs.Store.Update.{Patch, compare_and_set}
use get_receipt.Acquisition.Report.{AcquisitionResult}
use get_receipt.Acquisition.Ports.{or_text}
use get_receipt.Worker.Failures.Codes.{public_failure_code}
use get_receipt.Worker.Failures.{
  is_non_continuable_failure, service_failure_result, batch_result, set_field, with_item,
  failure_message,
}
use get_receipt.Worker.State.{Office, Settings, Work, Trouble, on_store, clock, from_store}

-- `{"code": ..., "message": ..., "retryable": ...}`.
abbrev pub error_fields : String → String → Bool → Fields
error_fields code message retryable =
    field "code" (text code)
      (field "message" (text message) (field "retryable" (bool retryable) end))

abbrev pub to_state : JobState → Patch
to_state state = record {
  state = some state;
  completed = none;
  current = none;
  error = none;
  result = none;
}

abbrev pub to_running : String → Patch
to_running service_id = record (to_state running) { current = some (some service_id) }

abbrev pub to_waiting : String → Patch
to_waiting service_id = record (to_state waiting_for_challenge) { current = some (some service_id) }

abbrev pub to_failed : Fields → Patch
to_failed error = record (to_state failed) { error = some (some error) }

abbrev pub partial_error : Bool → Option Fields
partial_error true = some (error_fields "PARTIAL_ACQUISITION_FAILED" "一部サービスの自動取得を完了できませんでした。" true)
partial_error false = none

abbrev pub is_empty_list : List String → Bool
is_empty_list [] = true
is_empty_list (x ∷ xs) = false

-- The services that are neither completed nor failed, the first of them.
unfoldable pub first_open : List String → List String → List String → Option String
first_open service_ids completed failed_ids =
    find? (λ s. not (contains completed s) && not (contains failed_ids s)) service_ids

module _ {O : Type 0} (office : Office O) (settings : Settings) where
  -- `self.store.get_job(job_id, owner=...)`.
  unfoldable pub read_job : String → Work O Job
  read_job job_id = on_store office (get_job job_id settings.owner_id)

  -- `self.store.compare_and_set(...)`, with the version of the job that was read.
  unfoldable pub swap : Job → Patch → String → Fields → Work O Job
  swap job patch event_type payload = do
    now ← clock office
    on_store office
        (compare_and_set now job.id settings.owner_id job.version patch event_type payload)

  -- `_set_intervention`.
  unfoldable pub set_intervention : String → String → String → Work O (Unit {0})
  set_intervention job_id code message = do
    current ← read_job job_id
    elim (current.state == cancelled) [
      | true ↦ pure tt
      | false ↦ (do
        swap current
            (record (to_state intervention_required) {
              error = some (some (error_fields code message false));
            })
            "intervention_required" (field "error_code" (text code) end)
        pure tt)
    ]

  abbrev is_over : JobState → Bool
  is_over state =
      state == succeeded || state == failed || state == intervention_required || state == cancelled

  unfoldable pub mark_failed : String → Work O (Unit {0})
  mark_failed job_id = do
    current ← read_job job_id
    elim (is_over current.state) [
      | true ↦ pure tt
      | false ↦ (do
        swap current
            (to_failed (error_fields "WORKER_UNEXPECTED_ERROR" "常設ワーカーで予期しないエラーが発生しました。" true))
            "job_failed" (field "error_code" (text "WORKER_UNEXPECTED_ERROR") end)
        pure tt)
    ]

  -- `_fail_unexpected`: what is raised is logged only.
  unfoldable pub fail_unexpected : String → Work O (Unit {0})
  fail_unexpected job_id s = (ok tt, (mark_failed job_id s).1)

  abbrev is_cancelled : Result Trouble Job → Bool
  is_cancelled (ok job) = job.state == cancelled
  is_cancelled (err e) = true

  -- `_cancellation_requested`: a job that cannot be read counts as cancelled.
  unfoldable pub cancellation_requested : String → Work O Bool
  cancellation_requested job_id s = let (r, t) = read_job job_id s in (ok (is_cancelled r), t)

  abbrev failure_code : AcquisitionResult → String
  failure_code r = elim r.failure [
    | none ↦ "ACQUISITION_FAILED"
    | some f ↦ or_text f.code "ACQUISITION_FAILED"
  ]

  -- The end of `_finish_failed_result`: the service joins those that have failed.
  unfoldable pub note_failed : Job → String → String → Work O (Unit {0})
  note_failed current service_id code = do
    (failed_ids, failures) ← lift (from_store (service_failure_result current.result))
    let failed_ids' = with_item failed_ids service_id
    let failures' = set_field service_id (dict (error_fields code failure_message true)) failures
    swap current
        (record {
          state = some running;
          completed = none;
          current = some (first_open current.service_ids current.completed failed_ids');
          error = some none;
          result = some (some (batch_result current.completed failed_ids' failures'));
        })
        "service_failed" (field "service_id" (text service_id) (field "error_code" (text code) end))
    pure tt

  -- `_finish_failed_result`: whether the batch goes on.
  unfoldable pub finish_failed_result : String → String → AcquisitionResult → Work O Bool
  finish_failed_result job_id service_id result =
      let code = public_failure_code (failure_code result) in
      elim (code == "SECURITY_CHALLENGE") [
        | true ↦ (do set_intervention job_id code "未確認の追加認証が表示されたため、安全に停止しました。"; pure false)
        | false ↦ (do
          current ← read_job job_id
          elim (current.state == cancelled) [
            | true ↦ pure false
            | false ↦ elim (is_non_continuable_failure code) [
              | true ↦ (do
                swap current (to_failed (error_fields code "安全に続行できないため、自動取得を停止しました。" true))
                    "job_failed"
                    (field "error_code" (text code) (field "service_id" (text service_id) end))
                pure false)
              | false ↦ (do note_failed current service_id code; pure true)
            ]
          ])
      ]
