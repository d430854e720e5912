-- ===== src/Worker/Process.antt =====
-- `_process_job` and `run_once` of cloud/src/workers/runner.py.
use get_receipt.Base.{
  ℕ, zero, suc, String, Bool, true, false, not, ◌&&◌, ◌||◌, Option, none, some, List, Result, ok,
  err, ◌==◌, string_eq, if◌then◌else◌,
}
use get_receipt.Base.Exec.{pure, lift, ◌>>=◌, ◌>>◌}
use get_receipt.Jobs.Payload.{Fields, version_conflict, field, text, bool, arr, end, to_items}
use get_receipt.Jobs.Model.{
  Job, JobState, state_eq, running, succeeded, failed, intervention_required, cancelled,
}
use get_receipt.Jobs.Store.Claim.{claim_next}
use get_receipt.Acquisition.Report.{AcquisitionResult, success}
use get_receipt.Worker.Failures.{service_failure_result, batch_result, with_item}
use get_receipt.Worker.State.{
  Office, Settings, Worker, Work, Trouble, of_store, out_of_rounds, from_store, on_store, clock,
  outside, is_stopped,
}
use get_receipt.Worker.Swaps.{
  to_running, partial_error, is_empty_list, first_open, read_job, swap, fail_unexpected,
  finish_failed_result,
}
use get_receipt.Worker.Acquire.{acquire_service}

pub data Next : Type 0 where
  go_on done : Next

module _ {O : Type 0} (office : Office O) (settings : Settings) where
  abbrev pub finished_state : Bool → JobState
  finished_state true = failed
  finished_state false = succeeded

  abbrev finished_event : Bool → String
  finished_event true = "job_partially_failed"
  finished_event false = "job_succeeded"

  -- No service remains.
  unfoldable pub finish_batch : Job → List String → Fields → Work O Next
  finish_batch job failed_ids failures = do
    let has_failures = not (is_empty_list failed_ids)
    swap office settings job
        (record {
          state = some (finished_state has_failures);
          completed = none;
          current = some none;
          error = some (partial_error has_failures);
          result = some (some (batch_result job.completed failed_ids failures));
        })
        (finished_event has_failures)
        (field "completed_service_ids" (arr (to_items job.completed))
          (field "failed_service_ids" (arr (to_items failed_ids)) end))
    pure done

  abbrev is_current : Option String → String → Bool
  is_current none service_id = false
  is_current (some s) service_id = s == service_id

  unfoldable pub start_service : Job → String → Work O Job
  start_service job service_id =
      if not (job.state == running) || not (is_current job.current service_id)
      then swap office settings job (to_running service_id) "service_started"
          (field "service_id" (text service_id) end)
      else pure job

  abbrev pub completed_state : Option String → Bool → JobState
  completed_state (some s) has_failures = running
  completed_state none has_failures = finished_state has_failures

  abbrev pub is_terminal : Option String → Bool
  is_terminal none = true
  is_terminal (some s) = false

  abbrev pub next_of : Bool → Next
  next_of true = done
  next_of false = go_on

  -- The transition after a service that succeeded.
  unfoldable pub record_completed : Job → String → Work O Next
  record_completed current service_id = do
    let completed = with_item current.completed service_id
    (failed_ids, failures) ← lift (from_store (service_failure_result current.result))
    let next_service = first_open current.service_ids completed failed_ids
    let has_failures = not (is_empty_list failed_ids)
    let terminal = is_terminal next_service
    swap office settings current
        (record {
          state = some (completed_state next_service has_failures);
          completed = some completed;
          current = some next_service;
          error = some (partial_error (terminal && has_failures));
          result = some (some (batch_result completed failed_ids failures));
        })
        "service_completed"
        (field "service_id" (text service_id) (field "job_terminal" (bool terminal) end))
    pure (next_of terminal)

  unfoldable pub complete_service : String → String → Work O Next
  complete_service job_id service_id = do
    current ← read_job office settings job_id
    elim (current.state == cancelled
        || current.state == failed
        || current.state == intervention_required) [
          | true ↦ pure done
          | false ↦ record_completed current service_id
        ]

  -- What follows the acquisition of a service.
  unfoldable pub settle_service : String → String → Option AcquisitionResult → Work O Next
  settle_service job_id service_id none = pure done
  settle_service job_id service_id (some result) = elim (success result) [
    | true ↦ complete_service job_id service_id
    | false ↦ (do
      continues ← finish_failed_result office settings job_id service_id result
      pure (next_of (not continues)))
  ]

  unfoldable pub run_service : ℕ → Job → String → Work O Next
  run_service rounds job service_id = do
    started ← start_service job service_id
    result ← acquire_service office settings rounds started service_id
    settle_service started.id service_id result

  -- One pass of the loop of `_process_job`.
  unfoldable pub process_pass : ℕ → String → Work O Next
  process_pass rounds job_id = do
    job ← read_job office settings job_id
    elim (job.state == cancelled) [
      | true ↦ pure done
      | false ↦ (do
        (failed_ids, failures) ← lift (from_store (service_failure_result job.result))
        elim (first_open job.service_ids job.completed failed_ids) [
          | none ↦ finish_batch job failed_ids failures
          | some service_id ↦ run_service rounds job service_id
        ])
    ]

  -- `_process_job`, for a number of passes: whether the loop has ended within them.
  unfoldable pub process_job : ℕ → ℕ → String → Work O Bool
  process_job rounds zero job_id = pure false
  process_job rounds (suc passes) job_id = do
    stopped ← is_stopped office
    elim stopped [
      | true ↦ pure true
      | false ↦ (do
        next ← process_pass rounds job_id
        elim next [ done ↦ pure true | go_on ↦ process_job rounds passes job_id ])
    ]

  abbrev pub ended : Bool → Work O (Unit {0})
  ended true = pure tt
  ended false = lift (err out_of_rounds)

  -- The `except` clauses of `run_once`.
  unfoldable pub absorb :
      String → Result Trouble (Unit {0}) × Worker O → Result Trouble Bool × Worker O
  absorb job_id (ok u, s) = (ok true, s)
  absorb job_id (err (of_store version_conflict), s) = (ok true, s)
  absorb job_id (err out_of_rounds, s) = (err out_of_rounds, s)
  absorb job_id (err e, s) = (ok true, (fail_unexpected office settings job_id s).1)

  unfoldable pub set_active : String → Worker O → Worker O
  set_active job_id s = record s { active_job_id = job_id }

  unfoldable pub run_job : ℕ → ℕ → Option Job → Work O Bool
  run_job rounds passes none s = (ok false, s)
  run_job rounds passes (some job) s =
      let (r, t) = absorb job.id (
        (outside office.storage_factory >> (process_job rounds passes job.id >>= ended))
          (set_active job.id s)) in
      (r, set_active "" t)

  -- `run_once`.
  unfoldable pub run_once : ℕ → ℕ → Work O Bool
  run_once rounds passes = do
    now ← clock office
    claimed ← on_store office (claim_next now settings.owner_id)
    run_job rounds passes claimed
