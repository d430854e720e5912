-- ===== src/Worker/Ends/Services.antt =====
-- `_acquire_service` and a pass of `_process_job` of cloud/src/workers/runner.py come to an end.
use get_receipt.Base.{
  branches, ℕ, zero, suc, ◌<◌, String, Bool, true, false, Option, none, some, List, Result, err,
  ◌≢◌, ◌==◌, string_eq, contains,
}
use get_receipt.Base.Text.{strip}
use get_receipt.Base.Exec.{pure}
use get_receipt.Jobs.Payload.{Fields}
use get_receipt.Jobs.Model.{Job, state_eq, is_service_id}
use get_receipt.Acquisition.Report.{AcquisitionResult, success}
use get_receipt.Worker.State.{Office, Settings, Worker, Work, Trouble, out_of_rounds}
use get_receipt.Worker.Swaps.{first_open}
use get_receipt.Worker.Acquire.{
  answer_code, answer_interactive, answer_challenge, challenge_loop, activate, with_browser,
  acquire_service, is_action_required, kind_of, interactive_kinds,
}
use get_receipt.Worker.Process.{
  Next, go_on, done, finish_batch, start_service, record_completed, complete_service,
  settle_service, run_service, process_pass, process_job,
}
use get_receipt.Worker.Ends.Settled.{
  Settled, Settled-pure, Settled-from_store, Settled-cond, Settled-if, Settled-bind, Settles-option,
  outside-Settled, is_stopped-Settled, read_job-Settled, swap-Settled, set_intervention-Settled,
  finish_failed_result-Settled, run_attempt-Settled,
}
use get_receipt.Worker.Ends.Ticking.{Ticking}
use get_receipt.Worker.Ends.Owner.{wait_for_interactive-Settled}
use get_receipt.Worker.Ends.Code.{wait_for_code-Settled}

module _ {O : Type 0} (office : Office O) (settings : Settings) (ticking : Ticking office)
    (rounds : ℕ) (enough : settings.challenge_ttl < rounds) where
  answer_code-Settled :
      (job : Job) (service_id : String) (result : AcquisitionResult)
      → Settled (answer_code office settings rounds job service_id result)
  unfolding answer_code
  answer_code-Settled job service_id result s =
      Settles-option office.resume_after_security_code s
        (λ resume.
          Settled-bind _ _
            (wait_for_code-Settled office settings ticking rounds job.id service_id result enough)
            (λ response t.
              Settles-option response t
                (λ value.
                  Settled-bind _ _ (run_attempt-Settled office settings job service_id _)
                    (λ next. Settled-pure (some next)) t)
                (Settled-pure none t))
            s)
        (Settled-bind _ _ (set_intervention-Settled office settings job.id _ _)
          (λ u. Settled-pure none) s)

  answer_interactive-Settled :
      (job : Job) (service_id kind : String) (result : AcquisitionResult)
      → Settled (answer_interactive office settings rounds job service_id kind result)
  unfolding answer_interactive
  answer_interactive-Settled job service_id kind result =
      Settled-bind _ _
        (wait_for_interactive-Settled office settings ticking rounds job.id service_id kind result
          enough)
        (λ done.
          Settled-cond done
            (Settled-bind _ _ (run_attempt-Settled office settings job service_id _)
              (λ next. Settled-pure (some next)))
            (Settled-pure none))

  answer_challenge-Settled :
      (job : Job) (service_id : String) (result : AcquisitionResult)
      → Settled (answer_challenge office settings rounds job service_id result)
  unfolding answer_challenge
  answer_challenge-Settled job service_id result =
      Settled-if (kind_of office settings result == "verification_code")
        (answer_code-Settled job service_id result)
        (Settled-if (contains interactive_kinds (kind_of office settings result))
          (answer_interactive-Settled job service_id (kind_of office settings result) result)
          (Settled-bind _ _ (set_intervention-Settled office settings job.id _ _)
            (λ u. Settled-pure none)))

  challenge_loop-Settled :
      (left : ℕ) (job : Job) (service_id : String) (result : AcquisitionResult)
      → Settled (challenge_loop office settings rounds left job service_id result)
  unfolding challenge_loop
  challenge_loop-Settled zero job service_id result =
      Settled-cond (is_action_required office settings result.outcome)
        (Settled-bind _ _ (set_intervention-Settled office settings job.id _ _)
          (λ u. Settled-pure none))
        (Settled-pure (some result))
  challenge_loop-Settled (suc left) job service_id result =
      Settled-cond (is_action_required office settings result.outcome)
        (Settled-bind _ _ (answer_challenge-Settled job service_id result) (λ next t.
          Settles-option next t (λ r. challenge_loop-Settled left job service_id r t)
            (Settled-pure none t)))
        (Settled-pure (some result))

  with_browser-Settled :
      (job : Job) (service_id : String)
      → Settled (with_browser office settings rounds job service_id)
  unfolding with_browser activate
  with_browser-Settled job service_id = Settled-bind _ _ (outside-Settled office settings _) (λ u.
      Settled-bind _ _ (λ s. record { at = λ e. cc e })
        (λ v. Settled-bind _ _ (outside-Settled office settings _) (λ w.
          Settled-bind _ _ (run_attempt-Settled office settings job service_id _)
            (λ result. challenge_loop-Settled 3 job service_id result))))

  acquire_service-Settled :
      (job : Job) (service_id : String)
      → Settled (acquire_service office settings rounds job service_id)
  unfolding acquire_service
  acquire_service-Settled job service_id s = record {
    at =
        branches
          (λ (p : Result Trouble (Option AcquisitionResult) × Worker O). p.0 ≢ err out_of_rounds)
          (is_service_id (strip service_id)) _ _
          (λ h. (with_browser-Settled job (strip service_id) s).at) (λ h e. cc e);
  }

  start_service-Settled :
      (job : Job) (service_id : String) → Settled (start_service office settings job service_id)
  unfolding start_service
  start_service-Settled job service_id =
      Settled-if _ (swap-Settled office settings _ _ _ _) (Settled-pure job)

  record_completed-Settled :
      (job : Job) (service_id : String) → Settled (record_completed office settings job service_id)
  unfolding record_completed
  record_completed-Settled job service_id =
      Settled-bind _ _ (Settled-from_store _)
        (λ p. Settled-bind _ _ (swap-Settled office settings _ _ _ _) (λ u. Settled-pure _))

  complete_service-Settled :
      (job_id service_id : String) → Settled (complete_service office settings job_id service_id)
  unfolding complete_service
  complete_service-Settled job_id service_id =
      Settled-bind _ _ (read_job-Settled office settings job_id) (λ current.
        Settled-cond _ (Settled-pure done) (record_completed-Settled current service_id))

  settle_service-Settled :
      (job_id service_id : String) (result : Option AcquisitionResult)
      → Settled (settle_service office settings job_id service_id result)
  unfolding settle_service
  settle_service-Settled job_id service_id none = Settled-pure done
  settle_service-Settled job_id service_id (some result) =
      Settled-cond (success result) (complete_service-Settled job_id service_id) (
        Settled-bind _ _ (finish_failed_result-Settled office settings job_id service_id result)
          (λ continues. Settled-pure _))

  run_service-Settled :
      (job : Job) (service_id : String)
      → Settled (run_service office settings rounds job service_id)
  unfolding run_service
  run_service-Settled job service_id =
      Settled-bind _ _ (start_service-Settled job service_id) (λ started.
        Settled-bind _ _ (acquire_service-Settled started service_id)
          (λ result. settle_service-Settled started.id service_id result))

  finish_batch-Settled :
      (job : Job) (failed_ids : List String) (failures : Fields)
      → Settled (finish_batch office settings job failed_ids failures)
  unfolding finish_batch
  finish_batch-Settled job failed_ids failures =
      Settled-bind _ _ (swap-Settled office settings _ _ _ _) (λ u. Settled-pure done)

  process_pass-Settled : (job_id : String) → Settled (process_pass office settings rounds job_id)
  unfolding process_pass
  process_pass-Settled job_id = Settled-bind _ _ (read_job-Settled office settings job_id) (λ job.
      Settled-cond _ (Settled-pure done) (
        Settled-bind _ _ (Settled-from_store _) (λ p s.
          Settles-option (first_open job.service_ids job.completed p.0) s
            (λ service_id. run_service-Settled job service_id s)
            (finish_batch-Settled job p.0 p.1 s))))

  pub process_job-Settled :
      (passes : ℕ) (job_id : String) → Settled (process_job office settings rounds passes job_id)
  unfolding process_job
  process_job-Settled zero job_id = Settled-pure false
  process_job-Settled (suc passes) job_id =
      Settled-bind _ _ (is_stopped-Settled office settings) (λ stopped.
        Settled-cond stopped (Settled-pure true) (
          Settled-bind _ _ (process_pass-Settled job_id)
            (λ next. after next (process_job-Settled passes job_id))))
    where
      after :
          (next : Next) {again : Work O Bool}
          → Settled again
          → Settled (elim next [ done ↦ pure true | go_on ↦ again ])
      after done k = Settled-pure true
      after go_on k = k
