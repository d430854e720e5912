-- ===== src/Worker/Ends/Loop.antt =====
-- A pass of `_process_job` of cloud/src/workers/runner.py that goes on has closed a service, so the
-- loop ends within one pass more than the job has services.
use get_receipt.Base.{
  ℕ, ◌<◌, String, ◌≡◌, refl, sym, subst, Bool, true, false, not, Option, none, some, List, ◌==◌,
  string_eq, length, ok,
}
use get_receipt.Base.Exec.Ensures.{
  Ensures, Ensures-pure, Ensures-bind, Ensures-lift-bind, Ensures-cond, Ensures-if,
}
use get_receipt.Jobs.Payload.{Fields}
use get_receipt.Jobs.Model.{Job, state_eq, cancelled}
use get_receipt.Acquisition.Report.{AcquisitionResult}
use get_receipt.Worker.Failures.{service_failure_result}
use get_receipt.Worker.State.{Office, Settings, Worker}
use get_receipt.Worker.Swaps.{read_job, finish_failed_result, first_open}
use get_receipt.Worker.Process.{
  next_of, Next, go_on, complete_service, settle_service, start_service, run_service, finish_batch,
  process_pass,
}
use get_receipt.Worker.Keeps.{Allowed, On, gentle}
use get_receipt.Worker.Keeps.Service.{acquire_service-Keeps}
use get_receipt.Worker.Remaining.{
  is_open, RowsAre, Advancing, RowsAre-Allowed, failed_ids, Mild-Follows,
}
use get_receipt.Worker.Ends.{Fits, Fits-Upward, remove, length-remove, find?-contains}
use get_receipt.Worker.Ends.Reads.{read_job-Ensures, swap-Ensures, Keeps-after}
use get_receipt.Worker.Ends.Passes.{
  from_store-ids, Fit, Closed, Read, record_completed-Ensures, note_failed-Ensures,
}

module _ {O : Type 0} (office : Office O) (settings : Settings) (job_id : String)
    (advancing : Advancing office job_id) (services open_ids : List String) where
  abbrev Fitting : Worker O → Type 0
  Fitting = Fit office settings job_id advancing services open_ids

  abbrev ClosedBy : String → Worker O → Type 0
  ClosedBy = Closed office settings job_id advancing services open_ids

  -- A pass that goes on has closed `x`.
  abbrev Goes : String → Next → Worker O → Type 0
  Goes x next t = next ≡ go_on → ClosedBy x t

  allowed : Allowed office settings.owner_id (RowsAre job_id (Fits services open_ids))
  allowed =
      RowsAre-Allowed office settings.owner_id job_id (Fits services open_ids)
        (Fits-Upward services open_ids) advancing

  refreshed :
      (s : Worker O)
      → Fitting s
      → Ensures
          (read_job office settings job_id)
          s
          (λ job t. Read office settings job_id advancing services open_ids job t)
  refreshed s p =
      read_job-Ensures office settings job_id advancing (Fits services open_ids) s
        (Fits-Upward services open_ids) p

  finish_failed_result-Ensures :
      (x : String) (result : AcquisitionResult) (s : Worker O)
      → Fitting s
      → Ensures
          (finish_failed_result office settings job_id x result)
          s
          (λ continues t. continues ≡ true → ClosedBy x t)
  unfolding finish_failed_result
  finish_failed_result-Ensures x result s p =
      Ensures-cond _ s (Ensures-bind _ _ _ λ u t h. Ensures-pure _ _ λ e. cc e) (
        Ensures-bind _ _ _ λ current t h. Ensures-cond _ t (Ensures-pure _ _ λ e. cc e) (
          Ensures-cond _ t (Ensures-bind _ _ _ λ u v k. Ensures-pure _ _ λ e. cc e) (
            Ensures-bind _ _ _ λ u v k. Ensures-pure _ _ λ e.
              (note_failed-Ensures office settings job_id advancing services open_ids current x _ t
                  ((refreshed s p).at current t h)).at
                u v k)))

  complete_service-Ensures :
      (x : String) (s : Worker O)
      → Fitting s
      → Ensures (complete_service office settings job_id x) s (Goes x)
  unfolding complete_service
  complete_service-Ensures x s p = Ensures-bind _ _ _ λ current t h.
      Ensures-cond _ t (Ensures-pure _ _ λ e. cc e) (
        record_completed-Ensures office settings job_id advancing services open_ids current x t
          ((refreshed s p).at current t h))

  settle_service-Ensures :
      (x : String) (result : Option AcquisitionResult) (s : Worker O)
      → Fitting s
      → Ensures (settle_service office settings job_id x result) s (Goes x)
  unfolding settle_service
  settle_service-Ensures x none s p = Ensures-pure _ _ λ e. cc e
  settle_service-Ensures x (some result) s p = Ensures-cond _ s (complete_service-Ensures x s p) (
      Ensures-bind _ _ _ λ continues t h.
        Ensures-pure _ _
          λ e. (finish_failed_result-Ensures x result s p).at continues t h (was_true continues e))
    where
      was_true : (b : Bool) → next_of office settings (not b) ≡ go_on → b ≡ true
      was_true true e = refl
      was_true false e = cc e

  -- The start of a service leaves the job as it was read, or a version of it with the same services.
  start_service-Ensures :
      (job : Job) (x : String) (s : Worker O)
      → Read office settings job_id advancing services open_ids job s
      → Ensures
          (start_service office settings job x)
          s
          (λ started t. (started.id ≡ job_id) × Fitting t)
  unfolding start_service
  start_service-Ensures job x s r =
      Ensures-if _ s
        (swap-Ensures office settings job_id advancing job _ _ _ (Fits services open_ids) s r.named
          (λ now.
            (Fits-Upward services open_ids).at job _
              (Mild-Follows _ now job (gentle refl refl refl)) r.held)
          r.since)
        (Ensures-pure job s (r.named, r.rows))

  run_service-Ensures :
      (rounds : ℕ) (job : Job) (x : String) (s : Worker O)
      → Read office settings job_id advancing services open_ids job s
      → Ensures (run_service office settings rounds job x) s (Goes x)
  unfolding run_service
  run_service-Ensures rounds job x s r = Ensures-bind _ _ _ λ started t h.
      let (named, p) = (start_service-Ensures job x s r).at started t h in
      Ensures-bind _ _ _ λ result u k.
        let q =
          Keeps-after t u (ok result)
            (acquire_service-Keeps office settings (RowsAre job_id (Fits services open_ids)) allowed
              rounds started x)
            p k in
        subst (λ (i : String). Ensures (settle_service office settings i x result) u (Goes x))
          (sym named) (settle_service-Ensures x result u q)

  -- A pass that goes on leaves fewer services.
  abbrev pub Shorter : Next → Worker O → Type 0
  Shorter next t =
      next ≡ go_on
      → (rest : List String) × (length rest < length open_ids)
        × On (RowsAre job_id (Fits services rest)) t

  after_choice :
      (rounds : ℕ) (job : Job) (failed : List String) (failures : Fields) (s : Worker O)
      (choice : Option String)
      → Read office settings job_id advancing services open_ids job s
      → failed_ids job.result ≡ failed
      → first_open job.service_ids job.completed failed ≡ choice
      → Ensures
          (elim choice [
            | none ↦ finish_batch office settings job failed failures
            | some x ↦ run_service office settings rounds job x
          ])
          s
          Shorter
  unfolding finish_batch first_open
  after_choice rounds job failed failures s none r e c =
      Ensures-bind _ _ _ λ u t h. Ensures-pure _ _ λ g. cc g
  after_choice rounds job failed failures s (some x) r e c =
      let (listed, test) = find?-contains _ job.service_ids x c in
      let still_open : is_open job x ≡ true = rw (listed, e) test in
      record {
        at = λ next t h g. (
          remove x open_ids,
          length-remove x open_ids (r.held.within x still_open),
          (run_service-Ensures rounds job x s r).at next t h g,
        );
      }

  pub process_pass-Ensures :
      (rounds : ℕ) (s : Worker O)
      → Fitting s
      → Ensures (process_pass office settings rounds job_id) s Shorter
  unfolding process_pass
  process_pass-Ensures rounds s p = Ensures-bind _ _ _ λ job t h.
      Ensures-cond (job.state == cancelled) t (Ensures-pure _ _ λ g. cc g) (
        Ensures-lift-bind _ _ _ λ found e.
          after_choice rounds job found.0 found.1 t _ ((refreshed s p).at job t h)
            (from_store-ids (service_failure_result job.result) found e) refl)
