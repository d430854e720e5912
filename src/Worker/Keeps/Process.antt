-- ===== src/Worker/Keeps/Process.antt =====
-- Processing a job leaves true whatever every call of the store and the other threads leave true.
use get_receipt.Base.{
  Bool, true, false, ok, err, Result, ℕ, zero, suc, String, Option, none, some, List, ◌==◌,
  string_eq,
}
use get_receipt.Base.Exec.{pure}
use get_receipt.Base.Exec.Keeps.{
  Keeps, Keeps-pure, Keeps-lift, Keeps-cond, Keeps-if, Keeps-bind, Keeps-option,
}
use get_receipt.Jobs.Payload.{
  Fields, value_error, type_error, integrity_error, job_not_found, version_conflict,
  idempotency_conflict,
}
use get_receipt.Jobs.Model.{Job, state_eq, cancelled}
use get_receipt.Jobs.Store.Rows.{Db}
use get_receipt.Jobs.Store.Update.{Patch, compare_and_set}
use get_receipt.Jobs.Store.Claim.{claim_next}
use get_receipt.Jobs.Store.Reachable.{claimed, Step, swapped, posed}
use get_receipt.Acquisition.Report.{AcquisitionResult}
use get_receipt.Worker.State.{
  of_store, unexpected, out_of_rounds, Trouble, Office, Settings, Work, Common,
}
use get_receipt.Worker.Swaps.{
  fail_unexpected, mark_failed, read_job, swap, note_failed, finish_failed_result,
}
use get_receipt.Worker.Process.{
  ended, set_active, run_once, absorb, run_job, finish_batch, start_service, record_completed,
  complete_service, settle_service, run_service, process_pass, process_job, Next, go_on, done,
}
use get_receipt.Worker.Keeps.{
  Worker, On, Allowed, read_job-Keeps, set_intervention-Keeps, on_store-Keeps, clock-Keeps,
  is_stopped-Keeps,
}
use get_receipt.Worker.Keeps.Service.{outside-Keeps, acquire_service-Keeps}

-- The other threads and every call of the store leave `P` true.
pub record Lasting {O : Type 0} (office : Office O) (P : Db → Type 0) : Type 0 where
  pub others : (o : O) (c : Common) → P c.db → P ((office.others o).0 c).db
  pub stepped : {db t : Db} → Step db t → P db → P t

module _ {O : Type 0} (office : Office O) (settings : Settings) (P : Db → Type 0)
    (lasting : Lasting office P) where
  allowed : Allowed office settings.owner_id P
  allowed = record {
    others = lasting.others;
    swapped = λ now job_id version patch event_type payload db mild p.
        lasting.stepped (swapped now version job_id settings.owner_id patch event_type payload) p;
    posed = λ challenge db p. lasting.stepped (posed challenge settings.owner_id) p;
  }

  swap-lasts :
      (job : Job) (patch : Patch) (event_type : String) (payload : Fields)
      → Keeps (On P) (swap office settings job patch event_type payload)
  unfolding swap
  swap-lasts job patch event_type payload =
      Keeps-bind _ _ (clock-Keeps office settings P allowed) λ now.
        on_store-Keeps office settings P allowed
          (compare_and_set now job.id settings.owner_id job.version patch event_type payload)
          (λ db p.
            lasting.stepped
              (swapped now job.version job.id settings.owner_id patch event_type payload) p)

  read : (job_id : String) → Keeps (On P) (read_job office settings job_id)
  read job_id = read_job-Keeps office settings P allowed job_id

  note_failed-Keeps :
      (current : Job) (service_id code : String)
      → Keeps (On P) (note_failed office settings current service_id code)
  unfolding note_failed
  note_failed-Keeps current service_id code =
      Keeps-bind _ _ (Keeps-lift _) λ found. Keeps-bind _ _ (swap-lasts _ _ _ _) λ u. Keeps-pure tt

  finish_failed_result-Keeps :
      (job_id service_id : String) (result : AcquisitionResult)
      → Keeps (On P) (finish_failed_result office settings job_id service_id result)
  unfolding finish_failed_result
  finish_failed_result-Keeps job_id service_id result =
      Keeps-cond _
        (Keeps-bind _ _ (set_intervention-Keeps office settings P allowed _ _ _) λ u. Keeps-pure _)
        (Keeps-bind _ _ (read job_id) λ current. Keeps-cond _ (Keeps-pure _) (
          Keeps-cond _ (Keeps-bind _ _ (swap-lasts _ _ _ _) λ u. Keeps-pure _)
            (Keeps-bind _ _ (note_failed-Keeps _ _ _) λ u. Keeps-pure _)))

  finish_batch-Keeps :
      (job : Job) (failed_ids : List String) (failures : Fields)
      → Keeps (On P) (finish_batch office settings job failed_ids failures)
  unfolding finish_batch
  finish_batch-Keeps job failed_ids failures = Keeps-bind _ _ (swap-lasts _ _ _ _) λ u. Keeps-pure _

  start_service-Keeps :
      (job : Job) (service_id : String)
      → Keeps (On P) (start_service office settings job service_id)
  unfolding start_service
  start_service-Keeps job service_id = Keeps-if _ (swap-lasts _ _ _ _) (Keeps-pure job)

  record_completed-Keeps :
      (current : Job) (service_id : String)
      → Keeps (On P) (record_completed office settings current service_id)
  unfolding record_completed
  record_completed-Keeps current service_id =
      Keeps-bind _ _ (Keeps-lift _) λ found. Keeps-bind _ _ (swap-lasts _ _ _ _) λ u. Keeps-pure _

  complete_service-Keeps :
      (job_id service_id : String)
      → Keeps (On P) (complete_service office settings job_id service_id)
  unfolding complete_service
  complete_service-Keeps job_id service_id =
      Keeps-bind _ _ (read job_id)
        λ current. Keeps-cond _ (Keeps-pure done) (record_completed-Keeps current service_id)

  settle_service-Keeps :
      (job_id service_id : String) (result : Option AcquisitionResult)
      → Keeps (On P) (settle_service office settings job_id service_id result)
  unfolding settle_service
  settle_service-Keeps job_id service_id none = Keeps-pure done
  settle_service-Keeps job_id service_id (some result) =
      Keeps-cond _ (complete_service-Keeps job_id service_id)
        (Keeps-bind _ _ (finish_failed_result-Keeps job_id service_id result) λ b. Keeps-pure _)

  run_service-Keeps :
      (rounds : ℕ) (job : Job) (service_id : String)
      → Keeps (On P) (run_service office settings rounds job service_id)
  unfolding run_service
  run_service-Keeps rounds job service_id =
      Keeps-bind _ _ (start_service-Keeps job service_id) λ started.
        Keeps-bind _ _ (acquire_service-Keeps office settings P allowed rounds started service_id)
          λ result. settle_service-Keeps started.id service_id result

  process_pass-Keeps :
      (rounds : ℕ) (job_id : String) → Keeps (On P) (process_pass office settings rounds job_id)
  unfolding process_pass
  process_pass-Keeps rounds job_id = Keeps-bind _ _ (read job_id) λ job.
      Keeps-cond (job.state == cancelled) (Keeps-pure done) (
        Keeps-bind _ _ (Keeps-lift _) λ found.
          Keeps-option _ (finish_batch-Keeps job found.0 found.1)
            (λ service_id. run_service-Keeps rounds job service_id))

  after_pass-Keeps :
      (next : Next) {m : Work O Bool}
      → Keeps (On P) m
      → Keeps (On P) (elim next [ done ↦ pure true | go_on ↦ m ])
  after_pass-Keeps done h = Keeps-pure true
  after_pass-Keeps go_on h = h

  process_job-Keeps :
      (rounds passes : ℕ) (job_id : String)
      → Keeps (On P) (process_job office settings rounds passes job_id)
  unfolding process_job
  process_job-Keeps rounds zero job_id = Keeps-pure false
  process_job-Keeps rounds (suc passes) job_id =
      Keeps-bind _ _ (is_stopped-Keeps office settings P allowed) λ stopped.
        Keeps-cond stopped (Keeps-pure true) (
          Keeps-bind _ _ (process_pass-Keeps rounds job_id)
            λ next. after_pass-Keeps next (process_job-Keeps rounds passes job_id))

  mark_failed-Keeps : (job_id : String) → Keeps (On P) (mark_failed office settings job_id)
  unfolding mark_failed
  mark_failed-Keeps job_id = Keeps-bind _ _ (read job_id) λ current.
      Keeps-cond _ (Keeps-pure tt) (Keeps-bind _ _ (swap-lasts _ _ _ _) λ u. Keeps-pure tt)

  fail_unexpected-keeps :
      (job_id : String) (s : Worker O) → On P s → On P (fail_unexpected office settings job_id s).1
  unfolding fail_unexpected
  fail_unexpected-keeps job_id s p = (mark_failed-Keeps job_id).at s p

  absorb-keeps :
      (job_id : String) (r : Result Trouble (Unit {0})) (s : Worker O)
      → On P s
      → On P (absorb office settings job_id (r, s)).1
  unfolding absorb
  absorb-keeps job_id (ok u) s p = p
  absorb-keeps job_id (err (of_store value_error)) s p = fail_unexpected-keeps job_id s p
  absorb-keeps job_id (err (of_store type_error)) s p = fail_unexpected-keeps job_id s p
  absorb-keeps job_id (err (of_store integrity_error)) s p = fail_unexpected-keeps job_id s p
  absorb-keeps job_id (err (of_store job_not_found)) s p = fail_unexpected-keeps job_id s p
  absorb-keeps job_id (err (of_store version_conflict)) s p = p
  absorb-keeps job_id (err (of_store idempotency_conflict)) s p = fail_unexpected-keeps job_id s p
  absorb-keeps job_id (err unexpected) s p = fail_unexpected-keeps job_id s p
  absorb-keeps job_id (err out_of_rounds) s p = p

  ended-Keeps : (b : Bool) → Keeps (On P) (ended office settings b)
  ended-Keeps true = Keeps-pure tt
  ended-Keeps false = Keeps-lift _

  run_job-Keeps :
      (rounds passes : ℕ) (claimed : Option Job)
      → Keeps (On P) (run_job office settings rounds passes claimed)
  unfolding run_job set_active
  run_job-Keeps rounds passes none = record { at = λ s p. p }
  run_job-Keeps rounds passes (some job) = record {
    at = λ s p. absorb-keeps job.id _ _ (
        (Keeps-bind _ _ (outside-Keeps P office.storage_factory)
            λ u. Keeps-bind _ _ (process_job-Keeps rounds passes job.id) ended-Keeps).at
          (set_active office settings job.id s) p);
  }

  -- Whatever else a run does, returns or raises.
  pub run_once-Keeps : (rounds passes : ℕ) → Keeps (On P) (run_once office settings rounds passes)
  unfolding run_once
  run_once-Keeps rounds passes = Keeps-bind _ _ (clock-Keeps office settings P allowed) λ now.
      Keeps-bind _ _
        (on_store-Keeps office settings P allowed (claim_next now settings.owner_id)
          (λ db p. lasting.stepped (claimed now settings.owner_id) p))
        λ job. run_job-Keeps rounds passes job
