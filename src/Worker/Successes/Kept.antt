-- ===== src/Worker/Successes/Kept.antt =====
-- `_process_job` of cloud/src/workers/runner.py keeps the tables sound, also when it raises.
use get_receipt.Base.{
  ℕ, zero, suc, String, ◌≡◌, refl, subst, sym, Bool, true, false, Option, none, some, List, ok,
  ◌==◌, string_eq,
}
use get_receipt.Base.Exec.{pure, ◌>>=◌}
use get_receipt.Base.Exec.Ensures.{Ensures, Ensures-if, Ensures-pure}
use get_receipt.Base.Exec.Keeps.{
  KeepsFrom, KeepsFrom-bind, KeepsFrom-lift-bind, KeepsFrom-pure, KeepsFrom-Keeps, KeepsFrom-cond,
  KeepsFrom-if,
}
use get_receipt.Jobs.Payload.{Fields}
use get_receipt.Jobs.Model.{Job, state_eq, cancelled}
use get_receipt.Jobs.Store.Create.{get_job}
use get_receipt.Acquisition.Report.{AcquisitionResult}
use get_receipt.Worker.State.{Office, Settings, Worker, Work, Common, let_others}
use get_receipt.Jobs.Store.Update.{Patch}
use get_receipt.Worker.Swaps.{swap, read_job, first_open, finish_failed_result}
use get_receipt.Worker.Process.{
  Next, go_on, done, complete_service, settle_service, start_service, run_service, finish_batch,
  process_pass, process_job,
}
use get_receipt.Worker.Keeps.{
  Allowed, read_job-Keeps, set_intervention-Keeps, swap-Keeps, is_stopped-Keeps, gentle,
}
use get_receipt.Worker.Keeps.Service.{acquire_service-Keeps}
use get_receipt.Worker.Remaining.{RowsAre, Advancing}
use get_receipt.Worker.Ends.Reads.{Reading, get_job-Reading, on_store-ok, swap-Ensures}
use get_receipt.Worker.Successes.{
  Complete, Sound, allowed_rows, note_failed-Sound, finish_batch-Sound, record_completed-Sound,
}

module _ {O : Type 0} (office : Office O) (settings : Settings) (job_id : String)
    (advancing : Advancing office job_id)
    (kept : (o : O) (c : Common)
      → RowsAre job_id Complete c.db
      → RowsAre job_id Complete ((office.others o).0 c).db) where
  abbrev P : Worker O → Type 0
  P = Sound office settings job_id advancing kept

  allowed : Allowed office settings.owner_id (RowsAre job_id Complete)
  allowed = allowed_rows office settings job_id advancing kept

  read_job-Reading :
      (s t : Worker O) (job : Job)
      → P s
      → read_job office settings job_id s ≡ (ok job, t)
      → Reading job_id Complete job t.common.db
  unfolding read_job let_others
  read_job-Reading s t job p h =
      get_job-Reading job_id settings.owner_id Complete ((office.others s.outer).0 s.common).db
        t.common.db job (kept s.outer s.common p)
        (on_store-ok office (get_job job_id settings.owner_id) s t job h)

  -- A read, and what follows it.
  after_read :
      {A : Type 0} (f : Job → Work O A) (s : Worker O)
      → P s
      → ((job : Job) (t : Worker O)
          → Reading job_id Complete job t.common.db
          → KeepsFrom P t (f job))
      → KeepsFrom P s (read_job office settings job_id >>= f)
  after_read f s p k =
      KeepsFrom-bind _ _ s
        (KeepsFrom-Keeps _ s
          (read_job-Keeps office settings (RowsAre job_id Complete) allowed job_id) p)
        λ job t h q. k job t (read_job-Reading s t job p h)

  finish_failed_result-Sound :
      (x : String) (result : AcquisitionResult) (s : Worker O)
      → P s
      → KeepsFrom P s (finish_failed_result office settings job_id x result)
  unfolding finish_failed_result
  finish_failed_result-Sound x result s p =
      KeepsFrom-cond _ s
        (KeepsFrom-bind _ _ s
          (KeepsFrom-Keeps _ s
            (set_intervention-Keeps office settings (RowsAre job_id Complete) allowed _ _ _) p)
          λ u t h q. KeepsFrom-pure _ t q)
        (after_read _ s p λ current t r. KeepsFrom-cond _ t (KeepsFrom-pure _ t r.rows) (
          KeepsFrom-cond _ t
            (KeepsFrom-bind _ _ t
              (KeepsFrom-Keeps _ t
                (swap-Keeps office settings (RowsAre job_id Complete) allowed _ _ _ _
                  (gentle refl refl refl))
                r.rows)
              λ u v h q. KeepsFrom-pure _ v q)
            (KeepsFrom-bind _ _ t
              (note_failed-Sound office settings job_id advancing kept current x _ t r)
              λ u v h q. KeepsFrom-pure _ v q)))

  settle_service-Sound :
      (x : String) (result : Option AcquisitionResult) (s : Worker O)
      → P s
      → KeepsFrom P s (settle_service office settings job_id x result)
  unfolding settle_service complete_service
  settle_service-Sound x none s p = KeepsFrom-pure _ s p
  settle_service-Sound x (some result) s p =
      KeepsFrom-cond _ s
        (after_read _ s p λ current t r.
          KeepsFrom-cond _ t (KeepsFrom-pure _ t r.rows)
            (record_completed-Sound office settings job_id advancing kept current x t r))
        (KeepsFrom-bind _ _ s (finish_failed_result-Sound x result s p)
          λ u t h q. KeepsFrom-pure _ t q)

  swap_named :
      (job : Job) (patch : Patch) (event_type : String) (payload : Fields) (s : Worker O)
      → Reading job_id Complete job s.common.db
      → Ensures (swap office settings job patch event_type payload) s (λ u t. u.id ≡ job_id)
  swap_named job patch event_type payload s r = record {
    at = λ u t h.
        ((swap-Ensures office settings job_id advancing job patch event_type payload (λ j. Unit) s
            r.named (λ now. tt) r.since).at
          u t h).0;
  }

  start_service_named :
      (job : Job) (x : String) (s : Worker O)
      → Reading job_id Complete job s.common.db
      → Ensures (start_service office settings job x) s (λ started t. started.id ≡ job_id)
  unfolding start_service
  start_service_named job x s r =
      Ensures-if _ s (swap_named job _ _ _ s r) (Ensures-pure job s r.named)

  start_service-Sound :
      (job : Job) (x : String) (s : Worker O)
      → Reading job_id Complete job s.common.db
      → KeepsFrom P s (start_service office settings job x)
  unfolding start_service
  start_service-Sound job x s r =
      KeepsFrom-if _ s
        (KeepsFrom-Keeps _ s
          (swap-Keeps office settings (RowsAre job_id Complete) allowed _ _ _ _
            (gentle refl refl refl))
          r.rows)
        (KeepsFrom-pure job s r.rows)

  run_service-Sound :
      (rounds : ℕ) (job : Job) (x : String) (s : Worker O)
      → Reading job_id Complete job s.common.db
      → KeepsFrom P s (run_service office settings rounds job x)
  unfolding run_service
  run_service-Sound rounds job x s r =
      KeepsFrom-bind _ _ s (start_service-Sound job x s r) λ started t h p.
        KeepsFrom-bind _ _ t
          (KeepsFrom-Keeps _ t
            (acquire_service-Keeps office settings (RowsAre job_id Complete) allowed rounds started
              x)
            p)
          λ result u k q.
            subst (λ (i : String). KeepsFrom P u (settle_service office settings i x result))
              (sym ((start_service_named job x s r).at started t h))
              (settle_service-Sound x result u q)

  after_choice :
      (rounds : ℕ) (job : Job) (failed : List String) (failures : Fields) (s : Worker O)
      (choice : Option String)
      → Reading job_id Complete job s.common.db
      → first_open job.service_ids job.completed failed ≡ choice
      → KeepsFrom P s (elim choice [
        | none ↦ finish_batch office settings job failed failures
        | some x ↦ run_service office settings rounds job x
      ])
  after_choice rounds job failed failures s none r e =
      finish_batch-Sound office settings job_id advancing kept job failed failures s r e
  after_choice rounds job failed failures s (some x) r e = run_service-Sound rounds job x s r

  process_pass-Sound :
      (rounds : ℕ) (s : Worker O) → P s → KeepsFrom P s (process_pass office settings rounds job_id)
  unfolding process_pass
  process_pass-Sound rounds s p = after_read _ s p λ job t r.
      KeepsFrom-cond (job.state == cancelled) t (KeepsFrom-pure done t r.rows) (
        KeepsFrom-lift-bind _ _ t r.rows
          λ found e. after_choice rounds job found.0 found.1 t _ r refl)

  behind_pass :
      (next : Next) (s : Worker O) (again : Work O Bool)
      → P s
      → KeepsFrom P s again
      → KeepsFrom P s (elim next [ done ↦ pure true | go_on ↦ again ])
  behind_pass done s again p k = KeepsFrom-pure true s p
  behind_pass go_on s again p k = k

  process_job-Sound :
      (rounds passes : ℕ) (s : Worker O)
      → P s
      → KeepsFrom P s (process_job office settings rounds passes job_id)
  unfolding process_job
  process_job-Sound rounds zero s p = KeepsFrom-pure false s p
  process_job-Sound rounds (suc passes) s p =
      KeepsFrom-bind _ _ s
        (KeepsFrom-Keeps _ s (is_stopped-Keeps office settings (RowsAre job_id Complete) allowed) p)
        λ stopped t h q. KeepsFrom-cond stopped t (KeepsFrom-pure true t q) (
          KeepsFrom-bind _ _ t (process_pass-Sound rounds t q)
            λ next u k v. behind_pass next u _ v (process_job-Sound rounds passes u v))

module _ {O : Type 0} (office : Office O) (settings : Settings) (job_id : String) where
  -- When the other threads change the job only to later versions of it, and keep the tables well formed
  -- and the job complete when it has succeeded, so does the loop over the job, whether it returns or
  -- raises: it makes no job a success that has a service which is not completed.
  pub process_job-Complete :
      (rounds passes : ℕ) (s : Worker O)
      → Advancing office job_id
      → ((o : O) (c : Common)
          → RowsAre job_id Complete c.db
          → RowsAre job_id Complete ((office.others o).0 c).db)
      → RowsAre job_id Complete s.common.db
      → RowsAre job_id Complete (process_job office settings rounds passes job_id s).1.common.db
  process_job-Complete rounds passes s advancing kept p =
      (process_job-Sound office settings job_id advancing kept rounds passes s p).kept
