-- ===== src/Worker/Cancelled.antt =====
-- `_CancellationAwareStorage` of cloud/src/workers/runner.py: a cancelled job saves nothing.
use get_receipt.Base.{
  ok, err, [], ℕ, String, Bool, true, some, List, Result, ok, ◌≡◌, refl, subst, string_eq,
}
use get_receipt.Jobs.Model.{Job, cancelled, state_eq}
use get_receipt.Jobs.Store.Rows.{Db}
use get_receipt.Jobs.Store.Create.{get_job}
use get_receipt.Acquisition.Ports.{Statement, Call as Outside}
use get_receipt.Acquisition.Keeps.{Undisturbed}
use get_receipt.Worker.State.{Trouble, Office, Settings, Worker, Common, let_others, on_store}
use get_receipt.Worker.Swaps.{read_job, cancellation_requested}
use get_receipt.Worker.Acquire.{run_attempt, through, guarded_upsert, ask_cancelled, worker_ports}
use get_receipt.Acquisition.Report.{AcquisitionResult}
use get_receipt.Acquisition.Run.{Attempt}
use get_receipt.Acquisition.Workflow.{attempt}
use get_receipt.Acquisition.Keeps.{attempt-Keeps}
use get_receipt.Worker.Acquire.{finished}

-- The job is read as cancelled.
pub record CancelledIn (job_id owner : String) (db : Db) : Type 0 where
  pub job : Job
  pub found : get_job job_id owner db ≡ (ok job, db)
  pub over : job.state ≡ cancelled

-- The other threads leave the job cancelled, and with the listing and the fetching they leave `U` of
-- the outside world. Nothing is asked of the upload.
pub record Settled {O : Type 0} (office : Office O) (owner job_id : String) (U : O → Type 0)
    (fetch : String → Outside O Statement) : Type 0 where
  pub others :
      (o : O) (c : Common)
      → CancelledIn job_id owner c.db
      → CancelledIn job_id owner ((office.others o).0 c).db
  pub around : (o : O) → U o → U (office.others o).1
  pub listed : (o : O) → U o → U (office.list_files o).1
  pub fetched : (month : String) (o : O) → U o → U (fetch month o).1

module _ {O : Type 0} (office : Office O) (settings : Settings) (job_id : String) (U : O → Type 0)
    (fetch : String → Outside O Statement)
    (settled : Settled office settings.owner_id job_id U fetch) where
  abbrev Over : Worker O → Type 0
  Over w = CancelledIn job_id settings.owner_id w.common.db × U w.outer

  -- The check finds the job cancelled, and leaves it so.
  abbrev Refused : (Result Trouble Bool × Worker O) → Type 0
  Refused a = (a.0 ≡ ok true) × Over a.1

  let_others-Over : (s : Worker O) → Over s → Over (let_others office s)
  unfolding let_others
  let_others-Over s p = (settled.others s.outer s.common p.0, settled.around s.outer p.1)

  read_job-cancelled :
      (s : Worker O) → Over s → Refused (cancellation_requested office settings job_id s)
  unfolding cancellation_requested read_job on_store
  read_job-cancelled s p = let q = let_others-Over s p in rw (q.0.found, q.0.over) (refl, q)

  guarded_upsert-Over :
      (name : String) (content : List ℕ) (s : Worker O)
      → Over s
      → Over (guarded_upsert office settings job_id name content s).1
  unfolding guarded_upsert
  guarded_upsert-Over name content s p = let q = read_job-cancelled s p in rw q.0 q.1

  worker_ports-Over : Undisturbed (worker_ports office settings job_id fetch) Over
  unfolding through ask_cancelled
  worker_ports-Over = record {
    notified = λ e w p. p;
    listed = λ w p. (p.0, settled.listed w.outer p.1);
    uploaded = λ name content w p. guarded_upsert-Over name content w p;
    fetched = λ month w p. (p.0, settled.fetched month w.outer p.1);
    asked = λ ask w e p. asked ask w e p;
  }
    where
      same :
          (ask : Outside (Worker O) Bool)
          → some (ask_cancelled office settings job_id) ≡ some ask
          → ask_cancelled office settings job_id ≡ ask
      same ask e = cc e

      asked :
          (ask : Outside (Worker O) Bool) (w : Worker O)
          → some (ask_cancelled office settings job_id) ≡ some ask
          → Over w
          → Over (ask w).1
      asked ask w e p =
          subst (λ (f : Outside (Worker O) Bool). Over (f w).1) (same ask e)
            (read_job-cancelled w p).1

module _ {O : Type 0} (office : Office O) (settings : Settings) where
  abbrev world_over :
      (P : Worker O → Type 0) (o : Result AcquisitionResult (Unit {0}) × Attempt (Worker O))
      → P o.1.world
      → P (finished office settings o).1
  world_over P (err r, a) p = p
  world_over P (ok u, a) p = p

  -- An acquisition that a worker runs for a job that is read as cancelled and that the other threads
  -- leave so saves nothing: whatever they, the listing and the fetching leave true of the outside world
  -- is true after it, though an upload may not leave it true.
  pub run_attempt-CancelledIn :
      (job : Job) (service_id : String) (fetch : String → Outside O Statement) (U : O → Type 0)
      (s : Worker O)
      → Settled office settings.owner_id job.id U fetch
      → CancelledIn job.id settings.owner_id s.common.db
      → U s.outer
      → U (run_attempt office settings job service_id fetch s).1.outer
  unfolding run_attempt
  run_attempt-CancelledIn job service_id fetch U s settled c u =
      (world_over (Over office settings job.id U fetch settled)
        (attempt (worker_ports office settings job.id fetch) service_id job.target_month
          (record { world = s; events = [] }))
        ((attempt-Keeps (worker_ports office settings job.id fetch) service_id job.target_month
            (Over office settings job.id U fetch settled)
            (worker_ports-Over office settings job.id U fetch settled)).at
          (record { world = s; events = [] }) (c, u))).1
