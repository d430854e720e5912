-- ===== src/Worker/Keeps/Service.antt =====
-- The acquisition of a service leaves true what the other threads and mild transitions leave true.
use get_receipt.Base.{
  ℕ, zero, suc, String, Bool, some, List, [], Result, ok, err, inl, inr, Bool-cases, ◌≡◌, subst,
  ◌==◌, string_eq, contains,
}
use get_receipt.Base.Text.{strip}
use get_receipt.Base.Exec.Keeps.{Keeps, Keeps-pure, Keeps-cond, Keeps-bind, Keeps-option, Keeps-if}
use get_receipt.Jobs.Model.{Job, is_service_id}
use get_receipt.Jobs.Store.Rows.{Db}
use get_receipt.Acquisition.Report.{AcquisitionResult}
use get_receipt.Acquisition.Ports.{Statement, Call as Outside}
use get_receipt.Acquisition.Run.{Attempt}
use get_receipt.Acquisition.Workflow.{attempt}
use get_receipt.Acquisition.Keeps.{Undisturbed, attempt-Keeps}
use get_receipt.Worker.State.{Office, Settings, Worker, let_others, outside}
use get_receipt.Worker.Swaps.{cancellation_requested}
use get_receipt.Worker.Acquire.{
  through, guarded_upsert, ask_cancelled, worker_ports, run_attempt, answer_code,
  answer_interactive, answer_challenge, challenge_loop, activate, release, with_browser,
  acquire_service, is_set, kind_of, interactive_kinds, is_action_required, finished,
}
use get_receipt.Worker.Keeps.{On, Allowed, read_job-Keeps, set_intervention-Keeps}
use get_receipt.Worker.Keeps.Waits.{wait_for_code-Keeps, wait_for_interactive-Keeps}

pub outside-Keeps : {O A : Type 0} (P : Db → Type 0) (f : Outside O A) → Keeps (On P) (outside f)
unfolding outside
outside-Keeps P f = record { at = λ s p. p }

module _ {O : Type 0} (office : Office O) (settings : Settings) (P : Db → Type 0)
    (allowed : Allowed office settings.owner_id P) where
  cancellation_requested-keeps :
      (job_id : String) (s : Worker O)
      → On P s
      → On P (cancellation_requested office settings job_id s).1
  unfolding cancellation_requested
  cancellation_requested-keeps job_id s p = (read_job-Keeps office settings P allowed job_id).at s p

  ask_cancelled-keeps :
      (job_id : String) (s : Worker O) → On P s → On P (ask_cancelled office settings job_id s).1
  unfolding ask_cancelled
  ask_cancelled-keeps job_id s p = cancellation_requested-keeps job_id s p

  guarded_upsert-keeps :
      (job_id name : String) (content : List ℕ) (s : Worker O)
      → On P s
      → On P (guarded_upsert office settings job_id name content s).1
  unfolding guarded_upsert through
  guarded_upsert-keeps job_id name content s p =
      elim (Bool-cases
        (is_set office settings (cancellation_requested office settings job_id s).0)) [
          | inl e ↦ rw e (cancellation_requested-keeps job_id s p)
          | inr e ↦ rw e (cancellation_requested-keeps job_id s p)
        ]

  worker_ports-Undisturbed :
      (job_id : String) (fetch : String → Outside O Statement)
      → Undisturbed (worker_ports office settings job_id fetch) (On P)
  unfolding through
  worker_ports-Undisturbed job_id fetch = record {
    notified = λ e w p. p;
    listed = λ w p. p;
    uploaded = λ name content w p. guarded_upsert-keeps job_id name content w p;
    fetched = λ month w p. p;
    asked = λ ask w e p. asked ask w e p;
  }
    where
      same :
          (ask : Outside (Worker O) Bool)
          → some (ask_cancelled office settings job_id) ≡ some ask
          → ask_cancelled office settings job_id ≡ ask
      same ask e = cc e

      asked :
          (ask : Outside (Worker O) Bool) (w : Worker O)
          → some (ask_cancelled office settings job_id) ≡ some ask
          → On P w
          → On P (ask w).1
      asked ask w e p =
          subst (λ (f : Outside (Worker O) Bool). On P (f w).1) (same ask e)
            (ask_cancelled-keeps job_id w p)

  run_attempt-Keeps :
      (job : Job) (service_id : String) (fetch : String → Outside O Statement)
      → Keeps (On P) (run_attempt office settings job service_id fetch)
  unfolding run_attempt
  run_attempt-Keeps job service_id fetch = record {
    at = λ s p.
        world_of
          (attempt (worker_ports office settings job.id fetch) service_id job.target_month
            (record { world = s; events = [] }))
          ((attempt-Keeps (worker_ports office settings job.id fetch) service_id job.target_month
              (On P) (worker_ports-Undisturbed job.id fetch)).at
            (record { world = s; events = [] }) p);
  }
    where
      world_of :
          (o : Result AcquisitionResult (Unit {0}) × Attempt (Worker O))
          → On P o.1.world
          → On P (finished office settings o).1
      world_of (err r, a) p = p
      world_of (ok u, a) p = p

  answer_code-Keeps :
      (rounds : ℕ) (job : Job) (service_id : String) (result : AcquisitionResult)
      → Keeps (On P) (answer_code office settings rounds job service_id result)
  unfolding answer_code
  answer_code-Keeps rounds job service_id result =
      Keeps-option office.resume_after_security_code
        (Keeps-bind _ _ (set_intervention-Keeps office settings P allowed _ _ _) λ u. Keeps-pure _)
        (λ resume.
          Keeps-bind _ _
            (wait_for_code-Keeps office settings P allowed rounds job.id service_id result)
            λ response.
              Keeps-option response (Keeps-pure _)
                (λ value. Keeps-bind _ _ (run_attempt-Keeps job service_id _) λ r. Keeps-pure _))

  answer_interactive-Keeps :
      (rounds : ℕ) (job : Job) (service_id kind : String) (result : AcquisitionResult)
      → Keeps (On P) (answer_interactive office settings rounds job service_id kind result)
  unfolding answer_interactive
  answer_interactive-Keeps rounds job service_id kind result =
      Keeps-bind _ _
        (wait_for_interactive-Keeps office settings P allowed rounds job.id service_id kind result)
        λ done.
          Keeps-cond done (Keeps-bind _ _ (run_attempt-Keeps job service_id _) λ r. Keeps-pure _)
            (Keeps-pure _)

  answer_challenge-Keeps :
      (rounds : ℕ) (job : Job) (service_id : String) (result : AcquisitionResult)
      → Keeps (On P) (answer_challenge office settings rounds job service_id result)
  unfolding answer_challenge
  answer_challenge-Keeps rounds job service_id result =
      Keeps-if (kind_of office settings result == "verification_code")
        (answer_code-Keeps rounds job service_id result)
        (Keeps-if (contains interactive_kinds (kind_of office settings result))
          (answer_interactive-Keeps rounds job service_id _ result)
          (Keeps-bind _ _ (set_intervention-Keeps office settings P allowed _ _ _)
            λ u. Keeps-pure _))

  challenge_loop-Keeps :
      (rounds left : ℕ) (job : Job) (service_id : String) (result : AcquisitionResult)
      → Keeps (On P) (challenge_loop office settings rounds left job service_id result)
  unfolding challenge_loop
  challenge_loop-Keeps rounds zero job service_id result =
      Keeps-cond (is_action_required office settings result.outcome)
        (Keeps-bind _ _ (set_intervention-Keeps office settings P allowed _ _ _) λ u. Keeps-pure _)
        (Keeps-pure _)
  challenge_loop-Keeps rounds (suc left) job service_id result =
      Keeps-cond (is_action_required office settings result.outcome)
        (Keeps-bind _ _ (answer_challenge-Keeps rounds job service_id result) λ next.
          Keeps-option next (Keeps-pure _) (λ r. challenge_loop-Keeps rounds left job service_id r))
        (Keeps-pure _)

  with_browser-Keeps :
      (rounds : ℕ) (job : Job) (service_id : String)
      → Keeps (On P) (with_browser office settings rounds job service_id)
  unfolding with_browser activate
  with_browser-Keeps rounds job service_id = Keeps-bind _ _ (outside-Keeps P _) λ u.
      Keeps-bind _ _ (record { at = λ s p. p })
        λ v. Keeps-bind _ _ (outside-Keeps P _) λ w.
          Keeps-bind _ _ (run_attempt-Keeps job service_id _)
            λ r. challenge_loop-Keeps rounds 3 job service_id r

  -- Whatever the browser, the provider, Drive and the owner do, and whether the acquisition returns or
  -- raises.
  pub acquire_service-Keeps :
      (rounds : ℕ) (job : Job) (service_id : String)
      → Keeps (On P) (acquire_service office settings rounds job service_id)
  unfolding acquire_service release let_others
  acquire_service-Keeps rounds job service_id = record {
    at = λ s p. elim (Bool-cases (is_service_id (strip service_id))) [
      | inl e ↦
          rw e (allowed.others _ _ ((with_browser-Keeps rounds job (strip service_id)).at s p))
      | inr e ↦ rw e p
    ];
  }
