-- ===== src/Worker/Ends/Settled.antt =====
-- The methods of cloud/src/workers/runner.py that have no wait come to an end.
use get_receipt.Base.{
  some, none, Option, String, Bool, true, false, [], ◌≡◌, ◌≢◌, refl, Result, ok, err, if◌then◌else◌,
}
use get_receipt.Base.Exec.{pure, lift, continue, ◌>>=◌}
use get_receipt.Jobs.Payload.{JobError, Fields}
use get_receipt.Jobs.Model.{Job}
use get_receipt.Jobs.Store.Rows.{Store}
use get_receipt.Jobs.Store.Create.{get_job}
use get_receipt.Jobs.Store.Update.{Patch}
use get_receipt.Jobs.Inbox.{InboxError, Method}
use get_receipt.Acquisition.Report.{AcquisitionResult}
use get_receipt.Acquisition.Ports.{Raised, Statement, Call as Outside}
use get_receipt.Acquisition.Run.{Attempt}
use get_receipt.Acquisition.Workflow.{attempt}
use get_receipt.Worker.State.{
  Office, Settings, Worker, Work, Trouble, out_of_rounds, from_store, or_unexpected, let_others,
  on_store, outside, clock, reading, uuid, is_stopped,
}
use get_receipt.Worker.Swaps.{read_job, swap, set_intervention, note_failed, finish_failed_result}
use get_receipt.Worker.Waits.{on_inbox, new_challenge}
use get_receipt.Worker.Acquire.{worker_ports, finished, run_attempt}

-- A run that returns, or raises one of the code's exceptions.
pub record Settles {O A : Type 0} (m : Work O A) (s : Worker O) : Type 0 where
  pub at : (m s).0 ≢ err out_of_rounds

abbrev pub Settled : {O A : Type 0} → Work O A → Type 0
Settled {O} m = (s : Worker O) → Settles m s

module _ {O : Type 0} where
  pub Settled-pure : {A : Type 0} (a : A) → Settled {O = O} (pure a)
  unfolding pure
  Settled-pure a s = record { at = λ e. cc e }

  pub Settled-from_store :
      {A : Type 0} (r : Result JobError A) → Settled {O = O} (lift (from_store r))
  unfolding lift
  Settled-from_store (ok a) s = record { at = λ e. cc e }
  Settled-from_store (err e) s = record { at = λ e. cc e }

  pub Settled-cond :
      {A : Type 0} (b : Bool) {m n : Work O A}
      → Settled m
      → Settled n
      → Settled (elim b [ true ↦ m | false ↦ n ])
  Settled-cond true h k = h
  Settled-cond false h k = k

  pub Settled-if :
      {A : Type 0} (b : Bool) {m n : Work O A}
      → Settled m
      → Settled n
      → Settled (if b then m else n)
  Settled-if true h k = h
  Settled-if false h k = k

  -- What follows is run in the state that is left only.
  pub Settles-bind :
      {A B : Type 0} (m : Work O A) (f : A → Work O B) (s : Worker O)
      → Settles m s
      → ((a : A) (t : Worker O) → m s ≡ (ok a, t) → Settles (f a) t)
      → Settles (m >>= f) s
  unfolding ◌>>=◌
  Settles-bind {A} {B} m f s h k = record {
    at = go (m s).0 (m s).1 h.at (λ a e. (k a (m s).1 (rw (← e))).at);
  }
    where
      go :
          (r : Result Trouble A) (t : Worker O)
          → r ≢ err out_of_rounds
          → ((a : A) → r ≡ ok a → (f a t).0 ≢ err out_of_rounds)
          → (continue r f t).0 ≢ err out_of_rounds
      go (ok a) t n k = k a refl
      go (err e) t n k = λ g. n (cc g)

  pub Settles-cond :
      {A : Type 0} (b : Bool) {m n : Work O A} (s : Worker O)
      → (b ≡ true → Settles m s)
      → (b ≡ false → Settles n s)
      → Settles (elim b [ true ↦ m | false ↦ n ]) s
  Settles-cond true s h k = h refl
  Settles-cond false s h k = k refl

  pub Settles-option :
      {A B : Type 0} (o : Option A) {m : A → Work O B} {n : Work O B} (s : Worker O)
      → ((a : A) → Settles (m a) s)
      → Settles n s
      → Settles (elim o [ some a ↦ m a | none ↦ n ]) s
  Settles-option (some a) s h k = h a
  Settles-option none s h k = k

  pub Settled-bind :
      {A B : Type 0} (m : Work O A) (f : A → Work O B)
      → Settled m
      → ((a : A) → Settled (f a))
      → Settled (m >>= f)
  Settled-bind m f h k s = Settles-bind m f s (h s) (λ a t e. k a t)

module _ {O : Type 0} (office : Office O) (settings : Settings) where
  pub on_store-Settled : {A : Type 0} (m : Store A) → Settled (on_store office m)
  unfolding on_store
  on_store-Settled {A} m s = record { at = raised (m (let_others office s).common.db).0 }
    where
      raised : (r : Result JobError A) → from_store r ≢ err out_of_rounds
      raised (ok a) = λ e. cc e
      raised (err e) = λ e. cc e

  pub on_inbox-Settled : {A : Type 0} (m : Method A) → Settled (on_inbox office settings m)
  unfolding on_inbox
  on_inbox-Settled {A} m s = record { at = raised (m (let_others office s).common.inbox).0 }
    where
      raised : (r : Result InboxError A) → or_unexpected {A = A} r ≢ err out_of_rounds
      raised (ok a) = λ e. cc e
      raised (err e) = λ e. cc e

  pub outside-Settled : {A : Type 0} (f : Outside O A) → Settled (outside f)
  unfolding outside
  outside-Settled {A} f s = record { at = raised (f s.outer).0 }
    where
      raised : (r : Result Raised A) → or_unexpected {A = A} r ≢ err out_of_rounds
      raised (ok a) = λ e. cc e
      raised (err e) = λ e. cc e

  pub clock-Settled : Settled (clock office)
  unfolding clock
  clock-Settled s = record { at = λ e. cc e }

  pub reading-Settled : Settled (reading office)
  unfolding reading
  reading-Settled s = record { at = λ e. cc e }

  pub uuid-Settled : Settled (uuid office)
  unfolding uuid
  uuid-Settled s = record { at = λ e. cc e }

  pub is_stopped-Settled : Settled (is_stopped office)
  unfolding is_stopped
  is_stopped-Settled s = record { at = λ e. cc e }

  pub read_job-Settled : (job_id : String) → Settled (read_job office settings job_id)
  unfolding read_job
  read_job-Settled job_id = on_store-Settled (get_job job_id settings.owner_id)

  pub swap-Settled :
      (job : Job) (patch : Patch) (event_type : String) (payload : Fields)
      → Settled (swap office settings job patch event_type payload)
  unfolding swap
  swap-Settled job patch event_type payload =
      Settled-bind _ _ clock-Settled (λ now. on_store-Settled _)

  pub set_intervention-Settled :
      (job_id code message : String)
      → Settled (set_intervention office settings job_id code message)
  unfolding set_intervention
  set_intervention-Settled job_id code message =
      Settled-bind _ _ (read_job-Settled job_id) (λ current.
        Settled-cond _ (Settled-pure tt)
          (Settled-bind _ _ (swap-Settled _ _ _ _) (λ u. Settled-pure tt)))

  pub note_failed-Settled :
      (current : Job) (service_id code : String)
      → Settled (note_failed office settings current service_id code)
  unfolding note_failed
  note_failed-Settled current service_id code =
      Settled-bind _ _ (Settled-from_store _)
        (λ p. Settled-bind _ _ (swap-Settled _ _ _ _) (λ u. Settled-pure tt))

  pub finish_failed_result-Settled :
      (job_id service_id : String) (result : AcquisitionResult)
      → Settled (finish_failed_result office settings job_id service_id result)
  unfolding finish_failed_result
  finish_failed_result-Settled job_id service_id result =
      Settled-cond _ (Settled-bind _ _ (set_intervention-Settled _ _ _) (λ u. Settled-pure false)) (
        Settled-bind _ _ (read_job-Settled job_id) (λ current. Settled-cond _ (Settled-pure false) (
          Settled-cond _ (Settled-bind _ _ (swap-Settled _ _ _ _) (λ u. Settled-pure false))
            (Settled-bind _ _ (note_failed-Settled _ _ _) (λ u. Settled-pure true)))))

  pub new_challenge-Settled :
      (job : Job) (service_id kind message : String)
      → Settled (new_challenge office settings job service_id kind message)
  unfolding new_challenge
  new_challenge-Settled job service_id kind message = Settled-bind _ _ clock-Settled (λ now.
      Settled-bind _ _ uuid-Settled
        (λ id. Settled-bind _ _ clock-Settled (λ created. Settled-from_store _)))

  pub run_attempt-Settled :
      (job : Job) (service_id : String) (fetch : String → Outside O Statement)
      → Settled (run_attempt office settings job service_id fetch)
  unfolding run_attempt
  run_attempt-Settled job service_id fetch s = record {
    at = ended (
        attempt (worker_ports office settings job.id fetch) service_id job.target_month
          (record { world = s; events = [] }));
  }
    where
      ended :
          (p : Result AcquisitionResult (Unit {0}) × Attempt (Worker O))
          → (finished office settings p).0 ≢ err out_of_rounds
      ended (ok u, a) = λ e. cc e
      ended (err r, a) = λ e. cc e
