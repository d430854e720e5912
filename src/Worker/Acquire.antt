-- ===== src/Worker/Acquire.antt =====
-- `_acquire_service` of cloud/src/workers/runner.py.
use get_receipt.Base.{
  ℕ, zero, suc, String, Bool, true, false, Option, none, some, List, [], ◌∷◌, Result, ok, err, ◌==◌,
  string_eq, if◌then◌else◌, contains,
}
use get_receipt.Base.Exec.{pure, ◌>>=◌, ◌>>◌}
use get_receipt.Base.Text.{strip}
use get_receipt.Jobs.Model.{Job, state_eq, is_service_id}
use get_receipt.Acquisition.Report.{AcquisitionResult, AcquisitionOutcome, action_required}
use get_receipt.Acquisition.Ports.{Ports, Raised, Statement, Call as Outside}
use get_receipt.Acquisition.Run.{Attempt}
use get_receipt.Acquisition.Workflow.{attempt}
use get_receipt.Worker.State.{
  Office, Settings, Worker, Work, Trouble, unexpected, let_others, outside,
}
use get_receipt.Worker.Swaps.{set_intervention, cancellation_requested}
use get_receipt.Worker.Waits.{wait_for_code}
use get_receipt.Worker.Interactive.{wait_for_interactive}

-- `ReceiptSaveCancelledError`.
abbrev pub save_cancelled : Raised
save_cancelled = record {
  type_name = "ReceiptSaveCancelledError";
  text = "The job was cancelled before the Drive save began.";
  code = "ACQUISITION_CANCELLED";
  challenge_kind = "";
  advice = "";
}

-- `_INTERACTIVE_CHALLENGE_KINDS`.
abbrev pub interactive_kinds : List String
interactive_kinds =
    "captcha" ∷ "interactive" ∷ "consent" ∷ "push_approval" ∷ "passkey_unavailable" ∷ []

module _ {O : Type 0} (office : Office O) (settings : Settings) where
  -- A call of the outside world from an acquisition.
  unfoldable pub through : {A : Type 0} → Outside O A → Outside (Worker O) A
  through f s = let (r, o) = f s.outer in (r, record s { outer = o })

  abbrev pub is_set : Result Trouble Bool → Bool
  is_set (ok b) = b
  is_set (err e) = true

  -- `_CancellationAwareStorage.upsert_bytes`: under the commit guard no other thread cancels between
  -- the check and the upload.
  unfoldable pub guarded_upsert : String → String → List ℕ → Outside (Worker O) (Unit {0})
  guarded_upsert job_id file_name content s =
      let (requested, t) = cancellation_requested office settings job_id s in
      if is_set requested
      then (err save_cancelled, t)
      else through (office.upsert_bytes file_name content) t

  abbrev requested_of : Result Trouble Bool → Result Raised Bool
  requested_of r = ok (is_set r)

  -- `cancellation_requested=lambda: self._cancellation_requested(job.id)`.
  unfoldable pub ask_cancelled : String → Outside (Worker O) Bool
  ask_cancelled job_id s =
      let (r, t) = cancellation_requested office settings job_id s in (requested_of r, t)

  -- The arguments of the acquisition that the worker runs.
  abbrev pub worker_ports : String → (String → Outside O Statement) → Ports (Worker O)
  worker_ports job_id fetch_statement = record {
    list_files = through office.list_files;
    upsert_bytes = guarded_upsert job_id;
    fetch_statement = λ month. through (fetch_statement month);
    receipt_finder = office.receipt_finder;
    on_progress = none;
    cancellation_requested = some (ask_cancelled job_id);
    extract_receipt_data = office.extract_receipt_data;
    build_receipt_filename = office.build_receipt_filename;
  }

  abbrev pub finished :
      Result AcquisitionResult (Unit {0}) × Attempt (Worker O)
      → Result Trouble AcquisitionResult × Worker O
  finished (err r, a) = (ok r, a.world)
  finished (ok u, a) = (err unexpected, a.world)

  -- `self.acquisition_runner(...)`.
  unfoldable pub run_attempt :
      Job → String → (String → Outside O Statement) → Work O AcquisitionResult
  run_attempt job service_id fetch_statement s = finished (
      attempt (worker_ports job.id fetch_statement) service_id job.target_month
        (record { world = s; events = [] }))

  abbrev pub is_action_required : AcquisitionOutcome → Bool
  is_action_required action_required = true
  is_action_required _ = false

  abbrev pub kind_of : AcquisitionResult → String
  kind_of r = elim r.challenge [ none ↦ "" | some c ↦ c.kind ]

  -- A challenge with a code: the next result, or none when the service stops.
  unfoldable pub answer_code :
      ℕ → Job → String → AcquisitionResult → Work O (Option AcquisitionResult)
  answer_code rounds job service_id result = elim office.resume_after_security_code [
    | none ↦ (do
      set_intervention office settings job.id "CHALLENGE_RESUME_UNSUPPORTED"
          "表示された追加認証を同じブラウザで安全に再開できません。"
      pure none)
    | some resume ↦ (do
      response ← wait_for_code office settings rounds job.id service_id result
      elim response [
        | none ↦ pure none
        | some value ↦ (do
          next ← run_attempt job service_id (λ month. resume month value)
          pure (some next))
      ])
  ]

  unfoldable pub answer_interactive :
      ℕ → Job → String → String → AcquisitionResult → Work O (Option AcquisitionResult)
  answer_interactive rounds job service_id kind result = do
    done ← wait_for_interactive office settings rounds job.id service_id kind result
    elim done [
      | false ↦ pure none
      | true ↦ (do next ← run_attempt job service_id office.fetch_pdf; pure (some next))
    ]

  unfoldable pub answer_challenge :
      ℕ → Job → String → AcquisitionResult → Work O (Option AcquisitionResult)
  answer_challenge rounds job service_id result =
      if kind_of result == "verification_code"
      then answer_code rounds job service_id result
      else if contains interactive_kinds (kind_of result)
      then answer_interactive rounds job service_id (kind_of result) result
      else (do
        set_intervention office settings job.id "CHALLENGE_KIND_UNSUPPORTED"
            "未確認の追加認証が表示されたため、安全に停止しました。"
        pure none)

  -- The loop on challenges, with the attempts that are left.
  unfoldable pub challenge_loop :
      ℕ → ℕ → Job → String → AcquisitionResult → Work O (Option AcquisitionResult)
  challenge_loop rounds zero job service_id result = elim (is_action_required result.outcome) [
    | false ↦ pure (some result)
    | true ↦ (do
      set_intervention office settings job.id "CHALLENGE_ATTEMPTS_EXHAUSTED"
          "追加認証の試行回数上限に達したため、安全に停止しました。"
      pure none)
  ]
  challenge_loop rounds (suc left) job service_id result =
      elim (is_action_required result.outcome) [
        | false ↦ pure (some result)
        | true ↦ (do
          next ← answer_challenge rounds job service_id result
          elim next [ none ↦ pure none | some r ↦ challenge_loop rounds left job service_id r ])
      ]

  -- `self._active_browser = browser`, and the end of it.
  unfoldable pub activate : String → Work O (Unit {0})
  activate job_id s = (ok tt, record s { browser_job_id = some job_id })

  abbrev close_if : Option String → O → O
  close_if none o = o
  close_if (some job_id) o = office.close o

  -- The `finally`: a browser is closed and the viewer shut, whatever happened.
  unfoldable pub release : Worker O → Worker O
  release s =
      let t = let_others office s in
      record t {
        outer = close_if t.browser_job_id t.outer;
        browser_job_id = none;
        interactive_challenge_id = "";
        interactive_service_id = "";
        interactive_target_id = "";
        common = record t.common { continued = false };
      }

  unfoldable pub with_browser : ℕ → Job → String → Work O (Option AcquisitionResult)
  with_browser rounds job service_id = do
    outside (office.browser_factory service_id)
    activate job.id
    outside (office.fetcher_factory service_id)
    result ← run_attempt job service_id office.fetch_pdf
    challenge_loop rounds 3 job service_id result

  -- `_acquire_service`.
  unfoldable pub acquire_service : ℕ → Job → String → Work O (Option AcquisitionResult)
  acquire_service rounds job service_id s =
      let safe_service = strip service_id in
      if is_service_id safe_service
      then (let (r, t) = with_browser rounds job safe_service s in (r, release t))
      else (err unexpected, s)
