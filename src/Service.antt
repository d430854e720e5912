-- ===== src/Service.antt =====
-- `WorkerService` of cloud/src/workers/service.py: the owner's calls on jobs and challenges. A call
-- returns the job that `public_job` renders; the rendering itself is not modelled. `unicodedata`'s
-- NFKC form and `re.fullmatch` are parameters.

pub mod Challenges
pub mod Cancelled
mod Tests
use get_receipt.Base.{
  ℕ, String, Bool, ◌||◌, Option, some, List, Result, ok, err, ◌==◌, string_eq, all, last?, is_ok,
  guard as require,
}
use get_receipt.Base.Exec.{Exec, pure, lift, ◌>>=◌, ◌>>◌}
use get_receipt.Config.{service_by_id}
use get_receipt.Jobs.Payload.{JobError, value_error, job_not_found}
use get_receipt.Jobs.Model.{
  Job, JobState, state_eq, succeeded, failed, intervention_required, cancelled,
}
use get_receipt.Jobs.Challenge.{Challenge}
use get_receipt.Jobs.Store.Rows.{Db, Store}
use get_receipt.Jobs.Store.Create as Create
use get_receipt.Jobs.Store.Challenges.{list_challenges}
use get_receipt.Jobs.Inbox.{
  Inbox, InboxError, invalid_value, not_pending, already_answered, expired, owner_mismatch,
}

-- What the threads of the worker share.
pub record Shared : Type 0 where
  pub db : Db
  pub inbox : Inbox

-- `WorkerServiceError`, by its code and status, or an exception of the store that passes through.
pub data Fault : Type 0 where
  refused : String → ℕ → Fault
  raised : JobError → Fault

abbrev pub Call : Type 0 → Type 0
Call = Exec Shared Fault

abbrev pub with_fault : {A : Type 0} → (JobError → Fault) → Result JobError A → Result Fault A
with_fault f (ok a) = ok a
with_fault f (err e) = err (f e)

-- A call of the store, with the exceptions that it turns into.
unfoldable pub on_store : {A : Type 0} → (JobError → Fault) → Store A → Call A
on_store f m s = let (r, t) = m s.db in (with_fault f r, record s { db = t })

abbrev pub not_found : JobError → Fault
not_found job_not_found = refused "JOB_NOT_FOUND" 404
not_found value_error = refused "JOB_NOT_FOUND" 404
not_found e = raised e

abbrev pub is_terminal : JobState → Bool
is_terminal state =
    state == succeeded || state == failed || state == intervention_required || state == cancelled

-- `ChallengeInboxError.code`; a `ValueError` has none.
abbrev pub inbox_code : InboxError → String
inbox_code invalid_value = "CHALLENGE_NOT_PENDING"
inbox_code not_pending = "CHALLENGE_NOT_PENDING"
inbox_code already_answered = "CHALLENGE_ALREADY_ANSWERED"
inbox_code expired = "CHALLENGE_EXPIRED"
inbox_code owner_mismatch = "CHALLENGE_OWNER_MISMATCH"

module _ (own : String) where
  -- `_require_owner`.
  unfoldable pub require_owner : String → Call (Unit {0})
  require_owner owner_id = lift (require (owner_id == own) (refused "OWNER_FORBIDDEN" 403))

  -- `_job`.
  unfoldable pub job_of : String → Call Job
  unfolding on_store
  job_of job_id = on_store not_found (Create.get_job job_id own)

  -- `_latest_challenge`.
  unfoldable pub latest_challenge : Job → Call (Option Challenge)
  unfolding on_store
  latest_challenge job = do
    challenges ← on_store raised (list_challenges job.id own)
    pure (last? challenges)

  -- `create_job`.
  unfoldable pub create_job : ℕ → String → String → String → List String → String → Call Job
  unfolding require_owner on_store
  create_job now id owner_id target_month service_ids idempotency_key = do
    require_owner owner_id
    lift (require (all (λ s. is_ok (service_by_id s)) service_ids) (refused "INVALID_SERVICE" 400))
    on_store raised (Create.create_job now id own target_month service_ids (some idempotency_key))

  -- `get_job`.
  unfoldable pub get_job : String → String → Call Job
  unfolding require_owner job_of
  get_job job_id owner_id = require_owner owner_id >> job_of job_id

  -- `find_active_job`.
  unfoldable pub find_active_job : String → String → Call (Option Job)
  unfolding require_owner on_store
  find_active_job target_month owner_id =
      require_owner owner_id >> on_store raised (Create.find_active_job own target_month)
