-- ===== src/Jobs/Store/Update.antt =====
-- `compare_and_set`, `append_event` and `list_events` of cloud/src/jobs/store.py.
pub mod Outcome
pub mod Swap
pub mod Safe
pub mod Rows
use get_receipt.Base.{
  ℕ, suc, String, Option, none, some, List, ◌==◌, nat_eq, string_eq, any, find?, filter, or_raise,
  guard as require,
}
use get_receipt.Base.Text.{strip}
use get_receipt.Base.Exec.{pure, lift, gets, transaction, ◌>>=◌, ◌>>◌}
use get_receipt.Jobs.Payload.{job_not_found, version_conflict, Fields, assert_public_payload}
use get_receipt.Jobs.Model.{Job, JobState, validate}
use get_receipt.Jobs.Store.Rows.{
  JobRow, Event, Store, job_from_row, is_job_of, update_one, insert_event,
}
use get_receipt.Jobs.Store.Create.{get_job}
use get_receipt.Jobs.Store.Claim.{is_version}

-- The keyword arguments of `compare_and_set`: `none` is `_UNSET`.
pub record Patch : Type 0 where
  pub state : Option JobState
  pub completed : Option (List String)
  pub current : Option (Option String)
  pub error : Option (Option Fields)
  pub result : Option (Option Fields)

abbrev pub no_change : Patch
no_change = record { state = none; completed = none; current = none; error = none; result = none }

abbrev pub or_keep {ℓ} : {A : Type ℓ} → Option A → A → A
or_keep none old = old
or_keep (some new) old = new

unfoldable pub apply_patch : Patch → ℕ → Job → Job
apply_patch patch now existing = record existing {
  state = or_keep patch.state existing.state;
  completed = or_keep patch.completed existing.completed;
  current = or_keep patch.current existing.current;
  error = or_keep patch.error existing.error;
  result = or_keep patch.result existing.result;
  version = suc existing.version;
  updated_at = now;
}

-- The columns that the update sets.
abbrev pub set_columns : Job → Job → Job
set_columns updated job = record job {
  state = updated.state;
  completed = updated.completed;
  current = updated.current;
  version = updated.version;
  updated_at = updated.updated_at;
  error = updated.error;
  result = updated.result;
}

unfoldable pub set_row : ℕ → ℕ → Patch → String → Fields → JobRow → Store Job
set_row now expected_version patch event_type payload row = do
  existing ← lift (job_from_row row)
  lift (require (existing.version == expected_version) version_conflict)
  updated ← lift (validate (apply_patch patch now existing))
  update_one version_conflict (is_version updated expected_version) (set_columns updated)
  insert_event updated.id event_type payload updated.updated_at
  pure updated

-- `compare_and_set`, with the clock's time. `payload` is `dict(event_payload or {})`.
unfoldable pub compare_and_set : ℕ → String → String → ℕ → Patch → String → Fields → Store Job
compare_and_set now job_id owner expected_version patch event_type payload = do
  lift (assert_public_payload payload)
  transaction (do
    found ← gets (λ db. find? (is_job_of job_id (strip owner)) db.jobs)
    row ← lift (or_raise found job_not_found)
    set_row now expected_version patch event_type payload row)

-- `append_event`, with the clock's time.
unfoldable pub append_event : ℕ → String → String → String → Fields → Store Event
append_event now job_id owner event_type payload = do
  lift (assert_public_payload payload)
  event_id ← transaction (do
    found ← gets (λ db. any (is_job_of job_id (strip owner)) db.jobs)
    lift (require found job_not_found)
    insert_event job_id event_type payload now)
  pure (record {
    id = event_id;
    job_id = job_id;
    event_type = strip event_type;
    payload = payload;
    created_at = now;
  })

-- `list_events`: the keys grow along the table, so its order is that of `ORDER BY id`.
unfoldable pub list_events : String → String → Store (List Event)
list_events job_id owner = do
  get_job job_id owner
  gets (λ db. filter (λ event. event.job_id == job_id) db.events)
