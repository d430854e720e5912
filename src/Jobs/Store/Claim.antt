-- ===== src/Jobs/Store/Claim.antt =====
-- `claim_next` and `recover_incomplete_jobs` of cloud/src/jobs/store.py.
pub mod Oldest
pub mod Recover
use get_receipt.Base.{
  ℕ, suc, String, Bool, not, ◌&&◌, ◌||◌, Option, none, some, List, [], ◌∷◌, ◌==◌, nat_eq, string_eq,
  find?, filter, contains, ◌>>=◌ as bind, Result, ok,
}
use get_receipt.Base.Text.{strip}
use get_receipt.Base.Exec.{pure, lift, gets, transaction, ◌>>=◌, ◌>>◌}
use get_receipt.Jobs.Payload.{JobError, version_conflict, Value, null, text, end, field, get}
use get_receipt.Jobs.Payload.Texts.{texts_of}
use get_receipt.Jobs.Model.{Job, queued, running, waiting_for_challenge, validate, state_eq}
use get_receipt.Jobs.Store.Rows.{
  JobRow, Store, job_from_row, update_one, insert_event, older, first_by, sort_by,
}

abbrev pub optional_text : Option String → Value
optional_text none = null
optional_text (some s) = text s

-- `result.get("failed_service_ids") or ()` of the job's result, each as `str`, those of the job.
unfoldable pub failed_service_ids : Job → Result JobError (List String)
failed_service_ids job = elim job.result [
  | none ↦ ok []
  | some result ↦
      bind (texts_of (get "failed_service_ids" result))
        (λ failed. ok (filter (contains job.service_ids) failed))
]

-- The first service that is neither completed nor failed.
unfoldable pub next_service : List String → List String → List String → Option String
next_service service_ids completed failed =
    find? (λ service_id. not (contains completed service_id) && not (contains failed service_id))
      service_ids

-- `WHERE id = ? AND owner = ? AND version = ? AND state = 'queued'`.
abbrev pub is_queued_version : Job → JobRow → Bool
is_queued_version job row =
    row.job.id == job.id
    && row.job.owner == job.owner
    && row.job.version == job.version
    && row.job.state == queued

-- The columns that the claim sets.
abbrev pub claim_columns : Job → Job → Job
claim_columns updated job = record job {
  state = updated.state;
  current = updated.current;
  version = updated.version;
  updated_at = updated.updated_at;
  error = none;
}

unfoldable pub claim_row : ℕ → Option JobRow → Store (Option Job)
claim_row now none = pure none
claim_row now (some row) = do
  existing ← lift (job_from_row row)
  failed ← lift (failed_service_ids existing)
  let current = next_service existing.service_ids existing.completed failed
  updated ← lift (
      validate (record existing {
        state = running;
        current = current;
        version = suc existing.version;
        updated_at = now;
        error = none;
      }))
  update_one version_conflict (is_queued_version existing) (claim_columns updated)
  insert_event updated.id "job_claimed"
      (field "current_service_id" (optional_text updated.current) end) updated.updated_at
  pure (some updated)

abbrev pub is_queued_of : String → JobRow → Bool
is_queued_of owner row = row.job.owner == owner && row.job.state == queued

-- `claim_next`, with the clock's time.
unfoldable pub claim_next : ℕ → String → Store (Option Job)
unfolding claim_row
claim_next now owner = transaction (do
  row ← gets (λ db. first_by older (filter (is_queued_of (strip owner)) db.jobs))
  claim_row now row)

abbrev pub is_incomplete_of : String → JobRow → Bool
is_incomplete_of owner row =
    row.job.owner == owner && (row.job.state == running || row.job.state == waiting_for_challenge)

-- `WHERE id = ? AND owner = ? AND version = ?`.
abbrev pub is_version : Job → ℕ → JobRow → Bool
is_version job version row =
    row.job.id == job.id && row.job.owner == job.owner && row.job.version == version

abbrev pub recover_columns : ℕ → ℕ → Job → Job
recover_columns now version job = record job {
  state = queued;
  current = none;
  version = version;
  updated_at = now;
  error = none;
}

-- One round of the loop. The columns are written with no construction of the new job.
unfoldable pub recover_row : ℕ → JobRow → Store (Unit {0})
recover_row now row = do
  existing ← lift (job_from_row row)
  update_one version_conflict (is_version existing existing.version)
      (recover_columns now (suc existing.version))
  insert_event existing.id "worker_recovered_job"
      (field "reason_code" (text "LIVE_BROWSER_LOST") end) now
  pure tt

unfoldable pub recover_rows : ℕ → List JobRow → Store ℕ
recover_rows now [] = pure 0
recover_rows now (row ∷ rows) = do
  recover_row now row
  recovered ← recover_rows now rows
  pure (suc recovered)

-- `recover_incomplete_jobs`, with the clock's time.
unfoldable pub recover_incomplete_jobs : ℕ → String → Store ℕ
unfolding recover_rows
recover_incomplete_jobs now owner = transaction (do
  rows ← gets (λ db. sort_by older (filter (is_incomplete_of (strip owner)) db.jobs))
  recover_rows now rows)
