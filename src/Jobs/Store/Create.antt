-- ===== src/Jobs/Store/Create.antt =====
-- `create_job`, `get_job` and `find_active_job` of cloud/src/jobs/store.py.
pub mod Once
use Prim.Native.String.{◌++◌ as append}
use get_receipt.Base.{
  ℕ, String, Bool, not, ◌&&◌, ◌||◌, Option, none, some, List, [], ◌∷◌, ◌++◌, ◌==◌, nat_eq,
  string_eq, ltb, any, find?, filter, list_beq, or_raise, guard as require,
}
use get_receipt.Base.Text.{strip, is_empty}
use get_receipt.Base.Exec.{pure, lift, gets, modify, transaction, ◌>>=◌, ◌>>◌}
use get_receipt.Jobs.Payload.{
  value_error, integrity_error, job_not_found, idempotency_conflict, end, field, text, arr,
  to_items,
}
use get_receipt.Jobs.Model.{
  Job, JobState, queued, running, waiting_for_challenge, new_job, state_eq,
}
use get_receipt.Jobs.Store.Rows.{
  JobRow, Store, job_from_row, is_job_of, has_id, insert_event, first_by,
}

-- `",".join(...)`.
unfoldable pub join_commas : List String → String
join_commas [] = ""
join_commas (s ∷ []) = s
join_commas (s ∷ t ∷ ss) = append s (append "," (join_commas (t ∷ ss)))

-- `_default_idempotency_key`.
unfoldable pub default_idempotency_key : String → List String → String
unfolding join_commas
default_idempotency_key target_month service_ids =
    append target_month (append ":" (join_commas service_ids))

abbrev pub key_or_default : Option String → Job → String
key_or_default none job = default_idempotency_key job.target_month job.service_ids
key_or_default (some key) job = key

-- `_insert_job`, with the table's two uniqueness constraints.
unfoldable pub insert_job : Job → String → Store (Unit {0})
insert_job job key = do
  taken ← gets (λ db.
      any (λ row. has_id job.id row || row.job.owner == job.owner && row.idempotency_key == key)
        db.jobs)
  lift (require (not taken) integrity_error)
  modify (λ db. record db { jobs = db.jobs ++ record { job = job; idempotency_key = key } ∷ [] })

abbrev pub has_key : String → String → JobRow → Bool
has_key owner key row = row.job.owner == owner && row.idempotency_key == key

unfoldable pub return_or_insert : Job → String → Option JobRow → Store Job
return_or_insert job key (some row) = do
  existing ← lift (job_from_row row)
  lift (
      require
        (existing.target_month == job.target_month && list_beq existing.service_ids job.service_ids)
        idempotency_conflict)
  pure existing
return_or_insert job key none = do
  insert_job job key
  insert_event job.id "job_created"
      (field "target_month" (text job.target_month)
        (field "service_ids" (arr (to_items job.service_ids)) end))
      job.created_at
  pure job

-- `create_job`, with the clock's time and the identifier that `uuid4` draws.
unfoldable pub create_job : ℕ → String → String → String → List String → Option String → Store Job
unfolding return_or_insert
create_job now id owner target_month service_ids idempotency_key = do
  job ← lift (new_job now id owner target_month service_ids)
  let key = strip (key_or_default idempotency_key job)
  lift (require (not (is_empty key)) value_error)
  transaction (do
    existing ← gets (λ db. find? (has_key job.owner key) db.jobs)
    return_or_insert job key existing)

-- `get_job`.
unfoldable pub get_job : String → String → Store Job
get_job job_id owner = do
  found ← gets (λ db. find? (is_job_of job_id (strip owner)) db.jobs)
  row ← lift (or_raise found job_not_found)
  lift (job_from_row row)

-- `state IN ('queued', 'running', 'waiting_for_challenge')`.
abbrev pub is_active : JobState → Bool
is_active state = state == queued || state == running || state == waiting_for_challenge

-- `ORDER BY updated_at DESC, created_at DESC`.
abbrev pub newer : JobRow → JobRow → Bool
newer a b =
    ltb b.job.updated_at a.job.updated_at
    || a.job.updated_at == b.job.updated_at && ltb b.job.created_at a.job.created_at

abbrev pub is_active_of : String → String → JobRow → Bool
is_active_of owner target_month row =
    row.job.owner == owner && row.job.target_month == target_month && is_active row.job.state

unfoldable pub read_optional : Option JobRow → Store (Option Job)
read_optional none = pure none
read_optional (some row) = do job ← lift (job_from_row row); pure (some job)

-- `find_active_job`.
unfoldable pub find_active_job : String → String → Store (Option Job)
unfolding read_optional
find_active_job owner target_month = do
  row ← gets (λ db. first_by newer (filter (is_active_of (strip owner) target_month) db.jobs))
  read_optional row
