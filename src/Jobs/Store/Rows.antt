-- ===== src/Jobs/Store/Rows.antt =====
-- The tables of cloud/src/jobs/store.py and the statements that its operations share.
use get_receipt.Base.{
  ℕ, suc, String, Bool, not, ◌&&◌, ◌||◌, Option, none, some, List, [], ◌∷◌, ◌++◌, ◌==◌, nat_eq,
  string_eq, if◌then◌else◌, ltb, any, Result, guard as require,
}
use Prim.Native.String.{compare}
use text.Mathlib.Text.{is_lt}
use get_receipt.Base.Text.{strip, is_empty}
use get_receipt.Base.Exec.{Exec, lift, gets, modify, ◌>>=◌, ◌>>◌}
use get_receipt.Jobs.Payload.{JobError, value_error, integrity_error, Fields, assert_public_payload}
use get_receipt.Jobs.Model.{Job, validate}
use get_receipt.Jobs.Challenge.{Challenge}

pub record JobRow : Type 0 where
  pub job : Job
  pub idempotency_key : String

pub record Event : Type 0 where
  pub id : ℕ
  pub job_id : String
  pub event_type : String
  pub payload : Fields
  pub created_at : ℕ

-- `last_event` is the largest key that AUTOINCREMENT has given.
pub record Db : Type 0 where
  pub jobs : List JobRow
  pub challenges : List Challenge
  pub events : List Event
  pub last_event : ℕ

abbrev pub empty_db : Db
empty_db = record { jobs = []; challenges = []; events = []; last_event = 0 }

abbrev pub Store : Type 0 → Type 0
Store = Exec Db JobError

-- `_job_from_row`.
unfoldable pub job_from_row : JobRow → Result JobError Job
job_from_row row = validate row.job

-- `WHERE id = ? AND owner = ?`.
abbrev pub is_job_of : String → String → JobRow → Bool
is_job_of job_id owner row = row.job.id == job_id && row.job.owner == owner

abbrev pub has_id : String → JobRow → Bool
has_id job_id row = row.job.id == job_id

-- `UPDATE batch_jobs SET ... WHERE ...`, row by row, and the number of rows that it meets.
unfoldable pub update_rows : (JobRow → Bool) → (Job → Job) → List JobRow → List JobRow
update_rows test change [] = []
update_rows test change (row ∷ rows) =
    (if test row then record row { job = change row.job } else row) ∷ update_rows test change rows

unfoldable pub count_rows : (JobRow → Bool) → List JobRow → ℕ
count_rows test [] = 0
count_rows test (row ∷ rows) = if test row then suc (count_rows test rows) else count_rows test rows

abbrev pub with_update : (JobRow → Bool) → (Job → Job) → Db → Db
with_update test change db = record db { jobs = update_rows test change db.jobs }

-- The update, and the test of `cursor.rowcount` behind it.
unfoldable pub update_one : JobError → (JobRow → Bool) → (Job → Job) → Store (Unit {0})
update_one conflict test change = do
  changed ← gets (λ db. count_rows test db.jobs)
  modify (with_update test change)
  lift (require (changed == 1) conflict)

-- The row that AUTOINCREMENT numbers.
abbrev pub with_event : String → String → Fields → ℕ → Db → Db
with_event job_id event_type payload created_at db = record db {
  events =
      db.events
      ++ record {
        id = suc db.last_event;
        job_id = job_id;
        event_type = event_type;
        payload = payload;
        created_at = created_at;
      }
        ∷ [];
  last_event = suc db.last_event;
}

-- `_insert_event`. The foreign key wants a row of the job.
unfoldable pub insert_event : String → String → Fields → ℕ → Store ℕ
insert_event job_id event_type payload created_at = do
  let normalized = strip event_type
  lift (require (not (is_empty normalized)) value_error)
  lift (assert_public_payload payload)
  known ← gets (λ db. any (has_id job_id) db.jobs)
  lift (require known integrity_error)
  modify (with_event job_id normalized payload created_at)
  gets (λ db. db.last_event)

-- A text before another in SQLite's binary order, which for UTF-8 is the order of code points.
abbrev pub text_before : String → String → Bool
text_before s t = is_lt (compare s t)

-- `ORDER BY created_at, id`.
abbrev pub older : JobRow → JobRow → Bool
older a b =
    ltb a.job.created_at b.job.created_at
    || a.job.created_at == b.job.created_at && text_before a.job.id b.job.id

module _ {ℓ} {A : Type ℓ} (before : A → A → Bool) where
  unfoldable pub pick : A → List A → A
  pick best [] = best
  pick best (x ∷ xs) = pick (if before x best then x else best) xs

  -- `ORDER BY ... LIMIT 1`.
  unfoldable pub first_by : List A → Option A
  unfolding pick
  first_by [] = none
  first_by (x ∷ xs) = some (pick x xs)

  unfoldable pub insert_by : A → List A → List A
  insert_by x [] = x ∷ []
  insert_by x (y ∷ ys) = if before x y then x ∷ y ∷ ys else y ∷ insert_by x ys

  -- `ORDER BY ...` of all the rows.
  unfoldable pub sort_by : List A → List A
  unfolding insert_by
  sort_by [] = []
  sort_by (x ∷ xs) = insert_by x (sort_by xs)
