-- ===== src/Jobs/Store/Invariant.antt =====
-- Well-formed tables, and what a search finds in them.
pub mod Keeps
use get_receipt.Base.{
  ℕ, ◌≤◌, ◌<◌, ◌≡◌, Bool, true, false, some, List, [], ◌∷◌, string_eq, any, find?, All,
}
use get_receipt.Jobs.Model.Valid.{IsValid}
use get_receipt.Jobs.Challenge.{Challenge}
use get_receipt.Jobs.Store.Rows.{Db, JobRow, Event, has_id}
use get_receipt.Jobs.Store.Create.{has_key}
use get_receipt.Jobs.Store.Tables.{UniqueIds, In-All, find?-In}

-- No owner has two jobs under one idempotency key.
abbrev pub UniqueKeys : List JobRow → Type 0
UniqueKeys [] = Unit
UniqueKeys (row ∷ rows) =
    (any (has_key row.job.owner row.idempotency_key) rows ≡ false) × UniqueKeys rows

-- The keys of events grow along the table, up to `last`.
abbrev pub Ascending : ℕ → List Event → Type 0
Ascending last [] = Unit
Ascending last (e ∷ es) = (e.id ≤ last) × All (λ (f : Event). e.id < f.id) es × Ascending last es

-- Every stored job reads back, keys are unique, events are numbered upwards, and each event and
-- each challenge belongs to a stored job.
pub record WellFormed (db : Db) : Type 0 where
  pub valid : All (λ (row : JobRow). IsValid row.job) db.jobs
  pub ids : UniqueIds db.jobs
  pub keys : UniqueKeys db.jobs
  pub ascending : Ascending db.last_event db.events
  pub event_jobs : All (λ (e : Event). any (has_id e.job_id) db.jobs ≡ true) db.events
  pub challenge_jobs : All (λ (c : Challenge). any (has_id c.job_id) db.jobs ≡ true) db.challenges

pub find?-IsValid :
    (p : JobRow → Bool) (db : Db) (row : JobRow)
    → WellFormed db
    → find? p db.jobs ≡ some row
    → IsValid row.job
find?-IsValid p db row w h =
    In-All (λ (r : JobRow). IsValid r.job) row db.jobs (find?-In p db.jobs row h).0 w.valid
