-- ===== src/Jobs/Store/Reachable.antt =====
-- The histories of the store: every sequence of calls, failing ones included.
use get_receipt.Base.{ℕ, String, Option, List}
use get_receipt.Base.Exec.Atomic.{Atomic-invariant}
use get_receipt.Jobs.Payload.{Fields}
use get_receipt.Jobs.Challenge.{Challenge}
use get_receipt.Jobs.Store.Rows.{Db, empty_db}
use get_receipt.Jobs.Store.Invariant.{WellFormed}
use get_receipt.Jobs.Store.Create.{create_job}
use get_receipt.Jobs.Store.Create.Once.{create_job-Atomic, create_job-Keeps}
use get_receipt.Jobs.Store.Claim.{claim_next, recover_incomplete_jobs}
use get_receipt.Jobs.Store.Claim.Oldest.{claim_next-Atomic, claim_next-Keeps}
use get_receipt.Jobs.Store.Claim.Recover.{
  NotBefore, recover_incomplete_jobs-Atomic, recover_incomplete_jobs-Keeps,
}
use get_receipt.Jobs.Store.Update.{Patch, compare_and_set, append_event}
use get_receipt.Jobs.Store.Update.Safe.{
  compare_and_set-Atomic, compare_and_set-Keeps, append_event-Atomic, append_event-Keeps,
}
use get_receipt.Jobs.Store.Challenges.{add_challenge}
use get_receipt.Jobs.Store.Challenges.Kept.{add_challenge-Atomic, add_challenge-Keeps}

-- A call of the store and what it leaves, whether it returns or raises. A recovery wants a clock
-- that has not gone back behind the creation of a stored job.
pub data Step (db : Db) : Db → Type 0 where
  created :
      (now : ℕ) (id owner target_month : String) (service_ids : List String) (key : Option String)
      → Step db (create_job now id owner target_month service_ids key db).1
  claimed : (now : ℕ) (owner : String) → Step db (claim_next now owner db).1
  recovered :
      (now : ℕ) (owner : String)
      → NotBefore now db
      → Step db (recover_incomplete_jobs now owner db).1
  swapped :
      (now expected : ℕ) (job_id owner : String) (patch : Patch) (event_type : String)
      (payload : Fields)
      → Step db (compare_and_set now job_id owner expected patch event_type payload db).1
  noted :
      (now : ℕ) (job_id owner event_type : String) (payload : Fields)
      → Step db (append_event now job_id owner event_type payload db).1
  posed : (challenge : Challenge) (owner : String) → Step db (add_challenge challenge owner db).1

pub data Reach : Db → Type 0 where
  start : Reach empty_db
  next : {db t : Db} → Reach db → Step db t → Reach t

-- Each call of the store keeps its tables well formed, whether it returns or raises.
pub Step-WellFormed : {db t : Db} → Step db t → WellFormed db → WellFormed t
Step-WellFormed {db} (created now id owner month services key) w =
    Atomic-invariant WellFormed _ db (create_job-Atomic now id owner month services key)
      (create_job-Keeps now id owner month services key db w) w
Step-WellFormed {db} (claimed now owner) w =
    Atomic-invariant WellFormed _ db (claim_next-Atomic now owner) (claim_next-Keeps now owner db w)
      w
Step-WellFormed {db} (recovered now owner n) w =
    Atomic-invariant WellFormed _ db (recover_incomplete_jobs-Atomic now owner)
      (recover_incomplete_jobs-Keeps now owner db n w) w
Step-WellFormed {db} (swapped now expected job_id owner patch event_type payload) w =
    Atomic-invariant WellFormed _ db
      (compare_and_set-Atomic now expected job_id owner patch event_type payload)
      (compare_and_set-Keeps now expected job_id owner patch event_type payload db w) w
Step-WellFormed {db} (noted now job_id owner event_type payload) w =
    Atomic-invariant WellFormed _ db (append_event-Atomic now job_id owner event_type payload)
      (append_event-Keeps now job_id owner event_type payload db w) w
Step-WellFormed {db} (posed challenge owner) w =
    Atomic-invariant WellFormed _ db (add_challenge-Atomic challenge owner)
      (add_challenge-Keeps challenge owner db w) w

-- After any history of calls from the empty store, the tables are well formed: every stored job
-- passes its checks, identifiers and keys are unique, and events are numbered upwards.
pub Reach-WellFormed : {db : Db} → Reach db → WellFormed db
Reach-WellFormed start = record {
  valid = tt;
  ids = tt;
  keys = tt;
  ascending = tt;
  event_jobs = tt;
  challenge_jobs = tt;
}
Reach-WellFormed (next r s) = Step-WellFormed s (Reach-WellFormed r)
