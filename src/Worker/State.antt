-- ===== src/Worker/State.antt =====
-- The worker's state in cloud/src/workers/runner.py, and what it calls. `O` is the outside world:
-- clocks, Drive, the browser and the other threads.
use get_receipt.Base.{ℕ, String, Bool, Option, List, Result, ok, err, string_eq}
use get_receipt.Base.Exec.{Exec}
use get_receipt.Config.{ServiceDefinition}
use get_receipt.Acquisition.Ports.{
  Item, Raised, Statement, ExtractedReceiptData, ReceiptMetadata, Call as Outside,
}
use get_receipt.Jobs.Payload.{JobError}
use get_receipt.Jobs.Store.Rows.{Db, Store}
use get_receipt.Jobs.Inbox.{Inbox}

-- What the owner's threads change as well: the tables, the inbox, and the two events.
pub record Common : Type 0 where
  pub db : Db
  pub inbox : Inbox
  pub stopped : Bool
  pub continued : Bool

-- A page of the browser, with its address as `urlsplit` has split it.
pub record Target : Type 0 where
  pub target_id : String
  pub scheme : String
  pub hostname : String
  pub username : String
  pub password : String
  pub port : Option ℕ

-- The factories and functions that `ReceiptWorker` is made with, the clock, `uuid4`, and what the other
-- threads do before the worker's next access to what they share.
pub record Office (O : Type 0) : Type 0 where
  pub now : O → ℕ × O
  pub monotonic : O → ℕ × O
  pub draw : O → String × O
  pub others : O → (Common → Common) × O
  pub storage_factory : Outside O (Unit {0})
  pub list_files : Outside O (List Item)
  pub upsert_bytes : String → List ℕ → Outside O (Unit {0})
  pub browser_factory : String → Outside O (Unit {0})
  pub fetcher_factory : String → Outside O (Unit {0})
  pub close : O → O
  pub page_target : Outside O Target
  pub fetch_pdf : String → Outside O Statement
  pub resume_after_security_code : Option (String → String → Outside O Statement)
  pub receipt_finder : List Item → ServiceDefinition → String → Result Raised (Option Item)
  pub extract_receipt_data : List ℕ → String → String → Result Raised ExtractedReceiptData
  pub build_receipt_filename : ReceiptMetadata → String → Result Raised String

-- `WorkerRuntimeConfig`, without its paths. The time to live is in microseconds.
pub record Settings : Type 0 where
  pub owner_id : String
  pub challenge_ttl : ℕ

pub record Worker (O : Type 0) : Type 0 where
  pub common : Common
  pub outer : O
  pub active_job_id : String
  pub browser_job_id : Option String
  pub interactive_challenge_id : String
  pub interactive_service_id : String
  pub interactive_target_id : String

-- An exception of the store, any other one, or a wait that the rounds of the model do not see the end of.
pub data Trouble : Type 0 where
  of_store : JobError → Trouble
  unexpected : Trouble
  out_of_rounds : Trouble

abbrev pub Work : Type 0 → Type 0 → Type 0
Work O A = Exec (Worker O) Trouble A

abbrev pub from_store : {A : Type 0} → Result JobError A → Result Trouble A
from_store (ok a) = ok a
from_store (err e) = err (of_store e)

abbrev pub or_unexpected : {E A : Type 0} → Result E A → Result Trouble A
or_unexpected (ok a) = ok a
or_unexpected (err e) = err unexpected

module _ {O : Type 0} where
  -- A call of the outside world; what it raises is not caught where it is called.
  unfoldable pub outside : {A : Type 0} → Outside O A → Work O A
  outside f s = let (r, o) = f s.outer in (or_unexpected r, record s { outer = o })

module _ {O : Type 0} (office : Office O) where
  -- The other threads' step.
  unfoldable pub let_others : Worker O → Worker O
  let_others s =
      let (step, o) = office.others s.outer in record s { common = step s.common; outer = o }

  -- A call of the store, after the others.
  unfoldable pub on_store : {A : Type 0} → Store A → Work O A
  unfolding let_others
  on_store m s =
      let t = let_others s in
      let (r, db) = m t.common.db in
      (from_store r, record t { common = record t.common { db = db } })

  unfoldable pub clock : Work O ℕ
  clock s = let (t, o) = office.now s.outer in (ok t, record s { outer = o })

  unfoldable pub reading : Work O ℕ
  reading s = let (t, o) = office.monotonic s.outer in (ok t, record s { outer = o })

  unfoldable pub uuid : Work O String
  uuid s = let (t, o) = office.draw s.outer in (ok t, record s { outer = o })

  -- `self._stop_event.is_set()`.
  unfoldable pub is_stopped : Work O Bool
  unfolding let_others
  is_stopped s = let t = let_others s in (ok t.common.stopped, t)
