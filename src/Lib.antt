-- ===== src/Lib.antt =====
-- GetReceipt: receipts of four monthly services, fetched by a worker and kept in Google Drive.
--
-- A job asks for the receipts of some services for one month. The worker takes jobs from a SQLite
-- store, runs an acquisition for each service, and waits for the owner's answer when a provider poses
-- a challenge. The answers pass through an inbox in memory; everything durable passes the check that
-- no secret is stored.
--
-- Base has what the modules share: lists and texts over the native numbers, results of code that may
-- raise (Base/Raising), methods on a state (Base/Exec), and rules for what such methods ensure.
--
-- Jobs/Payload, Jobs/Model and Jobs/Challenge are cloud/src/jobs/models.py: `assert_public_payload`,
-- `BatchJob` (`validate` is its `__post_init__`, and Jobs/Model/Accepted has its conditions in words of
-- their own) and `Challenge`.
-- Jobs/Store is cloud/src/jobs/store.py: `Db` has the three tables as lists in the order of insertion,
-- and each method of `SQLiteJobStore` is a function of the same name from the tables to an outcome and
-- tables. `transaction` rolls back when its body raises. A clock's reading and a drawn UUID are arguments.
-- Jobs/Inbox is cloud/src/jobs/inbox.py: the pending responses are objects on a heap, each critical
-- section of a method is one function, and `Steps` of Jobs/Inbox/Single are the interleavings of threads.
-- Service is `WorkerService` of cloud/src/workers/service.py on the store and the inbox together; a round
-- of the loop of `cancel_job` names what other threads do to the tables before its compare-and-set, and
-- Service/Cancelled is its outcome.
-- Config is cloud/src/config.py.
-- Acquisition is cloud/src/workflows/auto_acquisition.py with cloud/src/domain/acquisition.py: `attempt`
-- is `_run_auto_acquisition_unlocked`, an early return is the error of the computation, and `Ports` has
-- the arguments that reach the outside world, each with the world that it leaves.
--
-- Worker is `ReceiptWorker` of cloud/src/workers/runner.py. Worker/State has its state and `Office`, the
-- factories it is made with, the clocks, and `others`: what the other threads do to the tables, the inbox
-- and the events before each of its accesses. Worker/Swaps are its transitions, Worker/Waits and
-- Worker/Interactive its waits for the owner, Worker/Acquire `_acquire_service` with the commit guard,
-- Worker/Process `_process_job` and `run_once`, Worker/Failures the codes and results of failures, and
-- Worker/Viewer the owner's calls on the browser.
--
-- Backup is `SQLiteBackupLifecycle` of cloud/src/workers/backup_lifecycle.py, for calls of `start` and
-- `stop` one after the other, with the attempts of the thread between them and during the join.
--
-- AccessControl is cloud/src/ui/access_control.py: `require_owner_access` on the page that it has
-- shown, with `st.stop`, the case folding and SHA-256 as parameters, and AccessControl/Settings its
-- configuration; `Owner` and `Admitted` say who is to be let in.
--
-- Drive is cloud/src/workflows/drive_status.py: `match_file` is the body of the loop of
-- `find_receipt`, and `name_parts` of Drive/Names the groups of the pattern of the names. Drive/Order
-- is Python's order of sequences, and Drive/Acquired an attempt whose finder is `find_receipt`.
--
-- ManualUpload is cloud/src/workflows/manual_upload.py: `save_manual_receipt` is `attempt` of
-- Acquisition on the ports whose statement is the upload, behind `inspect_manual_receipt`.
--
-- MailCodes is cloud/src/automation/mail_codes.py: `Mailbox` has the requests, the tokens and the
-- clock of `MailVerificationCodeReader`, MailCodes/Search its `_search` and MailCodes/Reader
-- `_read_codes` and the loop of `wait_for_code`, a number of rounds long.
--
-- Instants are microseconds and versions are natural numbers. The decimal print in Config/Numerals has
-- the number itself as its fuel, which is more than its digits, and the loop of the selectable months
-- a number of rounds, for which one more than the months is enough. A run of the worker takes two
-- numbers: the passes over the services of a job, of which one more than the services is enough, and
-- the rounds of one wait for the owner. A wait that exceeds them ends in `out_of_rounds`, which is none
-- of the code's exceptions; a round takes at least a microsecond, so more rounds than a challenge has
-- microseconds to live are enough (Worker/Ends/Owner and Worker/Ends/Code). A wait for a mailed code takes a number
-- of rounds too, and one more than the polls that fit into its time is enough. Worker/Remaining says
-- which services a job has left and what the other threads may do to it, Worker/Ends follows them
-- through a pass, and Worker/Successes what a success means.
--
-- Not modelled: SQLite's connection and files, the JSON text of a row, the worker's thread and its
-- directories, the HTTP interface, the browser automation but the mailed codes, the receipt archive,
-- the storage adapters, OAuth and the user interface. The reading of a PDF and the naming of a file
-- are functions that an attempt is given.
pub mod AccessControl
pub mod Acquisition
pub mod Backup
pub mod Base
pub mod Config
pub mod Drive
pub mod Jobs
pub mod MailCodes
pub mod ManualUpload
pub mod Service
pub mod Worker
