-- ===== src/Jobs/Store.antt =====
-- cloud/src/jobs/store.py: the SQLite job store. A table is the list of its rows in the order of
-- insertion. A row holds the decoded columns, the JSON columns among them, and is read through the
-- checks of `BatchJob`, as `_job_from_row` does. The store's lock makes each operation atomic.
pub mod Rows
pub mod Tables
pub mod Steps
pub mod Invariant
pub mod Create
pub mod Claim
pub mod Update
pub mod Challenges
pub mod Reachable
