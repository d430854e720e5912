-- ===== src/Worker.antt =====
-- cloud/src/workers/runner.py: the worker that takes jobs from the store and runs their services.
pub mod Failures
pub mod Contract
pub mod State
pub mod Swaps
pub mod Waits
pub mod Interactive
pub mod Acquire
pub mod Process
pub mod Keeps
pub mod Cancelled
pub mod Viewer
pub mod Remaining
pub mod Ends
pub mod Successes
mod Tests
