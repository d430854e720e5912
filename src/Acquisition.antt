-- ===== src/Acquisition.antt =====
-- The acquisition of one receipt, in cloud/src/domain/acquisition.py and
-- cloud/src/workflows/auto_acquisition.py.
pub mod Report
pub mod Ports
pub mod Run
pub mod Workflow
pub mod Outcome
pub mod Keeps
mod Tests
