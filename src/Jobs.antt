-- ===== src/Jobs.antt =====
-- cloud/src/jobs: the durable jobs and their events, and the in-memory challenge responses.
pub mod Payload
pub mod Model
pub mod Challenge
pub mod Store
pub mod Inbox
pub mod Tests
