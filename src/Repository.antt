-- ===== src/Repository.antt =====
-- common/repository: journal edits, the journal and its write conflicts.
pub mod Pending
pub mod Working
pub mod WriteLog
pub mod Commit
pub mod Journal
