-- ===== src/TaskResult.antt =====
-- web/src/pages/TaskResult.tsx: the result page of a task.
pub mod Labels
pub mod Refresh
pub mod Panels
pub mod Bytes
pub mod Artifacts
pub mod Rows
pub mod Evidence
pub mod State
pub mod Load
pub mod View
pub mod Tests
