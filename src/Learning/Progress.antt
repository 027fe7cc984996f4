-- ===== src/Learning/Progress.antt =====
-- Correctness of progress: backend/src/lms/modules/learning/repositories.py and services.py.
pub mod Completion
pub mod Rows
pub mod Apply
pub mod Commands
pub mod Frame
pub mod Outcome
pub mod Returns
pub mod Stale
pub mod Others
