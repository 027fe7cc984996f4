-- ===== src/Learning.antt =====
-- Enrollment and progress: backend/src/lms/modules/learning.
pub mod Types
pub mod Errors
pub mod Store
pub mod Policies
pub mod Payloads
pub mod Idempotency
pub mod Facts
pub mod Repository
pub mod Service
pub mod Progress
pub mod Enrollment
pub mod Playback
mod Samples
mod Runs
mod Tests
