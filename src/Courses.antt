-- ===== src/Courses.antt =====
-- backend/src/lms/modules/courses: course authoring, review and publication.
pub mod Types
pub mod Errors
pub mod Commands
pub mod Validation
pub mod Policies
pub mod Lifecycle
pub mod History
pub mod Hashing
pub mod Successor
pub mod Service
pub mod Memory
pub mod Runs
mod Tests
mod ServiceTests
