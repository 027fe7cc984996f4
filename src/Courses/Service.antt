-- ===== src/Courses/Service.antt =====
-- backend/src/lms/modules/courses/services.py: `CourseLifecycleService`.
pub mod Ports
pub mod Equality
pub mod Drafts
pub mod Curriculum
pub mod Payloads
pub mod Transitions
pub mod Successors
pub mod Commands
pub mod Bound
pub mod Decided
pub mod Evolved
pub mod Edges
pub mod Admitted
pub mod Reviewed
pub mod Outcome
pub mod Ready
