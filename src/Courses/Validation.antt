-- ===== src/Courses/Validation.antt =====
-- backend/src/lms/modules/courses/validation.py: what a command and a complete course have to be.
pub mod Collector
pub mod Formats
pub mod Documents
pub mod Inputs
pub mod Requests
pub mod Identifiers
pub mod Complete
pub mod Decides
pub mod Document
pub mod Transition
pub mod Curriculum
pub mod Unrepeated
pub mod Course
