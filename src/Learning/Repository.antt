-- ===== src/Learning/Repository.antt =====
-- backend/src/lms/modules/learning/repositories.py: enrollments. Lookups of one row by the fields of a
-- unique key read the first row that fits, and a save writes to that row.
mod Catalog
mod Enrollments
mod Progress
mod Playback
unfoldable pub use Catalog.*
unfoldable pub use Enrollments.*
unfoldable pub use Progress.*
unfoldable pub use Playback.*
