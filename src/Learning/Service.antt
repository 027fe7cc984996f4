-- ===== src/Learning/Service.antt =====
-- backend/src/lms/modules/learning/services.py: `LearningService`.
mod Ports
mod Events
mod Commands
mod Queries
pub mod Replay
pub mod Atomic
pub mod Conflict
unfoldable pub use Ports.*
unfoldable pub use Events.*
unfoldable pub use Commands.*
unfoldable pub use Queries.*
