-- ===== src/Identity.antt =====
-- backend/src/lms/modules/identity: who calls, and in which tenant.
pub mod Service
pub mod Context
mod Tests
