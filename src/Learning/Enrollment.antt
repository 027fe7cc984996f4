-- ===== src/Learning/Enrollment.antt =====
-- Correctness of enrollments: backend/src/lms/modules/learning/repositories.py.
pub mod Unique
pub mod Access
