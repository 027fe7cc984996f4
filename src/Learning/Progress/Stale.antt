-- ===== src/Learning/Progress/Stale.antt =====
-- A progress command at a version that has passed: `apply_progress` of
-- backend/src/lms/modules/learning/repositories.py.
use lawrence_ai_lms.Prelude.{
  ℕ, ◌≡◌, ◌≢◌, refl, false, some, find?, ℤ, pos, eq_ℤ, eq_ℤ_iff, Bool-cases, inl, inr, ◌==◌,
}
use lawrence_ai_lms.Prelude.Exec.{ok, err, ◌>>=◌}
use lawrence_ai_lms.Learning.Errors.{failure, progress_version_conflict}
use lawrence_ai_lms.Learning.Types.{
  Uuid, Datetime, PublishedCourse, PublishedLesson, ProgressCommandName,
}
use lawrence_ai_lms.Learning.Store.{EnrollmentRow, World}
use lawrence_ai_lms.Learning.Repository.{
  PublishedCoursePort, lessons, required_lesson_count, enrollment_scope, is_course_row,
  row_version_of, progress_target, apply_progress,
}
use lawrence_ai_lms.Learning.Progress.Apply.{IsEnrolled}
use lawrence_ai_lms.Learning.Progress.Returns.{target_of, active_enrollment-ok}

progress_target-stale :
    (courses : PublishedCoursePort) (tenant_id learner_id enrollment_id lesson_id : Uuid)
    (expected : ℤ) (w : World) {row : EnrollmentRow} {course : PublishedCourse}
    {lesson : PublishedLesson} {count : ℕ}
    → IsEnrolled courses tenant_id learner_id enrollment_id w row course
    → find? (λ item. item.id == lesson_id) (lessons course) ≡ some lesson
    → required_lesson_count course ≡ ok count
    → eq_ℤ (pos (row_version_of (target_of tenant_id row course lesson count w).aggregate)) expected
      ≡ false
    → progress_target courses tenant_id learner_id enrollment_id lesson_id expected w
      ≡ (err (failure progress_version_conflict), w)
unfolding progress_target ◌>>=◌
progress_target-stale courses tenant_id learner_id enrollment_id lesson_id expected w e found
      counted v =
    rw (active_enrollment-ok courses tenant_id learner_id enrollment_id w e)
      (rw found (rw counted (rw v refl)))

differs : (a b : ℤ) → a ≢ b → eq_ℤ a b ≡ false
differs a b apart = elim (Bool-cases (eq_ℤ a b)) [
  | inl e ↦ absurd (apart ((eq_ℤ_iff a b).0 e))
  | inr e ↦ e
]

-- A progress command on an active enrollment, for a lesson of a published course whose required
-- lessons are in the range that can be counted, that expects another version than the stored one
-- raises the version conflict and writes nothing, whichever command it is.
pub apply_progress-stale :
    (courses : PublishedCoursePort) (tenant_id learner_id enrollment_id lesson_id : Uuid)
    (command : ProgressCommandName) (expected : ℤ) (now : Datetime) (w : World)
    {row : EnrollmentRow} {course : PublishedCourse} {lesson : PublishedLesson} {count : ℕ}
    → IsEnrolled courses tenant_id learner_id enrollment_id w row course
    → find? (λ item. item.id == lesson_id) (lessons course) ≡ some lesson
    → required_lesson_count course ≡ ok count
    → pos (
        row_version_of
          (find? (is_course_row (enrollment_scope tenant_id row)) w.database.course_progress))
      ≢ expected
    → apply_progress courses tenant_id learner_id enrollment_id lesson_id command expected now w
      ≡ (err (failure progress_version_conflict), w)
unfolding apply_progress ◌>>=◌
apply_progress-stale courses tenant_id learner_id enrollment_id lesson_id command expected now w e
      found counted stale =
    rw
      (progress_target-stale courses tenant_id learner_id enrollment_id lesson_id expected w e found
        counted (differs _ expected stale))
      refl
