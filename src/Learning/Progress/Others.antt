-- ===== src/Learning/Progress/Others.antt =====
-- The rows that a progress command leaves alone: `apply_progress` of
-- backend/src/lms/modules/learning/repositories.py.
use lawrence_ai_lms.Prelude.{
  ℕ, ◌≡◌, refl, sym, subst, Bool, true, Option, none, some, List, find?, find?-passes, select,
  select-append, select-replace_first, not, ◌==◌, ◌&&◌, arith, ℤ, ==_refl,
}
use lawrence_ai_lms.Prelude.Exec.{ok}
use lawrence_ai_lms.Learning.Types.{
  Uuid, Datetime, LessonProgressState, CourseProgressState, ProgressCommandName, ProgressMutation,
}
use lawrence_ai_lms.Learning.Store.{EnrollmentRow, CourseProgressRow, LessonProgressRow, World}
use lawrence_ai_lms.Learning.Repository.{
  PublishedCoursePort, ProgressScope, ProgressTarget, is_course_row, is_lesson_row,
  is_active_enrollment, apply_progress, completion_time, course_state_at,
}
use lawrence_ai_lms.Learning.Progress.Rows.{saved_lesson, with_lesson, saved_course, with_course}
use lawrence_ai_lms.Learning.Progress.Apply.{counted_after, progress_step}
use lawrence_ai_lms.Learning.Progress.Commands.{apply_progress-Applied}

-- A row of another enrollment, or of another tenant.
abbrev pub is_other_lesson : Uuid → Uuid → LessonProgressRow → Bool
is_other_lesson tenant_id enrollment_id r =
    not (r.tenant_id == tenant_id && r.enrollment_id == enrollment_id)

abbrev pub is_other_course : Uuid → Uuid → CourseProgressRow → Bool
is_other_course tenant_id enrollment_id r =
    not (r.tenant_id == tenant_id && r.enrollment_id == enrollment_id)

others_with_lesson :
    (s : ProgressScope) (l : Uuid) (found : Option LessonProgressRow) (next : LessonProgressState)
    (at : Option Datetime) (rows : List LessonProgressRow)
    → find? (is_lesson_row s l) rows ≡ found
    → select
        (is_other_lesson s.tenant_id s.enrollment_id)
        (with_lesson s l found (saved_lesson s l found next at) rows)
      ≡ select (is_other_lesson s.tenant_id s.enrollment_id) rows
others_with_lesson s l none next at rows f =
    select-append (is_other_lesson s.tenant_id s.enrollment_id) rows _
      (ground (arith, ==_refl s.tenant_id, ==_refl s.enrollment_id))
others_with_lesson s l (some r) next at rows f =
    let key = find?-passes (is_lesson_row s l) rows f in
    select-replace_first (is_other_lesson s.tenant_id s.enrollment_id) (is_lesson_row s l) _ rows
      (λ x h. ground arith) (ground arith)

others_with_course :
    (s : ProgressScope) (l : Uuid) (found : Option CourseProgressRow) (state : CourseProgressState)
    (required completed : ℕ) (at : Datetime) (rows : List CourseProgressRow)
    → find? (is_course_row s) rows ≡ found
    → select
        (is_other_course s.tenant_id s.enrollment_id)
        (with_course s found (saved_course s l found state required completed at) rows)
      ≡ select (is_other_course s.tenant_id s.enrollment_id) rows
others_with_course s l none state required completed at rows f =
    select-append (is_other_course s.tenant_id s.enrollment_id) rows _
      (ground (arith, ==_refl s.tenant_id, ==_refl s.enrollment_id))
others_with_course s l (some r) state required completed at rows f =
    let key = find?-passes (is_course_row s) rows f in
    select-replace_first (is_other_course s.tenant_id s.enrollment_id) (is_course_row s) _ rows
      (λ x h. ground arith) (ground arith)

-- What a command on one enrollment does not touch.
pub record LeavesOthers (tenant_id enrollment_id : Uuid) (w t : World) : Type 0 where
  pub lessons :
      select (is_other_lesson tenant_id enrollment_id) t.database.lesson_progress
      ≡ select (is_other_lesson tenant_id enrollment_id) w.database.lesson_progress
  pub courses :
      select (is_other_course tenant_id enrollment_id) t.database.course_progress
      ≡ select (is_other_course tenant_id enrollment_id) w.database.course_progress
  pub memberships : t.database.memberships ≡ w.database.memberships
  pub enrollments : t.database.enrollments ≡ w.database.enrollments

progress_step-LeavesOthers :
    (target : ProgressTarget) (next : LessonProgressState) (now : Datetime) (w : World)
    → find? (is_course_row target.scope) w.database.course_progress ≡ target.aggregate
    → find? (is_lesson_row target.scope target.lesson_id) w.database.lesson_progress
      ≡ target.lesson_progress
    → LeavesOthers target.scope.tenant_id target.scope.enrollment_id w
        (progress_step target next now w)
progress_step-LeavesOthers target next now w fc fl = record {
  lessons =
      others_with_lesson target.scope target.lesson_id target.lesson_progress next
        (completion_time next now) w.database.lesson_progress fl;
  courses =
      others_with_course target.scope target.lesson_id target.aggregate
        (course_state_at (counted_after target next now w) target.required_count)
        target.required_count (counted_after target next now w) now w.database.course_progress fc;
  memberships = refl;
  enrollments = refl;
}

enrolled-id :
    (tenant_id learner_id enrollment_id : Uuid) (row : EnrollmentRow)
    → is_active_enrollment tenant_id learner_id enrollment_id row ≡ true
    → row.id ≡ enrollment_id
enrolled-id tenant_id learner_id enrollment_id row h = ground arith

-- A successful progress command leaves alone the progress of every other enrollment and tenant, in
-- content and in order, and all memberships and enrollments.
pub apply_progress-LeavesOthers :
    (courses : PublishedCoursePort) (tenant_id learner_id enrollment_id lesson_id : Uuid)
    (command : ProgressCommandName) (expected : ℤ) (now : Datetime) (w : World)
    {m : ProgressMutation} {t : World}
    → apply_progress courses tenant_id learner_id enrollment_id lesson_id command expected now w
      ≡ (ok m, t)
    → LeavesOthers tenant_id enrollment_id w t
apply_progress-LeavesOthers courses tenant_id learner_id enrollment_id lesson_id command expected
      now w {m} {t} e =
    let a =
      apply_progress-Applied courses tenant_id learner_id enrollment_id lesson_id command expected
        now w e in
    let it = a.is_target in
    let same = enrolled-id tenant_id learner_id enrollment_id it.row (
      find?-passes (is_active_enrollment tenant_id learner_id enrollment_id) w.database.enrollments
        it.is_enrolled.enrolled) in
    subst (λ id. LeavesOthers tenant_id id w t) same
      (subst (λ s. LeavesOthers s.tenant_id s.enrollment_id w t) it.scoped
        (subst (λ v. LeavesOthers a.target.scope.tenant_id a.target.scope.enrollment_id w v)
          (sym a.recorded.final)
          (progress_step-LeavesOthers a.target a.recorded.next now w it.aggregate it.lesson_row)))
