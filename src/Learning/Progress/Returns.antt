-- ===== src/Learning/Progress/Returns.antt =====
-- When `apply_progress` of backend/src/lms/modules/learning/repositories.py returns.
use lawrence_ai_lms.Prelude.{
  ℕ, ◌+◌, ◌≤◌, ◌≡◌, refl, ap, ◌∙◌, true, false, Option, none, some, arith, any, find?, count_by,
  count_by-le-length, Distinct, ℤ, pos, eq_ℤ, eq_ℤ_iff, ◌==◌,
}
use lawrence_ai_lms.Prelude.Exec.{ok, ◌>>=◌, >>=-ok}
use lawrence_ai_lms.Learning.Types.{
  Uuid, Datetime, PublishedCourse, PublishedLesson, LessonProgressState, ProgressCommandName,
  ProgressMutation, CourseProgressState,
}
use lawrence_ai_lms.Learning.Store.{EnrollmentRow, CourseProgressRow, LessonProgressRow, World}
use lawrence_ai_lms.Learning.Repository.{
  PublishedCoursePort, lessons, required_lesson_count, active_enrollment, ProgressScope,
  ProgressTarget, enrollment_scope, progress_target, is_course_row, is_lesson_row, is_completed_row,
  required_ids, row_version_of, lesson_state_of_row, next_lesson_state, completion_time,
  same_course_key, save_lesson_progress, save_course_progress, course_state_at, record_progress,
  apply_progress,
}
use lawrence_ai_lms.Learning.Progress.Completion.{
  UniqueLessons, is_done, count-is_done, length-required_ids,
}
use lawrence_ai_lms.Learning.Progress.Rows.{
  FreeKey, lesson_saved, UniqueLessons-lesson_saved, saved_course, course_saved,
}
use lawrence_ai_lms.Learning.Progress.Apply.{
  IsEnrolled, lesson_step, counted_after, progress_step, mutation_after,
}
use lawrence_ai_lms.Learning.Progress.Commands.{required_lesson_count-eq-ok}

-- The course row of an enrollment is the one of its version, with the course's required count.
abbrev pub FitsCourse : ProgressScope → ℕ → Option CourseProgressRow → World → Type 0
FitsCourse s required none w = any (same_course_key s) w.database.course_progress ≡ false
FitsCourse s required (some r) w = r.required_lesson_count ≡ required

fits_later :
    (s : ProgressScope) (required : ℕ) (found : Option CourseProgressRow) (w t : World)
    → t.database.course_progress ≡ w.database.course_progress
    → FitsCourse s required found w
    → FitsCourse s required found t
fits_later s required none w t same fits = ap (any (same_course_key s)) same ∙ fits
fits_later s required (some r) w t same fits = fits

save_lesson_progress-ok :
    (s : ProgressScope) (l : Uuid) (found : Option LessonProgressRow) (next : LessonProgressState)
    (at : Option Datetime) (w : World)
    → FreeKey s l found w
    → save_lesson_progress s l found next at w ≡ (ok tt, lesson_saved s l found next at w)
unfolding save_lesson_progress ◌>>=◌
save_lesson_progress-ok s l none next at w free = rw free refl
save_lesson_progress-ok s l (some r) next at w free = refl

save_course_progress-ok :
    (s : ProgressScope) (l : Uuid) (found : Option CourseProgressRow) (state : CourseProgressState)
    (required completed : ℕ) (at : Datetime) (w : World)
    → FitsCourse s required found w
    → completed ≤ required
    → save_course_progress s l found state required completed at w ≡ (
      ok (row_version_of found + 1),
      course_saved s found (saved_course s l found state required completed at) w,
    )
unfolding save_course_progress ◌>>=◌
save_course_progress-ok s l none state required completed at w fits within = ground arith
save_course_progress-ok s l (some r) state required completed at w fits within = ground arith

record_progress-ok :
    (target : ProgressTarget) (command : ProgressCommandName) (now : Datetime) (w : World)
    {next : LessonProgressState}
    → next_lesson_state command (lesson_state_of_row target.lesson_progress) ≡ ok next
    → FreeKey target.scope target.lesson_id target.lesson_progress w
    → FitsCourse target.scope target.required_count target.aggregate w
    → counted_after target next now w ≤ target.required_count
    → record_progress target command now w
      ≡ (ok (mutation_after target next now w), progress_step target next now w)
unfolding record_progress
record_progress-ok target command now w {next} legal free fits within =
    >>=-ok _ _ w {a = next} {s' = w} (ap (λ r. (r, w)) legal)
    ∙ (>>=-ok _ _ w (
          save_lesson_progress-ok target.scope target.lesson_id target.lesson_progress next
            (completion_time next now) w free)
        ∙ (>>=-ok _ _ (lesson_step target next now w) {a = counted_after target next now w}
              {s' = lesson_step target next now w} refl
            ∙ >>=-ok _ _ (lesson_step target next now w) (
                save_course_progress-ok target.scope target.lesson_id target.aggregate
                  (course_state_at (counted_after target next now w) target.required_count)
                  target.required_count (counted_after target next now w) now
                  (lesson_step target next now w)
                  (fits_later target.scope target.required_count target.aggregate w
                    (lesson_step target next now w) refl fits)
                  within)))

abbrev pub target_of :
    Uuid → EnrollmentRow → PublishedCourse → PublishedLesson → ℕ → World → ProgressTarget
target_of tenant_id row course lesson count w =
    let scope = enrollment_scope tenant_id row in
    record {
      scope = scope;
      lesson_id = lesson.id;
      required_count = count;
      required_lesson_ids = required_ids (lessons course);
      aggregate = find? (is_course_row scope) w.database.course_progress;
      lesson_progress = find? (is_lesson_row scope lesson.id) w.database.lesson_progress;
    }

-- What a progress command needs: an active enrollment, a lesson of its course, the stored version,
-- a transition that the lesson's state allows, and tables that fit the course.
pub record IsReady (courses : PublishedCoursePort)
    (tenant_id learner_id enrollment_id lesson_id : Uuid) (command : ProgressCommandName)
    (expected : ℤ) (w : World) : Type 0 where
  pub row : EnrollmentRow
  pub course : PublishedCourse
  pub lesson : PublishedLesson
  pub count : ℕ
  pub next : LessonProgressState
  pub enrolled : IsEnrolled courses tenant_id learner_id enrollment_id w row course
  pub found : find? (λ item. item.id == lesson_id) (lessons course) ≡ some lesson
  pub counted : required_lesson_count course ≡ ok count
  pub distinct : Distinct (required_ids (lessons course))
  pub version :
      pos (row_version_of (target_of tenant_id row course lesson count w).aggregate) ≡ expected
  pub legal :
      next_lesson_state command
        (lesson_state_of_row (target_of tenant_id row course lesson count w).lesson_progress)
      ≡ ok next
  pub unique : UniqueLessons w.database.lesson_progress
  pub free :
      FreeKey
        (enrollment_scope tenant_id row)
        lesson.id
        (target_of tenant_id row course lesson count w).lesson_progress
        w
  pub fits :
      FitsCourse
        (enrollment_scope tenant_id row)
        count
        (target_of tenant_id row course lesson count w).aggregate
        w

pub active_enrollment-ok :
    (courses : PublishedCoursePort) (tenant_id learner_id enrollment_id : Uuid) (w : World)
    {row : EnrollmentRow} {course : PublishedCourse}
    → IsEnrolled courses tenant_id learner_id enrollment_id w row course
    → active_enrollment courses tenant_id learner_id enrollment_id true w ≡ (ok (row, course), w)
unfolding active_enrollment ◌>>=◌
active_enrollment-ok courses tenant_id learner_id enrollment_id w e =
    rw e.admitted (rw e.enrolled (rw e.loaded refl))

progress_target-ok :
    (courses : PublishedCoursePort) (tenant_id learner_id enrollment_id lesson_id : Uuid)
    (expected : ℤ) (w : World) {row : EnrollmentRow} {course : PublishedCourse}
    {lesson : PublishedLesson} {count : ℕ}
    → IsEnrolled courses tenant_id learner_id enrollment_id w row course
    → find? (λ item. item.id == lesson_id) (lessons course) ≡ some lesson
    → required_lesson_count course ≡ ok count
    → eq_ℤ (pos (row_version_of (target_of tenant_id row course lesson count w).aggregate)) expected
      ≡ true
    → progress_target courses tenant_id learner_id enrollment_id lesson_id expected w
      ≡ (ok (target_of tenant_id row course lesson count w), w)
unfolding progress_target ◌>>=◌
progress_target-ok courses tenant_id learner_id enrollment_id lesson_id expected w e found counted
      v =
    rw (active_enrollment-ok courses tenant_id learner_id enrollment_id w e)
      (rw found (rw counted (rw v refl)))

within_required :
    (course : PublishedCourse) (scope : ProgressScope) (count : ℕ) (w : World)
    → required_lesson_count course ≡ ok count
    → Distinct (required_ids (lessons course))
    → UniqueLessons w.database.lesson_progress
    → count_by (is_completed_row scope (required_ids (lessons course))) w.database.lesson_progress
      ≤ count
within_required course scope count w counted d u = omega (
  arith,
  count-is_done scope (required_ids (lessons course)) w.database.lesson_progress d u,
  count_by-le-length (is_done scope w.database.lesson_progress) (required_ids (lessons course)),
  length-required_ids (lessons course),
  required_lesson_count-eq-ok course count counted,
)

-- A progress command returns whenever the enrollment is active, the lesson is one of its course, the
-- version is the stored one, the lesson's state allows the command, and the tables fit the course.
pub apply_progress-IsReady :
    (courses : PublishedCoursePort) (tenant_id learner_id enrollment_id lesson_id : Uuid)
    (command : ProgressCommandName) (expected : ℤ) (now : Datetime) (w : World)
    → IsReady courses tenant_id learner_id enrollment_id lesson_id command expected w
    → (m : ProgressMutation) × (t : World) × (apply_progress courses tenant_id learner_id
          enrollment_id lesson_id command expected now w
        ≡ (ok m, t))
unfolding apply_progress
apply_progress-IsReady courses tenant_id learner_id enrollment_id lesson_id command expected now w
      r =
    let target = target_of tenant_id r.row r.course r.lesson r.count w in
    let u =
      UniqueLessons-lesson_saved target.scope target.lesson_id target.lesson_progress r.next
        (completion_time r.next now) w r.unique refl r.free in
    (
      mutation_after target r.next now w,
      progress_step target r.next now w,
      >>=-ok _ _ w (
            progress_target-ok courses tenant_id learner_id enrollment_id lesson_id expected w
              r.enrolled r.found r.counted ((eq_ℤ_iff _ expected).1 r.version))
          ∙ record_progress-ok target command now w r.legal r.free r.fits (
              within_required r.course target.scope r.count (lesson_step target r.next now w)
                r.counted r.distinct u),
    )
