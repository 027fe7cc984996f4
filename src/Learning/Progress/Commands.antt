-- ===== src/Learning/Progress/Commands.antt =====
-- The theorems on `apply_progress` of backend/src/lms/modules/learning/repositories.py.
use lawrence_ai_lms.Prelude.{
  ℕ, ◌+◌, ◌≡◌, refl, sym, ap, subst, ◌∙◌, ◌↔◌, true, Option, none, some, all, find?, arith, ℤ, pos,
  Distinct, count_by,
}
use lawrence_ai_lms.Prelude.Exec.{ok, >>=-eq-ok}
use lawrence_ai_lms.Learning.Types.{
  Uuid, Datetime, PublishedCourse, LessonProgressState, CourseProgressState, ProgressCommandName,
  ProgressMutation, ProgressResult,
}
use lawrence_ai_lms.Learning.Store.{
  EnrollmentRow, CourseProgressRow, LessonProgressRow, World, Database,
}
use lawrence_ai_lms.Learning.Repository.{
  PublishedCoursePort, lessons, required_lesson_count, required_count, ProgressScope,
  ProgressTarget, enrollment_scope, is_course_row, is_lesson_row, is_completed_row, required_ids,
  row_version_of, lesson_state_of_row, next_lesson_state, completion_time, course_state_at,
  apply_progress,
}
use lawrence_ai_lms.Learning.Progress.Completion.{
  UniqueLessons, is_done, completed_count_full, length-required_ids,
}
use lawrence_ai_lms.Learning.Progress.Rows.{
  find?-lesson_saved, UniqueLessons-lesson_saved, saved_course, saved_lesson, find?-course_saved,
}
use lawrence_ai_lms.Learning.Progress.Apply.{
  IsEnrolled, IsTarget, progress_target-eq-ok, Recorded, record_progress-eq-ok, lesson_step,
  counted_after, course_row_after, progress_step, mutation_after,
}

pub required_lesson_count-eq-ok :
    (course : PublishedCourse) (n : ℕ)
    → required_lesson_count course ≡ ok n
    → n ≡ required_count (lessons course)
unfolding required_lesson_count
required_lesson_count-eq-ok course n e = ground arith

course_state_at_iff :
    (completed required : ℕ)
    → (course_state_at completed required ≡ CourseProgressState.completed) ↔ (completed ≡ required)
course_state_at_iff completed required = (λ h. ground arith, λ h. ground arith)

some-≡ : {A : Type 0} {x y : A} → some x ≡ some y → x ≡ y
some-≡ e = cc

-- The rows that stand for a result.
pub record IsReported (r : ProgressResult) (db : Database) : Type 0 where
  pub course_row : CourseProgressRow
  pub lesson_row : LessonProgressRow
  pub course_found :
      find?
        (is_course_row (record {
          tenant_id = r.tenant_id;
          enrollment_id = r.enrollment_id;
          course_version_id = r.course_version_id;
        }))
        db.course_progress
      ≡ some course_row
  pub lesson_found :
      find?
        (is_lesson_row
          (record {
            tenant_id = r.tenant_id;
            enrollment_id = r.enrollment_id;
            course_version_id = r.course_version_id;
          })
          r.lesson_id)
        db.lesson_progress
      ≡ some lesson_row
  pub course_state : course_row.state ≡ r.course_state
  pub required_lessons : course_row.required_lesson_count ≡ r.required_lesson_count
  pub completed_lessons :
      course_row.completed_required_lesson_count ≡ r.completed_required_lesson_count
  pub version : course_row.row_version ≡ r.progress_row_version
  pub resume_lesson : course_row.resume_lesson_id ≡ some r.lesson_id
  pub lesson_state : lesson_row.state ≡ r.lesson_state
  pub completed_at : lesson_row.completed_at ≡ completion_time r.lesson_state r.updated_at

saved_lesson-state :
    (s : ProgressScope) (l : Uuid) (found : Option LessonProgressRow) (next : LessonProgressState)
    (at : Option Datetime)
    → ((saved_lesson s l found next at).state ≡ next)
      × ((saved_lesson s l found next at).completed_at ≡ at)
saved_lesson-state s l none next at = (refl, refl)
saved_lesson-state s l (some r) next at = (refl, refl)

saved_course-counts :
    (s : ProgressScope) (l : Uuid) (found : Option CourseProgressRow) (state : CourseProgressState)
    (required completed : ℕ) (at : Datetime)
    → let y = saved_course s l found state required completed at in
      (y.state ≡ state)
      × (y.completed_required_lesson_count ≡ completed)
      × (y.row_version ≡ row_version_of found + 1)
      × (y.resume_lesson_id ≡ some l)
saved_course-counts s l none state required completed at = (refl, refl, refl, refl)
saved_course-counts s l (some r) state required completed at = (refl, refl, refl, refl)

progress_step-IsReported :
    (target : ProgressTarget) (next : LessonProgressState) (now : Datetime) (w : World)
    → find? (is_course_row target.scope) w.database.course_progress ≡ target.aggregate
    → find? (is_lesson_row target.scope target.lesson_id) w.database.lesson_progress
      ≡ target.lesson_progress
    → (course_row_after target next now w).required_lesson_count ≡ target.required_count
    → IsReported
        (mutation_after target next now w).result
        (progress_step target next now w).database
progress_step-IsReported target next now w fc fl required =
    let completed = counted_after target next now w in
    let (state, count, version, resume) =
      saved_course-counts target.scope target.lesson_id target.aggregate
        (course_state_at completed target.required_count) target.required_count completed now in
    let (lesson, at) =
      saved_lesson-state target.scope target.lesson_id target.lesson_progress next
        (completion_time next now) in
    record {
      course_row = course_row_after target next now w;
      lesson_row =
          saved_lesson target.scope target.lesson_id target.lesson_progress next
            (completion_time next now);
      course_found =
          find?-course_saved target.scope target.lesson_id target.aggregate _ target.required_count
            completed now (lesson_step target next now w) fc;
      lesson_found =
          find?-lesson_saved target.scope target.lesson_id target.lesson_progress next
            (completion_time next now) w fl;
      course_state = state;
      required_lessons = required;
      completed_lessons = count;
      version = version;
      resume_lesson = resume;
      lesson_state = lesson;
      completed_at = at;
    }

progress_step-completed :
    (target : ProgressTarget) (next : LessonProgressState) (now : Datetime) (w : World)
    (scope : ProgressScope) (course : PublishedCourse)
    → target.scope ≡ scope
    → target.required_lesson_ids ≡ required_ids (lessons course)
    → required_lesson_count course ≡ ok target.required_count
    → Distinct (required_ids (lessons course))
    → UniqueLessons (progress_step target next now w).database.lesson_progress
    → ((mutation_after target next now w).result.course_state ≡ CourseProgressState.completed) ↔ (
        all
          (is_done scope (progress_step target next now w).database.lesson_progress)
          (required_ids (lessons course))
        ≡ true)
progress_step-completed target next now w scope course same ids counted d u =
    let full =
      completed_count_full scope (required_ids (lessons course))
        (progress_step target next now w).database.lesson_progress d u in
    let total = required_lesson_count-eq-ok course target.required_count counted in
    let long = length-required_ids (lessons course) in
    let at = course_state_at_iff (counted_after target next now w) target.required_count in
    let rows = (progress_step target next now w).database.lesson_progress in
    let count =
      ap (λ q. count_by (is_completed_row q target.required_lesson_ids) rows) same
      ∙ ap (λ i. count_by (is_completed_row scope i) rows) ids in
    (
      λ h. full.0 (sym count ∙ at.0 h ∙ total ∙ sym long),
      λ h. at.1 (count ∙ full.1 h ∙ long ∙ sym total),
    )

module _ (courses : PublishedCoursePort) (tenant_id learner_id enrollment_id lesson_id : Uuid)
    (command : ProgressCommandName) (expected : ℤ) (now : Datetime) (w : World) where
  IsEnrolled-unique :
      {row row' : EnrollmentRow} {course course' : PublishedCourse}
      → IsEnrolled courses tenant_id learner_id enrollment_id w row course
      → IsEnrolled courses tenant_id learner_id enrollment_id w row' course'
      → (row ≡ row') × (course ≡ course')
  IsEnrolled-unique {row} {row'} {course} {course'} x y =
      let same : row ≡ row' = some-≡ (sym x.enrolled ∙ y.enrolled) in
      (
        same,
        some-≡ (
            sym x.loaded
            ∙ ap (λ r. courses.load_published w tenant_id r.course_id r.course_version_id) same
            ∙ y.loaded),
      )

  -- What a success of `apply_progress` went through.
  pub record Applied (m : ProgressMutation) (t : World) : Type 0 where
    pub target : ProgressTarget
    pub is_target : IsTarget courses tenant_id learner_id enrollment_id w lesson_id expected target
    pub recorded : Recorded target command now w m t

  pub apply_progress-Applied :
      {m : ProgressMutation} {t : World}
      → apply_progress courses tenant_id learner_id enrollment_id lesson_id command expected now w
        ≡ (ok m, t)
      → Applied m t
  unfolding apply_progress
  apply_progress-Applied e =
      let (target, w1, p, e1) = >>=-eq-ok _ _ w e in
      let (read_only, is_target) =
        progress_target-eq-ok courses tenant_id learner_id enrollment_id w lesson_id expected p in
      record {
        target = target;
        is_target = is_target;
        recorded = record_progress-eq-ok target command now w (rw read_only at e1);
      }

  -- The stored rows that a command went on from.
  pub record IsVersioned (m : ProgressMutation) : Type 0 where
    pub row : EnrollmentRow
    pub course : PublishedCourse
    pub is_enrolled : IsEnrolled courses tenant_id learner_id enrollment_id w row course
    pub version :
        pos (
          row_version_of
            (find? (is_course_row (enrollment_scope tenant_id row)) w.database.course_progress))
        ≡ expected
    pub previous_version : pos m.previous_progress_row_version ≡ expected
    pub next_version : pos m.result.progress_row_version ≡ pos (m.previous_progress_row_version + 1)
    pub lesson :
        next_lesson_state command (
          lesson_state_of_row (
            find?
              (is_lesson_row (enrollment_scope tenant_id row) lesson_id)
              w.database.lesson_progress))
        ≡ ok m.result.lesson_state

  -- A successful progress command expected exactly the version of the course row that was stored for
  -- the active enrollment before it, or 0 where there was none, and answers one more; it moves the
  -- lesson by the transition table from the state of the lesson row that was stored for that
  -- enrollment, or from not started where there was none.
  pub apply_progress-IsVersioned :
      {m : ProgressMutation} {t : World}
      → apply_progress courses tenant_id learner_id enrollment_id lesson_id command expected now w
        ≡ (ok m, t)
      → IsVersioned m
  apply_progress-IsVersioned e =
      let a = apply_progress-Applied e in
      let it = a.is_target in
      subst IsVersioned (sym a.recorded.mutation) (record {
        row = it.row;
        course = it.course;
        is_enrolled = it.is_enrolled;
        version =
            ap (λ x. pos (row_version_of x))
              (ap (λ s. find? (is_course_row s) w.database.course_progress) (sym it.scoped)
                ∙ it.aggregate)
            ∙ it.version;
        previous_version = it.version;
        next_version = refl;
        lesson =
            ap (λ x. next_lesson_state command (lesson_state_of_row x))
              ((λ i.
                  find? (is_lesson_row (sym it.scoped i) (sym it.same_lesson i))
                    w.database.lesson_progress)
                ∙ it.lesson_row)
            ∙ a.recorded.legal;
      })

  -- The rows that a successful command leaves hold what its result says.
  pub apply_progress-IsReported :
      {m : ProgressMutation} {t : World}
      → apply_progress courses tenant_id learner_id enrollment_id lesson_id command expected now w
        ≡ (ok m, t)
      → IsReported m.result t.database
  apply_progress-IsReported {m} {t} e =
      let a = apply_progress-Applied e in
      rw a.recorded.mutation (
        rw a.recorded.final (
          progress_step-IsReported a.target a.recorded.next now w a.is_target.aggregate
            a.is_target.lesson_row a.recorded.stored_required))

  -- A successful command keeps the lesson rows unique.
  pub apply_progress-UniqueLessons :
      {m : ProgressMutation} {t : World}
      → UniqueLessons w.database.lesson_progress
      → apply_progress courses tenant_id learner_id enrollment_id lesson_id command expected now w
        ≡ (ok m, t)
      → UniqueLessons t.database.lesson_progress
  apply_progress-UniqueLessons u e =
      let a = apply_progress-Applied e in
      let target = a.target in
      subst (λ v. UniqueLessons v.database.lesson_progress) (sym a.recorded.final)
        (UniqueLessons-lesson_saved target.scope target.lesson_id target.lesson_progress
          a.recorded.next (completion_time a.recorded.next now) w u a.is_target.lesson_row
          a.recorded.free)

  -- In tables with one row for each lesson, a command answers that the course is completed
  -- exactly if each required lesson of the published course is then stored as completed.
  pub apply_progress-completed :
      {row : EnrollmentRow} {course : PublishedCourse} {m : ProgressMutation} {t : World}
      → IsEnrolled courses tenant_id learner_id enrollment_id w row course
      → Distinct (required_ids (lessons course))
      → UniqueLessons w.database.lesson_progress
      → apply_progress courses tenant_id learner_id enrollment_id lesson_id command expected now w
        ≡ (ok m, t)
      → (m.result.course_state ≡ CourseProgressState.completed) ↔ (
          all
            (is_done (enrollment_scope tenant_id row) t.database.lesson_progress)
            (required_ids (lessons course))
          ≡ true)
  apply_progress-completed {row} {course} {m} {t} enrolled d u e =
      let a = apply_progress-Applied e in
      let it = a.is_target in
      let (same_row, same_course) = IsEnrolled-unique it.is_enrolled enrolled in
      rw a.recorded.mutation (
        rw a.recorded.final (
          progress_step-completed a.target a.recorded.next now w (enrollment_scope tenant_id row)
            course (it.scoped ∙ ap (enrollment_scope tenant_id) same_row)
            (it.required ∙ ap (λ c. required_ids (lessons c)) same_course)
            (sym (ap required_lesson_count same_course) ∙ it.counted) d
            (subst (λ v. UniqueLessons v.database.lesson_progress) a.recorded.final
              (apply_progress-UniqueLessons u e))))
