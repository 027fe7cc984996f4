-- ===== src/Learning/Progress/Apply.antt =====
-- What a progress command does when it succeeds.
use lawrence_ai_lms.Prelude.{
  ℕ, ◌+◌, ◌≡◌, refl, sym, ap, subst, ◌∙◌, Bool, true, false, some, any, find?, find?-passes, arith,
  ℤ, pos, eq_ℤ_iff, not, ==_iff,
}
use lawrence_ai_lms.Prelude.Exec.{
  ok, gets->>=-eq-ok, or_raise->>=-eq-ok, lift->>=-eq-ok, guarded-eq-ok, >>=-eq-ok, pure-eq-ok,
}
use lawrence_ai_lms.Learning.Types.{
  Uuid, Datetime, PublishedCourse, LessonProgressState, ProgressCommandName, ProgressMutation,
}
use lawrence_ai_lms.Learning.Store.{EnrollmentRow, CourseProgressRow, World}
use lawrence_ai_lms.Learning.Repository.{
  PublishedCoursePort, lessons, required_lesson_count, is_active_membership, is_active_enrollment,
  active_enrollment, ProgressTarget, enrollment_scope, progress_target, is_course_row,
  is_lesson_row, required_ids, row_version_of, lesson_state_of_row, next_lesson_state,
  completion_time, completed_count, course_state_at, mutation_of, record_progress,
}
use lawrence_ai_lms.Learning.Progress.Rows.{
  FreeKey, lesson_saved, save_lesson_progress-eq-ok, saved_course, course_saved,
  save_course_progress-eq-ok,
}

admits : {b : Bool} → not b ≡ false → b ≡ true
admits h = ground arith

module _ (courses : PublishedCoursePort) (tenant_id learner_id enrollment_id : Uuid)
    (w : World) where
  -- An active enrollment of an active member, at a version that is published.
  pub record IsEnrolled (row : EnrollmentRow) (course : PublishedCourse) : Type 0 where
    pub admitted : any (is_active_membership tenant_id learner_id) w.database.memberships ≡ true
    pub enrolled :
        find? (is_active_enrollment tenant_id learner_id enrollment_id) w.database.enrollments
        ≡ some row
    pub loaded :
        courses.load_published w tenant_id row.course_id row.course_version_id ≡ some course

  pub active_enrollment-eq-ok :
      {row : EnrollmentRow} {course : PublishedCourse} {t : World}
      → active_enrollment courses tenant_id learner_id enrollment_id true w ≡ (ok (row, course), t)
      → (t ≡ w) × IsEnrolled row course
  unfolding active_enrollment
  active_enrollment-eq-ok {row} {course} e =
      let e1 = gets->>=-eq-ok _ w _ e in
      let (admitted, e2) = guarded-eq-ok _ _ _ w e1 in
      let e3 = gets->>=-eq-ok _ w _ e2 in
      let (row', enrolled, e4) = or_raise->>=-eq-ok _ w _ _ e3 in
      let e5 = gets->>=-eq-ok _ w _ e4 in
      let (course', loaded, e6) = or_raise->>=-eq-ok _ w _ _ e5 in
      let (same, end) = pure-eq-ok _ w e6 in
      (
        end,
        subst (λ p. IsEnrolled p.0 p.1) same
            (record { admitted = admits admitted; enrolled = enrolled; loaded = loaded }),
      )

  -- What a command has read, before it writes.
  pub record IsTarget (lesson_id : Uuid) (expected : ℤ) (target : ProgressTarget) : Type 0 where
    pub row : EnrollmentRow
    pub course : PublishedCourse
    pub is_enrolled : IsEnrolled row course
    pub scoped : target.scope ≡ enrollment_scope tenant_id row
    pub same_lesson : target.lesson_id ≡ lesson_id
    pub counted : required_lesson_count course ≡ ok target.required_count
    pub required : target.required_lesson_ids ≡ required_ids (lessons course)
    pub aggregate : find? (is_course_row target.scope) w.database.course_progress ≡ target.aggregate
    pub lesson_row :
        find? (is_lesson_row target.scope target.lesson_id) w.database.lesson_progress
        ≡ target.lesson_progress
    pub version : pos (row_version_of target.aggregate) ≡ expected

  pub progress_target-eq-ok :
      (lesson_id : Uuid) (expected : ℤ) {target : ProgressTarget} {t : World}
      → progress_target courses tenant_id learner_id enrollment_id lesson_id expected w
        ≡ (ok target, t)
      → (t ≡ w) × IsTarget lesson_id expected target
  unfolding progress_target
  progress_target-eq-ok lesson_id expected e =
      let ((row, course), w1, p, e1) = >>=-eq-ok _ _ w e in
      let (read_only, enrolled) = active_enrollment-eq-ok p in
      let (lesson, found, e2) = or_raise->>=-eq-ok _ w _ _ (rw read_only at e1) in
      let (count, counted, e3) = lift->>=-eq-ok _ w _ e2 in
      let e4 = gets->>=-eq-ok _ w _ e3 in
      let (fresh, e5) = guarded-eq-ok _ _ _ w e4 in
      let e6 = gets->>=-eq-ok _ w _ e5 in
      let (same, end) = pure-eq-ok _ w e6 in
      (
        end,
        subst (IsTarget lesson_id expected) same (record {
          row = row;
          course = course;
          is_enrolled = enrolled;
          scoped = refl;
          same_lesson = (==_iff lesson.id lesson_id).0 (find?-passes _ (lessons course) found);
          counted = counted;
          required = refl;
          aggregate = refl;
          lesson_row = refl;
          version = (eq_ℤ_iff _ expected).0 (admits fresh);
        }),
      )

-- The lessons are counted after the lesson's row is saved.
abbrev pub lesson_step : ProgressTarget → LessonProgressState → Datetime → World → World
lesson_step t next updated_at w =
    lesson_saved t.scope t.lesson_id t.lesson_progress next (completion_time next updated_at) w

abbrev pub counted_after : ProgressTarget → LessonProgressState → Datetime → World → ℕ
counted_after t next updated_at w = completed_count t (lesson_step t next updated_at w).database

abbrev pub course_row_after :
    ProgressTarget → LessonProgressState → Datetime → World → CourseProgressRow
course_row_after t next updated_at w =
    let completed = counted_after t next updated_at w in
    saved_course t.scope t.lesson_id t.aggregate (course_state_at completed t.required_count)
      t.required_count completed updated_at

abbrev pub progress_step : ProgressTarget → LessonProgressState → Datetime → World → World
progress_step t next updated_at w =
    course_saved t.scope t.aggregate (course_row_after t next updated_at w)
      (lesson_step t next updated_at w)

abbrev pub mutation_after :
    ProgressTarget → LessonProgressState → Datetime → World → ProgressMutation
mutation_after t next updated_at w =
    let completed = counted_after t next updated_at w in
    mutation_of t next (course_state_at completed t.required_count) completed
      (row_version_of t.aggregate + 1) updated_at

-- A successful write, in full.
pub record Recorded (target : ProgressTarget) (command : ProgressCommandName)
    (updated_at : Datetime) (w : World) (m : ProgressMutation) (t : World) : Type 0 where
  pub next : LessonProgressState
  pub legal : next_lesson_state command (lesson_state_of_row target.lesson_progress) ≡ ok next
  pub free : FreeKey target.scope target.lesson_id target.lesson_progress w
  pub mutation : m ≡ mutation_after target next updated_at w
  pub final : t ≡ progress_step target next updated_at w
  pub stored_required :
      (course_row_after target next updated_at w).required_lesson_count ≡ target.required_count

pub record_progress-eq-ok :
    (target : ProgressTarget) (command : ProgressCommandName) (updated_at : Datetime) (w : World)
    {m : ProgressMutation} {t : World}
    → record_progress target command updated_at w ≡ (ok m, t)
    → Recorded target command updated_at w m t
unfolding record_progress
record_progress-eq-ok target command updated_at w {m} {t} e =
    let (next, legal, e1) = lift->>=-eq-ok _ w _ e in
    let (_, w1, p1, e2) = >>=-eq-ok _ _ w e1 in
    let (saved, free) =
      save_lesson_progress-eq-ok target.scope target.lesson_id target.lesson_progress next
        (completion_time next updated_at) w p1 in
    let e3 = gets->>=-eq-ok _ (lesson_step target next updated_at w) _ (rw saved at e2) in
    let (n, w2, p2, e4) = >>=-eq-ok _ _ (lesson_step target next updated_at w) e3 in
    let (stored, version, required) =
      save_course_progress-eq-ok target.scope target.lesson_id target.aggregate _
        target.required_count (counted_after target next updated_at w) updated_at _ p2 in
    let (same, end) = pure-eq-ok _ w2 e4 in
    record {
      next = next;
      legal = legal;
      free = free;
      mutation =
          sym same
          ∙ ap
              (λ k.
                mutation_of target next
                  (course_state_at (counted_after target next updated_at w) target.required_count)
                  (counted_after target next updated_at w) k updated_at)
              version;
      final = end ∙ stored;
      stored_required = required;
    }
