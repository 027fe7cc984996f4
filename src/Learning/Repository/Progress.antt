-- ===== src/Learning/Repository/Progress.antt =====
-- backend/src/lms/modules/learning/repositories.py: progress commands.
use lawrence_ai_lms.Prelude.{
  ℕ, ◌+◌, Bool, true, Option, none, some, List, [], ◌∷◌, ◌++◌, map, ◌&&◌, ◌||◌, not, ◌==◌, ltb, any,
  select, find?, replace_first, count_by, contains, if◌then◌else◌, ℤ, pos, eq_ℤ,
}
use lawrence_ai_lms.Prelude.Exec.{
  Result, ok, err, pure, raise_if, or_raise, gets, lift, ◌>>=◌, ◌>>◌,
}
use lawrence_ai_lms.Learning.Errors.{
  LearningError, integrity_error, failure, validation_failed, learning_resource_not_found,
  progress_version_conflict, service_contract_error,
}
use lawrence_ai_lms.Learning.Types.{
  Uuid, Datetime, PublishedLesson, LessonProgressState, CourseProgressState, ProgressCommandName,
  open_lesson, complete_lesson, reopen_lesson, ProgressMutation, lesson_completed,
}
use lawrence_ai_lms.Learning.Store.{
  EnrollmentRow, CourseProgressRow, LessonProgressRow, Database, Action, write,
}
use lawrence_ai_lms.Learning.Repository.Catalog.{
  PublishedCoursePort, lessons, required_lesson_count, active_enrollment,
}

-- The rows of one enrollment at its pinned version.
pub record ProgressScope : Type 0 where
  pub tenant_id : Uuid
  pub enrollment_id : Uuid
  pub course_version_id : Uuid

abbrev pub is_course_row : ProgressScope → CourseProgressRow → Bool
is_course_row s r =
    r.tenant_id == s.tenant_id
    && (r.enrollment_id == s.enrollment_id && r.course_version_id == s.course_version_id)

abbrev pub is_lesson_row : ProgressScope → Uuid → LessonProgressRow → Bool
is_lesson_row s lesson_id r =
    r.tenant_id == s.tenant_id
    && (r.enrollment_id == s.enrollment_id
        && (r.course_version_id == s.course_version_id && r.lesson_id == lesson_id))

abbrev pub is_completed_row : ProgressScope → List Uuid → LessonProgressRow → Bool
is_completed_row s lesson_ids r =
    r.tenant_id == s.tenant_id
    && (r.enrollment_id == s.enrollment_id
        && (r.course_version_id == s.course_version_id
            && (contains r.lesson_id lesson_ids && lesson_completed r.state)))

unfoldable pub next_lesson_state :
    ProgressCommandName → LessonProgressState → Result LearningError LessonProgressState
next_lesson_state open_lesson LessonProgressState.not_started = ok LessonProgressState.in_progress
next_lesson_state open_lesson current = ok current
next_lesson_state complete_lesson current = ok LessonProgressState.completed
next_lesson_state reopen_lesson LessonProgressState.completed = ok LessonProgressState.in_progress
next_lesson_state reopen_lesson current = err (
    validation_failed (
      record {
        path = "command";
        code = "invalid_transition";
        detail = "Only a completed lesson can be reopened.";
      }
      ∷ []))

abbrev pub row_version_of : Option CourseProgressRow → ℕ
row_version_of none = 0
row_version_of (some aggregate) = aggregate.row_version

abbrev pub lesson_state_of_row : Option LessonProgressRow → LessonProgressState
lesson_state_of_row none = LessonProgressState.not_started
lesson_state_of_row (some r) = r.state

abbrev pub course_state_of_row : Option CourseProgressRow → CourseProgressState
course_state_of_row none = CourseProgressState.not_started
course_state_of_row (some r) = r.state

abbrev pub required_ids : List PublishedLesson → List Uuid
required_ids ls = map (λ item. item.id) (select (λ item. item.is_required) ls)

-- What the command has read before it writes.
pub record ProgressTarget : Type 0 where
  pub scope : ProgressScope
  pub lesson_id : Uuid
  pub required_count : ℕ
  pub required_lesson_ids : List Uuid
  pub aggregate : Option CourseProgressRow
  pub lesson_progress : Option LessonProgressRow

abbrev pub enrollment_scope : Uuid → EnrollmentRow → ProgressScope
enrollment_scope tenant_id e = record {
  tenant_id = tenant_id;
  enrollment_id = e.id;
  course_version_id = e.course_version_id;
}

unfoldable pub progress_target :
    PublishedCoursePort → Uuid → Uuid → Uuid → Uuid → ℤ → Action ProgressTarget
progress_target courses tenant_id learner_membership_id enrollment_id lesson_id expected_version =
    do
      (enrollment, course) ←
          active_enrollment courses tenant_id learner_membership_id enrollment_id true
      lesson ←
          or_raise (find? (λ item. item.id == lesson_id) (lessons course))
            (failure learning_resource_not_found)
      count ← lift (required_lesson_count course)
      let scope = enrollment_scope tenant_id enrollment
      aggregate ← gets (λ w. find? (is_course_row scope) w.database.course_progress)
      raise_if (not (eq_ℤ (pos (row_version_of aggregate)) expected_version))
          (failure progress_version_conflict)
      lesson_progress ← gets (λ w. find? (is_lesson_row scope lesson.id) w.database.lesson_progress)
      pure (record {
        scope = scope;
        lesson_id = lesson.id;
        required_count = count;
        required_lesson_ids = required_ids (lessons course);
        aggregate = aggregate;
        lesson_progress = lesson_progress;
      })

-- The unique keys of an enrollment's rows, whatever their version.
abbrev pub same_lesson_key : ProgressScope → Uuid → LessonProgressRow → Bool
same_lesson_key s lesson_id r =
    r.tenant_id == s.tenant_id && (r.enrollment_id == s.enrollment_id && r.lesson_id == lesson_id)

abbrev pub same_course_key : ProgressScope → CourseProgressRow → Bool
same_course_key s r = r.tenant_id == s.tenant_id && r.enrollment_id == s.enrollment_id

abbrev pub completion_time : LessonProgressState → Datetime → Option Datetime
completion_time next updated_at = if lesson_completed next then some updated_at else none

abbrev pub new_lesson_row :
    ProgressScope → Uuid → LessonProgressState → Option Datetime → LessonProgressRow
new_lesson_row s lesson_id next completed_at = record {
  tenant_id = s.tenant_id;
  enrollment_id = s.enrollment_id;
  course_version_id = s.course_version_id;
  lesson_id = lesson_id;
  state = next;
  completed_at = completed_at;
  row_version = 1;
}

abbrev pub moved_lesson_row :
    LessonProgressRow → LessonProgressState → Option Datetime → LessonProgressRow
moved_lesson_row r next completed_at = record r {
  state = next;
  completed_at = completed_at;
  row_version = r.row_version + 1;
}

abbrev pub add_lesson_row : LessonProgressRow → Database → Database
add_lesson_row r db = record db { lesson_progress = db.lesson_progress ++ (r ∷ []) }

abbrev pub put_lesson_row : ProgressScope → Uuid → LessonProgressRow → Database → Database
put_lesson_row s lesson_id r db = record db {
  lesson_progress = replace_first (is_lesson_row s lesson_id) r db.lesson_progress;
}

unfoldable pub save_lesson_progress :
    ProgressScope
    → Uuid
    → Option LessonProgressRow
    → LessonProgressState
    → Option Datetime
    → Action (Unit {0})
save_lesson_progress s lesson_id none next completed_at = do
  clash ← gets (λ w. any (same_lesson_key s lesson_id) w.database.lesson_progress)
  raise_if clash integrity_error
  write (add_lesson_row (new_lesson_row s lesson_id next completed_at))
save_lesson_progress s lesson_id (some r) next completed_at =
    write (put_lesson_row s lesson_id (moved_lesson_row r next completed_at))

abbrev pub new_course_row :
    ProgressScope → Uuid → CourseProgressState → ℕ → ℕ → Datetime → CourseProgressRow
new_course_row s lesson_id state required completed updated_at = record {
  tenant_id = s.tenant_id;
  enrollment_id = s.enrollment_id;
  course_version_id = s.course_version_id;
  state = state;
  required_lesson_count = required;
  completed_required_lesson_count = completed;
  resume_lesson_id = some lesson_id;
  last_progress_at = some updated_at;
  row_version = 1;
}

abbrev pub moved_course_row :
    CourseProgressRow → Uuid → CourseProgressState → ℕ → Datetime → CourseProgressRow
moved_course_row r lesson_id state completed updated_at = record r {
  state = state;
  completed_required_lesson_count = completed;
  resume_lesson_id = some lesson_id;
  last_progress_at = some updated_at;
  row_version = r.row_version + 1;
}

abbrev pub add_course_row : CourseProgressRow → Database → Database
add_course_row r db = record db { course_progress = db.course_progress ++ (r ∷ []) }

abbrev pub put_course_row : ProgressScope → CourseProgressRow → Database → Database
put_course_row s r db = record db {
  course_progress = replace_first (is_course_row s) r db.course_progress;
}

-- Returns the row version that is stored. The table's check holds the completed count to the required.
unfoldable pub save_course_progress :
    ProgressScope
    → Uuid
    → Option CourseProgressRow
    → CourseProgressState
    → ℕ
    → ℕ
    → Datetime
    → Action ℕ
save_course_progress s lesson_id none state required completed updated_at = do
  clash ← gets (λ w. any (same_course_key s) w.database.course_progress)
  raise_if (clash || ltb required completed) integrity_error
  write (add_course_row (new_course_row s lesson_id state required completed updated_at))
  pure 1
save_course_progress s lesson_id (some r) state required completed updated_at = do
  raise_if (not (r.required_lesson_count == required)) (failure service_contract_error)
  raise_if (ltb r.required_lesson_count completed) integrity_error
  write (put_course_row s (moved_course_row r lesson_id state completed updated_at))
  pure (r.row_version + 1)

abbrev pub completed_count : ProgressTarget → Database → ℕ
completed_count t db = count_by (is_completed_row t.scope t.required_lesson_ids) db.lesson_progress

abbrev pub course_state_at : ℕ → ℕ → CourseProgressState
course_state_at completed required =
    if completed == required then CourseProgressState.completed else CourseProgressState.in_progress

abbrev pub mutation_of :
    ProgressTarget → LessonProgressState → CourseProgressState → ℕ → ℕ → Datetime → ProgressMutation
mutation_of t next state completed row_version updated_at = record {
  result = record {
    tenant_id = t.scope.tenant_id;
    enrollment_id = t.scope.enrollment_id;
    course_version_id = t.scope.course_version_id;
    lesson_id = t.lesson_id;
    lesson_state = next;
    course_state = state;
    required_lesson_count = t.required_count;
    completed_required_lesson_count = completed;
    resume_lesson_id = some t.lesson_id;
    progress_row_version = row_version;
    updated_at = updated_at;
  };
  previous_lesson_state = lesson_state_of_row t.lesson_progress;
  previous_course_state = course_state_of_row t.aggregate;
  previous_progress_row_version = row_version_of t.aggregate;
}

-- The part of `apply_progress` that writes.
unfoldable pub record_progress :
    ProgressTarget → ProgressCommandName → Datetime → Action ProgressMutation
record_progress t command updated_at = do
  next ← lift (next_lesson_state command (lesson_state_of_row t.lesson_progress))
  save_lesson_progress t.scope t.lesson_id t.lesson_progress next (completion_time next updated_at)
  completed ← gets (λ w. completed_count t w.database)
  let state = course_state_at completed t.required_count
  row_version ←
      save_course_progress t.scope t.lesson_id t.aggregate state t.required_count completed
        updated_at
  pure (mutation_of t next state completed row_version updated_at)

unfoldable pub apply_progress :
    PublishedCoursePort
    → Uuid
    → Uuid
    → Uuid
    → Uuid
    → ProgressCommandName
    → ℤ
    → Datetime
    → Action ProgressMutation
apply_progress courses tenant_id learner_membership_id enrollment_id lesson_id command
      expected_version updated_at =
    do
      target ←
          progress_target courses tenant_id learner_membership_id enrollment_id lesson_id
            expected_version
      record_progress target command updated_at
