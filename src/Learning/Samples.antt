-- ===== src/Learning/Samples.antt =====
-- A small tenant to run backend/src/lms/modules/learning on: one course of three lessons, two of
-- them required, and one learner.
use lawrence_ai_lms.Prelude.{
  ℕ, ◌+◌, String, Bool, true, false, none, some, [], ◌∷◌, ◌==◌, ◌&&◌, if◌then◌else◌, pos,
}
use lawrence_ai_lms.Prelude.Exec.{Result, ok, err}
use lawrence_ai_lms.Learning.Errors.{LearningError, failure, learning_resource_not_found}
use lawrence_ai_lms.Learning.Types.{
  Uuid, Datetime, PublishedLesson, PublishedCourse, AuthorizedActor, ProgressCommand,
  complete_lesson, LessonProgressState, CourseProgressState, ProgressResult, ProgressMutation,
  Enrollment, active,
}
use lawrence_ai_lms.Learning.Store.{
  EnrollmentRow, LessonProgressRow, CourseProgressRow, RequestSetting, World,
}
use lawrence_ai_lms.Learning.Policies.{permission_enrollments_manage, permission_playback_read}
use lawrence_ai_lms.Learning.Repository.{PublishedCoursePort, assigned}
use lawrence_ai_lms.Learning.Service.{LearningPorts}

abbrev pub lesson : Uuid → ℕ → Bool → PublishedLesson
lesson id position is_required = record {
  id = id;
  section_id = 4;
  title = "lesson";
  position = position;
  is_required = is_required;
  content_blocks = [];
}

abbrev pub course : PublishedCourse
course = record {
  tenant_id = 1;
  course_id = 2;
  course_version_id = 3;
  course_version_number = 1;
  primary_locale = "en";
  title = "course";
  description = "a course";
  content_hash = "sha256:00";
  sections =
      record {
        id = 4;
        title = "section";
        position = 1;
        lessons = lesson 10 1 true ∷ lesson 11 2 false ∷ lesson 12 3 true ∷ [];
      }
      ∷ [];
}

abbrev pub courses : PublishedCoursePort
courses = record {
  lock_current_published =
      λ w tenant_id course_id. if tenant_id == 1 && course_id == 2 then some course else none;
  load_published = λ w tenant_id course_id version_id.
      if tenant_id == 1 && (course_id == 2 && version_id == 3) then some course else none;
}

abbrev pub manager : AuthorizedActor
manager = record {
  principal_id = 7;
  tenant_id = 1;
  membership_id = some 6;
  permissions = permission_enrollments_manage ∷ [];
}

abbrev pub learner : AuthorizedActor
learner = record {
  principal_id = 8;
  tenant_id = 1;
  membership_id = some 5;
  permissions = permission_playback_read ∷ [];
}

abbrev authorized : World → Uuid → Uuid → String → Result LearningError AuthorizedActor
authorized w actor_id tenant_id permission =
    if actor_id == 7
    then ok manager
    else if actor_id == 8
    then ok learner
    else err (failure learning_resource_not_found)

abbrev pub ports : LearningPorts
ports = record {
  authorize = authorized;
  courses = courses;
  new_uuid = λ n. 100 + n;
  now = λ n. 1000 + n;
  request_digest = λ payload. "digest";
  key_digest = λ key. "key";
}

abbrev pub key : String
key = "0123456789abcdef"

abbrev pub empty : World
empty = record {
  database = record {
    memberships =
        record { id = 5; tenant_id = 1; is_active = true; role_codes = "learner" ∷ [] } ∷ [];
    enrollments = [];
    course_progress = [];
    lesson_progress = [];
    reservations = [];
    audit_facts = [];
    outbox_facts = [];
  };
  ids_drawn = 0;
  clock_reads = 0;
  current_request_id = RequestSetting.request 99;
}

abbrev pub enrolled_row : EnrollmentRow
enrolled_row = assigned 20 1 5 2 7 500 3

-- The learner is enrolled and has completed the first required lesson.
abbrev pub lesson_row : LessonProgressRow
lesson_row = record {
  tenant_id = 1;
  enrollment_id = 20;
  course_version_id = 3;
  lesson_id = 10;
  state = LessonProgressState.completed;
  completed_at = some 600;
  row_version = 1;
}

abbrev pub course_row : CourseProgressRow
course_row = record {
  tenant_id = 1;
  enrollment_id = 20;
  course_version_id = 3;
  state = CourseProgressState.in_progress;
  required_lesson_count = 2;
  completed_required_lesson_count = 1;
  resume_lesson_id = some 10;
  last_progress_at = some 600;
  row_version = 1;
}

abbrev pub halfway : World
halfway = record empty {
  database = record empty.database {
    enrollments = enrolled_row ∷ [];
    course_progress = course_row ∷ [];
    lesson_progress = lesson_row ∷ [];
  };
}

-- The command that completes the last required lesson.
abbrev pub last_lesson : ProgressCommand
last_lesson = record {
  command = complete_lesson;
  lesson_id = 12;
  expected_progress_row_version = pos 1;
}

abbrev pub last_result : Datetime → ProgressResult
last_result now = record {
  tenant_id = 1;
  enrollment_id = 20;
  course_version_id = 3;
  lesson_id = 12;
  lesson_state = LessonProgressState.completed;
  course_state = CourseProgressState.completed;
  required_lesson_count = 2;
  completed_required_lesson_count = 2;
  resume_lesson_id = some 12;
  progress_row_version = 2;
  updated_at = now;
}

abbrev pub last_mutation : Datetime → ProgressMutation
last_mutation now = record {
  result = last_result now;
  previous_lesson_state = LessonProgressState.not_started;
  previous_course_state = CourseProgressState.in_progress;
  previous_progress_row_version = 1;
}

abbrev pub new_enrollment : Uuid → Datetime → Enrollment
new_enrollment id now = record {
  id = id;
  tenant_id = 1;
  learner_membership_id = 5;
  course_id = 2;
  course_version_id = 3;
  admission_source = "manual_assignment";
  status = active;
  enrolled_at = now;
  revoked_at = none;
  row_version = 1;
}
