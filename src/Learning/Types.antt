-- ===== src/Learning/Types.antt =====
-- backend/src/lms/modules/learning/types.py
use lawrence_ai_lms.Prelude.{ℕ, String, Bool, true, false, Option, List, ℤ}
use lawrence_ai_lms.Json.{JsonObject}

-- Identifiers are compared, never computed with.
abbrev pub Uuid : Type 0
Uuid = ℕ

-- An instant, in microseconds of UTC.
abbrev pub Datetime : Type 0
Datetime = ℕ

pub data EnrollmentStatus : Type 0 where
  active revoked : EnrollmentStatus

pub data LessonProgressState : Type 0 where
  not_started in_progress completed : LessonProgressState

pub data CourseProgressState : Type 0 where
  not_started in_progress completed : CourseProgressState

pub data ProgressCommandName : Type 0 where
  open_lesson complete_lesson reopen_lesson : ProgressCommandName

pub record PublishedContentBlock : Type 0 where
  pub id : Uuid
  pub kind : String
  pub position : ℕ
  pub document : JsonObject

pub record PublishedLesson : Type 0 where
  pub id : Uuid
  pub section_id : Uuid
  pub title : String
  pub position : ℕ
  pub is_required : Bool
  pub content_blocks : List PublishedContentBlock

pub record PublishedSection : Type 0 where
  pub id : Uuid
  pub title : String
  pub position : ℕ
  pub lessons : List PublishedLesson

pub record PublishedCourse : Type 0 where
  pub tenant_id : Uuid
  pub course_id : Uuid
  pub course_version_id : Uuid
  pub course_version_number : ℕ
  pub primary_locale : String
  pub title : String
  pub description : String
  pub content_hash : String
  pub sections : List PublishedSection

pub record AuthorizedActor : Type 0 where
  pub principal_id : Uuid
  pub tenant_id : Uuid
  pub membership_id : Option Uuid
  pub permissions : List String

pub record Enrollment : Type 0 where
  pub id : Uuid
  pub tenant_id : Uuid
  pub learner_membership_id : Uuid
  pub course_id : Uuid
  pub course_version_id : Uuid
  pub admission_source : String
  pub status : EnrollmentStatus
  pub enrolled_at : Datetime
  pub revoked_at : Option Datetime
  pub row_version : ℕ

pub record CourseProgress : Type 0 where
  pub state : CourseProgressState
  pub required_lesson_count : ℕ
  pub completed_required_lesson_count : ℕ
  pub resume_lesson_id : Option Uuid
  pub row_version : ℕ

pub record DashboardCard : Type 0 where
  pub enrollment_id : Uuid
  pub course_id : Uuid
  pub course_version_id : Uuid
  pub course_version_number : ℕ
  pub primary_locale : String
  pub title : String
  pub description : String
  pub content_hash : String
  pub enrolled_at : Datetime
  pub progress : CourseProgress

pub record LearnerDashboard : Type 0 where
  pub tenant_id : Uuid
  pub items : List DashboardCard
  pub next_cursor : Option String

pub record OutlineLesson : Type 0 where
  pub id : Uuid
  pub title : String
  pub position : ℕ
  pub is_required : Bool
  pub progress_state : LessonProgressState

pub record OutlineSection : Type 0 where
  pub id : Uuid
  pub title : String
  pub position : ℕ
  pub lessons : List OutlineLesson

pub record PlaybackSnapshot : Type 0 where
  pub tenant_id : Uuid
  pub enrollment_id : Uuid
  pub course_id : Uuid
  pub course_version_id : Uuid
  pub course_version_number : ℕ
  pub primary_locale : String
  pub title : String
  pub description : String
  pub content_hash : String
  pub sections : List OutlineSection
  pub progress : CourseProgress

pub record LessonContentBlock : Type 0 where
  pub id : Uuid
  pub kind : String
  pub position : ℕ
  pub document : JsonObject

pub record LessonDetail : Type 0 where
  pub id : Uuid
  pub section_id : Uuid
  pub title : String
  pub position : ℕ
  pub is_required : Bool
  pub progress_state : LessonProgressState
  pub content_blocks : List LessonContentBlock

pub record LessonPlayback : Type 0 where
  pub tenant_id : Uuid
  pub enrollment_id : Uuid
  pub course_version_id : Uuid
  pub primary_locale : String
  pub content_hash : String
  pub lesson : LessonDetail
  pub previous_lesson_id : Option Uuid
  pub next_lesson_id : Option Uuid
  pub progress : CourseProgress

pub record ProgressCommand : Type 0 where
  pub command : ProgressCommandName
  pub lesson_id : Uuid
  pub expected_progress_row_version : ℤ

pub record ProgressResult : Type 0 where
  pub tenant_id : Uuid
  pub enrollment_id : Uuid
  pub course_version_id : Uuid
  pub lesson_id : Uuid
  pub lesson_state : LessonProgressState
  pub course_state : CourseProgressState
  pub required_lesson_count : ℕ
  pub completed_required_lesson_count : ℕ
  pub resume_lesson_id : Option Uuid
  pub progress_row_version : ℕ
  pub updated_at : Datetime

pub record ProgressMutation : Type 0 where
  pub result : ProgressResult
  pub previous_lesson_state : LessonProgressState
  pub previous_course_state : CourseProgressState
  pub previous_progress_row_version : ℕ

pub data IdempotentResponse : Type 0 where
  enrollment : Enrollment → IdempotentResponse
  progress_result : ProgressResult → IdempotentResponse

pub record IdempotencyRecord : Type 0 where
  pub request_hash : String
  pub created : Bool
  pub response : Option IdempotentResponse

pub record LearningFact : Type 0 where
  pub id : Uuid
  pub tenant_id : Uuid
  pub event_type : String
  pub aggregate_type : String
  pub aggregate_id : Uuid
  pub aggregate_version : ℕ
  pub actor_id : Uuid
  pub payload : JsonObject
  pub occurred_at : Datetime

-- `StrEnum.value`
abbrev pub lesson_state_value : LessonProgressState → String
lesson_state_value LessonProgressState.not_started = "not_started"
lesson_state_value LessonProgressState.in_progress = "in_progress"
lesson_state_value LessonProgressState.completed = "completed"

abbrev pub course_state_value : CourseProgressState → String
course_state_value CourseProgressState.not_started = "not_started"
course_state_value CourseProgressState.in_progress = "in_progress"
course_state_value CourseProgressState.completed = "completed"

abbrev pub status_value : EnrollmentStatus → String
status_value active = "active"
status_value revoked = "revoked"

abbrev pub command_value : ProgressCommandName → String
command_value open_lesson = "open_lesson"
command_value complete_lesson = "complete_lesson"
command_value reopen_lesson = "reopen_lesson"

-- Tests on enumeration members.
abbrev pub is_active : EnrollmentStatus → Bool
is_active active = true
is_active revoked = false

abbrev pub lesson_completed : LessonProgressState → Bool
lesson_completed LessonProgressState.completed = true
lesson_completed LessonProgressState.in_progress = false
lesson_completed LessonProgressState.not_started = false

abbrev pub course_completed : CourseProgressState → Bool
course_completed CourseProgressState.completed = true
course_completed CourseProgressState.in_progress = false
course_completed CourseProgressState.not_started = false
