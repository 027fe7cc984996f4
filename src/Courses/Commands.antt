-- ===== src/Courses/Commands.antt =====
-- backend/src/lms/modules/courses/types.py: commands, answers and facts. Expected row versions are
-- Python integers; positions are natural numbers, and the checks refuse a negative one as they
-- refuse zero.
use lawrence_ai_lms.Prelude.{ℕ, ℤ, String, Bool, Option, List}
use lawrence_ai_lms.Json.{JsonObject}
use lawrence_ai_lms.Learning.Types.{Uuid, Datetime}
use lawrence_ai_lms.Courses.Types.{CourseStatus, CourseSnapshot, Transition}

pub record CreateCourseCommand : Type 0 where
  pub slug : String
  pub primary_locale : String
  pub title : String
  pub description : String

pub record UpdateCourseVersionCommand : Type 0 where
  pub expected_version_row_version : ℤ
  pub primary_locale : Option String
  pub title : Option String
  pub description : Option String

pub record ContentBlockInput : Type 0 where
  pub kind : String
  pub position : ℕ
  pub document : JsonObject
  pub id : Option Uuid
  pub expected_row_version : Option ℤ

pub record LessonInput : Type 0 where
  pub title : String
  pub position : ℕ
  pub is_required : Bool
  pub content_blocks : List ContentBlockInput
  pub id : Option Uuid
  pub expected_row_version : Option ℤ

pub record CurriculumSectionInput : Type 0 where
  pub title : String
  pub position : ℕ
  pub lessons : List LessonInput
  pub id : Option Uuid
  pub expected_row_version : Option ℤ

pub record CreateAiAssistedDraftCommand : Type 0 where
  pub slug : String
  pub primary_locale : String
  pub title : String
  pub description : String
  pub sections : List CurriculumSectionInput

pub record ReplaceCurriculumCommand : Type 0 where
  pub expected_version_row_version : ℤ
  pub sections : List CurriculumSectionInput

pub record TransitionCourseVersionCommand : Type 0 where
  pub transition : Transition
  pub expected_version_row_version : ℤ
  pub expected_content_hash : String
  pub expected_course_row_version : Option ℤ
  pub reason_code : Option String
  pub reason_codes : List String

pub record CreateSuccessorDraftCommand : Type 0 where
  pub expected_course_row_version : ℤ
  pub expected_source_version_row_version : ℤ
  pub expected_source_content_hash : String

pub record CourseVersionSummary : Type 0 where
  pub id : Uuid
  pub tenant_id : Uuid
  pub course_id : Uuid
  pub predecessor_version_id : Option Uuid
  pub version_number : ℕ
  pub status : CourseStatus
  pub title : String
  pub content_hash : String
  pub row_version : ℕ
  pub is_current_published : Bool

pub record CourseVersionHistory : Type 0 where
  pub tenant_id : Uuid
  pub course_id : Uuid
  pub current_published_version_id : Option Uuid
  pub versions : List CourseVersionSummary
  pub next_cursor : Option String

pub record SuccessorDraftResult : Type 0 where
  pub source_version_id : Uuid
  pub successor_version_id : Uuid
  pub snapshot : CourseSnapshot

pub record CourseAuditFact : Type 0 where
  pub id : Uuid
  pub tenant_id : Uuid
  pub event_type : String
  pub actor_id : Uuid
  pub course_id : Uuid
  pub course_version_id : Uuid
  pub payload : JsonObject
  pub recorded_at : Datetime

pub record CourseOutboxFact : Type 0 where
  pub id : Uuid
  pub tenant_id : Uuid
  pub event_type : String
  pub aggregate_type : String
  pub aggregate_id : Uuid
  pub actor_id : Uuid
  pub payload : JsonObject
  pub recorded_at : Datetime

pub data CourseResponse : Type 0 where
  course_snapshot : CourseSnapshot → CourseResponse
  successor_draft : SuccessorDraftResult → CourseResponse

-- The texts `create_course`, `create_ai_assisted_draft`, `transition:{course}:{version}:{transition}`
-- and `successor:{course}:{version}`, which differ exactly as these do.
pub data CourseOperation : Type 0 where
  create_course create_ai_assisted_draft : CourseOperation
  transition_of : Uuid → Uuid → Transition → CourseOperation
  successor_of : Uuid → Uuid → CourseOperation

pub record IdempotencyScope : Type 0 where
  pub tenant_id : Uuid
  pub actor_id : Uuid
  pub operation : CourseOperation
  pub key : String

pub record CourseIdempotencyRecord : Type 0 where
  pub request_hash : String
  pub created : Bool
  pub response : Option CourseResponse
