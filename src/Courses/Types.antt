-- ===== src/Courses/Types.antt =====
-- backend/src/lms/modules/courses/types.py
use lawrence_ai_lms.Prelude.{ℕ, String, Bool, true, false, Option, List}
use lawrence_ai_lms.Json.{JsonObject}
use lawrence_ai_lms.Learning.Types.{Uuid, Datetime}

pub data CourseStatus : Type 0 where
  draft under_review changes_requested approved scheduled published withdrawn archived :
      CourseStatus

pub data OriginType : Type 0 where
  manual ai_assisted : OriginType

pub data ReviewerPolicy : Type 0 where
  self_review_allowed separate_reviewer_required : ReviewerPolicy

pub data PrincipalType : Type 0 where
  user ai worker service provider privileged_operator : PrincipalType

pub data Transition : Type 0 where
  submit_review request_changes approve publish withdraw archive : Transition

pub data ReviewDecision : Type 0 where
  changes_requested approved : ReviewDecision

pub record Course : Type 0 where
  pub id : Uuid
  pub tenant_id : Uuid
  pub slug : String
  pub reviewer_policy : ReviewerPolicy
  pub current_published_version_id : Option Uuid
  pub instructor_membership_ids : List Uuid
  pub row_version : ℕ

pub record CourseVersion : Type 0 where
  pub id : Uuid
  pub tenant_id : Uuid
  pub course_id : Uuid
  pub predecessor_version_id : Option Uuid
  pub version_number : ℕ
  pub status : CourseStatus
  pub origin_type : OriginType
  pub primary_locale : String
  pub title : String
  pub description : String
  pub content_hash : String
  pub submitted_hash : Option String
  pub approved_hash : Option String
  pub row_version : ℕ

pub record RichTextBlock : Type 0 where
  pub id : Uuid
  pub tenant_id : Uuid
  pub course_version_id : Uuid
  pub lesson_id : Uuid
  pub kind : String
  pub position : ℕ
  pub row_version : ℕ
  pub document : JsonObject

pub record Lesson : Type 0 where
  pub id : Uuid
  pub tenant_id : Uuid
  pub course_version_id : Uuid
  pub section_id : Uuid
  pub title : String
  pub position : ℕ
  pub is_required : Bool
  pub row_version : ℕ
  pub content_blocks : List RichTextBlock

pub record CurriculumSection : Type 0 where
  pub id : Uuid
  pub tenant_id : Uuid
  pub course_version_id : Uuid
  pub title : String
  pub position : ℕ
  pub row_version : ℕ
  pub lessons : List Lesson

pub record CourseReview : Type 0 where
  pub id : Uuid
  pub tenant_id : Uuid
  pub course_version_id : Uuid
  pub decision : ReviewDecision
  pub reviewed_hash : String
  pub reviewer_id : Uuid
  pub self_review : Bool
  pub reason_codes : List String
  pub decided_at : Datetime

-- The field `schema_uri` is the constant `SNAPSHOT_SCHEMA_URI`.
pub record CourseSnapshot : Type 0 where
  pub course : Course
  pub version : CourseVersion
  pub sections : List CurriculumSection
  pub latest_review : Option CourseReview
  pub schema_uri : String

pub record CourseAggregate : Type 0 where
  pub course : Course
  pub version : CourseVersion
  pub sections : List CurriculumSection
  pub latest_review : Option CourseReview
  pub submitted_by_actor_id : Option Uuid

abbrev pub snapshot_schema_uri : String
snapshot_schema_uri = "https://contracts.ai-lms.local/f002/canonical-course.v1.schema.json"

-- `CourseAggregate.snapshot`
abbrev pub snapshot : CourseAggregate → CourseSnapshot
snapshot a = record {
  course = a.course;
  version = a.version;
  sections = a.sections;
  latest_review = a.latest_review;
  schema_uri = snapshot_schema_uri;
}

pub record AuthorizedActor : Type 0 where
  pub principal_id : Uuid
  pub tenant_id : Uuid
  pub membership_id : Option Uuid
  pub principal_type : PrincipalType
  pub permissions : List String

pub record TransitionDecision : Type 0 where
  pub target_status : CourseStatus
  pub required_permission : String
  pub self_review : Bool

-- `version.status in {DRAFT, CHANGES_REQUESTED}`
abbrev pub is_mutable : CourseStatus → Bool
is_mutable CourseStatus.draft = true
is_mutable CourseStatus.changes_requested = true
is_mutable _ = false

abbrev pub is_user : PrincipalType → Bool
is_user user = true
is_user _ = false

abbrev pub separates_reviewers : ReviewerPolicy → Bool
separates_reviewers self_review_allowed = false
separates_reviewers separate_reviewer_required = true
