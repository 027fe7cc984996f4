-- ===== src/Learning/Payloads.antt =====
-- backend/src/lms/modules/learning/persistence.py: responses as stored payloads, and back.
pub mod Roundtrip
use lawrence_ai_lms.Prelude.{ℕ, String, Option, none, some, [], ◌∷◌, str_eq, if◌then◌else◌}
use lawrence_ai_lms.Prelude.Exec.{Result, ok, err}
use lawrence_ai_lms.Json.{
  JsonValue, null, text, number, uuid, timestamp, object, JsonObject, get, fields, optional_uuid,
  optional_timestamp,
}
use lawrence_ai_lms.Learning.Errors.{LearningError, failure, service_contract_error}
use lawrence_ai_lms.Learning.Types.{
  Uuid, Enrollment, EnrollmentStatus, active, revoked, LessonProgressState, CourseProgressState,
  ProgressResult, IdempotentResponse, enrollment, progress_result, lesson_state_value,
  course_state_value, status_value,
}

unfoldable pub enrollment_payload : Enrollment → JsonObject
enrollment_payload value = fields (
    ("id", uuid value.id)
    ∷ ("tenant_id", uuid value.tenant_id)
    ∷ ("learner_membership_id", uuid value.learner_membership_id)
    ∷ ("course_id", uuid value.course_id)
    ∷ ("course_version_id", uuid value.course_version_id)
    ∷ ("admission_source", text value.admission_source)
    ∷ ("status", text (status_value value.status))
    ∷ ("enrolled_at", timestamp value.enrolled_at)
    ∷ ("revoked_at", optional_timestamp value.revoked_at)
    ∷ ("row_version", number value.row_version)
    ∷ [])

unfoldable pub progress_payload : ProgressResult → JsonObject
progress_payload value = fields (
    ("tenant_id", uuid value.tenant_id)
    ∷ ("enrollment_id", uuid value.enrollment_id)
    ∷ ("course_version_id", uuid value.course_version_id)
    ∷ ("lesson_id", uuid value.lesson_id)
    ∷ ("lesson_state", text (lesson_state_value value.lesson_state))
    ∷ ("course_state", text (course_state_value value.course_state))
    ∷ ("required_lesson_count", number value.required_lesson_count)
    ∷ ("completed_required_lesson_count", number value.completed_required_lesson_count)
    ∷ ("resume_lesson_id", optional_uuid value.resume_lesson_id)
    ∷ ("progress_row_version", number value.progress_row_version)
    ∷ ("updated_at", timestamp value.updated_at)
    ∷ [])

unfoldable pub response_payload : IdempotentResponse → JsonObject
unfolding enrollment_payload progress_payload
response_payload (enrollment value) =
    fields (("kind", text "enrollment") ∷ ("response", object (enrollment_payload value)) ∷ [])
response_payload (progress_result value) =
    fields (("kind", text "progress_result") ∷ ("response", object (progress_payload value)) ∷ [])

-- The readers of one field; a missing key and a value of another type raise alike.
abbrev read_uuid : Option JsonValue → Option Uuid
read_uuid (some (uuid u)) = some u
read_uuid _ = none

abbrev read_text : Option JsonValue → Option String
read_text (some (text t)) = some t
read_text _ = none

abbrev read_number : Option JsonValue → Option ℕ
read_number (some (number n)) = some n
read_number _ = none

abbrev read_timestamp : Option JsonValue → Option ℕ
read_timestamp (some (timestamp t)) = some t
read_timestamp _ = none

abbrev read_optional_uuid : Option JsonValue → Option (Option Uuid)
read_optional_uuid (some null) = some none
read_optional_uuid (some (uuid u)) = some (some u)
read_optional_uuid _ = none

abbrev read_optional_timestamp : Option JsonValue → Option (Option ℕ)
read_optional_timestamp (some null) = some none
read_optional_timestamp (some (timestamp t)) = some (some t)
read_optional_timestamp _ = none

abbrev status_of : String → Option EnrollmentStatus
status_of s =
    if str_eq s "active" then some active else if str_eq s "revoked" then some revoked else none

abbrev lesson_state_of : String → Option LessonProgressState
lesson_state_of s =
    if str_eq s "not_started"
    then some LessonProgressState.not_started
    else if str_eq s "in_progress"
    then some LessonProgressState.in_progress
    else if str_eq s "completed"
    then some LessonProgressState.completed
    else none

abbrev course_state_of : String → Option CourseProgressState
course_state_of s =
    if str_eq s "not_started"
    then some CourseProgressState.not_started
    else if str_eq s "in_progress"
    then some CourseProgressState.in_progress
    else if str_eq s "completed"
    then some CourseProgressState.completed
    else none

infixl 5 ◌>>=?◌
abbrev ◌>>=?◌ : {A B : Type 0} → Option A → (A → Option B) → Option B
none >>=? f = none
some a >>=? f = f a

enrollment_from_payload : JsonObject → Option Enrollment
enrollment_from_payload r = read_optional_timestamp (get "revoked_at" r) >>=? λ revoked_at.
    read_uuid (get "id" r) >>=? λ id. read_uuid (get "tenant_id" r) >>=? λ tenant_id.
    read_uuid (get "learner_membership_id" r) >>=? λ learner_membership_id.
    read_uuid (get "course_id" r) >>=? λ course_id.
    read_uuid (get "course_version_id" r) >>=? λ course_version_id.
    read_text (get "admission_source" r) >>=? λ admission_source.
    read_text (get "status" r) >>=? λ status_text. status_of status_text >>=? λ status.
    read_timestamp (get "enrolled_at" r) >>=? λ enrolled_at.
    read_number (get "row_version" r) >>=? λ row_version. some (record {
      id = id;
      tenant_id = tenant_id;
      learner_membership_id = learner_membership_id;
      course_id = course_id;
      course_version_id = course_version_id;
      admission_source = admission_source;
      status = status;
      enrolled_at = enrolled_at;
      revoked_at = revoked_at;
      row_version = row_version;
    })

progress_from_payload : JsonObject → Option ProgressResult
progress_from_payload r = read_optional_uuid (get "resume_lesson_id" r) >>=? λ resume_lesson_id.
    read_uuid (get "tenant_id" r) >>=? λ tenant_id.
    read_uuid (get "enrollment_id" r) >>=? λ enrollment_id.
    read_uuid (get "course_version_id" r) >>=? λ course_version_id.
    read_uuid (get "lesson_id" r) >>=? λ lesson_id.
    read_text (get "lesson_state" r) >>=? λ lesson_text.
    lesson_state_of lesson_text >>=? λ lesson_state.
    read_text (get "course_state" r) >>=? λ course_text.
    course_state_of course_text >>=? λ course_state.
    read_number (get "required_lesson_count" r) >>=? λ required_lesson_count.
    read_number (get "completed_required_lesson_count" r) >>=? λ completed_required_lesson_count.
    read_number (get "progress_row_version" r) >>=? λ progress_row_version.
    read_timestamp (get "updated_at" r) >>=? λ updated_at. some (record {
      tenant_id = tenant_id;
      enrollment_id = enrollment_id;
      course_version_id = course_version_id;
      lesson_id = lesson_id;
      lesson_state = lesson_state;
      course_state = course_state;
      required_lesson_count = required_lesson_count;
      completed_required_lesson_count = completed_required_lesson_count;
      resume_lesson_id = resume_lesson_id;
      progress_row_version = progress_row_version;
      updated_at = updated_at;
    })

abbrev or_contract_error :
    {A : Type 0} → Option A → (A → IdempotentResponse) → Result LearningError IdempotentResponse
or_contract_error none f = err (failure service_contract_error)
or_contract_error (some a) f = ok (f a)

abbrev response_of_kind : Option String → Option JsonValue → Result LearningError IdempotentResponse
response_of_kind (some kind) (some (object r)) =
    if str_eq kind "enrollment"
    then or_contract_error (enrollment_from_payload r) enrollment
    else if str_eq kind "progress_result"
    then or_contract_error (progress_from_payload r) progress_result
    else err (failure service_contract_error)
response_of_kind _ _ = err (failure service_contract_error)

unfoldable pub response_from_payload : JsonObject → Result LearningError IdempotentResponse
unfolding enrollment_from_payload progress_from_payload
response_from_payload payload =
    response_of_kind (read_text (get "kind" payload)) (get "response" payload)
