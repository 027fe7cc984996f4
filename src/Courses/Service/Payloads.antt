-- ===== src/Courses/Service/Payloads.antt =====
-- backend/src/lms/modules/courses/services.py: `_transition_request` and `_transition_fact`.
use lawrence_ai_lms.Prelude.{ℤ, String, Bool, Option, none, some, List, [], ◌∷◌}
use lawrence_ai_lms.Prelude.Exec.{Result, ok, err}
use lawrence_ai_lms.Json.{
  JsonValue, null, text, number, integer, uuid, flag, optional_uuid, array, items, JsonObject,
  fields,
}
use lawrence_ai_lms.Learning.Types.{Uuid}
use lawrence_ai_lms.Courses.Types.{
  Transition, submit_review, request_changes, approve, publish, withdraw, archive, CourseReview,
  CourseAggregate,
}
use lawrence_ai_lms.Courses.Commands.{TransitionCourseVersionCommand}
use lawrence_ai_lms.Courses.Errors.{CourseLifecycleError, course_failure, service_contract_error}

-- `str(transition)`
abbrev pub transition_value : Transition → String
transition_value submit_review = "submit_review"
transition_value request_changes = "request_changes"
transition_value approve = "approve"
transition_value publish = "publish"
transition_value withdraw = "withdraw"
transition_value archive = "archive"

abbrev optional_text : Option String → JsonValue
optional_text none = null
optional_text (some s) = text s

abbrev optional_integer : Option ℤ → JsonValue
optional_integer none = null
optional_integer (some n) = integer n

-- `_transition_request`
abbrev pub transition_request : TransitionCourseVersionCommand → JsonObject
transition_request command = fields (
    ("transition", text (transition_value command.transition))
    ∷ ("expected_version_row_version", integer command.expected_version_row_version)
    ∷ ("expected_course_row_version", optional_integer command.expected_course_row_version)
    ∷ ("expected_content_hash", text command.expected_content_hash)
    ∷ ("reason_code", optional_text command.reason_code)
    ∷ ("reason_codes", array (items text command.reason_codes))
    ∷ [])

abbrev pub transition_event : Transition → String
transition_event submit_review = "course.version.submitted.v1"
transition_event request_changes = "course.version.changes_requested.v1"
transition_event approve = "course.version.approved.v1"
transition_event publish = "course.version.published.v1"
transition_event withdraw = "course.version.withdrawn.v1"
transition_event archive = "course.version.archived.v1"

abbrev reason_field : Option String → List (String × JsonValue)
reason_field none = []
reason_field (some reason) = ("reason_code", text reason) ∷ []

abbrev review_fields :
    Option CourseReview
    → List (String × JsonValue)
    → Result CourseLifecycleError (List (String × JsonValue))
review_fields none rest = err (course_failure service_contract_error)
review_fields (some review) rest = ok (("review_id", uuid review.id) ∷ rest)

-- What a transition adds to the payload of its fact.
abbrev pub transition_fields :
    TransitionCourseVersionCommand
    → Option CourseReview
    → Bool
    → Option Uuid
    → Result CourseLifecycleError (List (String × JsonValue))
transition_fields command review self_review previous = elim command.transition [
  | submit_review ↦ ok []
  | request_changes ↦
      review_fields review (("reason_codes", array (items text command.reason_codes)) ∷ [])
  | approve ↦ review_fields review (("self_review", flag self_review) ∷ [])
  | publish ↦ ok (("previous_published_version_id", optional_uuid previous) ∷ [])
  | withdraw ↦ ok (("reason_code", optional_text command.reason_code) ∷ [])
  | archive ↦ ok (reason_field command.reason_code)
]

abbrev pub transition_payload : CourseAggregate → List (String × JsonValue) → JsonObject
transition_payload a rest = fields (
    ("course_id", uuid a.course.id)
    ∷ ("course_version_id", uuid a.version.id)
    ∷ ("content_hash", text a.version.content_hash)
    ∷ ("aggregate_version", number a.version.row_version)
    ∷ rest)
