-- ===== src/Courses/Errors.antt =====
-- backend/src/lms/modules/courses/errors.py. The codes are the keys of `_PROBLEMS`, so the fallback
-- for an unknown code has nothing to stand for. `type_error` is Python's exception, which is no
-- `CourseLifecycleError`.
use lawrence_ai_lms.Prelude.{ℕ, List, [], ◌∷◌, take}
use lawrence_ai_lms.Learning.Errors.{FieldError}

pub data CourseErrorCode : Type 0 where
  authentication_required tenant_context_required resource_not_found : CourseErrorCode
  tenant_access_inactive course_permission_denied course_validation_failed : CourseErrorCode
  version_conflict content_hash_mismatch course_version_immutable : CourseErrorCode
  reviewer_separation_required human_action_required idempotency_conflict : CourseErrorCode
  service_contract_error : CourseErrorCode

-- The HTTP status of each code.
unfoldable pub course_problem_status : CourseErrorCode → ℕ
course_problem_status authentication_required = 401
course_problem_status tenant_context_required = 400
course_problem_status resource_not_found = 404
course_problem_status tenant_access_inactive = 403
course_problem_status course_permission_denied = 403
course_problem_status course_validation_failed = 422
course_problem_status version_conflict = 409
course_problem_status content_hash_mismatch = 409
course_problem_status course_version_immutable = 409
course_problem_status reviewer_separation_required = 403
course_problem_status human_action_required = 403
course_problem_status idempotency_conflict = 409
course_problem_status service_contract_error = 500

pub data CourseLifecycleError : Type 0 where
  course_error : CourseErrorCode → List FieldError → CourseLifecycleError
  type_error : CourseLifecycleError

-- `CourseLifecycleError(code)`
abbrev pub course_failure : CourseErrorCode → CourseLifecycleError
course_failure code = course_error code []

abbrev bounded_errors : List FieldError → List FieldError
bounded_errors [] =
    record { path = "$"; code = "invalid"; detail = "The course input is invalid." } ∷ []
bounded_errors (e ∷ es) = e ∷ take 99 es

-- `validation_failed`: at most a hundred errors, and never none.
abbrev pub course_validation_error : List FieldError → CourseLifecycleError
course_validation_error errors = course_error course_validation_failed (bounded_errors errors)
