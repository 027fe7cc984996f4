-- ===== src/Courses/Validation/Requests.antt =====
-- backend/src/lms/modules/courses/validation.py: the commands that have no curriculum.
use lawrence_ai_lms.Prelude.{
  ℤ, String, Bool, true, false, Option, none, some, List, [], ◌∷◌, ◌||◌, not, is_none,
}
use lawrence_ai_lms.Prelude.Exec.{Result}
use lawrence_ai_lms.Courses.Types.{Transition, request_changes, publish, withdraw, archive}
use lawrence_ai_lms.Courses.Commands.{
  CreateCourseCommand, UpdateCourseVersionCommand, TransitionCourseVersionCommand,
  CreateSuccessorDraftCommand,
}
use lawrence_ai_lms.Courses.Errors.{CourseLifecycleError}
use lawrence_ai_lms.Courses.Validation.Collector.{
  Check, add, demand, accept, ◌then◌, run_checks, check_each, positive_integer,
  optional_positive_integer, field_error,
}
use lawrence_ai_lms.Courses.Validation.Formats.{
  bounded_text, is_slug, validate_locale, validate_hash, validate_reason,
}
use lawrence_ai_lms.Courses.Validation.Documents.{is_filled, distinct_texts}

unfoldable pub create_course_checks : CreateCourseCommand → Check
create_course_checks command =
    demand (is_slug command.slug) (field_error "slug" "invalid_slug" "The slug format is invalid.")
    then validate_locale command.primary_locale "primary_locale"
    then bounded_text command.title "title" 160
    then bounded_text command.description "description" 2000

unfoldable pub validate_create_course : CreateCourseCommand → Result CourseLifecycleError (Unit {0})
validate_create_course command = run_checks (create_course_checks command)

abbrev pub check_given : {A : Type 0} → (A → Check) → Option A → Check
check_given f none = accept
check_given f (some a) = f a

abbrev patches : UpdateCourseVersionCommand → Bool
patches command =
    not (is_none command.primary_locale)
    || (not (is_none command.title) || not (is_none command.description))

unfoldable pub update_course_checks : UpdateCourseVersionCommand → Check
update_course_checks command =
    positive_integer command.expected_version_row_version "expected_version_row_version"
    then demand (patches command)
        (field_error "$" "empty_patch" "At least one metadata field is required.")
    then check_given (λ value. validate_locale value "primary_locale") command.primary_locale
    then check_given (λ value. bounded_text value "title" 160) command.title
    then check_given (λ value. bounded_text value "description" 2000) command.description

unfoldable pub validate_update_course :
    UpdateCourseVersionCommand → Result CourseLifecycleError (Unit {0})
validate_update_course command = run_checks (update_course_checks command)

-- `transition in {PUBLISH, WITHDRAW}`
abbrev pub moves_pointer : Transition → Bool
moves_pointer publish = true
moves_pointer withdraw = true
moves_pointer _ = false

abbrev pub check_course_version : Bool → Option ℤ → Check
check_course_version true expected =
    optional_positive_integer expected "expected_course_row_version"
check_course_version false expected = demand (is_none expected) (
    field_error "expected_course_row_version" "unexpected"
      "This transition does not change the course pointer.")

abbrev pub is_empty_list : {A : Type 0} → List A → Bool
is_empty_list [] = true
is_empty_list (x ∷ xs) = false

-- The reasons of a request for changes.
abbrev pub check_review_reasons : List String → Option String → Check
check_review_reasons reason_codes reason_code =
    demand (is_filled 20 reason_codes)
      (field_error "reason_codes" "invalid_length" "One to twenty reason codes are required.")
    then demand (distinct_texts reason_codes)
        (field_error "reason_codes" "duplicate" "Reason codes must be unique.")
    then check_each validate_reason "reason_codes" 0 reason_codes
    then demand (is_none reason_code)
        (field_error "reason_code" "unexpected" "A singular reason code is not allowed here.")

abbrev pub check_required_reason : Option String → Check
check_required_reason none = add (field_error "reason_code" "required" "A reason code is required.")
check_required_reason (some reason) = validate_reason "reason_code" reason

abbrev pub check_no_reason : Option String → Check
check_no_reason reason_code =
    demand (is_none reason_code)
      (field_error "reason_code" "unexpected" "A reason code is not allowed here.")

abbrev pub check_reason : Transition → Option String → Check
check_reason withdraw reason_code = check_required_reason reason_code
check_reason archive reason_code = check_required_reason reason_code
check_reason _ reason_code = check_no_reason reason_code

abbrev pub check_no_reasons : List String → Check
check_no_reasons reason_codes =
    demand (is_empty_list reason_codes)
      (field_error "reason_codes" "unexpected" "Reason codes are not allowed here.")

abbrev pub check_reasons : Transition → List String → Option String → Check
check_reasons request_changes reason_codes reason_code =
    check_review_reasons reason_codes reason_code
check_reasons transition reason_codes reason_code =
    check_no_reasons reason_codes then check_reason transition reason_code

unfoldable pub transition_checks : TransitionCourseVersionCommand → Check
transition_checks command =
    positive_integer command.expected_version_row_version "expected_version_row_version"
    then validate_hash command.expected_content_hash "expected_content_hash"
    then check_course_version (moves_pointer command.transition) command.expected_course_row_version
    then check_reasons command.transition command.reason_codes command.reason_code

unfoldable pub validate_transition :
    TransitionCourseVersionCommand → Result CourseLifecycleError (Unit {0})
validate_transition command = run_checks (transition_checks command)

unfoldable pub successor_checks : CreateSuccessorDraftCommand → Check
successor_checks command =
    positive_integer command.expected_course_row_version "expected_course_row_version"
    then positive_integer command.expected_source_version_row_version
        "expected_source_version_row_version"
    then validate_hash command.expected_source_content_hash "expected_source_content_hash"

unfoldable pub validate_successor :
    CreateSuccessorDraftCommand → Result CourseLifecycleError (Unit {0})
validate_successor command = run_checks (successor_checks command)
