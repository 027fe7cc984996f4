-- ===== src/Courses/Service/Commands.antt =====
-- backend/src/lms/modules/courses/services.py: the calls of `CourseLifecycleService`.
use Prim.Native.String.{count}
use lawrence_ai_lms.Prelude.{
  ℤ, String, Bool, false, Option, none, some, [], ◌∷◌, ◌&&◌, ◌||◌, not, ◌==◌, leb, in_range_ℤ,
}
use lawrence_ai_lms.Prelude.Exec.{pure, raise_if, lift, or_raise, ◌>>=◌, ◌>>◌}
use lawrence_ai_lms.Learning.Types.{Uuid}
use lawrence_ai_lms.Courses.Types.{CourseSnapshot, snapshot}
use lawrence_ai_lms.Courses.Commands.{
  CreateCourseCommand, CreateAiAssistedDraftCommand, UpdateCourseVersionCommand,
  ReplaceCurriculumCommand, TransitionCourseVersionCommand, CreateSuccessorDraftCommand,
  SuccessorDraftResult, CourseVersionHistory, CourseOperation, create_course,
  create_ai_assisted_draft, transition_of, successor_of, IdempotencyScope,
}
use lawrence_ai_lms.Courses.Errors.{
  course_failure, course_validation_error, resource_not_found, service_contract_error,
}
use lawrence_ai_lms.Courses.Policies.{permission_courses_read}
use lawrence_ai_lms.Courses.Validation.Collector.{field_error}
use lawrence_ai_lms.Courses.Validation.Formats.{validate_course_key}
use lawrence_ai_lms.Courses.Validation.Requests.{
  validate_create_course, validate_update_course, validate_transition, validate_successor,
}
use lawrence_ai_lms.Courses.Validation.Identifiers.{validate_replace_curriculum}
use lawrence_ai_lms.Courses.Service.Ports.{
  CoursePorts, CourseAction, transaction, on_database, authorize_for, load_aggregate,
}
use lawrence_ai_lms.Courses.Service.Drafts.{
  course_request, ai_draft_request, create_command, curriculum_command, create_course_block,
  create_ai_draft_block, update_block, replace_block,
}
use lawrence_ai_lms.Courses.Service.Payloads.{transition_request}
use lawrence_ai_lms.Courses.Service.Transitions.{transition_block}
use lawrence_ai_lms.Courses.Service.Successors.{successor_request, successor_block}

abbrev pub scope_of : Uuid → Uuid → CourseOperation → String → IdempotencyScope
scope_of tenant_id actor_id operation key = record {
  tenant_id = tenant_id;
  actor_id = actor_id;
  operation = operation;
  key = key;
}

-- `cursor is not None and (not cursor or len(cursor) > 2_048)`
abbrev pub is_bad_cursor : Option String → Bool
is_bad_cursor none = false
is_bad_cursor (some cursor) = count cursor == 0 || not (leb (count cursor) 2048)

module _ {D : Type 0} (ports : CoursePorts D) (actor_id tenant_id : Uuid) where
  unfoldable pub create_course_call : CreateCourseCommand → String → CourseAction D CourseSnapshot
  create_course_call command key = do
    lift (validate_create_course command)
    lift (validate_course_key key)
    transaction ports (
        create_course_block ports actor_id tenant_id command
          (scope_of tenant_id actor_id create_course key) (ports.digest (course_request command)))

  unfoldable pub create_ai_assisted_draft_call :
      CreateAiAssistedDraftCommand → String → CourseAction D CourseSnapshot
  create_ai_assisted_draft_call command key = do
    lift (validate_create_course (create_command command))
    lift (validate_replace_curriculum (curriculum_command command))
    lift (validate_course_key key)
    transaction ports (
        create_ai_draft_block ports actor_id tenant_id command
          (scope_of tenant_id actor_id create_ai_assisted_draft key)
          (ports.digest (ai_draft_request command)))

  unfoldable pub get_course_version : Uuid → Uuid → CourseAction D CourseSnapshot
  get_course_version course_id version_id = transaction ports (do
    authorize_for ports actor_id tenant_id course_id permission_courses_read
    a ← load_aggregate ports tenant_id course_id version_id
    pure (snapshot a))

  abbrev list_block : Uuid → Option String → ℤ → CourseAction D CourseVersionHistory
  list_block course_id cursor limit = do
    authorize_for ports actor_id tenant_id course_id permission_courses_read
    found ← on_database (ports.list_versions tenant_id course_id cursor limit)
    result ← or_raise found (course_failure resource_not_found)
    raise_if (not (result.tenant_id == tenant_id && result.course_id == course_id))
        (course_failure service_contract_error)
    pure result

  unfoldable pub list_course_versions :
      Uuid → Option String → ℤ → CourseAction D CourseVersionHistory
  list_course_versions course_id cursor limit = do
    raise_if (not (in_range_ℤ 1 limit 100)) (
        course_validation_error
          (field_error "limit" "invalid" "The page size must be between 1 and 100." ∷ []))
    raise_if (is_bad_cursor cursor) (
        course_validation_error
          (field_error "cursor" "invalid" "The history cursor is invalid." ∷ []))
    transaction ports (list_block course_id cursor limit)

  unfoldable pub update_version :
      Uuid → Uuid → UpdateCourseVersionCommand → CourseAction D CourseSnapshot
  update_version course_id version_id command = do
    lift (validate_update_course command)
    transaction ports (update_block ports actor_id tenant_id course_id version_id command)

  unfoldable pub replace_curriculum :
      Uuid → Uuid → ReplaceCurriculumCommand → CourseAction D CourseSnapshot
  replace_curriculum course_id version_id command = do
    lift (validate_replace_curriculum command)
    transaction ports (replace_block ports actor_id tenant_id course_id version_id command)

  unfoldable pub transition_version :
      Uuid → Uuid → TransitionCourseVersionCommand → String → CourseAction D CourseSnapshot
  transition_version course_id version_id command key = do
    lift (validate_transition command)
    lift (validate_course_key key)
    transaction ports (
        transition_block ports actor_id tenant_id course_id version_id command
          (scope_of tenant_id actor_id (transition_of course_id version_id command.transition) key)
          (ports.digest (transition_request command)))

  unfoldable pub create_successor_draft :
      Uuid → Uuid → CreateSuccessorDraftCommand → String → CourseAction D SuccessorDraftResult
  create_successor_draft course_id source_version_id command key = do
    lift (validate_successor command)
    lift (validate_course_key key)
    transaction ports (
        successor_block ports actor_id tenant_id course_id source_version_id command
          (scope_of tenant_id actor_id (successor_of course_id source_version_id) key)
          (ports.digest (successor_request command)))
