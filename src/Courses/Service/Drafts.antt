-- ===== src/Courses/Service/Drafts.antt =====
-- backend/src/lms/modules/courses/services.py: `create_course`, `create_ai_assisted_draft`,
-- `update_version` and `replace_curriculum`, behind their validation.
use lawrence_ai_lms.Prelude.{
  ℤ, pos, ◌+◌, String, Option, none, some, [], ◌∷◌, not, eq_ℤ, str_eq, if◌then◌else◌,
}
use lawrence_ai_lms.Prelude.Exec.{pure, raise_if, lift, or_raise, ◌>>=◌, ◌>>◌}
use lawrence_ai_lms.Json.{JsonValue, text, number, flag, object, array, items, JsonObject, fields}
use lawrence_ai_lms.Learning.Types.{Uuid}
use lawrence_ai_lms.Courses.Types.{
  CourseStatus, OriginType, ReviewerPolicy, Course, CourseVersion, CourseAggregate, CourseSnapshot,
  snapshot,
}
use lawrence_ai_lms.Courses.Commands.{
  CreateCourseCommand, CreateAiAssistedDraftCommand, UpdateCourseVersionCommand, ContentBlockInput,
  LessonInput, CurriculumSectionInput, ReplaceCurriculumCommand, course_snapshot, IdempotencyScope,
}
use lawrence_ai_lms.Courses.Errors.{course_failure, course_permission_denied, version_conflict}
use lawrence_ai_lms.Courses.Policies.{
  permission_courses_drafts_write, require_permission, require_human, require_mutable_version,
}
use lawrence_ai_lms.Courses.Hashing.{zero_hash}
use lawrence_ai_lms.Courses.Successor.{with_content_hash}
use lawrence_ai_lms.Courses.Service.Ports.{
  CoursePorts, CourseAction, on_database, on_ids, replayed, as_snapshot, draw_course_uuid,
  authorize_actor, authorize_for, load_aggregate, reserve_course,
}
use lawrence_ai_lms.Courses.Service.Curriculum.{materialize_curriculum}

abbrev pub course_request : CreateCourseCommand → JsonObject
course_request command = fields (
    ("slug", text command.slug)
    ∷ ("primary_locale", text command.primary_locale)
    ∷ ("title", text command.title)
    ∷ ("description", text command.description)
    ∷ [])

abbrev pub block_request : ContentBlockInput → JsonValue
block_request b = object (
    fields (
      ("kind", text b.kind)
      ∷ ("position", number b.position)
      ∷ ("document", object b.document)
      ∷ []))

abbrev pub lesson_request : LessonInput → JsonValue
lesson_request l = object (
    fields (
      ("title", text l.title)
      ∷ ("position", number l.position)
      ∷ ("is_required", flag l.is_required)
      ∷ ("content_blocks", array (items block_request l.content_blocks))
      ∷ []))

abbrev pub section_request : CurriculumSectionInput → JsonValue
section_request s = object (
    fields (
      ("title", text s.title)
      ∷ ("position", number s.position)
      ∷ ("lessons", array (items lesson_request s.lessons))
      ∷ []))

abbrev pub ai_draft_request : CreateAiAssistedDraftCommand → JsonObject
ai_draft_request command = fields (
    ("slug", text command.slug)
    ∷ ("primary_locale", text command.primary_locale)
    ∷ ("title", text command.title)
    ∷ ("description", text command.description)
    ∷ ("sections", array (items section_request command.sections))
    ∷ [])

abbrev pub create_command : CreateAiAssistedDraftCommand → CreateCourseCommand
create_command command = record {
  slug = command.slug;
  primary_locale = command.primary_locale;
  title = command.title;
  description = command.description;
}

abbrev pub curriculum_command : CreateAiAssistedDraftCommand → ReplaceCurriculumCommand
curriculum_command command = record {
  expected_version_row_version = pos 1;
  sections = command.sections;
}

abbrev pub new_course : Uuid → Uuid → CreateCourseCommand → ReviewerPolicy → Uuid → Course
new_course course_id tenant_id command policy membership_id = record {
  id = course_id;
  tenant_id = tenant_id;
  slug = command.slug;
  reviewer_policy = policy;
  current_published_version_id = none;
  instructor_membership_ids = membership_id ∷ [];
  row_version = 1;
}

abbrev pub new_version : Uuid → Uuid → Uuid → CreateCourseCommand → OriginType → CourseVersion
new_version version_id course_id tenant_id command origin_type = record {
  id = version_id;
  tenant_id = tenant_id;
  course_id = course_id;
  predecessor_version_id = none;
  version_number = 1;
  status = CourseStatus.draft;
  origin_type = origin_type;
  primary_locale = command.primary_locale;
  title = command.title;
  description = command.description;
  content_hash = zero_hash;
  submitted_hash = none;
  approved_hash = none;
  row_version = 1;
}

unfoldable pub new_aggregate : (JsonObject → String) → Course → CourseVersion → CourseAggregate
new_aggregate digest course version = with_content_hash digest (record {
  course = course;
  version = version;
  sections = [];
  latest_review = none;
  submitted_by_actor_id = none;
})

-- `given or stored`: an empty text counts as not given.
abbrev pub given_or : Option String → String → String
given_or none stored = stored
given_or (some given) stored = if str_eq given "" then stored else given

unfoldable pub updated_aggregate :
    (JsonObject → String) → UpdateCourseVersionCommand → CourseAggregate → CourseAggregate
updated_aggregate digest command a = with_content_hash digest (record a {
  version = record a.version {
    primary_locale = given_or command.primary_locale a.version.primary_locale;
    title = given_or command.title a.version.title;
    description = given_or command.description a.version.description;
    submitted_hash = none;
    approved_hash = none;
    row_version = a.version.row_version + 1;
  };
  submitted_by_actor_id = none;
})

module _ {D : Type 0} (ports : CoursePorts D) where
  -- The first version of a new course, stored.
  unfoldable pub store_course :
      Uuid → Uuid → CreateCourseCommand → OriginType → CourseAction D CourseAggregate
  store_course tenant_id membership_id command origin_type = do
    course_id ← draw_course_uuid ports
    version_id ← draw_course_uuid ports
    policy ← on_database (ports.reviewer_policy_for_new_course tenant_id)
    on_database (
        ports.create (
          new_aggregate ports.digest (new_course course_id tenant_id command policy membership_id)
            (new_version version_id course_id tenant_id command origin_type)))

  unfoldable pub create_course_fresh :
      Uuid → Uuid → CreateCourseCommand → IdempotencyScope → String → CourseAction D CourseSnapshot
  create_course_fresh tenant_id membership_id command scope request_hash = do
    stored ← store_course tenant_id membership_id command OriginType.manual
    on_database (ports.complete scope request_hash (course_snapshot (snapshot stored)))
    pure (snapshot stored)

  unfoldable pub create_course_block :
      Uuid → Uuid → CreateCourseCommand → IdempotencyScope → String → CourseAction D CourseSnapshot
  create_course_block actor_id tenant_id command scope request_hash = do
    actor ← authorize_actor ports actor_id tenant_id
    lift (require_permission actor permission_courses_drafts_write)
    membership_id ← or_raise actor.membership_id (course_failure course_permission_denied)
    replay ← reserve_course ports scope request_hash
    replayed as_snapshot (create_course_fresh tenant_id membership_id command scope request_hash)
        replay

  unfoldable pub create_ai_draft_fresh :
      Uuid
      → Uuid
      → CreateAiAssistedDraftCommand
      → IdempotencyScope
      → String
      → CourseAction D CourseSnapshot
  create_ai_draft_fresh tenant_id membership_id command scope request_hash = do
    stored ← store_course tenant_id membership_id (create_command command) OriginType.ai_assisted
    populated ← on_ids (materialize_curriculum ports.new_uuid stored ports.digest command.sections)
    canonical ← on_database (ports.save populated (pos stored.version.row_version) none)
    on_database (ports.complete scope request_hash (course_snapshot (snapshot canonical)))
    pure (snapshot canonical)

  unfoldable pub create_ai_draft_block :
      Uuid
      → Uuid
      → CreateAiAssistedDraftCommand
      → IdempotencyScope
      → String
      → CourseAction D CourseSnapshot
  create_ai_draft_block actor_id tenant_id command scope request_hash = do
    actor ← authorize_actor ports actor_id tenant_id
    lift (require_human actor)
    lift (require_permission actor permission_courses_drafts_write)
    membership_id ← or_raise actor.membership_id (course_failure course_permission_denied)
    replay ← reserve_course ports scope request_hash
    replayed as_snapshot (create_ai_draft_fresh tenant_id membership_id command scope request_hash)
        replay

  -- The aggregate that an edit starts from.
  unfoldable pub load_draft : Uuid → Uuid → Uuid → Uuid → ℤ → CourseAction D CourseAggregate
  load_draft actor_id tenant_id course_id version_id expected = do
    authorize_for ports actor_id tenant_id course_id permission_courses_drafts_write
    aggregate ← load_aggregate ports tenant_id course_id version_id
    lift (require_mutable_version aggregate.version)
    raise_if (not (eq_ℤ (pos aggregate.version.row_version) expected))
        (course_failure version_conflict)
    pure aggregate

  unfoldable pub update_block :
      Uuid → Uuid → Uuid → Uuid → UpdateCourseVersionCommand → CourseAction D CourseSnapshot
  update_block actor_id tenant_id course_id version_id command = do
    aggregate ←
        load_draft actor_id tenant_id course_id version_id command.expected_version_row_version
    stored ← on_database (
        ports.save (updated_aggregate ports.digest command aggregate)
          command.expected_version_row_version none)
    pure (snapshot stored)

  unfoldable pub replace_block :
      Uuid → Uuid → Uuid → Uuid → ReplaceCurriculumCommand → CourseAction D CourseSnapshot
  replace_block actor_id tenant_id course_id version_id command = do
    aggregate ←
        load_draft actor_id tenant_id course_id version_id command.expected_version_row_version
    updated ← on_ids (materialize_curriculum ports.new_uuid aggregate ports.digest command.sections)
    stored ← on_database (ports.save updated command.expected_version_row_version none)
    pure (snapshot stored)
