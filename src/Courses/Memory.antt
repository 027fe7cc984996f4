-- ===== src/Courses/Memory.antt =====
-- A course, and the service of backend/src/lms/modules/courses on a database of one version.
use lawrence_ai_lms.Prelude.{ℕ, ◌+◌, ℤ, pos, String, Bool, true, Option, none, some, [], ◌∷◌}
use lawrence_ai_lms.Prelude.Exec.{Result, ok, err}
use lawrence_ai_lms.Json.{text, array, object, JsonObject, fields, nil, cons}
use lawrence_ai_lms.Learning.Types.{Uuid}
use lawrence_ai_lms.Courses.Types.{
  CourseStatus, Course, CourseVersion, CourseAggregate, AuthorizedActor, Transition,
  TransitionDecision, OriginType, ReviewerPolicy, PrincipalType,
}
use lawrence_ai_lms.Courses.Errors.{CourseLifecycleError}
use lawrence_ai_lms.Courses.Commands.{
  ContentBlockInput, CurriculumSectionInput, TransitionCourseVersionCommand,
}
use lawrence_ai_lms.Courses.Policies.{
  permission_courses_drafts_write, permission_courses_review, permission_courses_publish,
  transition_target, transition_permission,
}
use lawrence_ai_lms.Courses.Hashing.{zero_hash}
use lawrence_ai_lms.Courses.Service.Ports.{CoursePorts, CourseWorld}

abbrev pub author : Uuid → AuthorizedActor
author id = record {
  principal_id = id;
  tenant_id = 1;
  membership_id = some id;
  principal_type = PrincipalType.user;
  permissions =
      permission_courses_drafts_write ∷ permission_courses_review ∷ permission_courses_publish ∷ [];
}

abbrev pub text_node : JsonObject
text_node = fields (("type", text "text") ∷ ("text", text "Hello") ∷ ("marks", array nil) ∷ [])

abbrev pub paragraph : JsonObject
paragraph =
    fields (("type", text "paragraph") ∷ ("content", array (cons (object text_node) nil)) ∷ [])

abbrev pub document : JsonObject
document =
    fields (("type", text "document") ∷ ("content", array (cons (object paragraph) nil)) ∷ [])

abbrev pub block_input : ContentBlockInput
block_input = record {
  kind = "rich_text";
  position = 1;
  document = document;
  id = none;
  expected_row_version = none;
}

abbrev pub section_input : CurriculumSectionInput
section_input = record {
  title = "section";
  position = 1;
  lessons =
      record {
        title = "lesson";
        position = 1;
        is_required = true;
        content_blocks = block_input ∷ [];
        id = none;
        expected_row_version = none;
      }
      ∷ [];
  id = none;
  expected_row_version = none;
}

abbrev pub first_course : Course
first_course = record {
  id = 2;
  tenant_id = 1;
  slug = "course";
  reviewer_policy = ReviewerPolicy.separate_reviewer_required;
  current_published_version_id = none;
  instructor_membership_ids = 7 ∷ [];
  row_version = 1;
}

abbrev pub first_version : CourseVersion
first_version = record {
  id = 3;
  tenant_id = 1;
  course_id = 2;
  predecessor_version_id = none;
  version_number = 1;
  status = CourseStatus.draft;
  origin_type = OriginType.manual;
  primary_locale = "en";
  title = "course";
  description = "a course";
  content_hash = zero_hash;
  submitted_hash = none;
  approved_hash = none;
  row_version = 1;
}

abbrev zero_digest : JsonObject → String
zero_digest o = "0000000000000000000000000000000000000000000000000000000000000000"

-- A database that holds one version of a course, and keeps what is saved.
abbrev pub memory : CoursePorts CourseAggregate
memory = record {
  authorize = λ actor_id tenant_id d. (ok (author actor_id), d);
  authorize_course = λ actor_id tenant_id course_id permission d. (ok (author actor_id), d);
  reviewer_policy_for_new_course = λ tenant_id d. (ok ReviewerPolicy.separate_reviewer_required, d);
  create = λ a d. (ok a, a);
  load = λ tenant_id course_id version_id d. (ok (some d), d);
  save = λ a expected_version expected_course d. (ok a, a);
  list_versions = λ tenant_id course_id cursor limit d. (ok none, d);
  find_successor = λ tenant_id course_id version_id d. (ok none, d);
  next_version_number = λ tenant_id course_id d. (ok (d.version.version_number + 1), d);
  add_successor = λ source_id a expected_course expected_source d. (ok a, a);
  reserve =
      λ scope hash d. (ok (record { request_hash = hash; created = true; response = none }), d);
  complete = λ scope hash response d. (ok tt, d);
  append = λ audit outbox d. (ok tt, d);
  publication_sources = none;
  rollback = λ before after. before;
  new_uuid = λ n. 100 + n;
  now = λ n. n;
  digest = zero_digest;
}

abbrev pub at : CourseAggregate → CourseWorld CourseAggregate
at a = record { database = a; ids_drawn = 50; clock_reads = 0 }

abbrev pub transition_command :
    Transition → ℕ → Option ℤ → Option String → TransitionCourseVersionCommand
transition_command t expected expected_course reason = record {
  transition = t;
  expected_version_row_version = pos expected;
  expected_content_hash = zero_hash;
  expected_course_row_version = expected_course;
  reason_code = reason;
  reason_codes = [];
}

abbrev pub decision_for : Transition → TransitionDecision
decision_for t = record {
  target_status = transition_target t;
  required_permission = transition_permission t;
  self_review = Bool.false;
}

-- What a run made, or what it started from where it raised.
abbrev pub made : {A S : Type 0} → A → Result CourseLifecycleError A × S → A
made a (ok b, s) = b
made a (err e, s) = a
