-- ===== src/Courses/Runs.antt =====
-- Runs of the course service and of its validation.
use lawrence_ai_lms.Prelude.{pos, String, ◌≡◌, refl, none, some, [], ◌∷◌}
use lawrence_ai_lms.Prelude.Exec.{ok, err, ◌>>=◌}
use lawrence_ai_lms.Courses.Errors.{type_error}
use lawrence_ai_lms.Json.{text, array, object, JsonObject, fields, nil, cons}
use lawrence_ai_lms.Courses.Types.{
  published, CourseAggregate, submit_review, approve, publish, snapshot,
}
use lawrence_ai_lms.Courses.Commands.{ReplaceCurriculumCommand, TransitionCourseVersionCommand}
use lawrence_ai_lms.Courses.Policies.{
  require_permission, require_human, require_mutable_version, authorize_transition,
}
use lawrence_ai_lms.Courses.Hashing.{canonical_content_hash, content_projection}
use lawrence_ai_lms.Courses.Validation.Collector.{
  crash, demand, ◌then◌, accept, run_checks, check_each, with_mapping, with_array, exact_keys,
  positive_integer,
}
use lawrence_ai_lms.Courses.Validation.Formats.{
  bounded_text, bounded_value, validate_locale, validate_hash, validate_course_key,
}
use lawrence_ai_lms.Courses.Validation.Documents.{
  validate_marks, validate_text_node, validate_array, validate_paragraph, validate_node,
  validate_document, validate_rich_text_document,
}
use lawrence_ai_lms.Courses.Validation.Inputs.{positive_position, unique_positions}
use lawrence_ai_lms.Courses.Validation.Requests.{transition_checks, validate_transition}
use lawrence_ai_lms.Courses.Validation.Complete.{
  complete_block, complete_lesson_checks, complete_section, complete_course_checks,
  validate_complete_course,
}
use lawrence_ai_lms.Courses.Service.Ports.{
  CourseWorld, on_database, transaction, draw_course_uuid, read_course_clock, authorize_for,
  load_aggregate, reserve_course, write_facts,
}
use lawrence_ai_lms.Courses.Service.Curriculum.{
  preserved, draw_all, materialize_block, materialize_lesson, materialize_section,
  materialize_curriculum,
}
use lawrence_ai_lms.Courses.Service.Drafts.{new_aggregate, load_draft}
use lawrence_ai_lms.Courses.Service.Transitions.{
  transition_course, transition_updated, check_sources, transition_review, decide_transition,
  transition_fresh, transition_block,
}
use lawrence_ai_lms.Courses.Service.Commands.{transition_version}
use lawrence_ai_lms.Courses.Service.Evolved.{Evolved, created, replaced, decided}
use lawrence_ai_lms.Courses.Memory.{
  author, document, section_input, first_course, first_version, memory, at, transition_command,
  decision_for, made,
}

abbrev pub empty_draft : CourseAggregate
empty_draft = new_aggregate memory.digest first_course first_version

abbrev pub full_draft : CourseAggregate
full_draft =
    made empty_draft
      (materialize_curriculum memory.new_uuid empty_draft memory.digest (section_input ∷ []) 0)

pub fills :
    materialize_curriculum memory.new_uuid empty_draft memory.digest (section_input ∷ []) 0
    ≡ (ok full_draft, 3)
unfolding materialize_curriculum draw_all materialize_section materialize_lesson materialize_block
    preserved new_aggregate ◌>>=◌
fills = refl

abbrev pub submission : TransitionCourseVersionCommand
submission = transition_command submit_review 2 none none

abbrev pub submitted : CourseAggregate
submitted =
    (made (decision_for submit_review, full_draft)
      (decide_transition memory 1 3 submission (author 7) full_draft (at full_draft))).1

pub submits :
    decide_transition memory 1 3 submission (author 7) full_draft (at full_draft)
    ≡ (ok (decision_for submit_review, submitted), at full_draft)
unfolding decide_transition transition_course transition_updated check_sources transition_review
    authorize_transition require_permission require_human validate_complete_course run_checks
    complete_course_checks complete_section complete_lesson_checks complete_block unique_positions
    positive_position bounded_text validate_locale validate_hash validate_document validate_node
    validate_paragraph validate_array validate_text_node bounded_value validate_marks with_mapping
    with_array exact_keys check_each demand accept canonical_content_hash content_projection
    materialize_curriculum draw_all materialize_section materialize_lesson materialize_block
    preserved new_aggregate ◌then◌ ◌>>=◌
submits = refl

abbrev pub approval : TransitionCourseVersionCommand
approval = transition_command approve 3 none none

abbrev pub accepted : CourseAggregate
accepted =
    (made (decision_for approve, submitted)
      (decide_transition memory 1 3 approval (author 8) submitted (at submitted))).1

pub approves : decide_transition memory 1 3 approval (author 8) submitted (at submitted) ≡ (
  ok (decision_for approve, accepted),
  record (at submitted) { ids_drawn = 51; clock_reads = 1 },
)
unfolding decide_transition transition_course transition_updated check_sources transition_review
    authorize_transition require_permission require_human canonical_content_hash content_projection
    validate_complete_course run_checks complete_course_checks complete_section
    complete_lesson_checks complete_block unique_positions positive_position bounded_text
    validate_locale validate_hash validate_document validate_node validate_paragraph validate_array
    validate_text_node bounded_value validate_marks with_mapping with_array exact_keys check_each
    demand accept materialize_curriculum draw_all materialize_section materialize_lesson
    materialize_block preserved new_aggregate draw_course_uuid read_course_clock ◌then◌ ◌>>=◌
approves = refl

abbrev publication : TransitionCourseVersionCommand
publication = transition_command publish 4 (some (pos 1)) none

abbrev pub released : CourseAggregate
released =
    (made (decision_for publish, accepted)
      (decide_transition memory 1 3 publication (author 8) accepted (at accepted))).1

pub publishes :
    decide_transition memory 1 3 publication (author 8) accepted (at accepted)
    ≡ (ok (decision_for publish, released), at accepted)
unfolding decide_transition transition_course transition_updated check_sources transition_review
    authorize_transition require_permission require_human canonical_content_hash content_projection
    validate_complete_course run_checks complete_course_checks complete_section
    complete_lesson_checks complete_block unique_positions positive_position bounded_text
    validate_locale validate_hash validate_document validate_node validate_paragraph validate_array
    validate_text_node bounded_value validate_marks with_mapping with_array exact_keys check_each
    demand accept materialize_curriculum draw_all materialize_section materialize_lesson
    materialize_block preserved new_aggregate draw_course_uuid read_course_clock ◌then◌ ◌>>=◌
publishes = refl

abbrev pub replacement : ReplaceCurriculumCommand
replacement = record { expected_version_row_version = pos 1; sections = section_input ∷ [] }

pub opens : load_draft memory 7 1 2 3 (pos 1) (at empty_draft) ≡ (ok empty_draft, at empty_draft)
unfolding load_draft authorize_for require_permission load_aggregate on_database
    require_mutable_version new_aggregate ◌>>=◌
opens = refl

pub drafted : Evolved memory full_draft
drafted =
    replaced 7 1 2 3 replacement empty_draft full_draft (at empty_draft) (at empty_draft) 0 3
      (created first_course first_version refl) opens fills

pub published_memory : Evolved memory released
published_memory =
    decided 1 3 publication (author 8) accepted released (decision_for publish) (at accepted)
      (at accepted)
      (decided 1 3 approval (author 8) submitted accepted (decision_for approve) (at submitted)
        (record (at submitted) { ids_drawn = 51; clock_reads = 1 })
        (decided 1 3 submission (author 7) full_draft submitted (decision_for submit_review)
          (at full_draft) (at full_draft) drafted submits)
        approves)
      publishes

pub is_released : released.version.status ≡ published
unfolding decide_transition transition_course transition_updated check_sources transition_review
    authorize_transition require_permission require_human canonical_content_hash content_projection
    validate_complete_course run_checks complete_course_checks complete_section
    complete_lesson_checks complete_block unique_positions positive_position bounded_text
    validate_locale validate_hash validate_document validate_node validate_paragraph validate_array
    validate_text_node bounded_value validate_marks with_mapping with_array exact_keys check_each
    demand accept materialize_curriculum draw_all materialize_section materialize_lesson
    materialize_block preserved new_aggregate draw_course_uuid read_course_clock ◌then◌ ◌>>=◌
is_released = refl

-- Python cannot look a list up in a set of node types.
abbrev unhashable : JsonObject
unhashable = fields (
    ("type", text "document")
    ∷ ("content", array (cons (object (fields (("type", array nil) ∷ []))) nil))
    ∷ [])

crashes : validate_rich_text_document (object unhashable) ≡ err type_error
unfolding validate_rich_text_document run_checks validate_document validate_node validate_paragraph
    validate_array validate_text_node bounded_value validate_marks with_mapping with_array
    exact_keys check_each demand accept crash ◌then◌
crashes = refl

pub is_document : validate_rich_text_document (object document) ≡ ok tt
unfolding validate_rich_text_document run_checks validate_document validate_node validate_paragraph
    validate_array validate_text_node bounded_value validate_marks with_mapping with_array
    exact_keys check_each demand accept ◌then◌
is_document = refl

-- Two sections at one position.
abbrev pub crowded : ReplaceCurriculumCommand
crowded = record {
  expected_version_row_version = pos 1;
  sections = section_input ∷ section_input ∷ [];
}

abbrev pub key : String
key = "key-00000001"

abbrev pub after_writing : CourseAggregate → CourseWorld CourseAggregate
after_writing a = record { database = a; ids_drawn = 52; clock_reads = 1 }

pub returns :
    transition_version memory 7 1 2 3 submission key (at full_draft)
    ≡ (ok (snapshot submitted), after_writing submitted)
unfolding transition_version transition_block transition_fresh transaction validate_transition
    transition_checks positive_integer validate_course_key authorize_for require_permission
    reserve_course load_aggregate on_database write_facts decide_transition transition_course
    transition_updated check_sources transition_review authorize_transition require_human
    canonical_content_hash content_projection validate_complete_course run_checks
    complete_course_checks complete_section complete_lesson_checks complete_block unique_positions
    positive_position bounded_text validate_locale validate_hash validate_document validate_node
    validate_paragraph validate_array validate_text_node bounded_value validate_marks with_mapping
    with_array exact_keys check_each demand accept materialize_curriculum draw_all
    materialize_section materialize_lesson materialize_block preserved new_aggregate
    draw_course_uuid read_course_clock ◌then◌ ◌>>=◌
returns = refl
