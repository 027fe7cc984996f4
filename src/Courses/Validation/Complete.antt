-- ===== src/Courses/Validation/Complete.antt =====
-- backend/src/lms/modules/courses/validation.py: `validate_complete_course`.
use lawrence_ai_lms.Prelude.{
  ℕ, ◌+◌, String, Bool, List, [], ◌∷◌, ◌&&◌, ◌==◌, not, leb, length, take, map, str_eq,
  if◌then◌else◌,
}
use lawrence_ai_lms.Prelude.Exec.{Result}
use lawrence_ai_lms.Json.{object}
use lawrence_ai_lms.Courses.Types.{RichTextBlock, Lesson, CurriculumSection, CourseSnapshot}
use lawrence_ai_lms.Courses.Errors.{CourseLifecycleError}
use lawrence_ai_lms.Courses.Validation.Collector.{
  Check, demand, ◌then◌, run_checks, member, check_each, field_error,
}
use lawrence_ai_lms.Courses.Validation.Formats.{bounded_text, validate_locale, validate_hash}
use lawrence_ai_lms.Courses.Validation.Documents.{validate_document}
use lawrence_ai_lms.Courses.Validation.Inputs.{unique_positions}
use lawrence_ai_lms.Courses.Validation.Requests.{is_empty_list}

abbrev pub check_edge : Bool → String → Check
check_edge fits path =
    demand fits (field_error path "invalid_edge" "The curriculum edge is invalid.")

-- A list that must not be empty, and not be too long.
abbrev pub check_amount : {A : Type 0} → List A → String → ℕ → String → String → Check
check_amount xs path maximum none_detail many_detail =
    demand (not (is_empty_list xs)) (field_error path "required" none_detail)
    then demand (leb (length xs) maximum) (field_error path "too_many" many_detail)

module _ (snapshot : CourseSnapshot) where
  abbrev pub block_fits : Lesson → RichTextBlock → Bool
  block_fits lesson block =
      block.tenant_id == snapshot.course.tenant_id
      && (block.course_version_id == snapshot.version.id && block.lesson_id == lesson.id)

  unfoldable pub complete_block : Lesson → String → RichTextBlock → Check
  complete_block lesson path block =
      check_edge (block_fits lesson block) path
      then demand (str_eq block.kind "rich_text")
          (field_error (member path "kind") "unsupported" "Only rich_text is supported.")
      then validate_document (member path "document") (object block.document)

  abbrev pub lesson_fits : CurriculumSection → Lesson → Bool
  lesson_fits section lesson =
      lesson.tenant_id == snapshot.course.tenant_id
      && (lesson.course_version_id == snapshot.version.id && lesson.section_id == section.id)

  unfoldable pub complete_lesson_checks : CurriculumSection → String → Lesson → Check
  complete_lesson_checks section path lesson =
      check_edge (lesson_fits section lesson) path
      then bounded_text lesson.title (member path "title") 160
      then check_amount lesson.content_blocks (member path "content_blocks") 100
          "At least one content block is required." "At most 100 content blocks are allowed."
      then unique_positions (map (λ b. b.position) lesson.content_blocks)
          (member path "content_blocks") 100
      then check_each (complete_block lesson) (member path "content_blocks") 0
          (take 101 lesson.content_blocks)

  abbrev pub section_fits : CurriculumSection → Bool
  section_fits section =
      section.tenant_id == snapshot.course.tenant_id
      && section.course_version_id == snapshot.version.id

  unfoldable pub complete_section : String → CurriculumSection → Check
  complete_section path section =
      check_edge (section_fits section) path
      then bounded_text section.title (member path "title") 160
      then check_amount section.lessons (member path "lessons") 200
          "At least one lesson is required." "At most 200 lessons are allowed."
      then unique_positions (map (λ l. l.position) section.lessons) (member path "lessons") 200
      then check_each (complete_lesson_checks section) (member path "lessons") 0
          (take 201 section.lessons)

abbrev pub required_in : List Lesson → ℕ
required_in [] = 0
required_in (l ∷ ls) = (if l.is_required then 1 else 0) + required_in ls

-- `required_lessons`, over the sections and lessons that the loops look at.
abbrev pub required_lessons : List CurriculumSection → ℕ
required_lessons [] = 0
required_lessons (s ∷ ss) = required_in (take 201 s.lessons) + required_lessons ss

unfoldable pub complete_course_checks : CourseSnapshot → Check
complete_course_checks snapshot =
    validate_locale snapshot.version.primary_locale "version.primary_locale"
    then bounded_text snapshot.version.title "version.title" 160
    then bounded_text snapshot.version.description "version.description" 2000
    then validate_hash snapshot.version.content_hash "version.content_hash"
    then check_amount snapshot.sections "sections" 100
        "At least one section is required for review." "At most 100 sections are allowed."
    then unique_positions (map (λ s. s.position) snapshot.sections) "sections" 100
    then check_each (complete_section snapshot) "sections" 0 (take 101 snapshot.sections)
    then demand (leb 1 (required_lessons (take 101 snapshot.sections)))
        (field_error "sections" "required_lesson" "At least one required lesson is needed.")

unfoldable pub validate_complete_course : CourseSnapshot → Result CourseLifecycleError (Unit {0})
validate_complete_course snapshot = run_checks (complete_course_checks snapshot)
