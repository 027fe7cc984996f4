-- ===== src/Courses/Validation/Inputs.antt =====
-- backend/src/lms/modules/courses/validation.py: the parts of a curriculum command.
use lawrence_ai_lms.Prelude.{
  ℕ, suc, ℤ, String, Bool, true, false, Option, none, some, List, [], ◌∷◌, ◌&&◌, not, leb, take,
  map, contains, is_none, str_eq,
}
use lawrence_ai_lms.Json.{object}
use lawrence_ai_lms.Learning.Types.{Uuid}
use lawrence_ai_lms.Courses.Commands.{ContentBlockInput, LessonInput, CurriculumSectionInput}
use lawrence_ai_lms.Courses.Validation.Collector.{
  Check, demand, accept, ◌then◌, member, check_each, positive_integer, field_error,
}
use lawrence_ai_lms.Courses.Validation.Formats.{bounded_text}
use lawrence_ai_lms.Courses.Validation.Documents.{is_filled, validate_document}

abbrev pub bool_eq : Bool → Bool → Bool
bool_eq true b = b
bool_eq false b = not b

abbrev pub check_row_version : Option ℤ → String → Check
check_row_version none path = accept
check_row_version (some v) path = positive_integer v (member path "expected_row_version")

-- `_identity_pair`
unfoldable pub identity_pair : Option Uuid → Option ℤ → String → Check
identity_pair identifier expected_row_version path =
    demand (bool_eq (is_none identifier) (is_none expected_row_version)) (
      field_error path "partial_identity" "Identity and expected row version must appear together.")
    then check_row_version expected_row_version path

unfoldable pub positive_position : String → ℕ → Check
positive_position path position =
    demand (leb 1 position) (field_error path "invalid_integer" "A positive integer is required.")

abbrev pub distinct_numbers : List ℕ → Bool
distinct_numbers [] = true
distinct_numbers (n ∷ ns) = not (contains n ns) && distinct_numbers ns

abbrev pub position_of_item : String → ℕ → Check
position_of_item path position = positive_position (member path "position") position

-- `_unique_positions`, of the items' positions.
unfoldable pub unique_positions : List ℕ → String → ℕ → Check
unique_positions positions path maximum =
    check_each position_of_item path 0 (take (suc maximum) positions)
    then demand (distinct_numbers (take (suc maximum) positions))
        (field_error path "duplicate_position" "Positions must be unique within their parent.")

-- `_validate_block`
unfoldable pub validate_block : String → ContentBlockInput → Check
validate_block path block =
    identity_pair block.id block.expected_row_version path
    then demand (str_eq block.kind "rich_text")
        (field_error (member path "kind") "unsupported" "Only rich_text blocks are supported.")
    then positive_position (member path "position") block.position
    then validate_document (member path "document") (object block.document)

-- `_validate_lesson`
unfoldable pub validate_lesson : String → LessonInput → Check
validate_lesson path lesson =
    identity_pair lesson.id lesson.expected_row_version path
    then bounded_text lesson.title (member path "title") 160
    then positive_position (member path "position") lesson.position
    then demand (is_filled 100 lesson.content_blocks) (
        field_error (member path "content_blocks") "invalid_length"
          "A lesson requires 1 to 100 content blocks.")
    then unique_positions (map (λ b. b.position) lesson.content_blocks)
        (member path "content_blocks") 100
    then check_each validate_block (member path "content_blocks") 0 (take 101 lesson.content_blocks)

-- `_validate_section`
unfoldable pub validate_section : String → CurriculumSectionInput → Check
validate_section path section =
    identity_pair section.id section.expected_row_version path
    then bounded_text section.title (member path "title") 160
    then positive_position (member path "position") section.position
    then demand (is_filled 200 section.lessons) (
        field_error (member path "lessons") "invalid_length" "A section requires 1 to 200 lessons.")
    then unique_positions (map (λ l. l.position) section.lessons) (member path "lessons") 200
    then check_each validate_lesson (member path "lessons") 0 (take 201 section.lessons)
