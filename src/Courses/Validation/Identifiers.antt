-- ===== src/Courses/Validation/Identifiers.antt =====
-- backend/src/lms/modules/courses/validation.py: `validate_replace_curriculum`, with its sets of the
-- identifiers seen so far.
use lawrence_ai_lms.Prelude.{
  ℕ, suc, String, Bool, false, Option, none, some, List, [], ◌∷◌, ◌++◌, ◌||◌, not, leb, length,
  take, map, option_eq,
}
use lawrence_ai_lms.Prelude.Exec.{Result}
use lawrence_ai_lms.Learning.Types.{Uuid}
use lawrence_ai_lms.Courses.Commands.{
  ContentBlockInput, LessonInput, CurriculumSectionInput, ReplaceCurriculumCommand,
}
use lawrence_ai_lms.Courses.Errors.{CourseLifecycleError}
use lawrence_ai_lms.Courses.Validation.Collector.{
  Check, demand, accept, ◌then◌, run_checks, member, element, positive_integer, field_error,
}
use lawrence_ai_lms.Courses.Validation.Inputs.{unique_positions, validate_section}

abbrev pub Seen : Type 0
Seen = List (Option Uuid)

abbrev pub seen_before : Option Uuid → Seen → Bool
seen_before i [] = false
seen_before i (j ∷ js) = option_eq i j || seen_before i js

-- `item.id is not None and item.id in ids`
abbrev pub is_repeated : Option Uuid → Seen → Bool
is_repeated none seen = false
is_repeated (some i) seen = seen_before (some i) seen

unfoldable pub check_new : Option Uuid → Seen → String → Check
check_new i seen path =
    demand (not (is_repeated i seen))
      (field_error (member path "id") "duplicate_id" "A curriculum ID may appear only once.")

-- The set that a loop has added identifiers to.
abbrev pub remember : List (Option Uuid) → Seen → Seen
remember [] seen = seen
remember (i ∷ is) seen = remember is (i ∷ seen)

-- The identifiers that the loops come by.
abbrev pub block_ids : List ContentBlockInput → List (Option Uuid)
block_ids [] = []
block_ids (b ∷ bs) = b.id ∷ block_ids bs

abbrev pub lesson_ids : List LessonInput → List (Option Uuid)
lesson_ids [] = []
lesson_ids (l ∷ ls) = l.id ∷ lesson_ids ls

abbrev pub lesson_block_ids : List LessonInput → List (Option Uuid)
lesson_block_ids [] = []
lesson_block_ids (l ∷ ls) = block_ids (take 101 l.content_blocks) ++ lesson_block_ids ls

unfoldable pub check_block_ids : String → ℕ → Seen → List ContentBlockInput → Check
check_block_ids path n seen [] = accept
check_block_ids path n seen (b ∷ bs) =
    check_new b.id seen (element (member path "content_blocks") n)
    then check_block_ids path (suc n) (b.id ∷ seen) bs

unfoldable pub check_lesson_ids : String → ℕ → Seen → Seen → List LessonInput → Check
check_lesson_ids path n seen seen_blocks [] = accept
check_lesson_ids path n seen seen_blocks (l ∷ ls) =
    check_new l.id seen (element (member path "lessons") n)
    then check_block_ids (element (member path "lessons") n) 0 seen_blocks
        (take 101 l.content_blocks)
    then check_lesson_ids path (suc n) (l.id ∷ seen)
        (remember (block_ids (take 101 l.content_blocks)) seen_blocks) ls

-- The loop over the sections, with the three sets.
unfoldable pub check_sections : ℕ → Seen → Seen → Seen → List CurriculumSectionInput → Check
check_sections n seen seen_lessons seen_blocks [] = accept
check_sections n seen seen_lessons seen_blocks (x ∷ xs) =
    validate_section (element "sections" n) x
    then check_new x.id seen (element "sections" n)
    then check_lesson_ids (element "sections" n) 0 seen_lessons seen_blocks (take 201 x.lessons)
    then check_sections (suc n) (x.id ∷ seen)
        (remember (lesson_ids (take 201 x.lessons)) seen_lessons)
        (remember (lesson_block_ids (take 201 x.lessons)) seen_blocks) xs

unfoldable pub replace_curriculum_checks : ReplaceCurriculumCommand → Check
replace_curriculum_checks command =
    positive_integer command.expected_version_row_version "expected_version_row_version"
    then demand (leb (length command.sections) 100)
        (field_error "sections" "too_many" "At most 100 sections are allowed.")
    then unique_positions (map (λ s. s.position) command.sections) "sections" 100
    then check_sections 0 [] [] [] (take 101 command.sections)

unfoldable pub validate_replace_curriculum :
    ReplaceCurriculumCommand → Result CourseLifecycleError (Unit {0})
validate_replace_curriculum command = run_checks (replace_curriculum_checks command)
