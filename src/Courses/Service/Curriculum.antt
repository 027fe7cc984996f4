-- ===== src/Courses/Service/Curriculum.antt =====
-- backend/src/lms/modules/courses/services.py: `_materialize_curriculum`, on the number of
-- identifiers drawn so far.
use lawrence_ai_lms.Prelude.{
  ℕ, ℤ, pos, ◌+◌, String, Bool, false, Option, none, some, List, [], ◌∷◌, ◌++◌, ◌||◌, not, ◌==◌,
  str_eq, eq_ℤ, if◌then◌else◌,
}
use lawrence_ai_lms.Prelude.Exec.{Result, ok, err, Exec, pure, raise_if, lift, ◌>>=◌, ◌>>◌}
use lawrence_ai_lms.Json.{object, JsonObject}
use lawrence_ai_lms.Learning.Types.{Uuid}
use lawrence_ai_lms.Courses.Types.{
  RichTextBlock, Lesson, CurriculumSection, CourseAggregate, CourseVersion,
}
use lawrence_ai_lms.Courses.Commands.{ContentBlockInput, LessonInput, CurriculumSectionInput}
use lawrence_ai_lms.Courses.Errors.{
  CourseLifecycleError, course_failure, resource_not_found, version_conflict,
}
use lawrence_ai_lms.Courses.Hashing.{sort_by}
use lawrence_ai_lms.Courses.Successor.{with_content_hash}
use lawrence_ai_lms.Courses.Validation.Inputs.{bool_eq}
use lawrence_ai_lms.Courses.Service.Equality.{json_eq}

-- `{item.id: item for item in items}.get(id)`: of two items with one key the later is kept.
abbrev pub find_last : {A : Type 0} → (A → Uuid) → List A → Uuid → Option A
find_last id_of [] i = none
find_last id_of (x ∷ xs) i = elim (find_last id_of xs i) [
  | some y ↦ some y
  | none ↦ if id_of x == i then some x else none
]

abbrev pub lessons_of : List CurriculumSection → List Lesson
lessons_of [] = []
lessons_of (s ∷ ss) = s.lessons ++ lessons_of ss

abbrev pub blocks_of : List Lesson → List RichTextBlock
blocks_of [] = []
blocks_of (l ∷ ls) = l.content_blocks ++ blocks_of ls

abbrev is_version : Option ℤ → ℕ → Bool
is_version none row_version = false
is_version (some expected) row_version = eq_ℤ expected (pos row_version)

abbrev kept : {A : Type 0} → (A → ℕ) → Option ℤ → Option A → Result CourseLifecycleError (Option A)
kept row_version_of expected none = err (course_failure resource_not_found)
kept row_version_of expected (some stored) =
    if is_version expected (row_version_of stored)
    then ok (some stored)
    else err (course_failure version_conflict)

-- `_preserved`
unfoldable pub preserved :
    {A : Type 0}
    → (Uuid → Option A)
    → (A → ℕ)
    → Option Uuid
    → Option ℤ
    → Result CourseLifecycleError (Option A)
preserved current row_version_of none expected = ok none
preserved current row_version_of (some i) expected = kept row_version_of expected (current i)

-- A preserved item that hangs elsewhere is not found.
abbrev pub misplaced : {A : Type 0} → (A → Uuid) → Uuid → Option A → Bool
misplaced parent_of parent_id none = false
misplaced parent_of parent_id (some stored) = not (parent_of stored == parent_id)

abbrev pub Drawing : Type 0 → Type 0
Drawing A = Exec ℕ CourseLifecycleError A

abbrev pub drawn : (ℕ → Uuid) → Drawing Uuid
drawn new_uuid n = (ok (new_uuid n), n + 1)

-- `previous.id if previous else self._ids.new_uuid()`
abbrev pub identified : {A : Type 0} → (ℕ → Uuid) → (A → Uuid) → Option A → Drawing Uuid
identified new_uuid id_of none = drawn new_uuid
identified new_uuid id_of (some stored) = pure (id_of stored)

-- `previous.row_version + int(changed) if previous is not None else 1`
abbrev pub next_row_version : {A : Type 0} → (A → ℕ) → (A → Bool) → Option A → ℕ
next_row_version row_version_of changed none = 1
next_row_version row_version_of changed (some stored) =
    row_version_of stored + (if changed stored then 1 else 0)

abbrev pub block_changed : ContentBlockInput → RichTextBlock → Bool
block_changed b stored =
    not (str_eq stored.kind b.kind)
    || (not (stored.position == b.position)
        || not (json_eq (object stored.document) (object b.document)))

abbrev pub lesson_changed : LessonInput → Lesson → Bool
lesson_changed l stored =
    not (str_eq stored.title l.title)
    || (not (stored.position == l.position) || not (bool_eq stored.is_required l.is_required))

abbrev pub section_changed : CurriculumSectionInput → CurriculumSection → Bool
section_changed s stored = not (str_eq stored.title s.title) || not (stored.position == s.position)

unfoldable pub draw_all : {A B : Type 0} → (A → Drawing B) → List A → Drawing (List B)
draw_all f [] = pure []
draw_all f (x ∷ xs) = do y ← f x; ys ← draw_all f xs; pure (y ∷ ys)

module _ (new_uuid : ℕ → Uuid) (aggregate : CourseAggregate) where
  abbrev pub current_sections : Uuid → Option CurriculumSection
  current_sections i = find_last (λ s. s.id) aggregate.sections i

  abbrev pub current_lessons : Uuid → Option Lesson
  current_lessons i = find_last (λ l. l.id) (lessons_of aggregate.sections) i

  abbrev pub current_blocks : Uuid → Option RichTextBlock
  current_blocks i = find_last (λ b. b.id) (blocks_of (lessons_of aggregate.sections)) i

  unfoldable pub materialize_block : Uuid → ContentBlockInput → Drawing RichTextBlock
  materialize_block lesson_id b = do
    previous ← lift (preserved current_blocks (λ s. s.row_version) b.id b.expected_row_version)
    raise_if (misplaced (λ s. s.lesson_id) lesson_id previous) (course_failure resource_not_found)
    block_id ← identified new_uuid (λ s. s.id) previous
    pure (record {
      id = block_id;
      tenant_id = aggregate.course.tenant_id;
      course_version_id = aggregate.version.id;
      lesson_id = lesson_id;
      kind = b.kind;
      position = b.position;
      row_version = next_row_version (λ s. s.row_version) (block_changed b) previous;
      document = b.document;
    })

  unfoldable pub materialize_lesson : Uuid → LessonInput → Drawing Lesson
  materialize_lesson section_id l = do
    previous ← lift (preserved current_lessons (λ s. s.row_version) l.id l.expected_row_version)
    raise_if (misplaced (λ s. s.section_id) section_id previous) (course_failure resource_not_found)
    lesson_id ← identified new_uuid (λ s. s.id) previous
    blocks ← draw_all (materialize_block lesson_id) l.content_blocks
    pure (record {
      id = lesson_id;
      tenant_id = aggregate.course.tenant_id;
      course_version_id = aggregate.version.id;
      section_id = section_id;
      title = l.title;
      position = l.position;
      is_required = l.is_required;
      row_version = next_row_version (λ s. s.row_version) (lesson_changed l) previous;
      content_blocks = sort_by (λ b. b.position) blocks;
    })

  unfoldable pub materialize_section : CurriculumSectionInput → Drawing CurriculumSection
  materialize_section s = do
    previous ← lift (preserved current_sections (λ x. x.row_version) s.id s.expected_row_version)
    section_id ← identified new_uuid (λ x. x.id) previous
    lessons ← draw_all (materialize_lesson section_id) s.lessons
    pure (record {
      id = section_id;
      tenant_id = aggregate.course.tenant_id;
      course_version_id = aggregate.version.id;
      title = s.title;
      position = s.position;
      row_version = next_row_version (λ x. x.row_version) (section_changed s) previous;
      lessons = sort_by (λ l. l.position) lessons;
    })

  abbrev reopened : CourseVersion → CourseVersion
  reopened v = record v {
    submitted_hash = none;
    approved_hash = none;
    row_version = v.row_version + 1;
  }

  abbrev pub with_sections : (JsonObject → String) → List CurriculumSection → CourseAggregate
  with_sections digest sections = with_content_hash digest (record aggregate {
    sections = sort_by (λ s. s.position) sections;
    version = reopened aggregate.version;
    submitted_by_actor_id = none;
  })

  -- `_materialize_curriculum`
  unfoldable pub materialize_curriculum :
      (JsonObject → String) → List CurriculumSectionInput → Drawing CourseAggregate
  materialize_curriculum digest section_inputs = do
    sections ← draw_all materialize_section section_inputs
    pure (with_sections digest sections)
