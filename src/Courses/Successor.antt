-- ===== src/Courses/Successor.antt =====
-- backend/src/lms/modules/courses/services.py: `_copy_successor`.
pub mod Content
use lawrence_ai_lms.Prelude.{ℕ, ◌+◌, String, Bool, true, false, Option, none, some, List, [], ◌∷◌}
use lawrence_ai_lms.Json.{JsonObject}
use lawrence_ai_lms.Learning.Types.{Uuid}
use lawrence_ai_lms.Courses.Types.{
  CourseStatus, Course, CourseVersion, RichTextBlock, Lesson, CurriculumSection, CourseSnapshot,
  CourseAggregate, snapshot,
}
use lawrence_ai_lms.Courses.Hashing.{sort_by, canonical_content_hash, zero_hash}

-- A copy draws identifiers: it takes the number drawn so far and returns it.
abbrev pub Copy : Type 0 → Type 0
Copy A = A → ℕ → A × ℕ

abbrev pub copy_all : {A : Type 0} → Copy A → Copy (List A)
copy_all copy [] n = ([], n)
copy_all copy (x ∷ xs) n =
    let (y, n1) = copy x n in let (ys, n2) = copy_all copy xs n1 in (y ∷ ys, n2)

module _ (new_uuid : ℕ → Uuid) (tenant_id version_id : Uuid) where
  abbrev pub copy_block : Uuid → Copy RichTextBlock
  copy_block lesson_id b n = (
    record {
      id = new_uuid n;
      tenant_id = tenant_id;
      course_version_id = version_id;
      lesson_id = lesson_id;
      kind = b.kind;
      position = b.position;
      row_version = 1;
      document = b.document;
    },
    n + 1,
  )

  abbrev pub copy_lesson : Uuid → Copy Lesson
  copy_lesson section_id l n =
      let lesson_id = new_uuid n in
      let (blocks, m) =
        copy_all (copy_block lesson_id) (sort_by (λ b. b.position) l.content_blocks) (n + 1) in
      (
        record {
          id = lesson_id;
          tenant_id = tenant_id;
          course_version_id = version_id;
          section_id = section_id;
          title = l.title;
          position = l.position;
          is_required = l.is_required;
          row_version = 1;
          content_blocks = blocks;
        },
        m,
      )

  abbrev pub copy_section : Copy CurriculumSection
  copy_section s n =
      let section_id = new_uuid n in
      let (lessons, m) =
        copy_all (copy_lesson section_id) (sort_by (λ l. l.position) s.lessons) (n + 1) in
      (
        record {
          id = section_id;
          tenant_id = tenant_id;
          course_version_id = version_id;
          title = s.title;
          position = s.position;
          row_version = 1;
          lessons = lessons;
        },
        m,
      )

abbrev pub successor_version : Uuid → ℕ → CourseAggregate → String → CourseVersion
successor_version version_id version_number source content_hash = record {
  id = version_id;
  tenant_id = source.course.tenant_id;
  course_id = source.course.id;
  predecessor_version_id = some source.version.id;
  version_number = version_number;
  status = CourseStatus.draft;
  origin_type = source.version.origin_type;
  primary_locale = source.version.primary_locale;
  title = source.version.title;
  description = source.version.description;
  content_hash = content_hash;
  submitted_hash = none;
  approved_hash = none;
  row_version = 1;
}

-- `replace(aggregate, version=replace(aggregate.version, content_hash=...))`
abbrev pub with_content_hash : (JsonObject → String) → CourseAggregate → CourseAggregate
with_content_hash digest a = record a {
  version = record a.version { content_hash = canonical_content_hash digest (snapshot a) };
}

-- `version_number` is what the repository answers for the next one.
unfoldable pub copy_successor :
    (ℕ → Uuid) → (JsonObject → String) → ℕ → CourseAggregate → ℕ → CourseAggregate × ℕ
copy_successor new_uuid digest version_number source n =
    let version_id = new_uuid n in
    let (sections, m) =
      copy_all (copy_section new_uuid source.course.tenant_id version_id)
        (sort_by (λ s. s.position) source.sections) (n + 1) in
    (
      with_content_hash digest (record {
        course = record source.course { row_version = source.course.row_version + 1 };
        version = successor_version version_id version_number source zero_hash;
        sections = sections;
        latest_review = none;
        submitted_by_actor_id = none;
      }),
      m,
    )
