-- ===== src/Courses/Hashing.antt =====
-- backend/src/lms/modules/courses/hashing.py: what a content hash is taken of.
use Prim.Native.String.{◌++◌}
use lawrence_ai_lms.Prelude.{ℕ, String, List, [], ◌∷◌, leb, if◌then◌else◌}
use lawrence_ai_lms.Json.{JsonValue, text, number, flag, object, JsonObject, fields, array, items}
use lawrence_ai_lms.Courses.Types.{
  CourseVersion, RichTextBlock, Lesson, CurriculumSection, CourseSnapshot,
}

module _ {A : Type 0} (position : A → ℕ) where
  abbrev pub insert_at : A → List A → List A
  insert_at x [] = x ∷ []
  insert_at x (y ∷ ys) =
      let rest = insert_at x ys in if leb (position x) (position y) then x ∷ y ∷ ys else y ∷ rest

  -- `sorted(items, key=lambda item: item.position)`, which keeps the order of equal positions.
  abbrev pub sort_by : List A → List A
  sort_by [] = []
  sort_by (x ∷ xs) = insert_at x (sort_by xs)

abbrev pub block_content : RichTextBlock → JsonValue
block_content b = object (
    fields (
      ("kind", text b.kind)
      ∷ ("position", number b.position)
      ∷ ("document", object b.document)
      ∷ []))

abbrev pub lesson_content : Lesson → JsonValue
lesson_content l = object (
    fields (
      ("title", text l.title)
      ∷ ("position", number l.position)
      ∷ ("is_required", flag l.is_required)
      ∷ ("content_blocks", array (items block_content (sort_by (λ b. b.position) l.content_blocks)))
      ∷ []))

abbrev pub section_content : CurriculumSection → JsonValue
section_content s = object (
    fields (
      ("title", text s.title)
      ∷ ("position", number s.position)
      ∷ ("lessons", array (items lesson_content (sort_by (λ l. l.position) s.lessons)))
      ∷ []))

abbrev pub course_content : CourseVersion → List CurriculumSection → JsonObject
course_content v sections = fields (
    ("primary_locale", text v.primary_locale)
    ∷ ("title", text v.title)
    ∷ ("description", text v.description)
    ∷ ("sections", array (items section_content (sort_by (λ s. s.position) sections)))
    ∷ [])

unfoldable pub content_projection : CourseSnapshot → JsonObject
content_projection s = course_content s.version s.sections

-- `canonical_content_hash`; `digest` is the hexadecimal SHA-256 of a value's canonical JSON text.
unfoldable pub canonical_content_hash : (JsonObject → String) → CourseSnapshot → String
canonical_content_hash digest s = "sha256:" ++ digest (content_projection s)

-- `_ZERO_HASH`
abbrev pub zero_hash : String
zero_hash = "sha256:0000000000000000000000000000000000000000000000000000000000000000"
