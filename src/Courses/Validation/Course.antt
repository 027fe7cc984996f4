-- ===== src/Courses/Validation/Course.antt =====
-- The courses that `validate_complete_course` of backend/src/lms/modules/courses/validation.py lets
-- into review.
use lawrence_ai_lms.Prelude.{
  ℕ, suc, ◌+◌, String, ◌≡◌, refl, sym, ap, subst, ◌↔◌, true, List, [], ◌∷◌, not, leb, length, take,
  map, str_eq,
}
use lawrence_ai_lms.Prelude.Exec.{ok}
use lawrence_ai_lms.Json.{object}
use lawrence_ai_lms.Courses.Types.{RichTextBlock, Lesson, CurriculumSection, CourseSnapshot}
use lawrence_ai_lms.Courses.Validation.Collector.{member}
use lawrence_ai_lms.Courses.Validation.Formats.{
  is_bounded_text, is_locale, is_hash, bounded_text, validate_locale, validate_hash,
}
use lawrence_ai_lms.Courses.Validation.Requests.{is_empty_list}
use lawrence_ai_lms.Courses.Validation.Complete.{
  check_amount, block_fits, complete_block, lesson_fits, complete_lesson_checks, section_fits,
  complete_section, required_in, required_lessons, complete_course_checks, validate_complete_course,
}
use lawrence_ai_lms.Courses.Validation.Decides.{
  Decides, All, demand-Decides, then-Decides, as-Decides, each-Decides, run_checks_iff,
}
use lawrence_ai_lms.Courses.Validation.Document.{IsDocument, validate_document-Decides}
use lawrence_ai_lms.Courses.Validation.Curriculum.{
  IsPlaced, positions-Decides, take-allowed, take-map-allowed,
}

-- Some items, not too many, at positions of their own, all of one kind.
abbrev pub IsAmount : {A : Type 0} → ℕ → (A → ℕ) → (A → Type 0) → List A → Type 0
IsAmount maximum position P xs =
    ((not (is_empty_list xs) ≡ true) × (leb (length xs) maximum ≡ true))
    × (IsPlaced (map position xs) × All P xs)

module _ (snapshot : CourseSnapshot) where
  abbrev pub IsCompleteBlock : Lesson → RichTextBlock → Type 0
  IsCompleteBlock lesson block =
      ((block_fits snapshot lesson block ≡ true) × (str_eq block.kind "rich_text" ≡ true))
      × IsDocument (object block.document)

  abbrev pub IsCompleteLesson : CurriculumSection → Lesson → Type 0
  IsCompleteLesson section lesson =
      ((lesson_fits snapshot section lesson ≡ true) × (is_bounded_text lesson.title 160 ≡ true))
      × IsAmount 100 (λ b. b.position) (IsCompleteBlock lesson) lesson.content_blocks

  abbrev pub IsCompleteSection : CurriculumSection → Type 0
  IsCompleteSection section =
      ((section_fits snapshot section ≡ true) × (is_bounded_text section.title 160 ≡ true))
      × IsAmount 200 (λ l. l.position) (IsCompleteLesson section) section.lessons

-- The required lessons of a course.
abbrev pub required_lessons_of : List CurriculumSection → ℕ
required_lessons_of [] = 0
required_lessons_of (s ∷ ss) = required_in s.lessons + required_lessons_of ss

pub record IsCompleteCourse (snapshot : CourseSnapshot) : Type 0 where
  pub localized : is_locale snapshot.version.primary_locale ≡ true
  pub titled : is_bounded_text snapshot.version.title 160 ≡ true
  pub described : is_bounded_text snapshot.version.description 2000 ≡ true
  pub hashed : is_hash snapshot.version.content_hash ≡ true
  pub divided : IsAmount 100 (λ s. s.position) (IsCompleteSection snapshot) snapshot.sections
  pub required : leb 1 (required_lessons_of snapshot.sections) ≡ true

IsAmount-lemma :
    {A : Type 0} {H : Type 0} (maximum : ℕ) (position : A → ℕ) (P : A → Type 0) (xs : List A)
    → (((H × ((not (is_empty_list xs) ≡ true) × (leb (length xs) maximum ≡ true)))
          × IsPlaced (take (suc maximum) (map position xs)))
        × All P (take (suc maximum) xs))
      ↔ (H × IsAmount maximum position P xs)
IsAmount-lemma maximum position P xs = (
  (λ h. (
    h.0.0.0,
    (
      h.0.0.1,
      (
        subst IsPlaced (take-map-allowed maximum xs position h.0.0.1.1) h.0.1,
        subst (All P) (take-allowed maximum xs h.0.0.1.1) h.1,
      ),
    ),
  )),
  (λ h. (
    ((h.0, h.1.0), subst IsPlaced (sym (take-map-allowed maximum xs position h.1.0.1)) h.1.1.0),
    subst (All P) (sym (take-allowed maximum xs h.1.0.1)) h.1.1.1,
  )),
)

amount-Decides :
    {A : Type 0} (xs : List A) (path : String) (maximum : ℕ) (few many : String)
    → Decides
        (check_amount xs path maximum few many)
        ((not (is_empty_list xs) ≡ true) × (leb (length xs) maximum ≡ true))
amount-Decides xs path maximum few many = then-Decides (demand-Decides _ _) (demand-Decides _ _)

module _ (snapshot : CourseSnapshot) where
  block-Decides :
      (lesson : Lesson) (path : String) (block : RichTextBlock)
      → Decides (complete_block snapshot lesson path block) (IsCompleteBlock snapshot lesson block)
  unfolding complete_block
  block-Decides lesson path block =
      then-Decides (then-Decides (demand-Decides _ _) (demand-Decides _ _))
        (validate_document-Decides (member path "document") (object block.document))

  lesson-Decides :
      (section : CurriculumSection) (path : String) (lesson : Lesson)
      → Decides
          (complete_lesson_checks snapshot section path lesson)
          (IsCompleteLesson snapshot section lesson)
  unfolding complete_lesson_checks bounded_text
  lesson-Decides section path lesson =
      as-Decides
        (then-Decides
          (then-Decides
            (then-Decides (then-Decides (demand-Decides _ _) (demand-Decides _ _))
              (amount-Decides lesson.content_blocks _ 100 _ _))
            (positions-Decides (map (λ b. b.position) lesson.content_blocks) _ 100))
          (each-Decides (block-Decides lesson) (member path "content_blocks") 0
            (take 101 lesson.content_blocks)))
        (IsAmount-lemma 100 (λ b. b.position) (IsCompleteBlock snapshot lesson)
          lesson.content_blocks)

  section-Decides :
      (path : String) (section : CurriculumSection)
      → Decides (complete_section snapshot path section) (IsCompleteSection snapshot section)
  unfolding complete_section bounded_text
  section-Decides path section =
      as-Decides
        (then-Decides
          (then-Decides
            (then-Decides (then-Decides (demand-Decides _ _) (demand-Decides _ _))
              (amount-Decides section.lessons _ 200 _ _))
            (positions-Decides (map (λ l. l.position) section.lessons) _ 200))
          (each-Decides (lesson-Decides section) (member path "lessons") 0
            (take 201 section.lessons)))
        (IsAmount-lemma 200 (λ l. l.position) (IsCompleteLesson snapshot section) section.lessons)

  -- Where no section is too long, the loops count every required lesson.
  required_lessons-whole :
      (ss : List CurriculumSection)
      → All (IsCompleteSection snapshot) ss
      → required_lessons ss ≡ required_lessons_of ss
  required_lessons-whole [] h = refl
  required_lessons-whole (s ∷ ss) h =
      rw (take-allowed 200 s.lessons h.0.1.0.1)
        (ap (λ n. required_in s.lessons + n) (required_lessons-whole ss h.1))

  required_iff :
      leb (length snapshot.sections) 100 ≡ true
      → All (IsCompleteSection snapshot) snapshot.sections
      → required_lessons (take 101 snapshot.sections) ≡ required_lessons_of snapshot.sections
  required_iff few h =
      rw (take-allowed 100 snapshot.sections few) (required_lessons-whole snapshot.sections h)

  course-Decides : Decides (complete_course_checks snapshot) (IsCompleteCourse snapshot)
  unfolding complete_course_checks bounded_text validate_locale validate_hash
  course-Decides =
      let r = IsAmount-lemma 100 (λ s. s.position) (IsCompleteSection snapshot) snapshot.sections in
      as-Decides
        (then-Decides
          (then-Decides
            (then-Decides
              (then-Decides
                (then-Decides
                  (then-Decides (then-Decides (demand-Decides _ _) (demand-Decides _ _))
                    (demand-Decides _ _))
                  (demand-Decides _ _))
                (amount-Decides snapshot.sections _ 100 _ _))
              (positions-Decides (map (λ s. s.position) snapshot.sections) _ 100))
            (each-Decides section-Decides "sections" 0 (take 101 snapshot.sections)))
          (demand-Decides _ _))
        (
          (λ h.
              (let (front, divided) = r.0 h.0 in
                record {
                  localized = front.0.0.0;
                  titled = front.0.0.1;
                  described = front.0.1;
                  hashed = front.1;
                  divided = divided;
                  required = subst (λ n. leb 1 n ≡ true) (required_iff divided.0.1 divided.1.1) h.1;
                })),
          (λ c. (
            r.1 ((((c.localized, c.titled), c.described), c.hashed), c.divided),
            subst (λ n. leb 1 n ≡ true) (sym (required_iff c.divided.0.1 c.divided.1.1)) c.required,
          )),
        )

  -- A course is complete exactly where its texts and its hash are well formed, it has some sections,
  -- each of these some lessons and each lesson some blocks, none too many, all at positions of their
  -- own and hung under their own parents, version and tenant, every document is one of the grammar,
  -- and some lesson is required.
  pub validate_complete_course_iff :
      (validate_complete_course snapshot ≡ ok tt) ↔ IsCompleteCourse snapshot
  unfolding validate_complete_course
  validate_complete_course_iff = run_checks_iff course-Decides
