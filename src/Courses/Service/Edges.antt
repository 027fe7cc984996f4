-- ===== src/Courses/Service/Edges.antt =====
-- backend/src/lms/modules/courses/services.py: what is put together hangs under its own parents.
use lawrence_ai_lms.Prelude.{
  ℕ, ◌+◌, ◌≡◌, subst, Bool, true, List, [], ◌∷◌, ◌&&◌, ◌==◌, ==_refl, leb, inl, inr, Bool-cases,
  String,
}
use lawrence_ai_lms.Prelude.Exec.{ok, >>=-eq-ok, guarded-eq-ok, lift->>=-eq-ok, pure-eq-ok}
use lawrence_ai_lms.Json.{JsonObject}
use lawrence_ai_lms.Learning.Types.{Uuid}
use lawrence_ai_lms.Courses.Types.{RichTextBlock, Lesson, CurriculumSection, CourseAggregate}
use lawrence_ai_lms.Courses.Commands.{ContentBlockInput, LessonInput, CurriculumSectionInput}
use lawrence_ai_lms.Courses.Hashing.{insert_at, sort_by}
use lawrence_ai_lms.Courses.Successor.{
  Copy, copy_all, copy_block, copy_lesson, copy_section, copy_successor,
}
use lawrence_ai_lms.Courses.Validation.Decides.{All}
use lawrence_ai_lms.Courses.Service.Curriculum.{
  Drawing, draw_all, materialize_block, materialize_lesson, materialize_section, with_sections,
  materialize_curriculum,
}

abbrev pub fits_under : Uuid → Uuid → Uuid → RichTextBlock → Bool
fits_under tenant_id version_id lesson_id b =
    b.tenant_id == tenant_id && (b.course_version_id == version_id && b.lesson_id == lesson_id)

-- A lesson of a tenant's version under a section, and its blocks under it.
abbrev pub IsRootedLesson : Uuid → Uuid → Uuid → Lesson → Type 0
IsRootedLesson tenant_id version_id section_id l =
    ((l.tenant_id == tenant_id && (l.course_version_id == version_id && l.section_id == section_id))
      ≡ true)
    × All (λ b. fits_under tenant_id version_id l.id b ≡ true) l.content_blocks

abbrev pub IsRootedSection : Uuid → Uuid → CurriculumSection → Type 0
IsRootedSection tenant_id version_id s =
    ((s.tenant_id == tenant_id && s.course_version_id == version_id) ≡ true)
    × All (IsRootedLesson tenant_id version_id s.id) s.lessons

-- Every section, lesson and block of an aggregate hangs under its own parent, version and tenant.
abbrev pub IsRooted : CourseAggregate → Type 0
IsRooted a = All (IsRootedSection a.course.tenant_id a.version.id) a.sections

module _ {A : Type 0} (position : A → ℕ) (P : A → Type 0) where
  All-insert_at : (x : A) (ys : List A) → P x → All P ys → All P (insert_at position x ys)
  All-insert_at x [] p h = (p, tt)
  All-insert_at x (y ∷ ys) p h = elim (Bool-cases (leb (position x) (position y))) [
    | inl e ↦ rw e (p, h)
    | inr e ↦ rw e (h.0, All-insert_at x ys p h.1)
  ]

  All-sort_by : (xs : List A) → All P xs → All P (sort_by position xs)
  All-sort_by [] h = tt
  All-sort_by (x ∷ xs) h = All-insert_at x (sort_by position xs) h.0 (All-sort_by xs h.1)

module _ {A B : Type 0} (f : A → Drawing B) (P : B → Type 0) where
  All-draw_all :
      ((x : A) (n : ℕ) (y : B) (m : ℕ) → f x n ≡ (ok y, m) → P y)
      → (xs : List A) (n : ℕ) {ys : List B} {m : ℕ} → draw_all f xs n ≡ (ok ys, m)
      → All P ys
  unfolding draw_all
  All-draw_all each [] n h = subst (All P) (pure-eq-ok _ n h).0 tt
  All-draw_all each (x ∷ xs) n h =
      let (y, n1, p, h1) = >>=-eq-ok (f x) _ n h in
      let (ys, n2, q, h2) = >>=-eq-ok (draw_all f xs) _ n1 h1 in
      subst (All P) (pure-eq-ok _ n2 h2).0 (each x n y n1 p, All-draw_all each xs n1 q)

module _ {A : Type 0} (copy : Copy A) (P : A → Type 0) where
  All-copy_all :
      ((x : A) (n : ℕ) → P (copy x n).0) → (xs : List A) (n : ℕ) → All P (copy_all copy xs n).0
  All-copy_all each [] n = tt
  All-copy_all each (x ∷ xs) n = (each x n, All-copy_all each xs (copy x n).1)

same_three : (a b c : ℕ) → (a == a && (b == b && c == c)) ≡ true
same_three a b c = rw (==_refl a, ==_refl b, ==_refl c)

same_two : (a b : ℕ) → (a == a && b == b) ≡ true
same_two a b = rw (==_refl a, ==_refl b)

module _ (new_uuid : ℕ → Uuid) (a : CourseAggregate) where
  block-edges :
      (lesson_id : Uuid) (b : ContentBlockInput) (n : ℕ) {y : RichTextBlock} {m : ℕ}
      → materialize_block new_uuid a lesson_id b n ≡ (ok y, m)
      → fits_under a.course.tenant_id a.version.id lesson_id y ≡ true
  unfolding materialize_block
  block-edges lesson_id b n h =
      let (previous, p, h1) = lift->>=-eq-ok _ n _ h in
      let (q, h2) = guarded-eq-ok _ _ _ n h1 in
      let (block_id, n1, r, h3) = >>=-eq-ok _ _ n h2 in
      subst (λ x. fits_under a.course.tenant_id a.version.id lesson_id x ≡ true)
        (pure-eq-ok _ n1 h3).0 (same_three a.course.tenant_id a.version.id lesson_id)

  lesson-edges :
      (section_id : Uuid) (l : LessonInput) (n : ℕ) {y : Lesson} {m : ℕ}
      → materialize_lesson new_uuid a section_id l n ≡ (ok y, m)
      → IsRootedLesson a.course.tenant_id a.version.id section_id y
  unfolding materialize_lesson
  lesson-edges section_id l n h =
      let (previous, p, h1) = lift->>=-eq-ok _ n _ h in
      let (q, h2) = guarded-eq-ok _ _ _ n h1 in
      let (lesson_id, n1, r, h3) = >>=-eq-ok _ _ n h2 in
      let (blocks, n2, s, h4) =
        >>=-eq-ok (draw_all (materialize_block new_uuid a lesson_id) l.content_blocks) _ n1 h3 in
      let rooted =
        All-draw_all (materialize_block new_uuid a lesson_id)
          (λ b. fits_under a.course.tenant_id a.version.id lesson_id b ≡ true)
          (λ b k y m e. block-edges lesson_id b k e) l.content_blocks n1 s in
      subst (IsRootedLesson a.course.tenant_id a.version.id section_id) (pure-eq-ok _ n2 h4).0 (
        same_three a.course.tenant_id a.version.id section_id,
        All-sort_by (λ b. b.position) _ blocks rooted,
      )

  section-edges :
      (s : CurriculumSectionInput) (n : ℕ) {y : CurriculumSection} {m : ℕ}
      → materialize_section new_uuid a s n ≡ (ok y, m)
      → IsRootedSection a.course.tenant_id a.version.id y
  unfolding materialize_section
  section-edges s n h =
      let (previous, p, h1) = lift->>=-eq-ok _ n _ h in
      let (section_id, n1, r, h3) = >>=-eq-ok _ _ n h1 in
      let (lessons, n2, q, h4) =
        >>=-eq-ok (draw_all (materialize_lesson new_uuid a section_id) s.lessons) _ n1 h3 in
      let rooted =
        All-draw_all (materialize_lesson new_uuid a section_id)
          (IsRootedLesson a.course.tenant_id a.version.id section_id)
          (λ l k y m e. lesson-edges section_id l k e) s.lessons n1 q in
      subst (IsRootedSection a.course.tenant_id a.version.id) (pure-eq-ok _ n2 h4).0
        (same_two a.course.tenant_id a.version.id, All-sort_by (λ l. l.position) _ lessons rooted)

  -- A curriculum that is put together hangs under its own parents, version and tenant, whatever of
  -- it is kept and whatever is new.
  pub materialize_curriculum-IsRooted :
      (digest : JsonObject → String) (inputs : List CurriculumSectionInput) (n : ℕ)
      {u : CourseAggregate} {m : ℕ}
      → materialize_curriculum new_uuid a digest inputs n ≡ (ok u, m)
      → IsRooted u
  unfolding materialize_curriculum
  materialize_curriculum-IsRooted digest inputs n h =
      let (sections, n1, p, h1) =
        >>=-eq-ok (draw_all (materialize_section new_uuid a) inputs) _ n h in
      let rooted =
        All-draw_all (materialize_section new_uuid a)
          (IsRootedSection a.course.tenant_id a.version.id) (λ x k y j e. section-edges x k e)
          inputs n p in
      subst IsRooted (pure-eq-ok _ n1 h1).0 (All-sort_by (λ s. s.position) _ sections rooted)

  -- What is put together is the sections with the version opened anew.
  pub materialize_curriculum-eq-ok :
      (digest : JsonObject → String) (inputs : List CurriculumSectionInput) (n : ℕ)
      {u : CourseAggregate} {m : ℕ}
      → materialize_curriculum new_uuid a digest inputs n ≡ (ok u, m)
      → (sections : List CurriculumSection) × (with_sections new_uuid a digest sections ≡ u)
  unfolding materialize_curriculum
  materialize_curriculum-eq-ok digest inputs n h =
      let (sections, n1, p, h1) =
        >>=-eq-ok (draw_all (materialize_section new_uuid a) inputs) _ n h in
      (sections, (pure-eq-ok _ n1 h1).0)

module _ (new_uuid : ℕ → Uuid) (tenant_id version_id : Uuid) where
  copied_lesson :
      (section_id : Uuid) (l : Lesson) (n : ℕ)
      → IsRootedLesson tenant_id version_id section_id
          (copy_lesson new_uuid tenant_id version_id section_id l n).0
  copied_lesson section_id l n = (
    same_three tenant_id version_id section_id,
    All-copy_all (copy_block new_uuid tenant_id version_id (new_uuid n))
        (λ b. fits_under tenant_id version_id (new_uuid n) b ≡ true)
        (λ b m. same_three tenant_id version_id (new_uuid n)) _ (n + 1),
  )

  copied_section :
      (s : CurriculumSection) (n : ℕ)
      → IsRootedSection tenant_id version_id (copy_section new_uuid tenant_id version_id s n).0
  copied_section s n = (
    same_two tenant_id version_id,
    All-copy_all (copy_lesson new_uuid tenant_id version_id (new_uuid n))
        (IsRootedLesson tenant_id version_id (new_uuid n)) (copied_lesson (new_uuid n)) _ (n + 1),
  )

-- A successor's curriculum hangs under its own parents, in the successor's version.
pub copy_successor-IsRooted :
    (new_uuid : ℕ → Uuid) (digest : JsonObject → String) (version_number : ℕ)
    (source : CourseAggregate) (n : ℕ)
    → IsRooted (copy_successor new_uuid digest version_number source n).0
unfolding copy_successor
copy_successor-IsRooted new_uuid digest version_number source n =
    All-copy_all (copy_section new_uuid source.course.tenant_id (new_uuid n))
      (IsRootedSection source.course.tenant_id (new_uuid n))
      (copied_section new_uuid source.course.tenant_id (new_uuid n)) _ (n + 1)
