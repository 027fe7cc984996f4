-- ===== src/Learning/Progress/Completion.antt =====
-- The completed count of a course against the states of its required lessons.
use lawrence_ai_lms.Prelude.{
  ◌≡◌, refl, sym, ◌∙◌, ◌↔◌, Bool, true, false, List, [], ◌∷◌, arith, ◌&&◌, ◌||◌, ◌==◌, any, all,
  length, count_by, Distinct, count_by-false, count_by-or, count_by-all, count_by-contains,
  if◌then◌else◌,
}
use lawrence_ai_lms.Learning.Types.{Uuid, PublishedLesson, lesson_completed}
use lawrence_ai_lms.Learning.Store.{LessonProgressRow}
use lawrence_ai_lms.Learning.Repository.{
  ProgressScope, is_lesson_row, is_completed_row, same_lesson_key, required_ids, required_count,
}

abbrev pub key_scope : LessonProgressRow → ProgressScope
key_scope r = record {
  tenant_id = r.tenant_id;
  enrollment_id = r.enrollment_id;
  course_version_id = r.course_version_id;
}

-- The unique key of the table: one row for an enrollment and a lesson.
abbrev pub UniqueLessons : List LessonProgressRow → Type 0
UniqueLessons [] = Unit
UniqueLessons (r ∷ rows) =
    (any (same_lesson_key (key_scope r) r.lesson_id) rows ≡ false) × UniqueLessons rows

-- The rows of a scope say that a lesson is completed.
abbrev pub is_done : ProgressScope → List LessonProgressRow → Uuid → Bool
is_done s [] lesson_id = false
is_done s (r ∷ rows) lesson_id =
    (is_lesson_row s lesson_id r && lesson_completed r.state) || is_done s rows lesson_id

abbrev in_scope : ProgressScope → LessonProgressRow → Bool
in_scope s r =
    r.tenant_id == s.tenant_id
    && (r.enrollment_id == s.enrollment_id
        && (r.course_version_id == s.course_version_id && lesson_completed r.state))

-- A completed row excludes another of the same lesson.
done_apart :
    (s : ProgressScope) (r : LessonProgressRow) (rows : List LessonProgressRow) (lesson_id : Uuid)
    → any (same_lesson_key (key_scope r) r.lesson_id) rows ≡ false
    → (is_lesson_row s lesson_id r && lesson_completed r.state) ≡ true
    → is_done s rows lesson_id ≡ false
done_apart s r [] lesson_id u h = refl
done_apart s r (x ∷ rows) lesson_id u h = ground (arith, done_apart s r rows lesson_id)

row_test :
    (s : ProgressScope) (r : LessonProgressRow) (ids : List Uuid)
    → count_by (λ l. is_lesson_row s l r && lesson_completed r.state) ids
      ≡ count_by (λ l. r.lesson_id == l && in_scope s r) ids
row_test s r [] = refl
row_test s r (x ∷ ids) = ground (arith, row_test s r ids)

row_count :
    (s : ProgressScope) (r : LessonProgressRow) (ids : List Uuid)
    → Distinct ids
    → count_by (λ l. is_lesson_row s l r && lesson_completed r.state) ids
      ≡ (if is_completed_row s ids r then 1 else 0)
row_count s r ids d =
    row_test s r ids ∙ ground (arith, count_by-contains (in_scope s r) r.lesson_id ids d)

-- Counting the completed rows of required lessons counts the required lessons that are completed.
pub count-is_done :
    (s : ProgressScope) (ids : List Uuid) (rows : List LessonProgressRow)
    → Distinct ids
    → UniqueLessons rows
    → count_by (is_completed_row s ids) rows ≡ count_by (is_done s rows) ids
count-is_done s ids [] d u = sym (count_by-false (is_done s []) ids (λ l. refl))
count-is_done s ids (r ∷ rows) d u = omega (
  arith,
  row_count s r ids d,
  count-is_done s ids rows d u.1,
  count_by-or (λ l. is_lesson_row s l r && lesson_completed r.state) (is_done s rows) ids
      (λ l. done_apart s r rows l u.0),
)

pub length-required_ids : (ls : List PublishedLesson) → length (required_ids ls) ≡ required_count ls
length-required_ids [] = refl
length-required_ids (l ∷ ls) = ground (arith, length-required_ids ls)

-- The count reaches the number of required lessons exactly if each of them is completed.
pub completed_count_full :
    (s : ProgressScope) (ids : List Uuid) (rows : List LessonProgressRow)
    → Distinct ids
    → UniqueLessons rows
    → (count_by (is_completed_row s ids) rows ≡ length ids) ↔ (all (is_done s rows) ids ≡ true)
completed_count_full s ids rows d u =
    let (to, from) = count_by-all (is_done s rows) ids in
    let same = count-is_done s ids rows d u in
    (λ h. to (omega (arith, same)), λ h. omega (arith, same, from h))
